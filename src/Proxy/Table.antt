-- ===== src/Proxy/Table.antt =====
-- src/est/est_proxy.c: what a search of the table of client contexts finds, and that the table keeps
-- its form.
use aims_libest.Prelude.{
  ℕ, pos, ◌+◌, ◌≤◌, ◌≡◌, ◌≢◌, inl, inr, sym, ap, ◌∙◌, subst, List, ◌++◌, none, some, Bool, false,
  ◌&&◌, if◌then◌else◌, ◌==◌, is_zero, length, get_elem?, set, replicate, length-set, length-append,
  length-replicate, arith, Bool-cases, Option-cases,
}
use aims_libest.Stdlib.{Stdlib, count, IsSorted, Lawful}
use aims_libest.Stdlib.Counts.{
  count-set, one, count-append, count-replicate, count-ext, length-qsort, bsearch_finds,
}
use aims_libest.Proxy.{ClientCtx, Node, bsearch_compare, Proxy, probe, fill, grow, fill_empty}

abbrev pub is_id : ℕ → Node → Bool
is_id k n = n.threadid == k

compare_zero : (k : ℕ) (n : Node) → is_zero (bsearch_compare (probe k) n) ≡ is_id k n
unfolding bsearch_compare
compare_zero k n = ground arith

pub compare_same : (k : ℕ) (n : Node) → bsearch_compare (probe k) n ≡ pos 0 → n.threadid ≡ k
unfolding bsearch_compare
compare_same k n h = ground arith

-- how often the table has the context `c` for the thread `k`
abbrev pub holds : ClientCtx → Node → Bool
holds c n = elim n.client_ctx [ none ↦ false | some c' ↦ c' == c ]

abbrev pub is_entry : ℕ → ClientCtx → Node → Bool
is_entry k c n = is_id k n && holds c n

abbrev pub entries : List Node → ℕ → ClientCtx → ℕ
entries nodes k c = count (is_entry k c) nodes

-- The array is as long as the static size tells, sorted, and has no thread twice.
pub record IsTable (p : Proxy) : Type 0 where
  pub sized : length p.client_ctx_array ≡ p.cur_max
  pub room : 1 ≤ p.cur_max
  pub sorted : IsSorted bsearch_compare p.client_ctx_array
  pub unique : (k : ℕ) → k ≢ 0 → count (is_id k) p.client_ctx_array ≤ 1

-- What entering a context does: the table keeps its form, and has one entry more.
pub record Entered (p : Proxy) (id : ℕ) (c : ClientCtx) (p' : Proxy) : Type 0 where
  pub table : IsTable p'
  pub entry :
      (k : ℕ) (d : ClientCtx)
      → k ≢ 0
      → entries p'.client_ctx_array k d
        ≡ entries p.client_ctx_array k d + (if (id == k) && (c == d) then 1 else 0)
  pub thread : count (is_id id) p'.client_ctx_array ≡ 1

module _ (std : Stdlib Node) (lawful : Lawful bsearch_compare std) where
  pub finds :
      (nodes : List Node) (k : ℕ)
      → IsSorted bsearch_compare nodes
      → 1 ≤ count (is_id k) nodes
      → (i : ℕ) × (y : Node) × (std.bsearch bsearch_compare (probe k) nodes ≡ some i)
        × (get_elem? nodes i ≡ some y)
        × (y.threadid ≡ k)
  finds nodes k s h =
      let same = count-ext _ (is_id k) nodes (compare_zero k) in
      let (i, y, q, e, f) =
        bsearch_finds bsearch_compare std lawful (probe k) nodes s (omega (arith, h, same)) in
      (i, y, q, e, compare_same k y f)

  pub absent :
      (nodes : List Node) (k : ℕ)
      → IsSorted bsearch_compare nodes
      → std.bsearch bsearch_compare (probe k) nodes ≡ none
      → count (is_id k) nodes ≡ 0
  absent nodes k s h =
      sym (count-ext _ (is_id k) nodes (compare_zero k)) ∙ lawful.missed (probe k) nodes s h

  -- Every count over the table when an empty node is filled.
  fill-count :
      (p : Proxy) (i id : ℕ) (c : ClientCtx) (y : Node) (q : Node → Bool)
      → get_elem? p.client_ctx_array i ≡ some y
      → count q (fill std p i id c).client_ctx_array + one q y
        ≡ count q p.client_ctx_array + one q (record { threadid = id; client_ctx = some c })
  fill-count p i id c y q h =
      let new : Node = record { threadid = id; client_ctx = some c } in
      ap (λ x. x + one q y) (lawful.counted q (set p.client_ctx_array i new))
      ∙ count-set q p.client_ctx_array i y new h

  fill-IsTable :
      (p : Proxy) (i id : ℕ) (c : ClientCtx) (y : Node)
      → IsTable p
      → get_elem? p.client_ctx_array i ≡ some y
      → count (is_id id) p.client_ctx_array ≡ 0
      → IsTable (fill std p i id c)
  fill-IsTable p i id c y t h z =
      let new : Node = record { threadid = id; client_ctx = some c } in
      record {
        sized =
            length-qsort bsearch_compare std lawful (set p.client_ctx_array i new)
            ∙ length-set p.client_ctx_array i new
            ∙ t.sized;
        room = t.room;
        sorted = lawful.sorted (set p.client_ctx_array i new);
        unique = λ k n.
            let e = fill-count p i id c y (is_id k) h in
            elim (Bool-cases (id == k)) [
              | inl b ↦
                  let same : id ≡ k = ground arith in
                  let z' = subst (λ x. count (is_id x) p.client_ctx_array ≡ 0) same z in
                  ground (arith, e, z')
              | inr b ↦ ground (arith, e, t.unique k n)
            ];
      }

  grow-count :
      (p : Proxy) (q : Node → Bool)
      → count q (grow std p).client_ctx_array
        ≡ count q p.client_ctx_array + (if q (probe 0) then p.cur_max else 0)
  grow-count p q =
      lawful.counted q (p.client_ctx_array ++ replicate p.cur_max (probe 0))
      ∙ count-append q p.client_ctx_array (replicate p.cur_max (probe 0))
      ∙ ap (λ x. count q p.client_ctx_array + x) (count-replicate q p.cur_max (probe 0))

  grow-IsTable : (p : Proxy) → IsTable p → IsTable (grow std p)
  grow-IsTable p t =
      let nodes = p.client_ctx_array ++ replicate p.cur_max (probe 0) in
      let l = length-append p.client_ctx_array (replicate p.cur_max (probe 0)) in
      let m = length-replicate p.cur_max (probe 0) in
      let s = t.sized in
      record {
        sized = length-qsort bsearch_compare std lawful nodes ∙ omega (arith, l, m, s);
        room = omega (arith, t.room);
        sorted = lawful.sorted nodes;
        unique = λ k n. ground (arith, grow-count p (is_id k), t.unique k n);
      }

  fill-Entered :
      (p : Proxy) (i id : ℕ) (c : ClientCtx) (y : Node)
      → IsTable p
      → id ≢ 0
      → get_elem? p.client_ctx_array i ≡ some y
      → y.threadid ≡ 0
      → count (is_id id) p.client_ctx_array ≡ 0
      → Entered p id c (fill std p i id c)
  fill-Entered p i id c y t n h e z = record {
    table = fill-IsTable p i id c y t h z;
    entry = λ k d m. ground (arith, fill-count p i id c y (is_entry k d) h);
    thread = ground (arith, fill-count p i id c y (is_id id) h);
  }

  -- The table is searched for a free node, and grown if it has none: a node is never missing.
  pub fill_empty-Entered :
      (p : Proxy) (id : ℕ) (c : ClientCtx)
      → IsTable p
      → id ≢ 0
      → count (is_id id) p.client_ctx_array ≡ 0
      → (p' : Proxy) × (fill_empty std p
            (std.bsearch bsearch_compare (probe 0) p.client_ctx_array)
            id
            c
          ≡ some (some c, p'))
        × Entered p id c p'
  fill_empty-Entered p id c t n z =
      elim (Option-cases (std.bsearch bsearch_compare (probe 0) p.client_ctx_array)) [
        | inr (i, q) ↦
            let (y, e, f) = lawful.found (probe 0) p.client_ctx_array i t.sorted q in
            (fill std p i id c, ground arith, fill-Entered p i id c y t n e (compare_same 0 y f) z)
        | inl q ↦
            let g = grow std p in
            let t' = grow-IsTable p t in
            let free : 1 ≤ count (is_id 0) g.client_ctx_array =
              omega (arith, grow-count p (is_id 0), t.room) in
            let (i, y, r, e, f) = finds g.client_ctx_array 0 t'.sorted free in
            let z' : count (is_id id) g.client_ctx_array ≡ 0 =
              ground (arith, grow-count p (is_id id)) in
            let w = fill-Entered g i id c y t' n e f z' in
            (
              fill std g i id c,
              ground arith,
              record {
                table = w.table;
                entry = λ k d m. ground (arith, w.entry k d m, grow-count p (is_entry k d));
                thread = w.thread;
              },
            )
      ]
