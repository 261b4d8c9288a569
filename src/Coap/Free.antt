-- ===== src/Coap/Free.antt =====
-- src/est/est_server_coap.c: a node of the array is freed.
use aims_libest.Prelude.{
  ℕ, ◌-◌, ◌≤◌, ◌≡◌, refl, ◌∙◌, Bytes, [], ◌∷◌, some, Bool, true, false, is_zero, get_elem?, set,
  arith,
}
use aims_libest.Safec.{strncmp}
use aims_libest.Stdlib.{Stdlib, count, Lawful}
use aims_libest.Stdlib.Counts.{count_pos, bsearch_finds}
use aims_libest.Coap.{Node, coap_bsearch_compare, with_key, Reqs, set_node, sort, remove_coap_req}
use aims_libest.Coap.Table.{
  has_key, busy, IsTable, Elsewhere, has_own, not-Elsewhere, free-Elsewhere, written-count,
  written-sized,
}

still_busy :
    (a b : Bytes)
    → is_zero (strncmp [] a 58) ≡ false
    → is_zero (strncmp a b 58) ≡ true
    → is_zero (strncmp [] b 58) ≡ false
unfolding strncmp
still_busy [] b h k = absurd (ground arith)
still_busy (x ∷ a) [] h k = absurd (ground arith)
still_busy (x ∷ a) (y ∷ b) h k = refl

pub free_other :
    (key : Bytes) → has_key [] (with_key key) ≡ false → has_key key (with_key []) ≡ false
unfolding coap_bsearch_compare strncmp
free_other [] h = h
free_other (c ∷ key) h = refl

-- The array after the node of `key` is freed.
pub record Freed (key : Bytes) (t t' : Reqs) : Type 0 where
  pub table : IsTable t'
  pub gone : count (has_key key) t'.coap_req_array ≡ 0
  pub others :
      (q : Node → Bool) → Elsewhere key q → count q t'.coap_req_array ≡ count q t.coap_req_array

module _ (std : Stdlib Node) (lawful : Lawful coap_bsearch_compare std) where
  set_node-Freed :
      (t : Reqs) (i : ℕ) (key : Bytes) (y : Node)
      → IsTable t
      → has_key [] (with_key key) ≡ false
      → get_elem? t.coap_req_array i ≡ some y
      → has_key key y ≡ true
      → Freed key t
          (record (sort std (set_node t i (with_key []))) { coap_req_cnt = t.coap_req_cnt - 1 })
  set_node-Freed t i key y table b h k =
      let free = with_key [] in
      let empty : has_key [] free ≡ true = has_own [] free refl in
      let used : has_key [] y ≡ false = unfold coap_bsearch_compare in still_busy key y.key b k in
      let other : has_key key free ≡ false = free_other key b in
      record {
        table = record {
          sized = written-sized std lawful t i free ∙ table.sized;
          sorted = lawful.sorted (set t.coap_req_array i free);
          tallied = ground (arith, written-count std lawful t i y free busy h, table.tallied);
          unique = λ key' b'. ground (
            arith,
            written-count std lawful t i y free (has_key key') h,
            free_other key' b',
            table.unique key' b',
          );
        };
        gone =
            ground (arith, written-count std lawful t i y free (has_key key) h, table.unique key b);
        others = λ q e. ground (
          arith,
          written-count std lawful t i y free q h,
          free-Elsewhere key q free e empty,
          not-Elsewhere key q y e k,
        );
      }

  -- A node in use is freed: the array keeps its form, no node has the key any more, and the nodes of
  -- the other clients are as before.
  pub remove_coap_req-Freed :
      (t : Reqs) (node : Node)
      → IsTable t
      → has_key [] (with_key node.key) ≡ false
      → 1 ≤ count (has_key node.key) t.coap_req_array
      → (t' : Reqs) × (remove_coap_req std t node ≡ (true, t')) × Freed node.key t t'
  unfolding remove_coap_req
  remove_coap_req-Freed t node table b h =
      let (i, y, q, e, f) =
        bsearch_finds coap_bsearch_compare std lawful (with_key node.key) t.coap_req_array
          table.sorted h in
      let k : has_key node.key y ≡ true = rw f refl in
      let used : busy y ≡ true =
        unfold coap_bsearch_compare in rw (still_busy node.key y.key b k) refl in
      let some_left = count_pos busy t.coap_req_array i y e used in
      (
        record (sort std (set_node t i (with_key []))) { coap_req_cnt = t.coap_req_cnt - 1 },
        ground (arith, table.tallied),
        set_node-Freed t i node.key y table b e k,
      )
