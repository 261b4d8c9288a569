-- ===== src/Coap/Table.antt =====
-- src/est/est_server_coap.c: the form of the array of the requests, its keys and its searches.
use aims_libest.Prelude.{
  ℕ, zero, suc, pos, ◌+◌, ◌≤◌, ◌<◌, ◌≡◌, ◌≢◌, inl, inr, refl, sym, ◌≤ℤ◌, ap, ◌∙◌, subst, Bytes,
  List, [], ◌∷◌, ◌++◌, none, some, Bool, true, false, not, is_zero, length, get_elem?, set,
  length-set, decimal, decimal_pos, arith, Bool-cases,
}
use aims_libest.Safec.{strncmp}
use aims_libest.Stdlib.{Stdlib, count, Before, IsSorted, Lawful}
use aims_libest.Stdlib.Counts.{count-set, one, length-qsort}
use aims_libest.Coap.{
  CoapReq, reset, Node, coap_bsearch_compare, with_key, Reqs, search_key, reinit_coap_req, set_node,
  refresh, sort, find,
}

-- the node has the key, in its first 58 bytes
abbrev pub has_key : Bytes → Node → Bool
has_key key n = is_zero (coap_bsearch_compare (with_key key) n)

abbrev pub busy : Node → Bool
busy n = not (has_key [] n)

-- The array is as long as the context says and sorted, the count is that of the nodes in use, and no
-- two of those have the same key.
pub record IsTable (t : Reqs) : Type 0 where
  pub sized : length t.coap_req_array ≡ t.cur_max_coap_req_array
  pub sorted : IsSorted coap_bsearch_compare t.coap_req_array
  pub tallied : count busy t.coap_req_array ≡ t.coap_req_cnt
  pub unique :
      (key : Bytes) → has_key [] (with_key key) ≡ false → count (has_key key) t.coap_req_array ≤ 1

pub search_key-busy : (ip : Bytes) (port : ℕ) → has_key [] (with_key (search_key ip port)) ≡ false
unfolding coap_bsearch_compare strncmp
search_key-busy ip port = go (decimal port) (decimal_pos port)
  where
    go : (s : Bytes) → 1 ≤ length s → is_zero (strncmp [] (s ++ ip) 58) ≡ false
    go [] h = absurd (omega arith)
    go (c ∷ s) h = refl

-- the tests that a change of the node of `key` must not touch: they accept nodes in use alone, and no
-- node with that key
pub record Elsewhere (key : Bytes) (q : Node → Bool) : Type 0 where
  pub used : (n : Node) → q n ≡ true → busy n ≡ true
  pub other : (n : Node) → q n ≡ true → has_key key n ≡ false

pub has_key-same : (a b : Bytes) (n : Node) → n.key ≡ b → has_key a n ≡ has_key a (with_key b)
unfolding coap_bsearch_compare
has_key-same a b n e = rw e refl

pub refresh-key : (req : CoapReq) (n : Node) → (refresh req n).key ≡ n.key
unfolding refresh reinit_coap_req
refresh-key req n = ground arith

compare_refl : (s : Bytes) (n : ℕ) → strncmp s s n ≡ pos 0
unfolding strncmp
compare_refl s zero = refl
compare_refl [] (suc n) = refl
compare_refl (c ∷ s) (suc n) = ground (arith, compare_refl s n)

pub has_own : (key : Bytes) (n : Node) → n.key ≡ key → has_key key n ≡ true
unfolding coap_bsearch_compare
has_own key n e = rw e (rw (compare_refl key 58) refl)

-- two nodes with one key are alike to every key
pub compare_trans :
    (a b c : Bytes) (n : ℕ)
    → is_zero (strncmp a b n) ≡ true
    → is_zero (strncmp a c n) ≡ is_zero (strncmp b c n)
unfolding strncmp
compare_trans a b c zero h = refl
compare_trans [] [] c (suc n) h = refl
compare_trans [] (y ∷ b) c (suc n) h = absurd (ground arith)
compare_trans (x ∷ a) [] c (suc n) h = absurd (ground arith)
compare_trans (x ∷ a) (y ∷ b) [] (suc n) h = refl
compare_trans (x ∷ a) (y ∷ b) (z ∷ c) (suc n) h = ground (arith, compare_trans a b c n)

compare-key : (a b x : Node) → b.key ≡ a.key → coap_bsearch_compare b x ≡ coap_bsearch_compare a x
unfolding coap_bsearch_compare
compare-key a b x e = rw e refl

compare-key_right :
    (a b x : Node) → b.key ≡ a.key → coap_bsearch_compare x b ≡ coap_bsearch_compare x a
unfolding coap_bsearch_compare
compare-key_right a b x e = rw e refl

-- A write that keeps the key keeps the order.
set-Before :
    (x : Node) (xs : List Node) (i : ℕ) (y y' : Node)
    → get_elem? xs i ≡ some y
    → y'.key ≡ y.key
    → Before coap_bsearch_compare x xs
    → Before coap_bsearch_compare x (set xs i y')
set-Before x [] i y y' h e b = tt
set-Before x (z ∷ xs) zero y y' h e b =
    let same : z ≡ y = cc in
    let e' : y'.key ≡ z.key = e ∙ ap (λ n. n.key) (sym same) in
    subst (λ c. c ≤ℤ pos 0) (sym (compare-key_right z y' x e')) b
set-Before x (z ∷ xs) (suc i) y y' h e b = b

pub set-IsSorted :
    (xs : List Node) (i : ℕ) (y y' : Node)
    → get_elem? xs i ≡ some y
    → y'.key ≡ y.key
    → IsSorted coap_bsearch_compare xs
    → IsSorted coap_bsearch_compare (set xs i y')
set-IsSorted [] i y y' h e s = tt
set-IsSorted (z ∷ []) zero y y' h e s = (tt, tt)
set-IsSorted (z ∷ x ∷ xs) zero y y' h e s =
    let same : z ≡ y = cc in
    let e' : y'.key ≡ z.key = e ∙ ap (λ n. n.key) (sym same) in
    (subst (λ c. c ≤ℤ pos 0) (sym (compare-key z y' x e')) s.0, s.1)
set-IsSorted (z ∷ xs) (suc i) y y' h e s =
    (set-Before z xs i y y' h e s.0, set-IsSorted xs i y y' h e s.1)

pub get_elem?-lt : (xs : List Node) (i : ℕ) (y : Node) → get_elem? xs i ≡ some y → i < length xs
get_elem?-lt [] i y h = absurd (ground arith)
get_elem?-lt (z ∷ xs) zero y h = omega arith
get_elem?-lt (z ∷ xs) (suc i) y h = omega (arith, get_elem?-lt xs i y h)

-- The node of the client, as the array has it, and all other nodes as before.
pub record Owns (key : Bytes) (req : CoapReq) (t t' : Reqs) (i : ℕ) : Type 0 where
  pub table : IsTable t'
  pub node : Node
  pub at : get_elem? t'.coap_req_array i ≡ some node
  pub keyed : has_key key node ≡ true
  pub current : req ≢ reset → node.cur_req ≡ req
  pub others :
      (q : Node → Bool) → Elsewhere key q → count q t'.coap_req_array ≡ count q t.coap_req_array

pub refresh-req : (req : CoapReq) (n : Node) → req ≢ reset → (refresh req n).cur_req ≡ req
unfolding refresh reinit_coap_req
refresh-req req n h = ground arith

pub not-Elsewhere :
    (key : Bytes) (q : Node → Bool) (n : Node)
    → Elsewhere key q
    → has_key key n ≡ true
    → q n ≡ false
not-Elsewhere key q n e k = elim (Bool-cases (q n)) [
  | inr f ↦ f
  | inl f ↦ let g = e.other n f in absurd (ground arith)
]

pub free-Elsewhere :
    (key : Bytes) (q : Node → Bool) (n : Node) → Elsewhere key q → has_key [] n ≡ true → q n ≡ false
free-Elsewhere key q n e k = elim (Bool-cases (q n)) [
  | inr f ↦ f
  | inl f ↦ let g = e.used n f in absurd (ground arith)
]

module _ (std : Stdlib Node) (lawful : Lawful coap_bsearch_compare std) where
  -- Every count over the array when a node is written and the array sorted.
  pub written-count :
      (t : Reqs) (i : ℕ) (y y' : Node) (q : Node → Bool)
      → get_elem? t.coap_req_array i ≡ some y
      → count q (sort std (set_node t i y')).coap_req_array + one q y
        ≡ count q t.coap_req_array + one q y'
  written-count t i y y' q h =
      ap (λ x. x + one q y) (lawful.counted q (set t.coap_req_array i y'))
      ∙ count-set q t.coap_req_array i y y' h

  pub written-sized :
      (t : Reqs) (i : ℕ) (y' : Node)
      → length (sort std (set_node t i y')).coap_req_array ≡ length t.coap_req_array
  written-sized t i y' =
      length-qsort coap_bsearch_compare std lawful (set t.coap_req_array i y')
      ∙ length-set t.coap_req_array i y'

  pub found :
      (t : Reqs) (key : Bytes) (i : ℕ)
      → IsTable t
      → find std t key ≡ some i
      → (y : Node) × (get_elem? t.coap_req_array i ≡ some y) × (has_key key y ≡ true)
  found t key i table h =
      let (y, e, f) = lawful.found (with_key key) t.coap_req_array i table.sorted h in
      (y, e, rw f refl)

  pub absent :
      (t : Reqs) (key : Bytes)
      → IsTable t
      → find std t key ≡ none
      → count (has_key key) t.coap_req_array ≡ 0
  absent t key table h = lawful.missed (with_key key) t.coap_req_array table.sorted h
