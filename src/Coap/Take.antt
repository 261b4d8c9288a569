-- ===== src/Coap/Take.antt =====
-- src/est/est_server_coap.c: a client gets its own node of the array.
use aims_libest.Prelude.{ℕ, ◌+◌, ◌≡◌, Bytes, [], some, Bool, true, false, ◌&&◌, get_elem?}
use aims_libest.Stdlib.{Stdlib, count, Lawful}
use aims_libest.Coap.{CoapReq, same_req, Node, coap_bsearch_compare, with_key, Reqs, set_node, sort}
use aims_libest.Coap.Table.{has_key, IsTable}

module _ (std : Stdlib Node) (lawful : Lawful coap_bsearch_compare std) where
  abbrev is_current : Bytes → CoapReq → Node → Bool
  is_current key req n = has_key key n && same_req n.cur_req req

  -- the array, not yet counted, after the free node at `i` is taken
  module _ (t : Reqs) (i : ℕ) (key : Bytes) (req : CoapReq) (y : Node) (table : IsTable t)
      (b : has_key [] (with_key key) ≡ false) (z : count (has_key key) t.coap_req_array ≡ 0)
      (h : get_elem? t.coap_req_array i ≡ some y) (k : has_key [] y ≡ true) where
    abbrev mine : Node
    mine = record y { key = key; cur_req = req }

    abbrev taken : Reqs
    taken = record (sort std (set_node t i mine)) { coap_req_cnt = t.coap_req_cnt + 1 }
