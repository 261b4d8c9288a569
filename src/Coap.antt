-- ===== src/Coap.antt =====
-- src/est/est_server_coap.c: the array of the CoAP requests, one node for each client that has a
-- request under way: get_coap_req, reinit_coap_req, remove_coap_req, est_coap_init_req_array. qsort and
-- bsearch are parameters. The timers of a node only log, and are left out; so are failures of calloc.
pub mod Table
pub mod Take
pub mod Free
pub mod Blocks
pub mod Handler
use aims_libest.Prelude.{
  ℕ, ℤ, ◌+◌, ◌-◌, ◌*◌, Bytes, List, [], ◌∷◌, ◌++◌, Option, none, some, Bool, true, false, not, ◌&&◌,
  if◌then◌else◌, ◌==◌, get_elem?, set, replicate, decimal,
}
use aims_libest.Safec.{strncmp}
use aims_libest.Stdlib.{Stdlib}

-- EST_COAP_REQ
pub data CoapReq : Type 0 where
  reset crts att sen sren skg : CoapReq

abbrev pub req_number : CoapReq → ℕ
req_number reset = 0
req_number crts = 1
req_number att = 2
req_number sen = 3
req_number sren = 4
req_number skg = 5

abbrev pub same_req : CoapReq → CoapReq → Bool
same_req a b = req_number a == req_number b

-- coap_req_node_t: a free node has the empty key. A buffer is the list of the bytes up to its length.
pub record Node : Type 0 where
  pub key : Bytes
  pub req_buf : Bytes
  pub resp_buf : Bytes
  pub resp_blk_num : ℕ
  pub cur_req : CoapReq

-- MAX_SEARCH_STRING_LEN
unfoldable pub coap_bsearch_compare : Node → Node → ℤ
coap_bsearch_compare a b = strncmp a.key b.key 58

abbrev pub with_key : Bytes → Node
with_key key = record { key = key; req_buf = []; resp_buf = []; resp_blk_num = 0; cur_req = reset }

-- the members of the context
pub record Reqs : Type 0 where
  pub coap_req_array : List Node
  pub coap_req_cnt : ℕ
  pub cur_max_coap_req_array : ℕ

-- The port in decimal and behind it the address, with nothing between them.
abbrev pub search_key : Bytes → ℕ → Bytes
search_key src_ipstr src_port = decimal src_port ++ src_ipstr

unfoldable pub reinit_coap_req : CoapReq → Node → Node
reinit_coap_req new_req node = record node {
  req_buf = [];
  resp_buf = [];
  resp_blk_num = 0;
  cur_req = new_req;
}

abbrev pub set_node : Reqs → ℕ → Node → Reqs
set_node t i node = record t { coap_req_array = set t.coap_req_array i node }

-- the node of a client that has one, for its next request
unfoldable pub refresh : CoapReq → Node → Node
unfolding reinit_coap_req
refresh incoming_req node =
    if not (same_req node.cur_req incoming_req) && not (same_req incoming_req reset)
    then reinit_coap_req incoming_req node
    else node

abbrev pub refresh_at : Reqs → ℕ → CoapReq → Reqs
refresh_at t i incoming_req = elim (get_elem? t.coap_req_array i) [
  | none ↦ t
  | some node ↦ set_node t i (refresh incoming_req node)
]

module _ (std : Stdlib Node) where
  abbrev pub sort : Reqs → Reqs
  sort t = record t { coap_req_array = std.qsort coap_bsearch_compare t.coap_req_array }

  abbrev pub find : Reqs → Bytes → Option ℕ
  find t key = std.bsearch coap_bsearch_compare (with_key key) t.coap_req_array

  -- the free node at `i` is taken, and the array sorted
  abbrev pub take_node : Reqs → ℕ → Bytes → CoapReq → Reqs
  take_node t i key incoming_req = elim (get_elem? t.coap_req_array i) [
    | none ↦ t
    | some node ↦ sort (set_node t i (record node { key = key; cur_req = incoming_req }))
  ]

  abbrev pub counted : Reqs → Option ℕ → Option ℕ × Reqs
  counted t none = (none, t)
  counted t (some i) = (some i, record t { coap_req_cnt = t.coap_req_cnt + 1 })

  abbrev pub insert : Reqs → Option ℕ → Bytes → CoapReq → Option ℕ × Reqs
  insert t none key incoming_req = (none, t)
  insert t (some i) key incoming_req =
      let t' = take_node t i key incoming_req in counted t' (find t' key)

  abbrev pub get_key : Reqs → Bytes → CoapReq → Option ℕ × Reqs
  get_key t key incoming_req = elim (find t key) [
    | some i ↦ (some i, refresh_at t i incoming_req)
    | none ↦ insert t (find t []) key incoming_req
  ]

  -- The index of the client's node, or NULL. The address is that of est_invoke_enroll_get_ip_port,
  -- where `none` is its error.
  unfoldable pub get_coap_req : Reqs → Option (Bytes × ℕ) → CoapReq → Option ℕ × Reqs
  get_coap_req t none incoming_req = (none, t)
  get_coap_req t (some (src_ipstr, src_port)) incoming_req =
      get_key t (search_key src_ipstr src_port) incoming_req

  -- the flag is the return code
  unfoldable pub remove_coap_req : Reqs → Node → Bool × Reqs
  remove_coap_req t node = if t.coap_req_cnt == 0 then (false, t) else elim (find t node.key) [
    | none ↦ (false, t)
    | some i ↦
        let t' = sort (set_node t i (with_key [])) in
        (true, record t' { coap_req_cnt = t'.coap_req_cnt - 1 })
  ]

-- The count of the nodes in use is left as it is.
unfoldable pub coap_init_req_array : Reqs → ℕ → Reqs
coap_init_req_array t entry_count = record t {
  coap_req_array = replicate entry_count (with_key []);
  cur_max_coap_req_array = entry_count;
}
