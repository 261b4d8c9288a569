-- ===== src/Examples/Tables.antt =====
-- Runs of the tables that are kept with qsort and bsearch.
use aims_libest.Prelude.{
  ℕ, inl, inr, Bool-cases, zero, suc, Bytes, false, codes, decimal, length, ◌+◌, ◌*◌, ◌≤◌, ◌<◌, ◌⊎◌,
  ◌↔◌, pos, ltb_ℤ, ◌≤ℤ◌, ◌≡◌, ◌≢◌, refl, List, [], ◌∷◌, Option, none, some, true, arith,
}
use aims_libest.Stdlib.{Lawful, count}
use aims_libest.Safec.{strncmp}
use aims_libest.Coap
use aims_libest.Coap.{sen, Reqs, coap_bsearch_compare, with_key, search_key, remove_coap_req}
use aims_libest.Coap.Table
use aims_libest.Coap.Table.{search_key-busy}
use aims_libest.Coap.Free.{free_other, Freed, remove_coap_req-Freed}
use aims_libest.Coap.Blocks.{whole, store, block_size, receive_block}
use aims_libest.Coap.Blocks.Transfer.{transfer, transfer_joins, receive_block-outside_iff}
use aims_libest.Proxy.{
  ClientCtx, Node, bsearch_compare, ClientApi, Proxy, probe, thread_key, get_client_ctx, get, enter,
  new_client, configure_client,
}
use aims_libest.Proxy.Table.{IsTable}
use aims_libest.Proxy.Refinement.{Answers, get_client_ctx-Answers}
use aims_libest.Examples.Sorting.{std, std-Lawful, sort, search}

bsearch_compare_total :
    (x y : Node) → ltb_ℤ (pos 0) (bsearch_compare x y) ≡ true → bsearch_compare y x ≤ℤ pos 0
unfolding bsearch_compare
bsearch_compare_total x y h = ground arith

nodes-Lawful : Lawful bsearch_compare std
nodes-Lawful = std-Lawful bsearch_compare bsearch_compare_total

-- one free node, and thread 5 with the context 2
abbrev table : Proxy
table = record {
  cur_max = 2;
  client_ctx_array = probe 0 ∷ record { threadid = 5; client_ctx = some 2 } ∷ [];
  destroyed = [];
}

abbrev api : ClientApi
api = record {
  client_init = some 3;
  set_auth = λ c. none;
  set_auth_cred_cb = λ c. none;
  set_server = λ c. none;
  set_read_timeout = λ c. none;
}

table-IsTable : IsTable table
unfolding bsearch_compare
table-IsTable = record {
  sized = refl;
  room = omega arith;
  sorted = (omega arith, (tt, tt));
  unique = λ k n. ground arith;
}

not_zero : thread_key 7 1 ≢ 0
unfolding thread_key
not_zero e = omega (arith, e)

get_client_ctx-Answers_example :
    (r : Option ClientCtx × Proxy) × (get_client_ctx std api table 7 1 ≡ some r)
    × IsTable r.1
    × Answers api table (thread_key 7 1) r
get_client_ctx-Answers_example =
    get_client_ctx-Answers std nodes-Lawful api table 7 1 table-IsTable not_zero

abbrev left : Option (Option ClientCtx × Proxy) → Proxy
left none = table
left (some (c, p)) = p

enters : get_client_ctx std api table 7 1 ≡ some (some 3, left (get_client_ctx std api table 7 1))
unfolding get_client_ctx get enter new_client configure_client thread_key bsearch_compare sort
    search
enters = refl

compare_total :
    (a b : Bytes) (n : ℕ) → ltb_ℤ (pos 0) (strncmp a b n) ≡ true → strncmp b a n ≤ℤ pos 0
unfolding strncmp
compare_total a b zero h = absurd (ground arith)
compare_total [] [] (suc n) h = absurd (ground arith)
compare_total [] (y ∷ b) (suc n) h = absurd (ground arith)
compare_total (x ∷ a) [] (suc n) h = omega arith
compare_total (x ∷ a) (y ∷ b) (suc n) h = ground (arith, compare_total a b n)

coap_bsearch_compare_total :
    (x y : Coap.Node)
    → ltb_ℤ (pos 0) (coap_bsearch_compare x y) ≡ true
    → coap_bsearch_compare y x ≤ℤ pos 0
unfolding coap_bsearch_compare
coap_bsearch_compare_total x y h = compare_total x.key y.key 58 h

reqs-Lawful : Lawful coap_bsearch_compare std
reqs-Lawful = std-Lawful coap_bsearch_compare coap_bsearch_compare_total

-- one free node, and a client with a request
abbrev client_node : Coap.Node
client_node = record (with_key (search_key (codes "10.0.0.1") 5683)) { cur_req = sen }

abbrev reqs : Reqs
reqs = record {
  coap_req_array = with_key [] ∷ client_node ∷ [];
  coap_req_cnt = 1;
  cur_max_coap_req_array = 2;
}

reqs_unique :
    (key : Bytes)
    → Coap.Table.has_key [] (with_key key) ≡ false
    → count (Coap.Table.has_key key) reqs.coap_req_array ≤ 1
reqs_unique key h =
    let e = free_other key h in
    elim (Bool-cases (Coap.Table.has_key key client_node)) [
      | inl f ↦ rw e (rw f (omega arith))
      | inr f ↦ rw e (rw f (omega arith))
    ]

reqs-IsTable : Coap.Table.IsTable reqs
unfolding coap_bsearch_compare strncmp decimal
reqs-IsTable = record {
  sized = refl;
  sorted = (omega arith, (tt, tt));
  tallied = refl;
  unique = reqs_unique;
}

client_there : 1 ≤ count (Coap.Table.has_key client_node.key) reqs.coap_req_array
unfolding coap_bsearch_compare strncmp decimal
client_there = omega arith

remove_coap_req-Freed_example :
    (t' : Reqs) × (remove_coap_req std reqs client_node ≡ (true, t'))
    × Freed client_node.key reqs t'
remove_coap_req-Freed_example =
    remove_coap_req-Freed std reqs-Lawful reqs client_node reqs-IsTable
      (search_key-busy (codes "10.0.0.1") 5683) client_there

-- Two clients whose port and address run together to one text have one node.
keys_clash : search_key (codes "110.0.0.1") 5000 ≡ search_key (codes "10.0.0.1") 50001
unfolding decimal
keys_clash = refl

-- a payload of 20 bytes in blocks of 16
abbrev chunks : List Bytes
chunks = codes "0123456789abcdef" ∷ codes "ghij" ∷ []

transfer_joins_example :
    transfer 0 0 chunks client_node
    ≡ some (whole (store client_node (codes "0123456789abcdefghij")))
unfolding block_size
transfer_joins_example = transfer_joins 0 chunks client_node (refl, omega arith) refl (omega arith)

receive_block-outside_iff_example :
    (receive_block (record { num = 1; m = false; szx = 0 }) client_node (codes "ghij") ≡ none) ↔ (
      (1 ≤ 4)
      × ((1 * block_size 0 ≡ 0) ⊎ (1 * block_size 0 ≡ length client_node.req_buf))
      × (16384 < 1 * block_size 0 + 4))
receive_block-outside_iff_example =
    receive_block-outside_iff (record { num = 1; m = false; szx = 0 }) client_node (codes "ghij")
