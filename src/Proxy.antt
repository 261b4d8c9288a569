-- ===== src/Proxy.antt =====
-- src/est/est_proxy.c: get_client_ctx and proxy_cleanup, the table of the client contexts that a proxy
-- keeps, one for each thread. The client's own functions, qsort and bsearch are parameters. Failures
-- of malloc are left out, and so is another thread that enters the functions meanwhile.
pub mod Table
pub mod Refinement
use aims_libest.Prelude.{
  ℕ, zero, suc, ℤ, pos, negsuc, ◌+◌, ◌*◌, ◌%◌, List, [], ◌∷◌, ◌++◌, Option, none, some, Bool, true,
  false, if◌then◌else◌, ltb, length, get_elem?, set, replicate,
}
use aims_libest.Api.{Status}
use aims_libest.Stdlib.{Stdlib}

-- an EST_CTX* of a client
abbrev pub ClientCtx : Type 0
ClientCtx = ℕ

-- CLIENT_CTX_LU_NODE_T
pub record Node : Type 0 where
  pub threadid : ℕ
  pub client_ctx : Option ClientCtx

-- bsearch_compare
unfoldable pub bsearch_compare : Node → Node → ℤ
bsearch_compare a b =
    if ltb b.threadid a.threadid
    then pos 1
    else if ltb a.threadid b.threadid
    then negsuc 0
    else pos 0

-- est_client_init, and the functions that configure the new context
pub record ClientApi : Type 0 where
  pub client_init : Option ClientCtx
  pub set_auth : ClientCtx → Status
  pub set_auth_cred_cb : ClientCtx → Status
  pub set_server : ClientCtx → Status
  pub set_read_timeout : ClientCtx → Status

-- the static `cur_max_ctx_array`, the array of the context, and the contexts given to est_destroy
pub record Proxy : Type 0 where
  pub cur_max : ℕ
  pub client_ctx_array : List Node
  pub destroyed : List ClientCtx

abbrev pub probe : ℕ → Node
probe id = record { threadid = id; client_ctx = none }

abbrev destroy : Proxy → ClientCtx → Proxy
destroy p c = record p { destroyed = p.destroyed ++ c ∷ [] }

-- a new client context, or NULL; only some failures destroy it again
unfoldable pub configure_client : ClientApi → Proxy → ClientCtx → Option ClientCtx × Proxy
configure_client api p c = elim (api.set_auth c) [
  | some e ↦ (none, destroy p c)
  | none ↦ elim (api.set_auth_cred_cb c) [
    | some e ↦ (none, p)
    | none ↦ elim (api.set_server c) [
      | some e ↦ (none, destroy p c)
      | none ↦ elim (api.set_read_timeout c) [ some e ↦ (none, destroy p c) | none ↦ (some c, p) ]
    ]
  ]
]

unfoldable pub new_client : ClientApi → Proxy → Option ClientCtx × Proxy
unfolding configure_client
new_client api p = elim api.client_init [ none ↦ (none, p) | some c ↦ configure_client api p c ]

-- cur_threadid, an unsigned long
unfoldable pub thread_key : ℕ → ℕ → ℕ
thread_key thread_self pid = (thread_self + pid) % 18446744073709551616

module _ (std : Stdlib Node) where
  -- the node is filled, and the table sorted
  abbrev pub fill : Proxy → ℕ → ℕ → ClientCtx → Proxy
  fill p index id c = record p {
    client_ctx_array =
        std.qsort bsearch_compare
          (set p.client_ctx_array index (record { threadid = id; client_ctx = some c }));
  }

  -- the table with twice the nodes
  abbrev pub grow : Proxy → Proxy
  grow p = record p {
    cur_max = p.cur_max * 2;
    client_ctx_array =
        std.qsort bsearch_compare (p.client_ctx_array ++ replicate p.cur_max (probe 0));
  }

  -- `none` is a use of a NULL node
  abbrev pub fill_found : Proxy → Option ℕ → ℕ → ClientCtx → Option (Option ClientCtx × Proxy)
  fill_found p none id c = none
  fill_found p (some index) id c = some (some c, fill p index id c)

  abbrev pub fill_empty : Proxy → Option ℕ → ℕ → ClientCtx → Option (Option ClientCtx × Proxy)
  fill_empty p (some index) id c = some (some c, fill p index id c)
  fill_empty p none id c =
      let q = grow p in fill_found q (std.bsearch bsearch_compare (probe 0) q.client_ctx_array) id c

  -- a new client context is entered in the table
  unfoldable pub enter : Option ClientCtx × Proxy → ℕ → Option (Option ClientCtx × Proxy)
  enter (none, p) id = some (none, p)
  enter (some c, p) id =
      fill_empty p (std.bsearch bsearch_compare (probe 0) p.client_ctx_array) id c

  abbrev pub ctx_at : List Node → ℕ → Option ClientCtx
  ctx_at nodes i = elim (get_elem? nodes i) [ none ↦ none | some n ↦ n.client_ctx ]

  unfoldable pub get : ClientApi → Proxy → ℕ → Option (Option ClientCtx × Proxy)
  unfolding enter
  get api p id = elim (std.bsearch bsearch_compare (probe id) p.client_ctx_array) [
    | some i ↦ some (ctx_at p.client_ctx_array i, p)
    | none ↦ enter (new_client api p) id
  ]

  -- The client context, or NULL. The outer `none` is a search behind the end of the array, where
  -- another context has grown the static size, or a use of a NULL node.
  unfoldable pub get_client_ctx : ClientApi → Proxy → ℕ → ℕ → Option (Option ClientCtx × Proxy)
  unfolding get
  get_client_ctx api p thread_self pid =
      if ltb (length p.client_ctx_array) p.cur_max
      then none
      else get api p (thread_key thread_self pid)

abbrev destroy_all : Proxy → ℕ → List Node → Option Proxy
destroy_all p zero nodes = some p
destroy_all p (suc n) [] = none
destroy_all p (suc n) (node ∷ nodes) = elim node.client_ctx [
  | none ↦ destroy_all p n nodes
  | some c ↦ destroy_all (destroy p c) n nodes
]

-- `none` is a read behind the end of the array
unfoldable pub proxy_cleanup : Proxy → Option Proxy
proxy_cleanup p = destroy_all p p.cur_max p.client_ctx_array
