-- ===== src/Proxy/Refinement.antt =====
-- src/est/est_proxy.c: get_client_ctx as an operation on a set of threads with their contexts, which
-- forgets the array, its order and its size.
use aims_libest.Prelude.{
  ℕ, ◌+◌, ◌≤◌, ◌≡◌, ◌≢◌, ◌⊎◌, inl, inr, refl, sym, ap, ◌∙◌, subst, List, Option, none, some, ◌&&◌,
  not, if◌then◌else◌, ◌==◌, length, get_elem?, arith, Bool-cases, Option-cases,
}
use aims_libest.Stdlib.{Stdlib, count, IsSorted, Lawful}
use aims_libest.Stdlib.Counts.{count_pos, count_split}
use aims_libest.Proxy.{
  ClientCtx, Node, bsearch_compare, ClientApi, Proxy, probe, enter, get, get_client_ctx, thread_key,
  new_client, configure_client,
}
use aims_libest.Proxy.Table.{
  is_id, holds, entries, IsTable, compare_same, Entered, fill_empty-Entered, finds, absent,
}

new_client_keeps :
    (api : ClientApi) (p : Proxy)
    → ((new_client api p).1.client_ctx_array ≡ p.client_ctx_array)
      × ((new_client api p).1.cur_max ≡ p.cur_max)
unfolding new_client configure_client
new_client_keeps api p = ground arith

IsTable-same :
    (p p' : Proxy)
    → p'.client_ctx_array ≡ p.client_ctx_array
    → p'.cur_max ≡ p.cur_max
    → IsTable p
    → IsTable p'
IsTable-same p p' a m t = record {
  sized = ap length a ∙ t.sized ∙ sym m;
  room = omega (arith, m, t.room);
  sorted = subst (IsSorted bsearch_compare) (sym a) t.sorted;
  unique = λ k n. subst (λ x. count (is_id k) x ≤ 1) (sym a) (t.unique k n);
}

-- A context is made and configured.
abbrev pub IsMade : ClientApi → ClientCtx → Type 0
IsMade api c =
    (api.client_init ≡ some c)
    × (api.set_auth c ≡ none)
    × (api.set_auth_cred_cb c ≡ none)
    × (api.set_server c ≡ none)
    × (api.set_read_timeout c ≡ none)

-- No context is made, or one of the four calls that configure it fails.
abbrev pub CannotMake : ClientApi → Type 0
CannotMake api =
    (api.client_init ≡ none)
    ⊎ ((c : ClientCtx) × (api.client_init ≡ some c)
        × ((api.set_auth c ≢ none)
            ⊎ (api.set_auth_cred_cb c ≢ none)
            ⊎ (api.set_server c ≢ none)
            ⊎ (api.set_read_timeout c ≢ none)))

new_client-cases :
    (api : ClientApi) (p : Proxy)
    → (((new_client api p).0 ≡ none) × CannotMake api)
      ⊎ ((c : ClientCtx) × ((new_client api p).0 ≡ some c) × IsMade api c)
unfolding new_client configure_client
new_client-cases api p = elim (Option-cases api.client_init) [
  | inl i ↦ inl (ground arith, inl i)
  | inr (c, i) ↦ elim (Option-cases (api.set_auth c)) [
    | inr (e, x) ↦ inl (ground arith, inr (c, i, inl (λ z. ground arith)))
    | inl w ↦ elim (Option-cases (api.set_auth_cred_cb c)) [
      | inr (e, x) ↦ inl (ground arith, inr (c, i, inr (inl (λ z. ground arith))))
      | inl x ↦ elim (Option-cases (api.set_server c)) [
        | inr (e, y) ↦ inl (ground arith, inr (c, i, inr (inr (inl (λ z. ground arith)))))
        | inl y ↦ elim (Option-cases (api.set_read_timeout c)) [
          | inr (e, v) ↦ inl (ground arith, inr (c, i, inr (inr (inr (λ z. ground arith)))))
          | inl v ↦ inr (c, ground arith, (i, w, x, y, v))
        ]
      ]
    ]
  ]
]

-- what a call makes of the table, seen as threads with their contexts
pub data Answers (api : ClientApi) (p : Proxy) (id : ℕ) : Option ClientCtx × Proxy → Type 0 where
  -- the thread has a context
  present :
      (i : ℕ) (y : Node)
      → get_elem? p.client_ctx_array i ≡ some y
      → y.threadid ≡ id
      → Answers api p id (y.client_ctx, p)
  -- it has none, and none can be made
  failed :
      (p' : Proxy)
      → count (is_id id) p.client_ctx_array ≡ 0
      → p'.client_ctx_array ≡ p.client_ctx_array
      → CannotMake api
      → Answers api p id (none, p')
  -- a new one is entered
  entered :
      (c : ClientCtx) (p' : Proxy)
      → count (is_id id) p.client_ctx_array ≡ 0
      → Entered p id c p'
      → IsMade api c
      → Answers api p id (some c, p')

module _ (std : Stdlib Node) (lawful : Lawful bsearch_compare std) where
  get_answers :
      (api : ClientApi) (p : Proxy) (id : ℕ)
      → IsTable p
      → id ≢ 0
      → (r : Option ClientCtx × Proxy) × (get std api p id ≡ some r)
        × IsTable r.1
        × Answers api p id r
  unfolding get enter
  get_answers api p id t n =
      elim (Option-cases (std.bsearch bsearch_compare (probe id) p.client_ctx_array)) [
        | inr (i, q) ↦
            let (y, e, f) = lawful.found (probe id) p.client_ctx_array i t.sorted q in
            ((y.client_ctx, p), ground arith, t, present i y e (compare_same id y f))
        | inl q ↦
            let (a, m) = new_client_keeps api p in
            let p1 = (new_client api p).1 in
            let t' = IsTable-same p p1 a m t in
            let z = absent std lawful p.client_ctx_array id t.sorted q in
            elim (new_client-cases api p) [
              | inl (w, unmade) ↦ ((none, p1), ground arith, t', failed p1 z a unmade)
              | inr (c, w, made) ↦
                  let z' = subst (λ x. count (is_id id) x ≡ 0) (sym a) z in
                  let (p', e, d) = fill_empty-Entered std lawful p1 id c t' n z' in
                  (
                    (some c, p'),
                    ground arith,
                    d.table,
                    entered c p' z
                        (record {
                          table = d.table;
                          entry = λ k x l.
                              d.entry k x l
                              ∙ ap (λ s. entries s k x + (if (id == k) && (c == x) then 1 else 0))
                                  a;
                          thread = d.thread;
                        })
                        made,
                  )
            ]
      ]

  -- For a thread whose key is not 0, on a table of the right form, the search never leaves the array
  -- and never uses a NULL node; the table keeps its form, and the call answers the context of the
  -- thread, or enters a new one that has been made and configured, which changes no other thread's, or
  -- answers NULL, where the thread has none and none can be made or configured.
  pub get_client_ctx-Answers :
      (api : ClientApi) (p : Proxy) (thread_self pid : ℕ)
      → IsTable p
      → thread_key thread_self pid ≢ 0
      → (r : Option ClientCtx × Proxy) × (get_client_ctx std api p thread_self pid ≡ some r)
        × IsTable r.1
        × Answers api p (thread_key thread_self pid) r
  unfolding get_client_ctx
  get_client_ctx-Answers api p thread_self pid t n =
      let (r, e, t', a) = get_answers api p (thread_key thread_self pid) t n in
      (r, ground (arith, t.sized), t', a)

  -- the only entry of a thread is the one that is found
  entry_found :
      (nodes : List Node) (k : ℕ) (c : ClientCtx) (i : ℕ) (y : Node)
      → count (is_id k) nodes ≤ 1
      → 1 ≤ entries nodes k c
      → get_elem? nodes i ≡ some y
      → y.threadid ≡ k
      → y.client_ctx ≡ some c
  entry_found nodes k c i y u h e f = elim (Bool-cases (holds c y)) [
    | inl b ↦ ground arith
    | inr b ↦
        let split = count_split (is_id k) (holds c) nodes in
        let other = count_pos (λ x. is_id k x && not (holds c x)) nodes i y e (ground arith) in
        absurd (omega (arith, split, other, u, h))
  ]

  get_again :
      (api : ClientApi) (p : Proxy) (id : ℕ) (c : ClientCtx) (r : Option ClientCtx × Proxy)
      → Answers api p id r
      → r.0 ≡ some c
      → IsTable r.1
      → id ≢ 0
      → (p ≡ r.1) ⊎ (get std api r.1 id ≡ some (some c, r.1))
  unfolding get
  get_again api p id c _ (present i y e f) h t n = inl refl
  get_again api p id c _ (failed p' z a unmade) h t n = absurd (ground arith)
  get_again api p id c _ (entered d p' z w made) h t n =
      let same : d ≡ c = ground arith in
      let (i, y, q, e, f) =
        finds std lawful p'.client_ctx_array id t.sorted (omega (arith, w.thread)) in
      let there : 1 ≤ entries p'.client_ctx_array id d = ground (arith, w.entry id d n) in
      let k = entry_found p'.client_ctx_array id d i y (t.unique id n) there e f in
      inr (ground arith)

  -- A thread that has got a context gets the same one from the table that the call leaves, and the
  -- table stays as it is.
  pub get_client_ctx_again :
      (api : ClientApi) (p p' : Proxy) (thread_self pid : ℕ) (c : ClientCtx)
      → IsTable p
      → thread_key thread_self pid ≢ 0
      → get_client_ctx std api p thread_self pid ≡ some (some c, p')
      → get_client_ctx std api p' thread_self pid ≡ some (some c, p')
  get_client_ctx_again api p p' thread_self pid c t n h =
      let id = thread_key thread_self pid in
      let (r, e, t', a) = get_client_ctx-Answers api p thread_self pid t n in
      let same : r ≡ (some c, p') = ground arith in
      let t'' = subst (λ x. IsTable x.1) same t' in
      elim (get_again api p id c r a (ap (λ x. x.0) same) t' n) [
        | inl q ↦
            let back : p ≡ p' = q ∙ ap (λ x. x.1) same in
            subst (λ x. get_client_ctx std api x thread_self pid ≡ some (some c, p')) back h
        | inr q ↦
            let q' : get std api p' id ≡ some (some c, p') =
              subst (λ x. get std api x.1 id ≡ some (some c, x.1)) same q in
            unfold get_client_ctx in ground (arith, t''.sized)
      ]
