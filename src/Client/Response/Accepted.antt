-- ===== src/Client/Response/Accepted.antt =====
-- src/est/est_client_http.c: the responses that the client takes for a success.
use aims_libest.Prelude.{
  ℕ, zero, suc, ◌≤◌, ℤ, pos, negsuc, ◌=ℤ◌, Bytes, List, [], ◌∷◌, Option, none, some, Bool, true,
  false, leb, ◌≡◌, ◌≢◌, refl, sym, ap, ◌∙◌, ◌⊎◌, inl, inr, arith, length, get_elem?, codes,
  starts_with, Bool-cases,
}
use aims_libest.Client.Host.{raw_equal}
use aims_libest.Api.{
  EstError, ca_enroll_retry, invalid_retry_value, Status, Operation, server_keygen,
}
use aims_libest.Client.{Client}
use aims_libest.Client.Headers.{
  HttpHeader, atoi, starts_alpha, strisdigit_s, digits, parse_status_code, parse_http_headers,
}
use aims_libest.Client.Response.{
  est_ca_max, content_type, same_bytes, check_hdrs, body_of, with_body, check_status, retry_headers,
  retry_value, parse_retry_after, read_response,
}

abbrev pub HasType : List HttpHeader → Type 0
HasType hdrs =
    (i : ℕ) × (h : HttpHeader) × (get_elem? hdrs i ≡ some h)
    × (same_bytes h.name (codes "Content-Type") ≡ true)

abbrev pub HasLength : ℤ → List HttpHeader → Type 0
HasLength n hdrs =
    (i : ℕ) × (h : HttpHeader) × (get_elem? hdrs i ≡ some h)
    × (same_bytes h.name (codes "Content-Length") ≡ true)
    × (atoi h.value ≡ n)

-- every Content-Type is the one that the operation calls for
abbrev pub AllTyped : Operation → List HttpHeader → Type 0
AllTyped op hdrs =
    (i : ℕ) (h : HttpHeader)
    → get_elem? hdrs i ≡ some h
    → same_bytes h.name (codes "Content-Type") ≡ true
    → starts_with (content_type op) h.value ≡ true

later_type : (x : HttpHeader) (hdrs : List HttpHeader) → HasType hdrs → HasType (x ∷ hdrs)
later_type x hdrs (i, h, e, t) = (suc i, h, e, t)

later_length :
    (n : ℤ) (x : HttpHeader) (hdrs : List HttpHeader) → HasLength n hdrs → HasLength n (x ∷ hdrs)
later_length n x hdrs (i, h, e, t, a) = (suc i, h, e, t, a)

later_typed :
    (op : Operation) (x : HttpHeader) (hdrs : List HttpHeader)
    → (same_bytes x.name (codes "Content-Type") ≡ true
        → starts_with (content_type op) x.value ≡ true)
    → AllTyped op hdrs
    → AllTyped op (x ∷ hdrs)
later_typed op x hdrs k a zero h e t =
    let w : x ≡ h = ground arith in
    ap (λ y. starts_with (content_type op) y.value) (sym w)
    ∙ k (ap (λ y. same_bytes y.name (codes "Content-Type")) w ∙ t)
later_typed op x hdrs k a (suc i) h e t = a i h e t

abbrev Checked : Operation → List HttpHeader → Bool → Option ℤ → ℤ → Type 0
Checked op hdrs ct cl n =
    ((ct ≡ true) ⊎ HasType hdrs) × AllTyped op hdrs × ((cl ≡ some n) ⊎ HasLength n hdrs)

later_type_or :
    {ct : Bool} (x : HttpHeader) (hdrs : List HttpHeader)
    → (ct ≡ true) ⊎ HasType hdrs
    → (ct ≡ true) ⊎ HasType (x ∷ hdrs)
later_type_or x hdrs (inl e) = inl e
later_type_or x hdrs (inr a) = inr (later_type x hdrs a)

later_length_or :
    {cl : Option ℤ} (n : ℤ) (x : HttpHeader) (hdrs : List HttpHeader)
    → (cl ≡ some n) ⊎ HasLength n hdrs
    → (cl ≡ some n) ⊎ HasLength n (x ∷ hdrs)
later_length_or n x hdrs (inl e) = inl e
later_length_or n x hdrs (inr a) = inr (later_length n x hdrs a)

here_length :
    (n : ℤ) (x : HttpHeader) (hdrs : List HttpHeader)
    → same_bytes x.name (codes "Content-Length") ≡ true
    → (some (atoi x.value) ≡ some n) ⊎ HasLength n hdrs
    → HasLength n (x ∷ hdrs)
here_length n x hdrs b (inl e) = (0, x, refl, b, ground arith)
here_length n x hdrs b (inr a) = later_length n x hdrs a

check_hdrs-Checked :
    (op : Operation) (hdrs : List HttpHeader) (ct : Bool) (cl : Option ℤ) (n : ℤ)
    → check_hdrs op hdrs ct cl ≡ inr n
    → Checked op hdrs ct cl n
unfolding check_hdrs
check_hdrs-Checked op [] false cl n h = absurd (ground arith)
check_hdrs-Checked op [] true none n h = absurd (ground arith)
check_hdrs-Checked op [] true (some m) n h =
    (inl refl, (λ i x e. absurd (ground arith)), inl (ground arith))
check_hdrs-Checked op (x ∷ hdrs) ct cl n h =
    elim (Bool-cases (same_bytes x.name (codes "Content-Type"))) [
      | inl t ↦ elim (Bool-cases (starts_with (content_type op) x.value)) [
        | inr b ↦ absurd (ground arith)
        | inl b ↦
            let (u, v, w) = check_hdrs-Checked op hdrs true cl n (ground arith) in
            (inr (0, x, refl, t), later_typed op x hdrs (λ _. b) v, later_length_or n x hdrs w)
      ]
      | inr t ↦ elim (Bool-cases (same_bytes x.name (codes "Content-Length"))) [
        | inl b ↦
            let (u, v, w) = check_hdrs-Checked op hdrs ct (some (atoi x.value)) n (ground arith) in
            (
              later_type_or x hdrs u,
              later_typed op x hdrs (λ e. absurd (ground arith)) v,
              inr (here_length n x hdrs b w),
            )
        | inr b ↦
            let (u, v, w) = check_hdrs-Checked op hdrs ct cl n (ground arith) in
            (
              later_type_or x hdrs u,
              later_typed op x hdrs (λ e. absurd (ground arith)) v,
              later_length_or n x hdrs w,
            )
      ]
    ]

-- the buffer that the client gets for a body
abbrev pub buffer_of : Bytes → Option Bytes
buffer_of [] = none
buffer_of (c ∷ s) = some (c ∷ s)

-- a response that the client takes for a success, with its body
pub record Accepted (op : Operation) (buf : Bytes) (body : Option Bytes) : Type 0 where
  pub status_ok : starts_with (codes "HTTP/1.1 200") buf ≡ true
  pub typed : HasType (parse_http_headers buf).0
  pub all_typed : AllTyped op (parse_http_headers buf).0
  pub sized : HasLength (pos (length (parse_http_headers buf).1)) (parse_http_headers buf).0
  pub is_bounded : length (parse_http_headers buf).1 ≤ 2000000
  pub is_body : body ≡ buffer_of (parse_http_headers buf).1

body_of-none :
    (payload : Bytes) (c : EstError ⊎ ℤ)
    → (body_of payload c).0 ≡ none
    → (c ≡ inr (pos (length payload)))
      × (length payload ≤ 2000000)
      × ((body_of payload c).1 ≡ buffer_of payload)
unfolding body_of est_ca_max
body_of-none payload (inl e) h = absurd (ground arith)
body_of-none payload (inr (negsuc n)) h = absurd (ground arith)
body_of-none [] (inr (pos n)) h = ground arith
body_of-none (c ∷ s) (inr (pos n)) h = ground arith

with_body-none :
    (op : Operation) (hdrs : List HttpHeader) (payload : Bytes) (c : Status × Client)
    → (with_body op hdrs payload c).0 ≡ none
    → (c.0 ≡ none)
      × ((with_body op hdrs payload c).1 ≡ c.1)
      × (check_hdrs op hdrs false none ≡ inr (pos (length payload)))
      × (length payload ≤ 2000000)
      × ((with_body op hdrs payload c).2 ≡ buffer_of payload)
with_body-none op hdrs payload (some e, ctx) h = absurd (ground arith)
with_body-none op hdrs payload (none, ctx) h =
    let (u, v, w) = body_of-none payload (check_hdrs op hdrs false none) h in (refl, refl, u, v, w)

now : {A : Type 0} → ((false ≡ true) ⊎ A) → A
now (inl e) = absurd (ground arith)
now (inr a) = a

now_length : {A : Type 0} (n : ℤ) → ((none ≡ some n) ⊎ A) → A
now_length n (inl e) = absurd (ground arith)
now_length n (inr a) = a

retry_value-some :
    (value : Bytes) (e : EstError) (ctx : Client)
    → (e' : EstError) × ((retry_value value (some e, ctx)).0 ≡ some e')
unfolding retry_value
retry_value-some value e ctx = elim (Bool-cases (starts_alpha value)) [
  | inl b ↦ (e, rw b refl)
  | inr b ↦ elim (Bool-cases (strisdigit_s value)) [
    | inr d ↦ (e, rw b (rw d refl))
    | inl d ↦ elim (Bool-cases (leb (digits 0 value) 2147483647)) [
      | inl f ↦ (ca_enroll_retry, rw b (rw d (rw f refl)))
      | inr f ↦ (e, rw b (rw d (rw f refl)))
    ]
  ]
]

retry_headers-some :
    (hdrs : List HttpHeader) (s : Status × Client) → s.0 ≢ none → (retry_headers hdrs s).0 ≢ none
unfolding retry_headers
retry_headers-some [] s k h = k h
retry_headers-some (x ∷ hdrs) (none, ctx) k h = k refl
retry_headers-some (x ∷ hdrs) (some e, ctx) k h =
    elim (Bool-cases (raw_equal x.name (codes "Retry-After"))) [
      | inl b ↦
          let (e', p) = retry_value-some x.value e ctx in
          retry_headers-some hdrs (retry_value x.value (some e, ctx)) (λ q. ground arith)
            (ground arith)
      | inr b ↦ retry_headers-some hdrs (some e, ctx) k (ground arith)
    ]

parse_retry-some : (ctx : Client) (hdrs : List HttpHeader) → (parse_retry_after ctx hdrs).0 ≢ none
unfolding parse_retry_after
parse_retry-some ctx hdrs =
    retry_headers-some hdrs
      (some invalid_retry_value, record ctx { retry_after_delay = 0; retry_after_date = 0 })
      (λ q. cc)

module _ (next_fields : Bytes → List Bytes) where
  check_status-none :
      (ctx : Client) (hdrs : List HttpHeader) (status : ℤ)
      → (check_status next_fields ctx hdrs status).0 ≡ none
      → (status =ℤ pos 200 ≡ true) × ((check_status next_fields ctx hdrs status).1 ≡ ctx)
  unfolding check_status
  check_status-none ctx hdrs status h = elim (Bool-cases (status =ℤ pos 200)) [
    | inl b ↦ (b, rw b refl)
    | inr b ↦ elim (Bool-cases (status =ℤ pos 202)) [
      | inr c ↦ absurd (ground arith)
      | inl c ↦ elim (Bool-cases (status =ℤ pos 204)) [
        | inl d ↦ absurd (ground arith)
        | inr d ↦ elim (Bool-cases (status =ℤ pos 404)) [
          | inl e ↦ absurd (ground arith)
          | inr e ↦ absurd (parse_retry-some ctx hdrs (ground arith))
        ]
      ]
    ]
  ]

  -- The status is 200 exactly for a response that starts with it.
  status_200 :
      (buf : Bytes)
      → (parse_status_code buf =ℤ pos 200) ≡ true
      → starts_with (codes "HTTP/1.1 200") buf ≡ true
  unfolding parse_status_code
  status_200 buf h = elim (Bool-cases (starts_with (codes "HTTP/1.1 200") buf)) [
    | inl b ↦ b
    | inr b ↦ absurd (ground arith)
  ]

  -- For every operation but key generation, a response succeeds only with the status 200, with headers
  -- that name the type which the operation calls for, and no other, and with a Content-Length that atoi
  -- reads as the length of the body, which is bounded; the client gets the body, and its context keeps the
  -- status and is else as it was.
  pub read_response-Accepted :
      (ctx : Client) (op : Operation) (buf : Bytes)
      → op ≢ server_keygen
      → (read_response next_fields ctx op buf).0 ≡ none
      → ((read_response next_fields ctx op buf).1
          ≡ record ctx { last_http_status = parse_status_code buf })
        × Accepted op buf (read_response next_fields ctx op buf).2
  unfolding read_response
  read_response-Accepted ctx op buf n h =
      let hdrs = (parse_http_headers buf).0 in
      let payload = (parse_http_headers buf).1 in
      let c =
        check_status next_fields (record ctx { last_http_status = parse_status_code buf }) hdrs
          (parse_status_code buf) in
      let (p, q, r, s, t) = with_body-none op hdrs payload c h in
      let (u, v) =
        check_status-none (record ctx { last_http_status = parse_status_code buf }) hdrs
          (parse_status_code buf) p in
      let (x, y, z) = check_hdrs-Checked op hdrs false none (pos (length payload)) r in
      (
        q ∙ v,
        record {
          status_ok = status_200 buf u;
          typed = now x;
          all_typed = y;
          sized = now_length (pos (length payload)) z;
          is_bounded = s;
          is_body = t;
        },
      )
