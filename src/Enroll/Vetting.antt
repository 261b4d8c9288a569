-- ===== src/Enroll/Vetting.antt =====
-- src/est/est_server.c: what est_handle_simple_enroll has checked when it asks the CA.
use aims_libest.Prelude.{
  suc, Bytes, [], ◌∷◌, Option, none, some, Bool, true, false, ◌≡◌, ◌≢◌, refl, ◌∙◌, ap, ◌⊎◌, inl,
  inr, arith, Option-cases, Bool-cases,
}
use aims_libest.Api.{Status, EnrollReq, serverkeygen_req}
use aims_libest.Ossl.{X509, X509Req, Ssl, Ossl}
use aims_libest.Context.{Ctx, EnrollCb}
use aims_libest.Conn.{Conn, note, ca_call, ca_calls, ca_calls-append, mg_write_quiet}
use aims_libest.Auth.Enroll.{Attempt, is_http, enroll_auth}
use aims_libest.Auth.Enroll.Evidence.{Evidence, enroll_auth-Evidence}
use aims_libest.Auth.Enroll.Quiet.{enroll_auth_quiet}
use aims_libest.Enroll.Checks.{
  IsTyped, IsAuthorized, Checked, wrong_type-IsTyped, is_authorized-IsAuthorized, vet-Checked,
}
use aims_libest.Enroll.Handler.{
  Outcome, write_cert, respond, enroll_cb, is_authorized, csr_of, user_of, wrong_type, vet, call_ca,
  vetted, authorized, handle_simple_enroll,
}

write_cert_quiet :
    (conn : Conn) (s : Bytes) → ca_calls (write_cert conn s).1.log ≡ ca_calls conn.log
unfolding write_cert
write_cert_quiet conn s = grind (arith, mg_write_quiet)

respond_quiet :
    (ctx : Ctx) (wants : Bool) (conn : Conn) (st : Status) (cert : Bytes)
    → ca_calls (respond ctx wants conn st cert).conn.log ≡ ca_calls conn.log
unfolding respond
respond_quiet ctx wants conn none [] = ground arith
respond_quiet ctx false conn none (b ∷ bs) = refl
respond_quiet ctx true conn none (b ∷ bs) = elim (Bool-cases (is_http ctx.transport_mode)) [
  | inl h ↦ rw h (write_cert_quiet conn (b ∷ bs))
  | inr h ↦ rw h refl
]
respond_quiet ctx wants conn (some e) cert = ground arith

module _ (o : Ossl) (csrattrs : Ctx → Bytes → Option X509 → Status) (ctx : Ctx) (ssl : Ssl)
    (peer : Option X509) (body : Bytes) (path_seg : Option Bytes) where
  -- What the server knows when it asks the CA.
  pub record Vetted (ct : Bytes) (conn : Conn) (req : EnrollReq) (r : Outcome) : Type 0 where
    pub typed : IsTyped ctx ct
    pub cb : EnrollCb
    pub auth : Attempt
    pub csr : X509Req
    pub set : enroll_cb ctx req ≡ some cb
    pub attempt : enroll_auth o ctx ssl conn path_seg req body ≡ some auth
    pub authorized : IsAuthorized auth.state
    pub evidence : Evidence o ctx ssl conn path_seg body auth.state
    pub parsed : csr_of o auth.csr body ≡ some csr
    pub checked : Checked o csrattrs ctx ssl peer body csr

  module _ (ct : Bytes) (wants : Bool) where
    call_ca_calls :
        (req : EnrollReq) (cb : EnrollCb) (conn : Conn)
        → ca_calls (call_ca o csrattrs ctx req cb peer body path_seg wants conn).conn.log
          ≡ suc (ca_calls conn.log)
    unfolding call_ca
    call_ca_calls req cb conn =
        let reply = cb body (user_of ctx conn) peer path_seg in
        let q = respond_quiet ctx wants (note conn (ca_call req body)) reply.rc reply.cert in
        let t = ca_calls-append conn.log (ca_call req body) in omega arith

    authorized_calls :
        (req : EnrollReq) (cb : EnrollCb) (a : Attempt)
        → (ca_calls (authorized o csrattrs ctx req cb ssl peer body path_seg wants a).conn.log
            ≡ ca_calls a.conn.log)
          ⊎ ((ca_calls (authorized o csrattrs ctx req cb ssl peer body path_seg wants a).conn.log
                ≡ suc (ca_calls a.conn.log))
              × (is_authorized a.state ≡ true)
              × ((csr : X509Req) × (csr_of o a.csr body ≡ some csr)
                  × (vet o csrattrs ctx ssl peer body csr ≡ none)))
    unfolding authorized vetted
    authorized_calls req cb a = elim (Bool-cases (is_authorized a.state)) [
      | inr n ↦ inl rw n refl
      | inl n ↦ elim (Option-cases (csr_of o a.csr body)) [
        | inl p ↦ inl rw n (rw p refl)
        | inr (csr, p) ↦ elim (Option-cases (vet o csrattrs ctx ssl peer body csr)) [
          | inl v ↦ inr (rw n (rw p (rw v (call_ca_calls req cb a.conn))), n, (csr, p, v))
          | inr (e, v) ↦ inl rw n (rw p (rw v refl))
        ]
      ]
    ]

    -- Either the handler gives up before the authentication, or it goes on with its result.
    pub handle_cases :
        (conn : Conn) (req : EnrollReq) (r : Outcome)
        → handle_simple_enroll o csrattrs ctx conn ssl peer ct body path_seg req wants ≡ some r
        → ((r.conn ≡ conn) × (r.status ≢ none))
          ⊎ ((cb : EnrollCb) × (a : Attempt) × (enroll_cb ctx req ≡ some cb)
              × (wrong_type ctx ct ≡ false)
              × (enroll_auth o ctx ssl conn path_seg req body ≡ some a)
              × (r ≡ authorized o csrattrs ctx req cb ssl peer body path_seg wants a))
    unfolding handle_simple_enroll
    handle_cases conn serverkeygen_req r h = inl (ground arith)
    handle_cases conn req r h = elim (Option-cases (enroll_cb ctx req)) [
      | inl p ↦ inl (ground arith)
      | inr (cb, p) ↦ elim (Bool-cases (wrong_type ctx ct)) [
        | inl w ↦ inl (ground arith)
        | inr w ↦ elim (Option-cases (enroll_auth o ctx ssl conn path_seg req body)) [
          | inl q ↦ absurd (ground arith)
          | inr (a, q) ↦ inr (cb, a, p, w, q, ground arith)
        ]
      ]
    ]

    -- The handler asks the CA at most once, and only when, over HTTP, the content type begins with that of
    -- PKCS 10, the authentication has authorized the client on the evidence of its state, the CSR
    -- parses, X509_REQ_verify with its own key answers more than 0, the client's certificate is a
    -- registration authority's or the CSR's challengePassword begins with the connection's TLS UID or
    -- the CSR has none and the server does not ask for one, and the CSR passes the check of the
    -- attributes, if enforced.
    pub handle_simple_enroll-Vetted :
        (conn : Conn) (req : EnrollReq) (r : Outcome)
        → handle_simple_enroll o csrattrs ctx conn ssl peer ct body path_seg req wants ≡ some r
        → (ca_calls r.conn.log ≡ ca_calls conn.log)
          ⊎ ((ca_calls r.conn.log ≡ suc (ca_calls conn.log)) × Vetted ct conn req r)
    handle_simple_enroll-Vetted conn req r h = elim (handle_cases conn req r h) [
      | inl (c, s) ↦ inl (ap (λ x. ca_calls x.log) c)
      | inr (cb, a, p, w, q, e) ↦ elim (authorized_calls req cb a) [
        | inl k ↦ inl (
            ap (λ x. ca_calls x.conn.log) e
            ∙ k
            ∙ enroll_auth_quiet o ctx ssl conn path_seg req body a q)
        | inr (k, n, (csr, t, v)) ↦ inr (
          ap (λ x. ca_calls x.conn.log) e
              ∙ k
              ∙ ap suc (enroll_auth_quiet o ctx ssl conn path_seg req body a q),
          record {
            typed = wrong_type-IsTyped ctx ct w;
            cb = cb;
            auth = a;
            csr = csr;
            set = p;
            attempt = q;
            authorized = is_authorized-IsAuthorized a.state n;
            evidence = enroll_auth-Evidence o ctx ssl conn path_seg body req a q;
            parsed = t;
            checked = vet-Checked o csrattrs ctx ssl peer body csr v;
          },
        )
      ]
    ]
