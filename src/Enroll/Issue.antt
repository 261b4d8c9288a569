-- ===== src/Enroll/Issue.antt =====
-- src/est/est_server.c: what est_handle_simple_enroll gives back.
use aims_libest.Prelude.{
  Bytes, [], ◌∷◌, Option, none, some, Bool, true, false, ◌≡◌, ◌≢◌, ◌↔◌, refl, sym, subst, ◌∙◌, ap,
  ◌⊎◌, inl, inr, arith, length, Option-cases, Bool-cases,
}
use aims_libest.Api.{Transport, http, coap, Status, EnrollReq, ca_enroll_retry, ca_enroll_fail}
use aims_libest.Ossl.{X509, X509Req, Ssl, Ossl}
use aims_libest.Context.{Ctx, EnrollCb, EnrollReply}
use aims_libest.Conn.{Conn, note, ca_call}
use aims_libest.Auth.Enroll.{Attempt, enroll_auth}
use aims_libest.Enroll.Handler.{
  Outcome, cert_header, write_cert, respond, enroll_cb, is_authorized, csr_of, user_of, vet,
  call_ca, vetted, authorized, handle_simple_enroll,
}
use aims_libest.Enroll.Vetting.{handle_cases}
use aims_libest.Enroll.Checks.{IsAuthorized, is_authorized-IsAuthorized}
use aims_libest.Enroll.Written.{Written, write_cert-Written}

-- The CA has answered EST_ERR_NONE with a certificate that is not empty, and the certificate is
-- what the caller gets; over HTTP the header and the certificate are written to the client, neither with
-- the count 0.
abbrev pub Issued : Ctx → Bool → Conn → Status → Bytes → Outcome → Type 0
Issued ctx wants conn rc cert r =
    (rc ≡ none)
    × (cert ≢ [])
    × (wants ≡ true)
    × (r.cert ≡ some cert)
    × ((ctx.transport_mode ≡ coap) ⊎ Written conn (cert_header (length cert) ∷ cert ∷ []) r.conn)

transport-cases : (m : Transport) → (m ≡ http) ⊎ (m ≡ coap)
transport-cases http = inl refl
transport-cases coap = inr refl

respond-Issued :
    (ctx : Ctx) (wants : Bool) (conn : Conn) (rc : Status) (cert : Bytes)
    → (respond ctx wants conn rc cert).status ≡ none
    → Issued ctx wants conn rc cert (respond ctx wants conn rc cert)
unfolding respond
respond-Issued ctx wants conn (some e) cert h = absurd (ground arith)
respond-Issued ctx wants conn none [] h = absurd (ground arith)
respond-Issued ctx false conn none (b ∷ bs) h = absurd (ground arith)
respond-Issued ctx true conn none (b ∷ bs) h = elim (transport-cases ctx.transport_mode) [
  | inr m ↦ (refl, λ e. cc, refl, rw m refl, inl m)
  | inl m ↦
      let ok : (write_cert conn (b ∷ bs)).0 ≡ none = ground arith in
      (refl, λ e. cc, refl, rw m refl, inr (rw m (write_cert-Written conn (b ∷ bs) ok)))
]

module _ (o : Ossl) (csrattrs : Ctx → Bytes → Option X509 → Status) (ctx : Ctx) (ssl : Ssl)
    (peer : Option X509) (body ct : Bytes) (path_seg : Option Bytes) (wants : Bool) (conn : Conn)
    (req : EnrollReq) where
  -- what the CA answers after the authentication `a`
  abbrev pub answer : EnrollCb → Attempt → EnrollReply
  answer cb a = cb body (user_of ctx a.conn) peer path_seg

  abbrev pub asked : Attempt → Conn
  asked a = note a.conn (ca_call req body)

  authorized-answers :
      (cb : EnrollCb) (a : Attempt) (csr : X509Req)
      → is_authorized a.state ≡ true
      → csr_of o a.csr body ≡ some csr
      → vet o csrattrs ctx ssl peer body csr ≡ none
      → authorized o csrattrs ctx req cb ssl peer body path_seg wants a
        ≡ respond ctx wants (asked a) (answer cb a).rc (answer cb a).cert
  unfolding authorized vetted call_ca
  authorized-answers cb a csr n p v = rw n (rw p (rw v refl))

  authorized-Issued :
      (cb : EnrollCb) (a : Attempt)
      → (authorized o csrattrs ctx req cb ssl peer body path_seg wants a).status ≡ none
      → IsAuthorized a.state
        × Issued ctx wants
            (asked a)
            (answer cb a).rc
            (answer cb a).cert
            (authorized o csrattrs ctx req cb ssl peer body path_seg wants a)
  unfolding authorized vetted
  authorized-Issued cb a h = elim (Bool-cases (is_authorized a.state)) [
    | inr n ↦ absurd (ground arith)
    | inl n ↦ elim (Option-cases (csr_of o a.csr body)) [
      | inl p ↦ absurd (ground arith)
      | inr (csr, p) ↦ elim (Option-cases (vet o csrattrs ctx ssl peer body csr)) [
        | inl v ↦
            let e = authorized-answers cb a csr n p v in
            (
              is_authorized-IsAuthorized a.state n,
              subst (Issued ctx wants (asked a) (answer cb a).rc (answer cb a).cert) (sym e)
                  (respond-Issued ctx wants (asked a) _ _ (sym (ap (λ x. x.status) e) ∙ h)),
            )
        | inr (e, v) ↦ absurd (ground arith)
      ]
    ]
  ]

  -- An enrolment that returns EST_ERR_NONE gives back the certificate that the CA issued: the
  -- authentication has authorized the client, the CA's callback answers EST_ERR_NONE with a certificate
  -- that is not empty, the caller gets that certificate, and over HTTP the header and the certificate
  -- are written to the client, and neither write has returned 0.
  pub handle_simple_enroll-Issued :
      (r : Outcome)
      → handle_simple_enroll o csrattrs ctx conn ssl peer ct body path_seg req wants ≡ some r
      → r.status ≡ none
      → (cb : EnrollCb) × (a : Attempt) × (enroll_cb ctx req ≡ some cb)
        × (enroll_auth o ctx ssl conn path_seg req body ≡ some a)
        × IsAuthorized a.state
        × Issued ctx wants (asked a) (answer cb a).rc (answer cb a).cert r
  handle_simple_enroll-Issued r h s =
      elim (handle_cases o csrattrs ctx ssl peer body path_seg ct wants conn req r h) [
        | inl (c, n) ↦ absurd (n s)
        | inr (cb, a, p, w, q, e) ↦
            let (n, issued) = authorized-Issued cb a (sym (ap (λ x. x.status) e) ∙ s) in
            (
              cb,
              a,
              p,
              q,
              n,
              subst (Issued ctx wants (asked a) (answer cb a).rc (answer cb a).cert) (sym e) issued,
            )
      ]

-- How the CA's answer becomes the handler's code: no certificate, or any code but EST_ERR_NONE and
-- the request for a retry, is a failed enrolment.
pub respond_iff :
    (ctx : Ctx) (wants : Bool) (conn : Conn) (rc : Status) (cert : Bytes)
    → ((respond ctx wants conn rc cert).status ≡ some ca_enroll_retry ↔ (rc ≡ some ca_enroll_retry))
      × ((respond ctx wants conn rc cert).status ≡ some ca_enroll_fail
          ↔ ((rc ≡ none) × (cert ≡ [])) ⊎ ((rc ≢ none) × (rc ≢ some ca_enroll_retry)))
unfolding respond write_cert
respond_iff ctx wants conn none [] = ground arith
respond_iff ctx wants conn none (b ∷ bs) = ground arith
respond_iff ctx wants conn (some e) cert = ground arith
