-- ===== src/Enroll/Keygen/Vetting.antt =====
-- src/est/est_server.c: what est_handle_server_keygen has checked when it asks the CA.
use aims_libest.Prelude.{
  suc, Bytes, List, [], ◌∷◌, Option, none, some, true, false, ◌≡◌, refl, ◌∙◌, ap, ◌⊎◌, inl, inr,
  arith, length, ◌==◌, is_some, Option-cases, Bool-cases, ℕ,
}
use aims_libest.Api.{EstError, Status, serverkeygen_req}
use aims_libest.Ossl.{X509, X509Req, PKey, Ssl, Ossl}
use aims_libest.Context.{Ctx}
use aims_libest.Conn.{Conn, note, ca_call, ca_calls, ca_calls-append, mg_write, mg_write_quiet}
use aims_libest.Base64.{Bio}
use aims_libest.Auth.Enroll.{Attempt, is_http, enroll_auth}
use aims_libest.Auth.Enroll.Evidence.{Evidence, enroll_auth-Evidence}
use aims_libest.Auth.Enroll.Quiet.{enroll_auth_quiet}
use aims_libest.Enroll.Checks.{
  IsTyped, IsAuthorized, Checked, wrong_type-IsTyped, is_authorized-IsAuthorized, vet-Checked,
}
use aims_libest.Enroll.Handler.{wrong_type, is_authorized, csr_of, user_of, vet}
use aims_libest.Enroll.Keygen.{
  KeygenOutcome, Keygen, keygen_parts, write_all, with_cert, keygen_respond, key_text, rekey,
  new_key, keygen_ask, keygen_rekeyed, keygen_csr, keygen_authorized, handle_server_keygen,
}

write_all_quiet :
    (conn : Conn) (parts : List Bytes) → ca_calls (write_all conn parts).1.log ≡ ca_calls conn.log
unfolding write_all
write_all_quiet conn [] = refl
write_all_quiet conn (part ∷ parts) =
    let (n, conn') = mg_write conn part in
    let q = mg_write_quiet conn part in
    elim (Bool-cases (n == 0)) [ inl b ↦ rw b q | inr b ↦ rw b (write_all_quiet conn' parts ∙ q) ]

with_cert_quiet :
    (key cert : Bytes) (s : Status × Conn)
    → ca_calls (with_cert key cert s).conn.log ≡ ca_calls s.1.log
with_cert_quiet key cert (none, conn) = refl
with_cert_quiet key cert (some e, conn) = refl

keygen_respond_quiet :
    (ctx : Ctx) (conn : Conn) (rc : Status) (cert key : Bytes)
    → ca_calls (keygen_respond ctx conn (record { rc = rc; cert = cert; key = key })).conn.log
      ≡ ca_calls conn.log
unfolding keygen_respond
keygen_respond_quiet ctx conn (some e) cert key = ground arith
keygen_respond_quiet ctx conn none cert key = elim (Bool-cases (length cert == 0)) [
  | inl b ↦ rw b refl
  | inr b ↦ elim (Bool-cases (is_http ctx.transport_mode)) [
    | inl h ↦
        let parts = keygen_parts key cert in
        rw b (rw h (with_cert_quiet key cert (write_all conn parts) ∙ write_all_quiet conn parts))
    | inr h ↦ rw b (rw h refl)
  ]
]

new_key-some :
    (x : Option (Status × Option PKey)) (key : PKey)
    → new_key x ≡ some key
    → x ≡ some (none, some key)
new_key-some (some (none, some k)) key h = ground arith
new_key-some (some (none, none)) key h = absurd (ground arith)
new_key-some (some (some e, k)) key h = absurd (ground arith)
new_key-some none key h = absurd (ground arith)

module _ (o : Ossl) (bio : Bio) (csrattrs : Ctx → Bytes → Option X509 → Status) (g : Keygen)
    (ctx : Ctx) (ssl : Ssl) (peer : Option X509) (body : Bytes) (path_seg : Option Bytes) where
  -- What the server knows when it asks the CA for a certificate of a key that it has made: the client's
  -- own CSR parses, and the CSR with the new key, signed by it, passes the checks.
  pub record KeyVetted (ct : Bytes) (conn : Conn) : Type 0 where
    pub typed : IsTyped ctx ct
    pub auth : Attempt
    pub csr : X509Req
    pub key : PKey
    pub new_csr : X509Req
    pub attempt : enroll_auth o ctx ssl conn path_seg serverkeygen_req body ≡ some auth
    pub authorized : IsAuthorized auth.state
    pub evidence : Evidence o ctx ssl conn path_seg body auth.state
    pub parsed : csr_of o auth.csr body ≡ some csr
    pub made : g.keygen_cb ≡ some (none, some key)
    pub rekeyed : rekey g csr key ≡ inr new_csr
    pub checked : Checked o csrattrs ctx ssl peer (g.req_body new_csr) new_csr

  rekeyed_calls :
      (cb : ℕ) (key : Bytes) (conn : Conn) (s : EstError ⊎ X509Req)
      → (ca_calls (keygen_rekeyed o bio csrattrs g ctx cb ssl peer key path_seg conn s).conn.log
          ≡ ca_calls conn.log)
        ⊎ ((ca_calls (keygen_rekeyed o bio csrattrs g ctx cb ssl peer key path_seg conn s).conn.log
              ≡ suc (ca_calls conn.log))
            × ((new_csr : X509Req) × (s ≡ inr new_csr)
                × (vet o csrattrs ctx ssl peer (g.req_body new_csr) new_csr ≡ none)))
  unfolding keygen_rekeyed keygen_ask
  rekeyed_calls cb key conn (inl e) = inl refl
  rekeyed_calls cb key conn (inr csr) =
      elim (Option-cases (vet o csrattrs ctx ssl peer (g.req_body csr) csr)) [
        | inr (e, v) ↦ inl (rw v refl)
        | inl v ↦
            let asked = note conn (ca_call serverkeygen_req (g.req_body csr)) in
            let reply = g.enroll cb (g.req_body csr) key (user_of ctx conn) peer path_seg in
            let q = keygen_respond_quiet ctx asked reply.rc reply.cert reply.key in
            let t = ca_calls-append conn.log (ca_call serverkeygen_req (g.req_body csr)) in
            inr (rw v (omega (arith, q, t)), (csr, refl, v))
      ]

  ran :
      (cb : ℕ) (conn : Conn) (csr : X509Req) (r : KeygenOutcome) (key : PKey) (text : Bytes)
      → keygen_csr o bio csrattrs g ctx cb ssl peer path_seg conn csr ≡ some r
      → new_key g.keygen_cb ≡ some key
      → key_text bio (g.key_der key) ≡ some text
      → r ≡ keygen_rekeyed o bio csrattrs g ctx cb ssl peer text path_seg conn (rekey g csr key)
  unfolding keygen_csr
  ran cb conn csr r key text h p q = ground arith

  csr_calls :
      (cb : ℕ) (conn : Conn) (csr : X509Req) (r : KeygenOutcome)
      → keygen_csr o bio csrattrs g ctx cb ssl peer path_seg conn csr ≡ some r
      → (ca_calls r.conn.log ≡ ca_calls conn.log)
        ⊎ ((ca_calls r.conn.log ≡ suc (ca_calls conn.log))
            × ((key : PKey) × (new_csr : X509Req) × (g.keygen_cb ≡ some (none, some key))
                × (rekey g csr key ≡ inr new_csr)
                × (vet o csrattrs ctx ssl peer (g.req_body new_csr) new_csr ≡ none)))
  unfolding keygen_csr
  csr_calls cb conn csr r h = elim (Option-cases (new_key g.keygen_cb)) [
    | inl p ↦ inl (ground arith)
    | inr (key, p) ↦ elim (Option-cases (key_text bio (g.key_der key))) [
      | inl q ↦ absurd (ground arith)
      | inr (text, q) ↦ elim (rekeyed_calls cb text conn (rekey g csr key)) [
        | inl k ↦ inl (ap (λ x. ca_calls x.conn.log) (ran cb conn csr r key text h p q) ∙ k)
        | inr (k, (new_csr, s, v)) ↦ inr (
          ap (λ x. ca_calls x.conn.log) (ran cb conn csr r key text h p q) ∙ k,
          (key, new_csr, new_key-some g.keygen_cb key p, s, v),
        )
      ]
    ]
  ]

  authorized_calls :
      (cb : ℕ) (a : Attempt) (r : KeygenOutcome)
      → keygen_authorized o bio csrattrs g ctx cb ssl peer body path_seg a ≡ some r
      → (ca_calls r.conn.log ≡ ca_calls a.conn.log)
        ⊎ ((is_authorized a.state ≡ true)
            × ((csr : X509Req) × (csr_of o a.csr body ≡ some csr)
                × (keygen_csr o bio csrattrs g ctx cb ssl peer path_seg a.conn csr ≡ some r)))
  unfolding keygen_authorized
  authorized_calls cb a r h = elim (Bool-cases (is_authorized a.state)) [
    | inr n ↦ inl (ground arith)
    | inl n ↦ elim (Option-cases (csr_of o a.csr body)) [
      | inl p ↦ inl (ground arith)
      | inr (csr, p) ↦ inr (n, (csr, p, ground arith))
    ]
  ]

  keygen_cases :
      (conn : Conn) (ct : Bytes) (r : KeygenOutcome)
      → handle_server_keygen o bio csrattrs g ctx conn ssl peer ct body path_seg ≡ some r
      → (ca_calls r.conn.log ≡ ca_calls conn.log)
        ⊎ ((cb : ℕ) × (a : Attempt) × (wrong_type ctx ct ≡ false)
            × (enroll_auth o ctx ssl conn path_seg serverkeygen_req body ≡ some a)
            × (keygen_authorized o bio csrattrs g ctx cb ssl peer body path_seg a ≡ some r))
  unfolding handle_server_keygen
  keygen_cases conn ct r h = elim (Option-cases ctx.server_keygen_pkcs10_cb) [
    | inl p ↦ inl (ground arith)
    | inr (cb, p) ↦ elim (Bool-cases (is_some g.keygen_cb)) [
      | inr s ↦ inl (ground arith)
      | inl s ↦ elim (Bool-cases (wrong_type ctx ct)) [
        | inl w ↦ inl (ground arith)
        | inr w ↦ elim (Option-cases (enroll_auth o ctx ssl conn path_seg serverkeygen_req body)) [
          | inl q ↦ absurd (ground arith)
          | inr (a, q) ↦ inr (cb, a, w, q, ground arith)
        ]
      ]
    ]
  ]

  pub handle_server_keygen-KeyVetted :
      (conn : Conn) (ct : Bytes) (r : KeygenOutcome)
      → handle_server_keygen o bio csrattrs g ctx conn ssl peer ct body path_seg ≡ some r
      → (ca_calls r.conn.log ≡ ca_calls conn.log)
        ⊎ ((ca_calls r.conn.log ≡ suc (ca_calls conn.log)) × KeyVetted ct conn)
  handle_server_keygen-KeyVetted conn ct r h = elim (keygen_cases conn ct r h) [
    | inl k ↦ inl k
    | inr (cb, a, w, q, e) ↦
        let quiet = enroll_auth_quiet o ctx ssl conn path_seg serverkeygen_req body a q in
        elim (authorized_calls cb a r e) [
          | inl k ↦ inl (k ∙ quiet)
          | inr (n, (csr, t, f)) ↦ elim (csr_calls cb a.conn csr r f) [
            | inl k ↦ inl (k ∙ quiet)
            | inr (k, (key, new_csr, m, s, v)) ↦ inr (
              k ∙ ap suc quiet,
              record {
                typed = wrong_type-IsTyped ctx ct w;
                auth = a;
                csr = csr;
                key = key;
                new_csr = new_csr;
                attempt = q;
                authorized = is_authorized-IsAuthorized a.state n;
                evidence = enroll_auth-Evidence o ctx ssl conn path_seg body serverkeygen_req a q;
                parsed = t;
                made = m;
                rekeyed = s;
                checked = vet-Checked o csrattrs ctx ssl peer (g.req_body new_csr) new_csr v;
              },
            )
          ]
        ]
  ]
