-- ===== src/Auth/Enroll/Evidence.antt =====
-- src/est/est_server.c: what the result of est_enroll_auth proves of the client.
use aims_libest.Prelude.{
  Bytes, Option, some, true, ◌&&◌, ◌≡◌, ◌≢◌, sym, subst, ◌⊎◌, inl, inr, arith, is_some,
  Option-cases, Bool-cases,
}
use aims_libest.Api.{
  AuthState, unauthorized, csr_parse_fail, http_auth, http_auth_pending, cert_auth, srp_auth,
  hdr_good, EnrollReq,
}
use aims_libest.Ossl.{X509, Ssl, Ossl}
use aims_libest.Context.{AuthHdr, Ctx, AuthCb}
use aims_libest.Conn.{Conn, empty_auth_hdr}
use aims_libest.AuthHeader.{parse_auth_header}
use aims_libest.Auth.Tls.{check_for_tls_cert_auth, is_cert_auth, with_srp}
use aims_libest.Auth.ByCert.{handle_eca}
use aims_libest.Auth.Enroll.{
  Attempt, is_http, wants_http, eca_creds, creds, authenticate, announce, enroll_auth,
}

-- The client has presented `cert` in the handshake, and OpenSSL has verified it or lacked only a CRL.
abbrev pub Verified : Ssl → X509 → Type 0
Verified ssl cert =
    (ssl.peer_certificate ≡ some cert) × ((ssl.verify_result ≡ 0) ⊎ (ssl.verify_result ≡ 3))

pub tls_cert :
    (ssl : Ssl)
    → with_srp ssl (check_for_tls_cert_auth ssl).state ≡ cert_auth
    → (cert : X509) × ((check_for_tls_cert_auth ssl).peer ≡ some cert) × Verified ssl cert
unfolding check_for_tls_cert_auth
tls_cert ssl h = elim (Option-cases ssl.peer_certificate) [
  | inl p ↦ absurd (ground arith)
  | inr (cert, p) ↦ (cert, ground arith, (p, ground arith))
]

pub tls_state :
    (ssl : Ssl)
    → (with_srp ssl (check_for_tls_cert_auth ssl).state ≢ http_auth)
      × (with_srp ssl (check_for_tls_cert_auth ssl).state ≡ srp_auth
          → is_some ssl.srp_username ≡ true)
unfolding check_for_tls_cert_auth
tls_state ssl = (λ h. ground arith, λ h. ground arith)

module _ (o : Ossl) (ctx : Ctx) (ssl : Ssl) (conn : Conn) (path_seg : Option Bytes)
    (csr_buf : Bytes) where
  -- The application's callback has accepted good credentials: those of the Authorization header, or
  -- those that Enhanced Cert Auth made of the verified certificate.
  pub record Accepted : Type 0 where
    pub cb : AuthCb
    pub ah : AuthHdr
    pub peer : Option X509
    pub set : ctx.http_auth_cb ≡ some cb
    pub accepts : cb ah peer path_seg ≡ true
    pub origin :
        ((conn' : Conn) × (parse_auth_header ctx.auth_mode conn ≡ (hdr_good, ah, conn')))
        ⊎ ((cert : X509) × Verified ssl cert
            × (ctx.eca.enabled ≡ true)
            × ((handle_eca o ctx.eca ssl cert csr_buf empty_auth_hdr ctx.eca.csr_check).hdr
                ≡ hdr_good)
            × ((handle_eca o ctx.eca ssl cert csr_buf empty_auth_hdr ctx.eca.csr_check).ah ≡ ah))

  -- What an authorized state rests on.
  abbrev pub Evidence : AuthState → Type 0
  Evidence cert_auth = (cert : X509) × Verified ssl cert
  Evidence srp_auth = (is_some ssl.srp_username ≡ true) × (is_http ctx.transport_mode ≡ true)
  Evidence http_auth = Accepted
  Evidence _ = Unit

  module _ (peer : Option X509) (st : AuthState) (req : EnrollReq) (a : Attempt) where
    authenticate_cert :
        authenticate o ctx ssl conn peer st path_seg req csr_buf ≡ some a
        → a.state ≡ cert_auth
        → st ≡ cert_auth
    unfolding authenticate
    authenticate_cert h e = ground arith

    authenticate_srp :
        authenticate o ctx ssl conn peer st path_seg req csr_buf ≡ some a
        → a.state ≡ srp_auth
        → (st ≡ srp_auth) × (is_http ctx.transport_mode ≡ true)
    unfolding authenticate
    authenticate_srp h e = ground arith

    -- Where good credentials come from.
    abbrev Origin : AuthHdr → Type 0
    Origin ah =
        ((conn' : Conn) × (parse_auth_header ctx.auth_mode conn ≡ (hdr_good, ah, conn')))
        ⊎ ((cert : X509) × Verified ssl cert
            × (ctx.eca.enabled ≡ true)
            × ((handle_eca o ctx.eca ssl cert csr_buf empty_auth_hdr ctx.eca.csr_check).hdr
                ≡ hdr_good)
            × ((handle_eca o ctx.eca ssl cert csr_buf empty_auth_hdr ctx.eca.csr_check).ah ≡ ah))

    module _ (known : st ≡ cert_auth → (cert : X509) × (peer ≡ some cert) × Verified ssl cert) where
      eca_creds-Origin :
          st ≡ cert_auth
          → ctx.eca.enabled ≡ true
          → (eca_creds o ctx ssl peer csr_buf).hdr ≡ hdr_good
          → Origin (eca_creds o ctx ssl peer csr_buf).ah
      unfolding eca_creds
      eca_creds-Origin c e h =
          let (cert, p, v) = known c in inr (cert, v, e, ground arith, ground arith)

      creds-Origin :
          (creds o ctx ssl conn peer st csr_buf).0.hdr ≡ hdr_good
          → Origin (creds o ctx ssl conn peer st csr_buf).0.ah
      unfolding creds
      creds-Origin h = elim (Bool-cases (ctx.eca.enabled && is_cert_auth st)) [
        | inl e ↦ rw (e, creds) (eca_creds-Origin (ground arith) (ground arith) (ground arith))
        | inr e ↦ rw (e, creds) (inl ((parse_auth_header ctx.auth_mode conn).2, ground arith))
      ]

      authenticate_accepted :
          authenticate o ctx ssl conn peer st path_seg req csr_buf ≡ some a
          → st ≢ http_auth
          → a.state ≡ http_auth
          → Accepted
      unfolding authenticate
      authenticate_accepted h n e = elim (Option-cases ctx.http_auth_cb) [
        | inl z ↦ absurd (ground arith)
        | inr (cb, s) ↦ elim (Bool-cases (wants_http ctx st)) [
          | inl w ↦
              let c = creds o ctx ssl conn peer st csr_buf in
              record {
                cb = cb;
                ah = c.0.ah;
                peer = peer;
                set = s;
                accepts = ground arith;
                origin = creds-Origin (ground arith);
              }
          | inr w ↦
              let c = eca_creds o ctx ssl peer csr_buf in
              record {
                cb = cb;
                ah = c.ah;
                peer = peer;
                set = s;
                accepts = ground arith;
                origin = eca_creds-Origin (ground arith) (ground arith) (ground arith);
              }
        ]
      ]

  abbrev pub started : AuthState
  started = with_srp ssl (check_for_tls_cert_auth ssl).state

  -- Either the handshake's certificate was refused, or the result is that of `authenticate`.
  pub enroll_auth_cases :
      (req : EnrollReq) (a : Attempt)
      → enroll_auth o ctx ssl conn path_seg req csr_buf ≡ some a
      → (a.state ≡ unauthorized)
        ⊎ ((b : Attempt) × (authenticate o ctx ssl conn
                (check_for_tls_cert_auth ssl).peer
                started
                path_seg
                req
                csr_buf
              ≡ some b)
            × (a.state ≡ b.state)
            × (a.csr ≡ b.csr))
  unfolding enroll_auth announce
  enroll_auth_cases req a h = elim (Bool-cases (check_for_tls_cert_auth ssl).proceed) [
    | inr r ↦ inl (ground arith)
    | inl r ↦
        elim (Option-cases (
          authenticate o ctx ssl conn (check_for_tls_cert_auth ssl).peer started path_seg req
            csr_buf)) [
              | inl z ↦ absurd (ground arith)
              | inr (b, z) ↦ inr (b, z, ground arith, ground arith)
            ]
  ]

  authenticate-Evidence :
      (s : AuthState) (req : EnrollReq) (b : Attempt)
      → authenticate o ctx ssl conn (check_for_tls_cert_auth ssl).peer started path_seg req csr_buf
        ≡ some b
      → b.state ≡ s
      → Evidence s
  authenticate-Evidence cert_auth req b h e =
      let (cert, p, v) = tls_cert ssl (authenticate_cert _ started req b h e) in (cert, v)
  authenticate-Evidence srp_auth req b h e =
      let (srp, t) = authenticate_srp _ started req b h e in ((tls_state ssl).1 srp, t)
  authenticate-Evidence http_auth req b h e =
      authenticate_accepted (check_for_tls_cert_auth ssl).peer started req b (tls_cert ssl) h
        (tls_state ssl).0 e
  authenticate-Evidence unauthorized req b h e = tt
  authenticate-Evidence csr_parse_fail req b h e = tt
  authenticate-Evidence http_auth_pending req b h e = tt

  -- A client comes out as certificate-authenticated only with a certificate that OpenSSL verified,
  -- short of a missing CRL; as SRP-authenticated only over HTTP with an SRP login; and as
  -- HTTP-authenticated only where the application accepted good credentials, which are those of the
  -- Authorization header or, with Enhanced Cert Auth, those made of a verified certificate.
  pub enroll_auth-Evidence :
      (req : EnrollReq) (a : Attempt)
      → enroll_auth o ctx ssl conn path_seg req csr_buf ≡ some a
      → Evidence a.state
  enroll_auth-Evidence req a h = elim (enroll_auth_cases req a h) [
    | inl u ↦ subst Evidence (sym u) tt
    | inr (b, z, e, f) ↦ authenticate-Evidence a.state req b z (sym e)
  ]
