-- ===== src/Auth/Enroll/Policy.antt =====
-- src/est/est_server.c: what the configuration of the server enforces in est_enroll_auth.
use aims_libest.Prelude.{
  Bytes, [], Option, none, some, true, false, ◌≡◌, ◌≢◌, ◌↔◌, ◌⊎◌, inl, inr, arith, if◌then◌else◌,
}
use aims_libest.Api.{
  unauthorized, http_auth, http_auth_pending, cert_auth, srp_auth, hdr_good, hdr_bad, hdr_missing,
  EnrollReq, is_nonzero_req, eca_err,
}
use aims_libest.Ossl.{X509, Ssl, Ossl}
use aims_libest.Context.{Ctx, AuthCb}
use aims_libest.Conn.{Conn, note, auth_result, send_authorization_request}
use aims_libest.AuthHeader.{parse_auth_header}
use aims_libest.Auth.Tls.{check_for_tls_cert_auth, with_srp}
use aims_libest.Auth.Enroll.{Attempt, is_http, creds, eca_creds, enroll_auth}
use aims_libest.Auth.Enroll.Evidence.{Verified, tls_cert, started, enroll_auth_cases}

module _ (o : Ossl) (ctx : Ctx) (ssl : Ssl) (conn : Conn) (path_seg : Option Bytes)
    (csr_buf : Bytes) where
  -- Over CoAP only a verified certificate authorizes: neither SRP nor HTTP credentials do.
  pub enroll_auth-coap :
      (req : EnrollReq) (a : Attempt)
      → is_http ctx.transport_mode ≡ false
      → enroll_auth o ctx ssl conn path_seg req csr_buf ≡ some a
      → (a.state ≡ cert_auth) ⊎ (a.state ≡ http_auth) ⊎ (a.state ≡ srp_auth)
      → (cert : X509) × Verified ssl cert
  unfolding enroll_auth
  enroll_auth-coap req a t h s = elim (enroll_auth_cases o ctx ssl conn path_seg csr_buf req a h) [
    | inl u ↦ absurd (ground arith)
    | inr (b, z, e, f) ↦
        let c : started o ctx ssl conn path_seg csr_buf ≡ cert_auth = ground arith in
        let (cert, p, v) = tls_cert ssl c in (cert, v)
  ]

  -- A certificate that OpenSSL did not verify ends the authentication: no credentials are asked for
  -- or looked at, whatever the configuration, and the connection sees at most the result event.
  pub enroll_auth-refused :
      (req : EnrollReq) (cert : X509)
      → ssl.peer_certificate ≡ some cert
      → ssl.verify_result ≢ 0
      → ssl.verify_result ≢ 3
      → enroll_auth o ctx ssl conn path_seg req csr_buf
        ≡ some (record {
          hdr = eca_err;
          state = unauthorized;
          csr = none;
          conn =
              if ctx.auth_result_event_cb
              then note conn (auth_result none req false unauthorized)
              else conn;
        })
  unfolding enroll_auth check_for_tls_cert_auth
  enroll_auth-refused req cert p z w = ground arith

  -- The call of a NULL authentication callback happens only over CoAP, with Enhanced Cert Auth on, no
  -- callback set, and a verified certificate.
  pub enroll_auth-null_call :
      (req : EnrollReq)
      → enroll_auth o ctx ssl conn path_seg req csr_buf ≡ none
      → (is_http ctx.transport_mode ≡ false)
        × (ctx.http_auth_cb ≡ none)
        × (ctx.eca.enabled ≡ true)
        × ((cert : X509) × Verified ssl cert)
  unfolding enroll_auth
  enroll_auth-null_call req h =
      let c : with_srp ssl (check_for_tls_cert_auth ssl).state ≡ cert_auth = ground arith in
      let (cert, p, v) = tls_cert ssl c in (ground arith, ground arith, ground arith, (cert, v))

  module _ (cert : X509) (v : Verified ssl cert) where
    verified-tls :
        ((check_for_tls_cert_auth ssl).proceed ≡ true)
        × ((check_for_tls_cert_auth ssl).peer ≡ some cert)
        × (with_srp ssl (check_for_tls_cert_auth ssl).state ≡ cert_auth)
    unfolding check_for_tls_cert_auth
    verified-tls = ground arith

    -- Over CoAP, with Enhanced Cert Auth on, a verified certificate that gives good credentials and
    -- a request body reach the NULL callback, where none is set.
    pub enroll_auth-crash :
        (req : EnrollReq)
        → is_http ctx.transport_mode ≡ false
        → ctx.eca.enabled ≡ true
        → ctx.http_auth_cb ≡ none
        → csr_buf ≢ []
        → (eca_creds o ctx ssl (some cert) csr_buf).hdr ≡ hdr_good
        → enroll_auth o ctx ssl conn path_seg req csr_buf ≡ none
    unfolding enroll_auth
    enroll_auth-crash req t e n b g = ground (arith, verified-tls)

    module _ (cb : AuthCb) (over_http : is_http ctx.transport_mode ≡ true)
        (set : ctx.http_auth_cb ≡ some cb) (required : ctx.require_http_auth ≡ true)
        (no_eca : ctx.eca.enabled ≡ false) where
      -- With HTTP authentication required, the certificate alone authorizes exactly a request whose
      -- Authorization header is bad and which is not a first enrolment.
      pub enroll_auth-required :
          (req : EnrollReq) (a : Attempt)
          → enroll_auth o ctx ssl conn path_seg req csr_buf ≡ some a
          → (a.state ≡ cert_auth)
            ↔ ((is_nonzero_req req ≡ true) × ((parse_auth_header ctx.auth_mode conn).0 ≡ hdr_bad))
      unfolding enroll_auth creds
      enroll_auth-required req a h =
          (λ e. ground (arith, verified-tls), λ e. ground (arith, verified-tls))

      -- With no Authorization header the client is asked for one, and the request stays pending.
      pub enroll_auth-missing :
          (req : EnrollReq)
          → conn.authorization ≡ none
          → enroll_auth o ctx ssl conn path_seg req csr_buf
            ≡ some (record {
              hdr = hdr_missing;
              state = http_auth_pending;
              csr = none;
              conn =
                  if ctx.auth_result_event_cb
                  then note
                      (send_authorization_request conn)
                      (auth_result (some cert) req false http_auth_pending)
                  else send_authorization_request conn;
            })
      unfolding enroll_auth creds parse_auth_header
      enroll_auth-missing req m = ground (arith, verified-tls)
