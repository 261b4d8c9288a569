-- ===== src/Enroll/Handler.antt =====
-- src/est/est_server.c: est_handle_simple_enroll. The check of the configured CSR attributes is a
-- parameter, `csrattrs`. The timers, which only log, are left out.
use aims_libest.Prelude.{
  ℕ, Bytes, [], ◌∷◌, ◌++◌, Option, none, some, Bool, true, false, not, ◌&&◌, ◌==◌, if◌then◌else◌,
  length, is_some, codes, starts_with, decimal,
}
use aims_libest.Api.{
  EstError, Status, http_write, bad_pkcs10, auth_fail, auth_fail_tlsuid, auth_pending,
  invalid_parameters, null_callback, bad_content_type, ca_enroll_fail, ca_enroll_retry,
  csr_attr_missing, AuthState, http_auth, srp_auth, cert_auth, http_auth_pending, csr_parse_fail,
  EnrollReq, simple_enroll_req, reenroll_req, serverkeygen_req,
}
use aims_libest.Ossl.{X509, X509Req, Ssl, Ossl}
use aims_libest.Context.{Ctx, EnrollCb}
use aims_libest.Conn.{Conn, note, ca_call, mg_write}
use aims_libest.Auth.ByCert.{parse_csr}
use aims_libest.Auth.Enroll.{Attempt, is_http, enroll_auth}
use aims_libest.Enroll.Csr.{check_cmc_ra, tls_uid_auth, check_csr}

-- The code, what is left in `returned_cert`, and the connection.
pub record Outcome : Type 0 where
  pub status : Status
  pub cert : Option Bytes
  pub conn : Conn

abbrev pub failed : EstError → Conn → Outcome
failed e conn = record { status = some e; cert = none; conn = conn }

-- the header of the response; 1024 bytes hold it whatever the length
abbrev pub cert_header : ℕ → Bytes
cert_header n =
    codes "HTTP/1.1 200 OK\r\nStatus: 200 OK\r\n"
    ++ codes "Content-Type: application/pkcs7-mime; smime-type=certs-only\r\n"
    ++ codes "Content-Transfer-Encoding: base64\r\nContent-Length: "
    ++ decimal n
    ++ codes "\r\n\r\n"

unfoldable pub write_cert : Conn → Bytes → Status × Conn
write_cert conn cert =
    let (sent_hdr, conn1) = mg_write conn (cert_header (length cert)) in
    let (sent_cert, conn2) = mg_write conn1 cert in
    if sent_hdr == 0
    then (some http_write, conn1)
    else if sent_cert == 0
    then (some http_write, conn2)
    else (none, conn2)

deliver : Ctx → Bool → Conn → Bytes → Outcome
unfolding write_cert
deliver ctx wants_cert conn [] = failed ca_enroll_fail conn
deliver ctx wants_cert conn (b ∷ bs) =
    let (st, conn') = write_cert conn (b ∷ bs) in
    if not wants_cert
    then failed invalid_parameters conn
    else if is_http ctx.transport_mode
    then record { status = st; cert = some (b ∷ bs); conn = conn' }
    else record { status = none; cert = some (b ∷ bs); conn = conn }

-- from the return of the CA's callback on
unfoldable pub respond : Ctx → Bool → Conn → Status → Bytes → Outcome
unfolding deliver
respond ctx wants_cert conn none cert = deliver ctx wants_cert conn cert
respond ctx wants_cert conn (some ca_enroll_retry) cert = failed ca_enroll_retry conn
respond ctx wants_cert conn (some e) cert = failed ca_enroll_fail conn

abbrev pub enroll_cb : Ctx → EnrollReq → Option EnrollCb
enroll_cb ctx simple_enroll_req = ctx.enroll_pkcs10_cb
enroll_cb ctx reenroll_req = ctx.reenroll_pkcs10_cb
enroll_cb ctx serverkeygen_req = none

abbrev pub is_authorized : AuthState → Bool
is_authorized http_auth = true
is_authorized srp_auth = true
is_authorized cert_auth = true
is_authorized _ = false

abbrev pub refusal : AuthState → EstError
refusal http_auth_pending = auth_pending
refusal csr_parse_fail = bad_pkcs10
refusal _ = auth_fail

-- the CSR that the authentication has parsed, or the body parsed now
abbrev pub csr_of : Ossl → Option X509Req → Bytes → Option X509Req
csr_of o none body = parse_csr o true body
csr_of o (some csr) body = some csr

abbrev pub is_ra : Ossl → Option X509 → Bool
is_ra o none = false
is_ra o (some cert) = check_cmc_ra o cert

-- the test of the content type, which counts over HTTP
unfoldable pub wrong_type : Ctx → Bytes → Bool
wrong_type ctx ct = is_http ctx.transport_mode && not (starts_with (codes "application/pkcs10") ct)

abbrev pub user_of : Ctx → Conn → Option Bytes
user_of ctx conn = if is_http ctx.transport_mode then some conn.user_id else none

module _ (o : Ossl) (csrattrs : Ctx → Bytes → Option X509 → Status) where
  -- the checks between the parse of the CSR and the call of the CA
  unfoldable pub vet : Ctx → Ssl → Option X509 → Bytes → X509Req → Status
  vet ctx ssl peer body csr =
      if check_csr o csr
      then some bad_pkcs10
      else if not (is_ra o peer) && is_some (tls_uid_auth o ctx ssl csr)
      then some auth_fail_tlsuid
      else if ctx.enforce_csrattrs && is_some (csrattrs ctx body peer)
      then some csr_attr_missing
      else none

  unfoldable pub call_ca :
      Ctx → EnrollReq → EnrollCb → Option X509 → Bytes → Option Bytes → Bool → Conn → Outcome
  unfolding respond
  call_ca ctx req cb peer body path_seg wants_cert conn =
      let reply = cb body (user_of ctx conn) peer path_seg in
      respond ctx wants_cert (note conn (ca_call req body)) reply.rc reply.cert

  unfoldable pub vetted :
      Ctx
      → EnrollReq
      → EnrollCb
      → Option X509
      → Bytes
      → Option Bytes
      → Bool
      → Conn
      → Status
      → Outcome
  unfolding call_ca
  vetted ctx req cb peer body path_seg wants_cert conn none =
      call_ca ctx req cb peer body path_seg wants_cert conn
  vetted ctx req cb peer body path_seg wants_cert conn (some e) = failed e conn

  -- from the authentication's result on
  unfoldable pub authorized :
      Ctx
      → EnrollReq
      → EnrollCb
      → Ssl
      → Option X509
      → Bytes
      → Option Bytes
      → Bool
      → Attempt
      → Outcome
  unfolding vetted
  authorized ctx req cb ssl peer body path_seg wants_cert a =
      if not (is_authorized a.state)
      then failed (refusal a.state) a.conn
      else elim (csr_of o a.csr body) [
        | none ↦ failed bad_pkcs10 a.conn
        | some csr ↦
            vetted ctx req cb peer body path_seg wants_cert a.conn (vet ctx ssl peer body csr)
      ]

  -- `none` is a call of a NULL callback in the authentication. `wants_cert` tells that the caller
  -- gives pointers for the certificate.
  unfoldable pub handle_simple_enroll :
      Ctx
      → Conn
      → Ssl
      → Option X509
      → Bytes
      → Bytes
      → Option Bytes
      → EnrollReq
      → Bool
      → Option Outcome
  unfolding authorized
  handle_simple_enroll ctx conn ssl peer ct body path_seg serverkeygen_req wants_cert =
      some (failed invalid_parameters conn)
  handle_simple_enroll ctx conn ssl peer ct body path_seg req wants_cert =
      elim (enroll_cb ctx req) [
        | none ↦ some (failed null_callback conn)
        | some cb ↦
            if wrong_type ctx ct
            then some (failed bad_content_type conn)
            else elim (enroll_auth o ctx ssl conn path_seg req body) [
              | none ↦ none
              | some a ↦ some (authorized ctx req cb ssl peer body path_seg wants_cert a)
            ]
      ]
