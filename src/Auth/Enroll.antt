-- ===== src/Auth/Enroll.antt =====
-- src/est/est_server.c: est_enroll_auth. Each result carries the CSR, where the ECA check has
-- parsed it, and the connection.
pub mod Evidence
pub mod Policy
pub mod Quiet
use aims_libest.Prelude.{
  Bytes, [], ◌∷◌, Option, none, some, Bool, true, false, not, ◌&&◌, ◌||◌, if◌then◌else◌, is_some,
}
use mathlib.Core.Option
use aims_libest.Api.{
  Transport, http, coap, AuthState, unauthorized, csr_parse_fail, http_auth, http_auth_pending,
  AuthHdrResult, hdr_good, hdr_missing, hdr_bad, eca_csr_check_fail, eca_csr_parse_fail, eca_err,
  EnrollReq, is_nonzero_req,
}
use aims_libest.Ossl.{X509, X509Req, Ssl, Ossl}
use aims_libest.Context.{AuthHdr, Ctx, AuthCb}
use aims_libest.Conn.{
  Conn, note, send_authorization_request, auth_call, auth_result, empty_auth_hdr,
}
use aims_libest.AuthHeader.{parse_auth_header}
use aims_libest.Auth.Tls.{check_for_tls_cert_auth, is_cert_auth, is_unauthorized, with_srp}
use aims_libest.Auth.ByCert.{EcaResult, handle_eca}

abbrev pub is_good : AuthHdrResult → Bool
is_good hdr_good = true
is_good _ = false

abbrev is_nil : Bytes → Bool
is_nil [] = true
is_nil (c ∷ s) = false

abbrev pub is_http : Transport → Bool
is_http http = true
is_http coap = false

-- `pr` and `rv` of est_enroll_auth, with the parsed CSR and the connection.
pub record Attempt : Type 0 where
  pub hdr : AuthHdrResult
  pub state : AuthState
  pub csr : Option X509Req
  pub conn : Conn

-- The application is asked about the credentials; `none` is a call of a NULL callback.
ask : Option AuthCb → Attempt → AuthHdr → Option X509 → Option Bytes → Option Attempt
ask none a ah peer path_seg = none
ask (some cb) a ah peer path_seg = some (record a {
  state = if cb ah peer path_seg then http_auth else unauthorized;
  conn = note a.conn (auth_call ah);
})

-- the switch over `pr` when the transport is HTTP; `a.state` is `rv` before it
http_switch :
    AuthHdrResult
    → Option AuthCb
    → EnrollReq
    → Attempt
    → AuthHdr
    → Option X509
    → Option Bytes
    → Option Attempt
unfolding ask
http_switch hdr_good cb req a ah peer path_seg = ask cb a ah peer path_seg
http_switch hdr_missing cb req a ah peer path_seg =
    some (record a { state = http_auth_pending; conn = send_authorization_request a.conn })
http_switch eca_csr_check_fail cb req a ah peer path_seg = some (record a { state = unauthorized })
http_switch eca_csr_parse_fail cb req a ah peer path_seg =
    some (record a { state = csr_parse_fail })
http_switch eca_err cb req a ah peer path_seg = some (record a { state = unauthorized })
http_switch hdr_bad cb req a ah peer path_seg =
    if is_nonzero_req req && is_cert_auth a.state
    then some a
    else some (record a { state = unauthorized })

-- the switch over `pr` when the transport is CoAP
coap_switch :
    AuthHdrResult → Option AuthCb → Attempt → AuthHdr → Option X509 → Option Bytes → Option Attempt
unfolding ask
coap_switch hdr_good cb a ah peer path_seg = ask cb a ah peer path_seg
coap_switch eca_csr_parse_fail cb a ah peer path_seg = some (record a { state = csr_parse_fail })
coap_switch _ cb a ah peer path_seg = some (record a { state = unauthorized })

unfoldable pub eca_creds : Ossl → Ctx → Ssl → Option X509 → Bytes → EcaResult
eca_creds o ctx ssl none csr_buf = record { hdr = eca_err; ah = empty_auth_hdr; csr = none }
eca_creds o ctx ssl (some peer) csr_buf =
    handle_eca o ctx.eca ssl peer csr_buf empty_auth_hdr ctx.eca.csr_check

-- Where the credentials come from: the certificate, or the Authorization header.
unfoldable pub creds : Ossl → Ctx → Ssl → Conn → Option X509 → AuthState → Bytes → EcaResult × Conn
creds o ctx ssl conn peer state csr_buf =
    if ctx.eca.enabled && is_cert_auth state
    then (eca_creds o ctx ssl peer csr_buf, conn)
    else let (r, ah, conn') = parse_auth_header ctx.auth_mode conn in
      (record { hdr = r; ah = ah; csr = none }, conn')

try_http :
    Ossl
    → Ctx
    → Ssl
    → Conn
    → Option X509
    → AuthState
    → Option Bytes
    → EnrollReq
    → Bytes
    → Option Attempt
unfolding http_switch
try_http o ctx ssl conn peer state path_seg req csr_buf =
    let (c, conn') = creds o ctx ssl conn peer state csr_buf in
    http_switch c.hdr ctx.http_auth_cb req
      (record { hdr = c.hdr; state = state; csr = c.csr; conn = conn' }) c.ah peer path_seg

try_coap : Ossl → Ctx → Ssl → Conn → Option X509 → AuthState → Option Bytes → Bytes → Option Attempt
unfolding coap_switch
try_coap o ctx ssl conn peer state path_seg csr_buf =
    let a : Attempt = record { hdr = eca_err; state = state; csr = none; conn = conn } in
    let c = eca_creds o ctx ssl peer csr_buf in
    if not (is_cert_auth state)
    then some (record a { state = unauthorized })
    else if ctx.eca.enabled
    then (if is_nil csr_buf
        then some (record a { state = csr_parse_fail })
        else coap_switch c.hdr ctx.http_auth_cb (record a { hdr = c.hdr; csr = c.csr }) c.ah peer
            path_seg)
    else some a

-- HTTP authentication is tried where the application asks for it.
abbrev pub wants_http : Ctx → AuthState → Bool
wants_http ctx state =
    is_http ctx.transport_mode
    && is_some ctx.http_auth_cb
    && (is_unauthorized state || ctx.require_http_auth)

pub authenticate :
    Ossl
    → Ctx
    → Ssl
    → Conn
    → Option X509
    → AuthState
    → Option Bytes
    → EnrollReq
    → Bytes
    → Option Attempt
unfolding try_http try_coap
authenticate o ctx ssl conn peer state path_seg req csr_buf =
    if wants_http ctx state
    then try_http o ctx ssl conn peer state path_seg req csr_buf
    else if not (is_http ctx.transport_mode)
    then try_coap o ctx ssl conn peer state path_seg csr_buf
    else some (record { hdr = eca_err; state = state; csr = none; conn = conn })

-- est_invoke_enroll_auth_result_event_cb at `ret_label`
announce : Ctx → Option X509 → EnrollReq → Attempt → Attempt
announce ctx peer req a =
    if ctx.auth_result_event_cb
    then record a { conn = note a.conn (auth_result peer req (is_good a.hdr) a.state) }
    else a

-- `none` is a call of a NULL callback.
unfoldable pub enroll_auth :
    Ossl → Ctx → Ssl → Conn → Option Bytes → EnrollReq → Bytes → Option Attempt
unfolding authenticate announce
enroll_auth o ctx ssl conn path_seg req csr_buf =
    let t = check_for_tls_cert_auth ssl in
    let refused : Attempt = record {
      hdr = eca_err;
      state = unauthorized;
      csr = none;
      conn = conn;
    } in
    if not t.proceed
    then some (announce ctx t.peer req refused)
    else Option.map (announce ctx t.peer req)
        (authenticate o ctx ssl conn t.peer (with_srp ssl t.state) path_seg req csr_buf)
