-- ===== src/Conn.antt =====
-- src/est/est_server_http.c, src/est/est_server_http.h: one HTTP connection, with a log of all
-- that the handlers do outside the context.
use aims_libest.Prelude.{
  ℕ, ◌+◌, ◌≡◌, arith, Bool, Bytes, List, [], ◌∷◌, ◌++◌, Option, none, length, take, min,
}
use aims_libest.Api.{Status, EnrollReq, AuthState, auth_none}
use aims_libest.Ossl.{X509}
use aims_libest.Context.{AuthHdr}

pub data Effect : Type 0 where
  -- bytes that `mg_write` has sent
  sent : Bytes → Effect
  -- mg_send_http_error(conn, status, reason, body)
  http_error : ℕ → Bytes → Bytes → Effect
  -- mg_send_authorization_request(conn)
  auth_request : Effect
  -- the application is asked to authenticate these credentials
  auth_call : AuthHdr → Effect
  -- the application's CA is asked to enroll
  ca_call : EnrollReq → Bytes → Effect
  -- event callbacks; the flag of `auth_result` is EST_ENHANCED_AUTH_TS_VALIDATED
  auth_result : Option X509 → EnrollReq → Bool → AuthState → Effect
  enroll_req : EnrollReq → Effect
  enroll_rsp : EnrollReq → Status → Effect
  endpoint_start endpoint_end : Effect

pub record Conn : Type 0 where
  pub user_id : Bytes
  -- mg_get_header(conn, "Authorization")
  pub authorization : Option Bytes
  -- the credentials that the parser of each scheme takes from the header: mg_parse_auth_hdr_digest,
  -- mg_parse_auth_hdr_basic, mg_parse_auth_hdr_token
  pub parse_digest : Bytes → AuthHdr
  pub parse_basic : Bytes → AuthHdr
  pub parse_token : Bytes → AuthHdr
  -- how much of the nth buffer SSL_write takes before it fails
  pub takes : ℕ → ℕ
  pub status_code : ℕ
  pub log : List Effect

abbrev pub note : Conn → Effect → Conn
note conn e = record conn { log = conn.log ++ e ∷ [] }

abbrev pub empty_auth_hdr : AuthHdr
empty_auth_hdr = record {
  mode = auth_none;
  user = none;
  pwd = none;
  uri = none;
  cnonce = none;
  qop = none;
  nc = none;
  nonce = none;
  response = none;
  auth_token = none;
}

-- The challenge's bytes, which depend on the authentication mode, are not modelled.
abbrev pub send_authorization_request : Conn → Conn
send_authorization_request conn = note (record conn { status_code = 401 }) auth_request

-- The count of the bytes sent; 0 tells that nothing went out.
unfoldable pub mg_write : Conn → Bytes → ℕ × Conn
mg_write conn buf =
    let n = min (conn.takes (length conn.log)) (length buf) in (n, note conn (sent (take n buf)))

abbrev pub is_ca_call : Effect → ℕ
is_ca_call (ca_call req csr) = 1
is_ca_call _ = 0

-- how often the log has a call of the CA
abbrev pub ca_calls : List Effect → ℕ
ca_calls [] = 0
ca_calls (e ∷ es) = is_ca_call e + ca_calls es

pub ca_calls-append :
    (es : List Effect) (e : Effect) → ca_calls (es ++ e ∷ []) ≡ ca_calls es + is_ca_call e
ca_calls-append [] e = omega arith
ca_calls-append (x ∷ es) e = omega (arith, ca_calls-append es e)

pub mg_write_quiet :
    (conn : Conn) (s : Bytes) → ca_calls (mg_write conn s).1.log ≡ ca_calls conn.log
unfolding mg_write
mg_write_quiet conn s = grind (arith, ca_calls-append)
