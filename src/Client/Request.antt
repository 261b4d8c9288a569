-- ===== src/Client/Request.antt =====
-- src/est/est_client.c: the HTTP request of an enrolment: est_client_build_enroll_header,
-- est_client_build_reenroll_header, est_client_add_auth_hdr, est_client_retrieve_credentials and
-- est_client_generate_auth_digest, and the buffer in which est_client_send_enroll_request_internal puts
-- it together; in src/est/est.c, est_hex_to_str. MD5 and the random numbers are OpenSSL's, and so
-- parameters.

pub mod Fits
use aims_libest.Prelude.{
  ℕ, zero, suc, ◌+◌, ◌-◌, ◌*◌, ◌/◌, ◌%◌, ℤ, pos, negsuc, Bytes, List, [], ◌∷◌, ◌++◌, Option, none,
  some, Bool, true, false, not, ◌&&◌, ◌||◌, if◌then◌else◌, ltb, leb, ◌==◌, length, take, codes,
  decimal,
}
use aims_libest.Api.{AuthMode, auth_none, auth_basic, auth_digest, auth_token, auth_fail}
use aims_libest.Base64.{Bio, Encoded, refused, fits, overruns, base64_encode}
use aims_libest.Http.Error.{int_text}
use aims_libest.Client.{Credentials, Client, note_client}

-- an enrolment, or a re-enrolment
pub data EnrollOp : Type 0 where
  op_simple_enroll op_simple_reenroll : EnrollOp

-- EST_HTTP_REQ_TOTAL_LEN, EST_HTTP_HDR_MAX, EST_HTTP_REQ_DATA_MAX
unfoldable pub req_total_len : ℕ
req_total_len = 5125

unfoldable pub hdr_max : ℕ
hdr_max = 1024

unfoldable pub req_data_max : ℕ
req_data_max = 4096

-- snprintf into a buffer of EST_HTTP_REQ_TOTAL_LEN bytes
abbrev pub in_buffer : Bytes → Bytes
in_buffer s = take 5124 s

abbrev pub segment_text : Option Bytes → Bytes
segment_text none = []
segment_text (some segment) = b'/' ∷ segment

abbrev pub op_path : EnrollOp → Bytes
op_path op_simple_enroll = codes "/simpleenroll HTTP/1.1\r\n"
op_path op_simple_reenroll = codes "/simplereenroll HTTP/1.1\r\n"

abbrev pub op_uri : EnrollOp → Bytes
op_uri op_simple_enroll = codes "/.well-known/est/simpleenroll"
op_uri op_simple_reenroll = codes "/.well-known/est/simplereenroll"

-- the header without credentials
unfoldable pub enroll_header : Client → EnrollOp → ℕ → Bytes
enroll_header ctx op pkcs10_len =
    codes "POST /.well-known/est"
    ++ segment_text ctx.uri_path_segment
    ++ op_path op
    ++ codes "User-Agent: libest 3.2.0p\r\nConnection: close\r\nHost: "
    ++ ctx.est_server
    ++ codes ":"
    ++ int_text ctx.est_port_num
    ++ codes "\r\nAccept: */*\r\nContent-Type: application/pkcs10\r\nContent-Length: "
    ++ decimal pkcs10_len
    ++ codes "\r\n"

abbrev hex_digit : ℕ → ℕ
hex_digit n = if ltb n 10 then b'0' + n else b'a' + (n - 10)

unfoldable pub hex_to_str : Bytes → Bytes
hex_to_str [] = []
hex_to_str (c ∷ s) = hex_digit (c / 16) ∷ hex_digit (c % 16) ∷ hex_to_str s

-- a user ID or a password that the application gives; one that is too long counts as none
abbrev bounded : Option Bytes → Bytes
bounded none = []
bounded (some s) = if ltb 255 (length s) then [] else s

-- auth_credentials: what the callback fills in, nothing without one
abbrev pub from_callback : Option (AuthMode → Credentials) → AuthMode → Credentials
from_callback none mode = record { user = none; pwd = none; auth_token = none }
from_callback (some cb) mode = cb mode

abbrev is_unset : Bytes → Bool
is_unset [] = true
is_unset (c ∷ s) = false

-- no user ID and no password is configured
abbrev pub needs_credentials : Client → Bool
needs_credentials ctx = is_unset ctx.userid && is_unset ctx.password

-- est_client_retrieve_credentials, or what is configured
unfoldable pub user_pwd : Client → AuthMode → Bytes × Bytes
user_pwd ctx mode =
    let c = from_callback ctx.auth_credentials_cb mode in
    if needs_credentials ctx then (bounded c.user, bounded c.pwd) else (ctx.userid, ctx.password)

abbrev token_of : Option Bytes → Bytes
token_of none = []
token_of (some token) = if ltb 512 (length token) then [] else token

-- What comes to the header for the credentials: text behind it, nothing left of it, or a write behind a
-- buffer of the encoder.
pub data AuthText : Type 0 where
  text : Bytes → AuthText
  erased overrun : AuthText

abbrev encoded_text : Bytes → Encoded → AuthText
encoded_text scheme refused = text (scheme ++ codes "\r\n")
encoded_text scheme (fits s) = text (scheme ++ s ++ codes "\r\n")
encoded_text scheme (overruns s) = overrun

pub record Crypto : Type 0 where
  -- RAND_bytes for the nonce; `none` is a failure
  pub random : Option Bytes
  -- MD5; `none` is a failure of EVP_DigestInit_ex
  pub md5 : Option (Bytes → Bytes)

-- est_client_generate_auth_digest
unfoldable pub auth_digest_of : (Bytes → Bytes) → Client → Bytes → Bytes → Bytes → Bytes → Bytes
unfolding hex_to_str
auth_digest_of md5 ctx c_nonce uri user pwd =
    let ha1 = hex_to_str (md5 (user ++ codes ":" ++ ctx.realm ++ codes ":" ++ pwd)) in
    let ha2 = hex_to_str (md5 (codes "POST:" ++ uri)) in
    hex_to_str (
      md5
        (ha1 ++ codes ":" ++ ctx.s_nonce ++ codes ":00000001:" ++ c_nonce ++ codes ":auth:" ++ ha2))

unfoldable pub digest_text : Client → Bytes → Bytes → Bytes → Bytes → Bytes
digest_text ctx uri user c_nonce digest =
    codes "Authorization: Digest username=\""
    ++ user
    ++ codes "\", realm=\""
    ++ ctx.realm
    ++ codes "\", nonce=\""
    ++ ctx.s_nonce
    ++ codes "\", uri=\""
    ++ uri
    ++ codes "\", cnonce=\""
    ++ c_nonce
    ++ codes "\", nc=00000001, qop=\"auth\", response=\""
    ++ digest
    ++ codes "\"\r\n"

abbrev with_digest :
    Client → Bytes → Bytes × Bytes → Option Bytes → Option (Bytes → Bytes) → AuthText
with_digest ctx uri (user, pwd) none md5 = erased
with_digest ctx uri (user, pwd) (some random) none = erased
with_digest ctx uri (user, pwd) (some random) (some md5) =
    let c_nonce = hex_to_str random in
    text (digest_text ctx uri user c_nonce (auth_digest_of md5 ctx c_nonce uri user pwd))

-- what est_client_add_auth_hdr puts behind the header
unfoldable pub auth_text : Bio → Crypto → Client → Bytes → AuthMode → AuthText
unfolding user_pwd digest_text auth_digest_of
auth_text bio crypto ctx uri auth_none = text []
auth_text bio crypto ctx uri auth_fail = text []
auth_text bio crypto ctx uri auth_basic =
    let (user, pwd) = user_pwd ctx auth_basic in
    encoded_text (codes "Authorization: Basic ")
      (base64_encode bio (user ++ codes ":" ++ pwd) 1020 false)
auth_text bio crypto ctx uri auth_digest =
    with_digest ctx uri (user_pwd ctx auth_digest) crypto.random crypto.md5
auth_text bio crypto ctx uri auth_token = encoded_text (codes "Authorization: Bearer ") (
    base64_encode bio (token_of (from_callback ctx.auth_credentials_cb auth_token).auth_token) 1024
      false)

-- the whole header; the empty one cannot be built
unfoldable pub header_of : EnrollOp → Bytes → AuthText → Option Bytes
unfolding hdr_max
header_of op base overrun = none
header_of op base erased = some []
header_of op_simple_enroll base (text s) = some (in_buffer (base ++ s))
header_of op_simple_reenroll base (text s) =
    if ltb hdr_max (length (in_buffer (base ++ s))) then some [] else some (in_buffer (base ++ s))

unfoldable pub build_header : Bio → Crypto → Client → EnrollOp → ℕ → Option Bytes
unfolding auth_text enroll_header header_of
build_header bio crypto ctx op pkcs10_len =
    header_of op (enroll_header ctx op pkcs10_len)
      (auth_text bio crypto ctx (op_uri op) ctx.auth_mode)

-- The request: the header, an empty line, and the CSR with an end of line, in a buffer of 5125 bytes.
-- `none` is a write or a read outside the buffer, or the sending of bytes that nothing has written,
-- where memcpy_s has refused the CSR. The last byte of a full buffer is a NUL.
unfoldable pub put_together : Bytes → Bytes → Option Bytes
unfolding req_total_len req_data_max
put_together hdr csr =
    let n = length hdr + 2 + length csr + 2 in
    if ltb req_data_max (length csr)
    then none
    else if ltb n req_total_len
    then some (hdr ++ codes "\r\n" ++ csr ++ codes "\r\n")
    else if n == req_total_len
    then some (hdr ++ codes "\r\n" ++ csr ++ b'\r' ∷ 0 ∷ [])
    else none
