-- ===== src/Client/Response.antt =====
-- src/est/est_client_http.c: est_io_read_raw, est_io_parse_auth_tokens, est_io_parse_http_auth_request,
-- est_io_parse_http_retry_after_resp, est_io_check_http_hdrs and est_io_get_response for the operations
-- without BRSKI and without key generation. HTNextField, which is libwww's, is a parameter. Failures of
-- malloc are left out.
pub mod Lines
pub mod Retry
pub mod Stream
pub mod Issued
pub mod Accepted
pub mod Outer
use aims_libest.Prelude.{
  ℕ, zero, suc, ◌+◌, ◌-◌, ◌*◌, ◌⊎◌, inl, inr, ℤ, pos, negsuc, ◌=ℤ◌, Bytes, List, [], ◌∷◌, ◌++◌,
  Option, none, some, Bool, true, false, not, ◌&&◌, ◌||◌, if◌then◌else◌, ltb, leb, ◌==◌, length,
  is_some, take, codes, starts_with, is_zero, is_neg,
}
use aims_libest.Api.{
  EstError, Status, AuthMode, auth_none, auth_basic, auth_digest, auth_token, auth_fail, Operation,
  simple_enroll, simple_reenroll, cacerts, csrattrs, server_keygen, op_max, ssl_read,
  read_buffer_too_small, http_not_found, http_no_content, invalid_retry_value, ca_enroll_retry,
  http_bad_req, http_locked, http_unsupported, unknown, invalid_token,
}
use aims_libest.Base64.{is_space}
use aims_libest.Client.{Client}
use aims_libest.Client.Host.{raw_equal}
use aims_libest.Client.Headers.{
  HttpHeader, skip_quoted, parse_http_headers, parse_status_code, digits, atoi, strisdigit_s,
  starts_alpha,
}

unfoldable pub est_ca_max : ℕ
est_ca_max = 2000000

-- What the reads of the connection give, one by one; `none` is a negative count, and behind the end of
-- the list there is nothing more to read. A read gives at most what fits the space that is left.
unfoldable pub read_raw : ℕ → List (Option Bytes) → Option Bytes
read_raw space [] = some []
read_raw space (none ∷ reads) = none
read_raw space (some [] ∷ reads) = some []
read_raw space (some (c ∷ s) ∷ reads) =
    let rest = read_raw (space - length (c ∷ s)) reads in
    if leb space (length (c ∷ s))
    then some (take space (c ∷ s))
    else elim rest [ none ↦ none | some more ↦ some ((c ∷ s) ++ more) ]

-- the bytes of a whole response; the flag is SSL_peek's answer
unfoldable pub io_read_raw : List (Option Bytes) → Bool → Status × Bytes
unfolding est_ca_max read_raw
io_read_raw reads peek = elim (read_raw est_ca_max reads) [
  | none ↦ (some ssl_read, [])
  | some buf ↦
      if length buf == est_ca_max && peek then (some read_buffer_too_small, buf) else (none, buf)
]

-- one Retry-After header
unfoldable pub retry_value : Bytes → Status × Client → Status × Client
unfolding strisdigit_s digits
retry_value value (rv, ctx) =
    if starts_alpha value
    then (rv, ctx)
    else if not (strisdigit_s value)
    then (rv, ctx)
    else if leb (digits 0 value) 2147483647
    then (some ca_enroll_retry, record ctx { retry_after_delay = digits 0 value })
    else (rv, ctx)

unfoldable pub retry_headers : List HttpHeader → Status × Client → Status × Client
unfolding retry_value
retry_headers [] s = s
retry_headers (h ∷ hdrs) s =
    let here = retry_headers hdrs (retry_value h.value s) in
    let past = retry_headers hdrs s in if raw_equal h.name (codes "Retry-After") then here else past

unfoldable pub parse_retry_after : Client → List HttpHeader → Status × Client
unfolding retry_headers
parse_retry_after ctx hdrs =
    retry_headers hdrs
      (some invalid_retry_value, record ctx { retry_after_delay = 0; retry_after_date = 0 })

-- EST_HTTP_CT of an operation, in est_op_map
abbrev pub content_type : Operation → Bytes
content_type simple_enroll = codes "application/pkcs7-mime; smime-type=certs-only"
content_type simple_reenroll = codes "application/pkcs7-mime; smime-type=certs-only"
content_type cacerts = codes "application/pkcs7-mime"
content_type csrattrs = codes "application/csrattrs"
content_type server_keygen = codes "application/pkcs8"
content_type op_max = codes "application/pkcs7-mime"

-- the comparison of a header's name with its NUL
abbrev same_bytes : Bytes → Bytes → Bool
same_bytes a b = length a == length b && starts_with a b

-- est_io_check_http_hdrs, with what has been found so far: the type, and the length
unfoldable pub check_hdrs : Operation → List HttpHeader → Bool → Option ℤ → EstError ⊎ ℤ
unfolding atoi
check_hdrs op [] false cl = inl http_unsupported
check_hdrs op [] true none = inl http_unsupported
check_hdrs op [] true (some cl) = inr cl
check_hdrs op (h ∷ hdrs) ct cl =
    let typed = check_hdrs op hdrs true cl in
    let sized = check_hdrs op hdrs ct (some (atoi h.value)) in
    let other = check_hdrs op hdrs ct cl in
    if same_bytes h.name (codes "Content-Type")
    then if starts_with (content_type op) h.value then typed else inl http_unsupported
    else if same_bytes h.name (codes "Content-Length")
    then sized
    else other

-- est_strcasecmp_s is 0, as for an empty string on the left
abbrev is_token : Bytes → Bytes → Bool
is_token [] name = true
is_token (c ∷ token) name = raw_equal (c ∷ token) name

abbrev drop_nonce : Client → Status × Client
drop_nonce ctx = (some invalid_token, record ctx { s_nonce = [] })

-- the loop of est_io_parse_auth_tokens over the fields of the header
unfoldable pub auth_tokens : List Bytes → Client → Status × Client
auth_tokens [] ctx = (none, ctx)
auth_tokens (token ∷ []) ctx =
    if is_token token (codes "realm")
      || is_token token (codes "nonce")
      || is_token token (codes "qop")
    then drop_nonce ctx
    else if is_token token (codes "algorithm")
    then (none, ctx)
    else if is_token token (codes "error") || is_token token (codes "error_description")
    then drop_nonce ctx
    else (none, ctx)
auth_tokens (token ∷ value ∷ fields) ctx =
    let realm = auth_tokens fields (record ctx { realm = take 255 value }) in
    let nonce = auth_tokens fields (record ctx { s_nonce = take 64 value }) in
    let error = auth_tokens fields (record ctx { token_error = take 255 value }) in
    let desc = auth_tokens fields (record ctx { token_error_desc = take 255 value }) in
    let past = auth_tokens fields ctx in
    let other = auth_tokens (value ∷ fields) ctx in
    if is_token token (codes "realm")
    then realm
    else if is_token token (codes "nonce")
    then nonce
    else if is_token token (codes "qop")
    then past
    else if is_token token (codes "algorithm")
    then if is_token value (codes "md5") then past else drop_nonce ctx
    else if is_token token (codes "error")
    then error
    else if is_token token (codes "error_description")
    then desc
    else other

abbrev without_first : List Bytes → List Bytes
without_first [] = []
without_first (scheme ∷ fields) = fields

abbrev failed_mode : Status × Client → Client
failed_mode (none, ctx) = ctx
failed_mode (some e, ctx) = record ctx { auth_mode = auth_fail }

-- the body, which is none where the buffer is NULL
unfoldable pub body_of : Bytes → EstError ⊎ ℤ → Status × Option Bytes
unfolding est_ca_max
body_of payload (inl e) = (some e, none)
body_of payload (inr (negsuc n)) = (some http_unsupported, none)
body_of payload (inr (pos n)) =
    if ltb est_ca_max n
    then (some http_unsupported, none)
    else if not (n == length payload)
    then (some http_unsupported, none)
    else if n == 0
    then (none, none)
    else (none, some payload)

abbrev with_body :
    Operation → List HttpHeader → Bytes → Status × Client → Status × Client × Option Bytes
with_body op hdrs payload (some e, ctx) = (some e, ctx, none)
with_body op hdrs payload (none, ctx) =
    let (st, body) = body_of payload (check_hdrs op hdrs false none) in (st, ctx, body)

-- The fields are what HTNextField finds in a string, one by one.
module _ (next_fields : Bytes → List Bytes) where
  unfoldable pub challenge : Client → Bytes → AuthMode → Client
  unfolding auth_tokens
  challenge ctx value mode =
      failed_mode
        (auth_tokens (without_first (next_fields value)) (record ctx { auth_mode = mode }))

  -- est_io_parse_http_auth_request
  unfoldable pub parse_auth_request : Client → List HttpHeader → Client
  unfolding challenge
  parse_auth_request ctx [] = record ctx { auth_mode = auth_fail }
  parse_auth_request ctx (h ∷ hdrs) =
      let rest = parse_auth_request ctx hdrs in
      if not (starts_with (codes "WWW-Authenticate") h.name)
      then rest
      else if starts_with (codes "Basic") h.value
      then challenge ctx h.value auth_basic
      else if starts_with (codes "Digest") h.value
      then challenge ctx h.value auth_digest
      else if starts_with (codes "Bearer") h.value
      then challenge ctx h.value auth_token
      else record ctx { auth_mode = auth_fail }

  -- a request for credentials; one that answers credentials ends in a failure
  unfoldable pub unauthorized : Client → List HttpHeader → AuthMode → Client
  unfolding parse_auth_request
  unauthorized ctx hdrs auth_digest = record ctx { auth_mode = auth_fail }
  unauthorized ctx hdrs auth_basic = record ctx { auth_mode = auth_fail }
  unauthorized ctx hdrs auth_token = record ctx { auth_mode = auth_fail }
  unauthorized ctx hdrs auth_none = parse_auth_request ctx hdrs
  unauthorized ctx hdrs auth_fail = parse_auth_request ctx hdrs

  -- the status of the response
  unfoldable pub check_status : Client → List HttpHeader → ℤ → Status × Client
  unfolding unauthorized parse_retry_after
  check_status ctx hdrs status =
      if status =ℤ pos 200
      then (none, ctx)
      else if status =ℤ pos 204
      then (some http_no_content, ctx)
      else if status =ℤ pos 404
      then (some http_not_found, ctx)
      else if status =ℤ pos 202
      then parse_retry_after ctx hdrs
      else if status =ℤ pos 400
      then (some http_bad_req, ctx)
      else if status =ℤ pos 401
      then (some EstError.auth_fail, unauthorized ctx hdrs ctx.auth_mode)
      else if status =ℤ pos 423
      then (some http_locked, ctx)
      else if status =ℤ pos 500 || status =ℤ pos 502 || status =ℤ pos 504 || status =ℤ negsuc 0
      then (some unknown, ctx)
      else (some http_unsupported, ctx)

  -- from the bytes of the response on
  unfoldable pub read_response : Client → Operation → Bytes → Status × Client × Option Bytes
  unfolding parse_status_code parse_http_headers check_status check_hdrs body_of
  read_response ctx op buf =
      let status = parse_status_code buf in
      let (hdrs, payload) = parse_http_headers buf in
      with_body op hdrs payload
        (check_status (record ctx { last_http_status = status }) hdrs status)

  unfoldable pub answered : Client → Operation → Status × Bytes → Status × Client × Option Bytes
  unfolding read_response
  answered ctx op (some e, buf) = (some e, ctx, none)
  answered ctx op (none, []) = (some http_not_found, ctx, none)
  answered ctx op (none, c ∷ buf) = read_response ctx op (c ∷ buf)

  unfoldable pub get_response :
      Client → Operation → List (Option Bytes) → Bool → Status × Client × Option Bytes
  unfolding io_read_raw answered
  get_response ctx op reads peek = answered ctx op (io_read_raw reads peek)
