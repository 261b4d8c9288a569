-- ===== src/Client/Response/Outer.antt =====
-- src/est/est_client_http.c: what reading a response leaves alone.
use aims_libest.Prelude.{
  ℤ, Bytes, List, [], ◌∷◌, Option, none, some, Bool, ◌≡◌, refl, ◌∙◌, arith, take,
}
use aims_libest.Api.{
  Status, AuthMode, auth_none, auth_basic, auth_digest, auth_token, auth_fail, Operation,
  invalid_retry_value,
}
use aims_libest.Client.{Client, ClientEvent}
use aims_libest.Client.Headers.{HttpHeader, parse_http_headers, parse_status_code}
use aims_libest.Client.Response.{
  retry_value, retry_headers, parse_retry_after, auth_tokens, challenge, parse_auth_request,
  unauthorized, check_status, read_response, io_read_raw, get_response, failed_mode, with_body,
  answered, without_first,
}

-- the events, and what the server is known by
abbrev pub outer : Client → List ClientEvent × Bytes × Bool
outer ctx = (ctx.log, ctx.est_server, ctx.enable_srp)

retry_value-outer :
    (value : Bytes) (s : Status × Client) → outer (retry_value value s).1 ≡ outer s.1
unfolding retry_value
retry_value-outer value (st, ctx) = ground arith

retry_headers-outer :
    (hdrs : List HttpHeader) (s : Status × Client) → outer (retry_headers hdrs s).1 ≡ outer s.1
unfolding retry_headers
retry_headers-outer [] s = refl
retry_headers-outer (h ∷ hdrs) s =
    let here = retry_headers-outer hdrs (retry_value h.value s) in
    let past = retry_headers-outer hdrs s in let one = retry_value-outer h.value s in ground arith

auth_tokens-outer :
    (fields : List Bytes) (ctx : Client) → outer (auth_tokens fields ctx).1 ≡ outer ctx
unfolding auth_tokens
auth_tokens-outer [] ctx = refl
auth_tokens-outer (token ∷ []) ctx = ground arith
auth_tokens-outer (token ∷ value ∷ fields) ctx =
    let in_realm = auth_tokens-outer fields (record ctx { realm = take 255 value }) in
    let in_nonce = auth_tokens-outer fields (record ctx { s_nonce = take 64 value }) in
    let in_error = auth_tokens-outer fields (record ctx { token_error = take 255 value }) in
    let in_desc = auth_tokens-outer fields (record ctx { token_error_desc = take 255 value }) in
    let past = auth_tokens-outer fields ctx in
    let other = auth_tokens-outer (value ∷ fields) ctx in ground arith

failed_mode-outer : (s : Status × Client) → outer (failed_mode s) ≡ outer s.1
failed_mode-outer (none, ctx) = refl
failed_mode-outer (some e, ctx) = refl

with_body-outer :
    (op : Operation) (hdrs : List HttpHeader) (payload : Bytes) (s : Status × Client)
    → outer (with_body op hdrs payload s).1 ≡ outer s.1
with_body-outer op hdrs payload (some e, ctx) = refl
with_body-outer op hdrs payload (none, ctx) = refl

module _ (next_fields : Bytes → List Bytes) where
  challenge-outer :
      (ctx : Client) (value : Bytes) (mode : AuthMode)
      → outer (challenge next_fields ctx value mode) ≡ outer ctx
  unfolding challenge
  challenge-outer ctx value mode =
      let fields = without_first (next_fields value) in
      failed_mode-outer (auth_tokens fields (record ctx { auth_mode = mode }))
      ∙ auth_tokens-outer fields (record ctx { auth_mode = mode })

  parse_auth_request-outer :
      (ctx : Client) (hdrs : List HttpHeader)
      → outer (parse_auth_request next_fields ctx hdrs) ≡ outer ctx
  unfolding parse_auth_request
  parse_auth_request-outer ctx [] = refl
  parse_auth_request-outer ctx (h ∷ hdrs) =
      let rest = parse_auth_request-outer ctx hdrs in
      let basic = challenge-outer ctx h.value auth_basic in
      let digest = challenge-outer ctx h.value auth_digest in
      let bearer = challenge-outer ctx h.value auth_token in ground arith

  unauthorized-outer :
      (ctx : Client) (hdrs : List HttpHeader) (mode : AuthMode)
      → outer (unauthorized next_fields ctx hdrs mode) ≡ outer ctx
  unfolding unauthorized
  unauthorized-outer ctx hdrs auth_none = parse_auth_request-outer ctx hdrs
  unauthorized-outer ctx hdrs auth_basic = refl
  unauthorized-outer ctx hdrs auth_digest = refl
  unauthorized-outer ctx hdrs auth_token = refl
  unauthorized-outer ctx hdrs auth_fail = parse_auth_request-outer ctx hdrs

  check_status-outer :
      (ctx : Client) (hdrs : List HttpHeader) (status : ℤ)
      → outer (check_status next_fields ctx hdrs status).1 ≡ outer ctx
  unfolding check_status parse_retry_after
  check_status-outer ctx hdrs status =
      let retry =
        retry_headers-outer hdrs
          (some invalid_retry_value, record ctx { retry_after_delay = 0; retry_after_date = 0 }) in
      let denied = unauthorized-outer ctx hdrs ctx.auth_mode in ground arith

  answered-outer :
      (ctx : Client) (op : Operation) (s : Status × Bytes)
      → outer (answered next_fields ctx op s).1 ≡ outer ctx
  unfolding answered read_response
  answered-outer ctx op (some e, buf) = refl
  answered-outer ctx op (none, []) = refl
  answered-outer ctx op (none, c ∷ buf) =
      let hdrs = (parse_http_headers (c ∷ buf)).0 in
      let status = parse_status_code (c ∷ buf) in
      let read : Client = record ctx { last_http_status = status } in
      with_body-outer op hdrs (parse_http_headers (c ∷ buf)).1
        (check_status next_fields read hdrs status)
      ∙ check_status-outer read hdrs status

  -- Reading a response notes no event, and does not change the server.
  pub get_response-outer :
      (ctx : Client) (op : Operation) (reads : List (Option Bytes)) (peek : Bool)
      → outer (get_response next_fields ctx op reads peek).1 ≡ outer ctx
  unfolding get_response
  get_response-outer ctx op reads peek = answered-outer ctx op (io_read_raw reads peek)
