-- ===== src/Client/Enroll.antt =====
-- src/est/est_client.c: the enrolment of a client: est_client_connect, est_client_disconnect,
-- est_client_check_fqdn, est_client_send_enroll_request_internal for an enrolment and a re-enrolment,
-- est_client_enroll_req, est_client_clear_csr_pop, est_client_enroll_pkcs10, populate_x509_request,
-- est_generate_pkcs10, est_client_enroll_cn, est_client_enroll_internal, est_client_enroll_csr_internal,
-- est_client_reenroll from the CSR on, and est_client_copy_enrolled_cert. Sockets, libcurl and OpenSSL
-- are a parameter, asked with what the client has done before; the TLS session that is kept, and
-- failures of malloc, are left out.
pub mod Attempt
pub mod Trace
pub mod Kept
pub mod Success
use aims_libest.Prelude.{
  ℕ, zero, suc, ℤ, pos, Bytes, List, [], ◌∷◌, ◌++◌, Option, none, some, Bool, true, false, not,
  ◌&&◌, ◌||◌, ◌⊎◌, inl, inr, if◌then◌else◌, ltb, length,
}
use mathlib.Core.Option
use aims_libest.Api.{
  EstError, Status, AuthMode, auth_none, auth_basic, auth_digest, auth_token, Operation,
  simple_enroll, simple_reenroll, ip_getaddr, ip_connect, ssl_new, ssl_connect, fqdn_mismatch,
  http_cannot_build_header, ssl_write, zero_length_buf, buf_exceeds_max_len, auth_fail_tlsuid,
  x509_ver, x509_cn, x509_attr, x509_pubkey, x509_sign, no_key, invalid_parameters, bad_mode,
  no_csr, client_not_initialized, no_certificate,
}
use aims_libest.Ossl.{X509, X509Req, PKey}
use aims_libest.Base64.{Bio}
use aims_libest.Client.{Client, ClientEvent, connected, disconnected, wrote, note_client}
use aims_libest.Client.Host.{Names, verifyhost}
use aims_libest.Client.Response.{get_response}
use aims_libest.Client.Request.{
  EnrollOp, op_simple_enroll, op_simple_reenroll, Crypto, build_header, put_together,
}

-- tcw_connect: TCW_OK, TCW_ERR_RESOLV, or another error
pub data TcwErr : Type 0 where
  tcw_ok tcw_resolv tcw_other : TcwErr

-- the world outside, as it answers after the events of the log
pub record Net : Type 0 where
  pub tcw_connect : List ClientEvent → TcwErr
  pub setsockopt : List ClientEvent → Bool
  pub bio_new_socket : List ClientEvent → Bool
  pub new_ssl : List ClientEvent → Bool
  pub connect_ssl : List ClientEvent → Bool
  pub peer_certificate : List ClientEvent → Option X509
  -- the TLS UID of the connection
  pub tls_uid : List ClientEvent → Option Bytes
  -- SSL_write does not fail
  pub write : List ClientEvent → Bool
  -- what SSL_read gives, read by read, and SSL_peek's answer
  pub reads : List ClientEvent → List (Option Bytes)
  pub peek : List ClientEvent → Bool
  -- the fields that HTNextField finds
  pub next_fields : Bytes → List Bytes
  pub fips_mode : Bool

-- X509_REQ_* on a CSR; `none` and `false` are failures
pub record CsrApi : Type 0 where
  pub fresh : X509Req
  pub set_version : X509Req → Option X509Req
  pub add_cn : X509Req → Bytes → Option X509Req
  pub add_challenge : X509Req → Bytes → Option X509Req
  pub set_pubkey : X509Req → PKey → Option X509Req
  pub sign : X509Req → PKey → Option X509Req
  -- the CSR without any challengePassword
  pub clear_challenge : X509Req → X509Req
  -- i2d_X509_REQ_bio through base64
  pub body : X509Req → Bytes

pub record Result : Type 0 where
  pub status : Status
  pub ctx : Client
  -- the length that the caller gets, where it is written
  pub pkcs7_len : Option ℕ
  -- the CSR, which an attempt may change
  pub csr : X509Req

abbrev pub result : Status → Client → X509Req → Result
result st ctx csr = record { status = st; ctx = ctx; pkcs7_len = none; csr = csr }

abbrev pub op_of : EnrollOp → Operation
op_of op_simple_enroll = simple_enroll
op_of op_simple_reenroll = simple_reenroll

-- the header has credentials
abbrev pub with_credentials : AuthMode → Bool
with_credentials auth_basic = true
with_credentials auth_digest = true
with_credentials auth_token = true
with_credentials _ = false

abbrev pub close : Client → Client
close ctx = note_client ctx disconnected

-- the answer to an enrolment
abbrev pub enroll_answer : Status × Client × Option Bytes → Status × Client × Option Bytes
enroll_answer (some e, ctx, body) = (some e, ctx, none)
enroll_answer (none, ctx, none) = (some zero_length_buf, ctx, none)
enroll_answer (none, ctx, some cert) =
    if ltb 4096 (length cert) then (some buf_exceeds_max_len, ctx, none) else (none, ctx, some cert)

abbrev pub keep_cert : X509Req → Status × Client × Option Bytes → Result
keep_cert csr (some e, ctx, cert) = result (some e) ctx csr
keep_cert csr (none, ctx, none) = result none ctx csr
keep_cert csr (none, ctx, some cert) = record {
  status = none;
  ctx = record ctx { enrolled_client_cert = some cert };
  pkcs7_len = some (length cert);
  csr = csr;
}

abbrev pub needs_pop : Client → Bool
needs_pop ctx = ctx.csr_pop_required || ctx.client_force_pop

-- one connection, with what is done on it; the flag tells that it was made
abbrev pub closed : Option Result → Option (Bool × Result)
closed none = none
closed (some r) = some (true, record r { ctx = close r.ctx })

abbrev pub is_auth_fail : Status → Bool
is_auth_fail (some EstError.auth_fail) = true
is_auth_fail _ = false

abbrev pub where_failed : (Client → Client) → Status → Client → Client
where_failed cleared none ctx = ctx
where_failed cleared (some e) ctx = cleared ctx

abbrev pub is_digest : AuthMode → Bool
is_digest auth_digest = true
is_digest _ = false

abbrev pub forget_mode : Client → Client
forget_mode ctx = record ctx { auth_mode = auth_none }

abbrev pub clear_tokens : Client → Client
clear_tokens ctx = record ctx { token_error = []; token_error_desc = [] }

abbrev pub unchanged : Client → Client
unchanged ctx = ctx

module _ (net : Net) (names : Names) (api : CsrApi) (bio : Bio) (crypto : Crypto) where
  abbrev pub check_fqdn : Client → Option X509 → Status
  check_fqdn ctx (some cert) = verifyhost names ctx.est_server cert
  check_fqdn ctx none = if ctx.enable_srp then none else some fqdn_mismatch

  abbrev pub after_fqdn : Client → Status → Status × Client
  after_fqdn ctx none = (none, ctx)
  after_fqdn ctx (some e) = (some fqdn_mismatch, close ctx)

  -- the TLS connection on a socket
  abbrev pub on_socket : Client → TcwErr → Status × Client
  on_socket ctx tcw_resolv = (some ip_getaddr, ctx)
  on_socket ctx tcw_other = (some ip_connect, ctx)
  on_socket ctx tcw_ok =
      if not (net.setsockopt ctx.log)
      then (some ip_connect, ctx)
      else if not (net.bio_new_socket ctx.log)
      then (some ip_connect, ctx)
      else if not (net.new_ssl ctx.log)
      then (some ssl_new, ctx)
      else if not (net.connect_ssl ctx.log)
      then (some ssl_connect, ctx)
      else after_fqdn (note_client ctx connected) (check_fqdn ctx (net.peer_certificate ctx.log))

  -- est_client_connect
  unfoldable pub connect : Client → Status × Client
  connect ctx = on_socket ctx (net.tcw_connect ctx.log)

  -- a request that has been put together
  unfoldable pub exchange : Client → EnrollOp → Bytes → Status × Client × Option Bytes
  exchange ctx op request =
      let sent =
        note_client (record ctx { last_http_status = pos 0 })
          (wrote (with_credentials ctx.auth_mode) request) in
      if not (net.write sent.log)
      then (some ssl_write, sent, none)
      else enroll_answer
          (get_response net.next_fields sent (op_of op) (net.reads sent.log) (net.peek sent.log))

  abbrev pub put_body :
      Client → EnrollOp → Bytes → Option Bytes → Option (Status × Client × Option Bytes)
  put_body ctx op body none = none
  put_body ctx op body (some []) = some (some http_cannot_build_header, ctx, none)
  put_body ctx op body (some (c ∷ hdr)) = Option.map (exchange ctx op) (put_together (c ∷ hdr) body)

  -- est_client_send_enroll_request; `none` is an access outside a buffer
  unfoldable pub send_enroll_request :
      Client → EnrollOp → Bytes → Option (Status × Client × Option Bytes)
  unfolding exchange
  send_enroll_request ctx op body =
      put_body ctx op body (build_header bio crypto ctx op (length body))

  -- est_client_enroll_req
  unfoldable pub enroll_req : Client → EnrollOp → X509Req → Option Result
  unfolding send_enroll_request
  enroll_req ctx op csr = Option.map (keep_cert csr) (send_enroll_request ctx op (api.body csr))

  abbrev pub sign_and_send : Client → EnrollOp → PKey → X509Req → Option X509Req → Option Result
  sign_and_send ctx op key csr none = some (result (some x509_sign) ctx csr)
  sign_and_send ctx op key csr (some signed) = enroll_req ctx op signed

  abbrev pub with_pop : Client → EnrollOp → PKey → X509Req → Option X509Req → Option Result
  with_pop ctx op key csr none = some (result (some x509_attr) ctx csr)
  with_pop ctx op key csr (some added) = sign_and_send ctx op key added (api.sign added key)

  -- the CSR gets the TLS UID where the server asks for it
  abbrev pub with_uid : Client → EnrollOp → PKey → X509Req → Option Bytes → Option Result
  with_uid ctx op key csr none = some (result (some auth_fail_tlsuid) ctx csr)
  with_uid ctx op key csr (some uid) = with_pop ctx op key csr (api.add_challenge csr uid)

  -- est_client_enroll_pkcs10
  unfoldable pub enroll_pkcs10 : Client → EnrollOp → PKey → X509Req → Option Result
  unfolding enroll_req
  enroll_pkcs10 ctx op key csr =
      let cleared = api.clear_challenge csr in
      if needs_pop ctx
      then with_uid ctx op key cleared (net.tls_uid ctx.log)
      else sign_and_send ctx op key cleared (api.sign cleared key)

  -- populate_x509_request with a key, and est_generate_pkcs10
  unfoldable pub generate_pkcs10 : Client → Bytes → Bytes → PKey → EstError ⊎ X509Req
  generate_pkcs10 ctx cn cp key = elim (api.set_version api.fresh) [
    | none ↦ inl x509_ver
    | some csr1 ↦ elim (api.add_cn csr1 cn) [
      | none ↦ inl x509_cn
      | some csr2 ↦ elim (if needs_pop ctx then api.add_challenge csr2 cp else some csr2) [
        | none ↦ inl x509_attr
        | some csr3 ↦ elim (api.set_pubkey csr3 key) [
          | none ↦ inl x509_pubkey
          | some csr4 ↦ elim (api.sign csr4 key) [ none ↦ inl x509_sign | some csr5 ↦ inr csr5 ]
        ]
      ]
    ]
  ]

  abbrev pub send_generated : Client → EnrollOp → EstError ⊎ X509Req → Option Result
  send_generated ctx op (inl e) = some (result (some e) ctx api.fresh)
  send_generated ctx op (inr csr) = enroll_req ctx op csr

  abbrev pub generated : Client → EnrollOp → Bytes → PKey → Option Bytes → Option Result
  generated ctx op cn key none = some (result (some auth_fail_tlsuid) ctx api.fresh)
  generated ctx op cn key (some uid) = send_generated ctx op (generate_pkcs10 ctx cn uid key)

  -- est_client_enroll_cn
  unfoldable pub enroll_cn : Client → EnrollOp → Bytes → PKey → Option Result
  unfolding generate_pkcs10 enroll_req
  enroll_cn ctx op cn key = generated ctx op cn key (net.tls_uid ctx.log)

  abbrev pub on_connection :
      (X509Req → Client → Option Result) → X509Req → Status × Client → Option (Bool × Result)
  on_connection attempt csr (some e, ctx) = some (false, result (some e) ctx csr)
  on_connection attempt csr (none, ctx) = closed (attempt csr ctx)

  unfoldable pub session :
      (X509Req → Client → Option Result) → X509Req → Client → Option (Bool × Result)
  unfolding connect
  session attempt csr ctx = on_connection attempt csr (connect ctx)

  -- the second attempt, with credentials; `fin` is what the function does at its end, and `cleared` what
  -- it does with the context where the second attempt fails
  abbrev pub second : (Client → Client) → (Client → Client) → Option (Bool × Result) → Option Result
  second fin cleared none = none
  second fin cleared (some (false, r)) = some r
  second fin cleared (some (true, r)) =
      some (record r { ctx = fin (where_failed cleared r.status r.ctx) })

  abbrev pub first :
      (Client → Client)
      → (Client → Client)
      → (X509Req → Client → Option Result)
      → Option (Bool × Result)
      → Option Result
  first fin cleared attempt none = none
  first fin cleared attempt (some (false, r)) = some r
  first fin cleared attempt (some (true, r)) =
      if is_auth_fail r.status && with_credentials r.ctx.auth_mode
      then if is_digest r.ctx.auth_mode && net.fips_mode
        then some (record r { status = some bad_mode })
        else second fin cleared (session attempt r.csr r.ctx)
      else some (record r { ctx = fin r.ctx })

  unfoldable pub with_retry :
      (Client → Client)
      → (Client → Client)
      → (X509Req → Client → Option Result)
      → X509Req
      → Client
      → Option Result
  unfolding session
  with_retry fin cleared attempt csr ctx = first fin cleared attempt (session attempt csr ctx)

  -- est_client_enroll_internal
  unfoldable pub client_enroll : Client → EnrollOp → Bytes → Option PKey → Option Result
  unfolding with_retry enroll_cn
  client_enroll ctx op cn key =
      if not ctx.est_client_initialized
      then some (result (some client_not_initialized) ctx api.fresh)
      else elim key [
        | none ↦ some (result (some no_key) ctx api.fresh)
        | some k ↦ with_retry forget_mode clear_tokens (λ csr c. enroll_cn c op cn k) api.fresh ctx
      ]

  abbrev pub csr_attempt : EnrollOp → Option PKey → X509Req → Client → Option Result
  csr_attempt op none csr ctx = enroll_req ctx op csr
  csr_attempt op (some key) csr ctx = enroll_pkcs10 ctx op key csr

  -- est_client_enroll_csr_internal
  unfoldable pub client_enroll_csr :
      Client → EnrollOp → Option X509Req → Option PKey → Option Result
  unfolding with_retry enroll_pkcs10
  client_enroll_csr ctx op none key = some (result (some no_csr) ctx api.fresh)
  client_enroll_csr ctx op (some csr) key =
      if not ctx.est_client_initialized
      then some (result (some client_not_initialized) ctx csr)
      else with_retry unchanged unchanged (csr_attempt op key) csr ctx

  -- est_client_reenroll, from the CSR on that is made of the certificate
  unfoldable pub client_reenroll : Client → PKey → X509Req → Option Result
  unfolding with_retry enroll_pkcs10
  client_reenroll ctx key csr =
      with_retry unchanged clear_tokens (λ c ctx. enroll_pkcs10 ctx op_simple_reenroll key c) csr
        ctx

-- est_client_copy_enrolled_cert, with what it copies
unfoldable pub copy_enrolled_cert : Client → Status × Client × Option Bytes
copy_enrolled_cert ctx =
    if not ctx.est_client_initialized
    then (some client_not_initialized, ctx, none)
    else elim ctx.enrolled_client_cert [
      | none ↦ (some no_certificate, ctx, none)
      | some cert ↦ (none, record ctx { enrolled_client_cert = none }, some cert)
    ]
