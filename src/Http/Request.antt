-- ===== src/Http/Request.antt =====
-- src/est/est_server.c: est_http_request in the build without BRSKI. The check of the CSR attributes
-- inside an enrolment is a parameter. The timers, which only log, are left out.
pub mod Quiet
pub mod Enrolling
pub mod Asking
use aims_libest.Prelude.{
  ℕ, ℤ, Bytes, Option, none, some, Bool, true, false, not, ◌&&◌, ◌||◌, if◌then◌else◌, codes,
  is_zero, is_some,
}
use aims_libest.Api.{
  EstError, Status, bad_mode, no_ssl_ctx, wrong_method, bad_content_type, auth_pending, unknown,
  Operation, simple_enroll, simple_reenroll, cacerts, csrattrs, server_keygen, op_max, EnrollReq,
  simple_enroll_req, reenroll_req, serverkeygen_req,
}
use aims_libest.Ossl.{X509, Ssl, Ossl}
use aims_libest.Context.{Ctx}
use aims_libest.Conn.{Conn, note, enroll_req, enroll_rsp, endpoint_start, endpoint_end}
use aims_libest.Safec.{strncmp}
use aims_libest.Auth.Enroll.{is_http}
use aims_libest.Auth.ByCert.{parse_csr}
use aims_libest.Enroll.Keygen.{KeygenOutcome, Keygen, handle_server_keygen}
use aims_libest.Enroll.Handler.{Outcome, handle_simple_enroll}
use aims_libest.Config.Setters.{is_server}
use aims_libest.Http.Uri.{parse_uri}
use aims_libest.Http.Error.{send_http_error}
use aims_libest.Http.Cacerts.{server_handle_cacerts}
use aims_libest.Base64.{Bio}
use aims_libest.CsrAttrs.{Asn1}
use aims_libest.CsrAttrs.Server.{handle_csr_attrs}

-- the code, the context and the connection after the request
pub record Reply : Type 0 where
  pub status : Status
  pub ctx : Ctx
  pub conn : Conn

-- est_invoke_endpoint_req_event_cb
abbrev pub notify_start : Ctx → Conn → Conn
notify_start ctx conn = if ctx.endpoint_req_event_cb then note conn endpoint_start else conn

abbrev pub notify_end : Ctx → Conn → Conn
notify_end ctx conn = if ctx.endpoint_req_event_cb then note conn endpoint_end else conn

-- est_invoke_enroll_req_event_cb and est_invoke_enroll_rsp_event_cb: no event where the CSR does not
-- parse
unfoldable pub notify_req : Ossl → Ctx → Bytes → EnrollReq → Conn → Conn
notify_req o ctx body req conn =
    if ctx.enroll_req_event_cb && is_some (parse_csr o (is_http ctx.transport_mode) body)
    then note conn (enroll_req req)
    else conn

unfoldable pub notify_rsp : Ossl → Ctx → Bytes → EnrollReq → Status → Conn → Conn
notify_rsp o ctx body req rc conn =
    if ctx.enroll_rsp_event_cb && is_some (parse_csr o (is_http ctx.transport_mode) body)
    then note conn (enroll_rsp req rc)
    else conn

-- The error is sent and returned, and the endpoint's END event is skipped.
abbrev pub give_up : Ctx → Conn → EstError → Reply
give_up ctx conn e = record { status = some e; ctx = ctx; conn = send_http_error ctx conn e }

abbrev pub finish : Ctx → Conn → Reply
finish ctx conn = record { status = none; ctx = ctx; conn = notify_end ctx conn }

abbrev pub is_get_prefix : Bytes → Bool
is_get_prefix method = is_zero (strncmp method (codes "GET") 3)

abbrev pub is_get : Bytes → Bool
is_get method = is_zero (strncmp method (codes "GET") 4)

abbrev pub is_post : Bytes → Bool
is_post method = is_zero (strncmp method (codes "POST") 4)

-- the end of a request for the CA certificates or the CSR attributes
abbrev pub answer_get : Status × Ctx × Conn → Reply
answer_get (none, ctx, conn) = finish ctx conn
answer_get (some e, ctx, conn) = give_up ctx conn e

-- The attributes that CoAP would return are not looked at.
abbrev pub attrs_reply : Option (Status × Ctx × Conn × Option Bytes) → Option Reply
attrs_reply none = none
attrs_reply (some (st, ctx, conn, returned)) = some (answer_get (st, ctx, conn))

-- the end of an enrolment
abbrev pub answer_enroll : Ctx → Status → Conn → Reply
answer_enroll ctx none conn = finish ctx conn
answer_enroll ctx (some auth_pending) conn = finish ctx conn
answer_enroll ctx (some e) conn = give_up ctx conn e

-- The key that the handler returns is not looked at.
abbrev pub returned_cert : Option KeygenOutcome → Option Outcome
returned_cert none = none
returned_cert (some r) = some (record { status = r.status; cert = r.cert; conn = r.conn })

module _ (o : Ossl) (a : Asn1) (bio : Bio) (csrattrs_present : Ctx → Bytes → Option X509 → Status)
    (g : Keygen) where
  run_enroll : Ctx → Conn → Ssl → Bytes → Bytes → EnrollReq → Option Outcome
  run_enroll ctx conn ssl ct body serverkeygen_req =
      returned_cert (
        handle_server_keygen o bio csrattrs_present g ctx conn ssl ssl.peer_certificate ct body
          none)
  run_enroll ctx conn ssl ct body req =
      handle_simple_enroll o csrattrs_present ctx conn ssl ssl.peer_certificate ct body none req
        true

  enroll_end : Ctx → Bytes → EnrollReq → Outcome → Reply
  enroll_end ctx body req r = answer_enroll ctx r.status (notify_rsp o ctx body req r.status r.conn)

  pub enroll : Ctx → Conn → Ssl → Bytes → Bytes → EnrollReq → Option Reply
  unfolding run_enroll enroll_end
  enroll ctx conn ssl ct body req =
      elim (run_enroll ctx (notify_req o ctx body req conn) ssl ct body req) [
        | none ↦ none
        | some r ↦ some (enroll_end ctx body req r)
      ]

  post : Ctx → Conn → Ssl → Bytes → Bytes → Option Bytes → EnrollReq → Option Reply
  unfolding enroll
  post ctx conn ssl method body ct req =
      if not (is_post method) then some (give_up ctx conn wrong_method) else elim ct [
        | none ↦ some (give_up ctx conn bad_content_type)
        | some ct ↦ enroll ctx conn ssl ct body req
      ]

  dispatch : Operation → Ctx → Conn → Ssl → Bytes → Bytes → Option Bytes → Option Reply
  unfolding post
  dispatch cacerts ctx conn ssl method body ct =
      if not (is_get_prefix method)
      then some (give_up ctx conn wrong_method)
      else some (answer_get (server_handle_cacerts ctx conn none))
  dispatch simple_enroll ctx conn ssl method body ct =
      post ctx conn ssl method body ct simple_enroll_req
  dispatch simple_reenroll ctx conn ssl method body ct =
      post ctx conn ssl method body ct reenroll_req
  dispatch server_keygen ctx conn ssl method body ct =
      post ctx conn ssl method body ct serverkeygen_req
  dispatch csrattrs ctx conn ssl method body ct =
      if not (is_get method)
      then some (give_up ctx conn wrong_method)
      else attrs_reply (handle_csr_attrs a bio ctx conn ssl.peer_certificate none)
  dispatch op_max ctx conn ssl method body ct = some (finish ctx (send_http_error ctx conn unknown))

  parsed : Operation × Status → Ctx → Conn → Ssl → Bytes → Bytes → Option Bytes → Option Reply
  unfolding dispatch
  parsed (op, some e) ctx conn ssl method body ct = some (give_up ctx conn e)
  parsed (op, none) ctx conn ssl method body ct = dispatch op ctx conn ssl method body ct

  -- `none` is a call of a NULL callback in the authentication, or an access out of bounds.
  unfoldable pub http_request :
      Ctx → Conn → Option Ssl → Bytes → Bytes → Bytes → Option Bytes → Option Reply
  unfolding parsed
  http_request ctx conn ssl method uri body ct =
      if not (is_server ctx.est_mode)
      then some (record { status = some bad_mode; ctx = ctx; conn = conn })
      else elim ssl [
        | none ↦ some (give_up ctx conn no_ssl_ctx)
        | some ssl ↦ parsed (parse_uri uri) ctx (notify_start ctx conn) ssl method body ct
      ]
