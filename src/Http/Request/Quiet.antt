-- ===== src/Http/Request/Quiet.antt =====
-- src/est/est_server.c: the parts of est_http_request that never ask the CA.
use aims_libest.Prelude.{
  [], ◌∷◌, ap, ◌∙◌, Option-cases, Bytes, Option, none, some, ◌≡◌, refl, inl, inr, arith, Bool-cases,
}
use aims_libest.Api.{Status, EnrollReq, http_no_content, auth_pending}
use aims_libest.Ossl.{X509, Ossl}
use aims_libest.Context.{Ctx}
use aims_libest.Conn.{Conn, ca_calls, ca_calls-append, mg_write_quiet}
use aims_libest.Auth.Enroll.{is_http}
use aims_libest.Http.Answers.{send_http_error_quiet}
use aims_libest.Http.Cacerts.{handle_cacerts, retrieved, local_certs, server_handle_cacerts}
use aims_libest.Base64.{Bio}
use aims_libest.CsrAttrs.{Asn1}
use aims_libest.CsrAttrs.Server.{
  Choice, chosen, send_csrattr_data, mark, deliver, answer, handle_csr_attrs,
}
use aims_libest.Http.Request.{
  notify_start, notify_end, notify_req, notify_rsp, answer_get, answer_enroll,
}

pub handle_cacerts_quiet :
    (conn : Conn) (c : Option Bytes) → ca_calls (handle_cacerts conn c).1.log ≡ ca_calls conn.log
unfolding handle_cacerts
handle_cacerts_quiet conn none = refl
handle_cacerts_quiet conn (some c) = grind (arith, mg_write_quiet)

pub retrieved_quiet :
    (ctx : Ctx) (conn : Conn) (c : Option Bytes)
    → ca_calls (retrieved ctx conn c).2.log ≡ ca_calls conn.log
unfolding retrieved
retrieved_quiet ctx conn none = refl
retrieved_quiet ctx conn (some c) = elim (Bool-cases (is_http ctx.transport_mode)) [
  | inl h ↦ rw h (handle_cacerts_quiet conn (some c))
  | inr h ↦ rw h refl
]

pub local_certs_quiet :
    (ctx : Ctx) (conn : Conn) (c : Option Bytes)
    → ca_calls (local_certs ctx conn c).2.log ≡ ca_calls conn.log
unfolding local_certs
local_certs_quiet ctx conn none = refl
local_certs_quiet ctx conn (some c) = elim (Bool-cases (is_http ctx.transport_mode)) [
  | inl h ↦ rw h (handle_cacerts_quiet conn (some c))
  | inr h ↦ rw h refl
]

pub server_handle_cacerts_quiet :
    (ctx : Ctx) (conn : Conn) (p : Option Bytes)
    → ca_calls (server_handle_cacerts ctx conn p).2.log ≡ ca_calls conn.log
unfolding server_handle_cacerts
server_handle_cacerts_quiet ctx conn p = grind (arith, local_certs_quiet, retrieved_quiet)

send_csrattr_data_quiet :
    (ctx : Ctx) (conn : Conn) (s : Option Bytes)
    → ca_calls (send_csrattr_data ctx conn s).1.log ≡ ca_calls conn.log
unfolding send_csrattr_data
send_csrattr_data_quiet ctx conn none = send_http_error_quiet ctx conn http_no_content
send_csrattr_data_quiet ctx conn (some []) = send_http_error_quiet ctx conn http_no_content
send_csrattr_data_quiet ctx conn (some (c ∷ s)) = grind (arith, mg_write_quiet)

deliver_quiet :
    (ctx : Ctx) (conn : Conn) (s : Option Bytes)
    → ca_calls (deliver ctx conn s).2.log ≡ ca_calls conn.log
unfolding deliver
deliver_quiet ctx conn s = elim (Bool-cases (is_http ctx.transport_mode)) [
  | inl h ↦ rw h (send_csrattr_data_quiet ctx conn s)
  | inr h ↦ rw h refl
]

answer_quiet :
    (ctx : Ctx) (conn : Conn) (c : Choice) → ca_calls (answer ctx conn c).2.log ≡ ca_calls conn.log
unfolding answer
answer_quiet ctx conn c = elim (Option-cases c.status) [
  | inl h ↦ rw h (deliver_quiet (mark ctx c.pop_set) conn c.attrs)
  | inr (e, h) ↦ rw h refl
]

module _ (a : Asn1) (bio : Bio) where
  pub handle_csr_attrs_quiet :
      (ctx : Ctx) (conn : Conn) (peer : Option X509) (path_seg : Option Bytes)
      (r : Status × Ctx × Conn × Option Bytes)
      → handle_csr_attrs a bio ctx conn peer path_seg ≡ some r
      → ca_calls r.2.log ≡ ca_calls conn.log
  unfolding handle_csr_attrs
  handle_csr_attrs_quiet ctx conn peer path_seg r h =
      elim (Option-cases (chosen a bio ctx peer path_seg)) [
        | inl q ↦ absurd (ground arith)
        | inr (c, q) ↦
            let same : r ≡ answer ctx conn c = ground arith in
            ap (λ x. ca_calls x.2.log) same ∙ answer_quiet ctx conn c
      ]

pub notify_end_quiet :
    (ctx : Ctx) (conn : Conn) → ca_calls (notify_end ctx conn).log ≡ ca_calls conn.log
notify_end_quiet ctx conn = grind (arith, ca_calls-append)

pub notify_start_quiet :
    (ctx : Ctx) (conn : Conn) → ca_calls (notify_start ctx conn).log ≡ ca_calls conn.log
notify_start_quiet ctx conn = grind (arith, ca_calls-append)

pub notify_req_quiet :
    (o : Ossl) (ctx : Ctx) (body : Bytes) (req : EnrollReq) (conn : Conn)
    → ca_calls (notify_req o ctx body req conn).log ≡ ca_calls conn.log
unfolding notify_req
notify_req_quiet o ctx body req conn = grind (arith, ca_calls-append)

pub notify_rsp_quiet :
    (o : Ossl) (ctx : Ctx) (body : Bytes) (req : EnrollReq) (rc : Status) (conn : Conn)
    → ca_calls (notify_rsp o ctx body req rc conn).log ≡ ca_calls conn.log
unfolding notify_rsp
notify_rsp_quiet o ctx body req rc conn = grind (arith, ca_calls-append)

pub answer_get_quiet :
    (st : Status) (ctx : Ctx) (conn : Conn)
    → ca_calls (answer_get (st, ctx, conn)).conn.log ≡ ca_calls conn.log
answer_get_quiet none ctx conn = notify_end_quiet ctx conn
answer_get_quiet (some e) ctx conn = send_http_error_quiet ctx conn e

pub answer_enroll_quiet :
    (ctx : Ctx) (st : Status) (conn : Conn)
    → ca_calls (answer_enroll ctx st conn).conn.log ≡ ca_calls conn.log
answer_enroll_quiet ctx none conn = notify_end_quiet ctx conn
answer_enroll_quiet ctx (some auth_pending) conn = notify_end_quiet ctx conn
answer_enroll_quiet ctx (some e) conn = send_http_error_quiet ctx conn e
