-- ===== src/Http/Request/Asking.antt =====
-- src/est/est_server.c: which HTTP requests reach the CA.
use aims_libest.Prelude.{
  suc, Bytes, Option, none, some, ◌≡◌, ◌∙◌, ap, ◌⊎◌, inl, inr, arith, Bool-cases, Option-cases,
}
use aims_libest.Api.{
  EstError, Status, Operation, simple_enroll, simple_reenroll, cacerts, csrattrs, server_keygen,
  op_max, EnrollReq, simple_enroll_req, reenroll_req, serverkeygen_req, wrong_method,
  bad_content_type, unknown,
}
use aims_libest.Ossl.{X509, Ssl, Ossl}
use aims_libest.Context.{Ctx}
use aims_libest.Conn.{Conn, ca_calls}
use aims_libest.Enroll.Keygen.{Keygen}
use aims_libest.Config.Setters.{is_server}
use aims_libest.Http.Uri.{uri_of, parse_uri, parse_uri_iff}
use aims_libest.Http.Error.{send_http_error}
use aims_libest.Http.Answers.{send_http_error_quiet}
use aims_libest.Http.Cacerts.{server_handle_cacerts}
use aims_libest.Base64.{Bio}
use aims_libest.CsrAttrs.{Asn1}
use aims_libest.CsrAttrs.Server.{handle_csr_attrs}
use aims_libest.Http.Request.{
  Reply, notify_start, give_up, finish, is_get_prefix, is_get, attrs_reply, is_post, answer_get,
  post, dispatch, parsed, http_request,
}
use aims_libest.Http.Request.Quiet.{
  server_handle_cacerts_quiet, notify_end_quiet, notify_start_quiet, answer_get_quiet,
  handle_csr_attrs_quiet,
}
use aims_libest.Http.Request.Enrolling.{op_of, Reached, AtMostOnce, enroll_calls}

module _ (o : Ossl) (a : Asn1) (bio : Bio) (csrattrs_present : Ctx → Bytes → Option X509 → Status)
    (g : Keygen) (ctx : Ctx) (ssl : Ssl) (method body : Bytes) (ct : Option Bytes) where
  refused :
      (conn : Conn) (r : Reply) (e : EstError)
      → r ≡ give_up ctx conn e
      → ca_calls r.conn.log ≡ ca_calls conn.log
  refused conn r e p = ap (λ x. ca_calls x.conn.log) p ∙ send_http_error_quiet ctx conn e

  answered :
      (conn : Conn) (r : Reply)
      → r ≡ answer_get (server_handle_cacerts ctx conn none)
      → ca_calls r.conn.log ≡ ca_calls conn.log
  answered conn r p =
      let (st, ctx', conn') = server_handle_cacerts ctx conn none in
      ap (λ x. ca_calls x.conn.log) p
      ∙ answer_get_quiet st ctx' conn'
      ∙ server_handle_cacerts_quiet ctx conn none

  attrs_answered :
      (conn : Conn) (r : Reply)
      → attrs_reply (handle_csr_attrs a bio ctx conn ssl.peer_certificate none) ≡ some r
      → ca_calls r.conn.log ≡ ca_calls conn.log
  attrs_answered conn r h =
      elim (Option-cases (handle_csr_attrs a bio ctx conn ssl.peer_certificate none)) [
        | inl q ↦ absurd (ground arith)
        | inr ((st, ctx', conn', returned), q) ↦
            let same : r ≡ answer_get (st, ctx', conn') = ground arith in
            ap (λ x. ca_calls x.conn.log) same
            ∙ answer_get_quiet st ctx' conn'
            ∙ handle_csr_attrs_quiet a bio ctx conn ssl.peer_certificate none _ q
      ]

  unknown_op :
      (conn : Conn) (r : Reply)
      → r ≡ finish ctx (send_http_error ctx conn unknown)
      → ca_calls r.conn.log ≡ ca_calls conn.log
  unknown_op conn r p =
      ap (λ x. ca_calls x.conn.log) p
      ∙ notify_end_quiet ctx (send_http_error ctx conn unknown)
      ∙ send_http_error_quiet ctx conn unknown

  post_calls :
      (conn : Conn) (req : EnrollReq) (r : Reply)
      → post o a bio csrattrs_present g ctx conn ssl method body ct req ≡ some r
      → AtMostOnce o a bio csrattrs_present g ctx ssl method body ct conn (op_of req) r
  unfolding post
  post_calls conn req r h = elim (Bool-cases (is_post method)) [
    | inr m ↦ inl (refused conn r wrong_method (ground arith))
    | inl m ↦ elim (Option-cases ct) [
      | inl c ↦ inl (refused conn r bad_content_type (ground arith))
      | inr (ct', c) ↦
          enroll_calls o a bio csrattrs_present g ctx ssl method body ct conn req ct' r m c
            (ground arith)
    ]
  ]

  dispatch_calls :
      (op : Operation) (conn : Conn) (r : Reply)
      → dispatch o a bio csrattrs_present g op ctx conn ssl method body ct ≡ some r
      → AtMostOnce o a bio csrattrs_present g ctx ssl method body ct conn op r
  unfolding dispatch
  dispatch_calls simple_enroll conn r h = post_calls conn simple_enroll_req r h
  dispatch_calls simple_reenroll conn r h = post_calls conn reenroll_req r h
  dispatch_calls server_keygen conn r h = post_calls conn serverkeygen_req r h
  dispatch_calls op_max conn r h = inl (unknown_op conn r (ground arith))
  dispatch_calls cacerts conn r h = elim (Bool-cases (is_get_prefix method)) [
    | inr m ↦ inl (refused conn r wrong_method (ground arith))
    | inl m ↦ inl (answered conn r (ground arith))
  ]
  dispatch_calls csrattrs conn r h = elim (Bool-cases (is_get method)) [
    | inr m ↦ inl (refused conn r wrong_method (ground arith))
    | inl m ↦ inl (attrs_answered conn r (ground arith))
  ]

  -- The request is rejected before its operation is known, or its operation is performed.
  http_request_cases :
      (conn : Conn) (uri : Bytes) (r : Reply)
      → http_request o a bio csrattrs_present g ctx conn (some ssl) method uri body ct ≡ some r
      → (r.conn ≡ conn)
        ⊎ ((e : EstError) × (r ≡ give_up ctx (notify_start ctx conn) e))
        ⊎ ((parse_uri uri ≡ ((parse_uri uri).0, none))
            × (dispatch o a bio csrattrs_present g
                  (parse_uri uri).0
                  ctx
                  (notify_start ctx conn)
                  ssl
                  method
                  body
                  ct
                ≡ some r))
  unfolding http_request parsed
  http_request_cases conn uri r h = elim (Bool-cases (is_server ctx.est_mode)) [
    | inr m ↦ inl (ground arith)
    | inl m ↦ elim (Option-cases (parse_uri uri).1) [
      | inl p ↦ inr (inr (ap (λ s. ((parse_uri uri).0, s)) p, ground arith))
      | inr (e, p) ↦ inr (inl (e, ground arith))
    ]
  ]

  -- Over HTTP the CA is asked at most once for a request, and only for a method that begins with
  -- POST, with a content type, on the URI of an enrolment or of the key generation, where, on a context whose transport is HTTP, the
  -- content type begins with that of PKCS 10, the authentication has authorized the client, and the CSR, or the one with the new key, has passed
  -- the checks: X509_REQ_verify with its own key answers more than 0, the client's certificate is a
  -- registration authority's or the CSR's challengePassword begins with the connection's TLS UID or the CSR
  -- has none and the server does not ask for one, and the CSR passes the check of the attributes, if
  -- enforced.
  pub http_request-Reached :
      (conn : Conn) (uri : Bytes) (r : Reply)
      → http_request o a bio csrattrs_present g ctx conn (some ssl) method uri body ct ≡ some r
      → (ca_calls r.conn.log ≡ ca_calls conn.log)
        ⊎ ((ca_calls r.conn.log ≡ suc (ca_calls conn.log))
            × ((op : Operation) × (uri ≡ uri_of op)
                × Reached o a bio csrattrs_present g ctx ssl method body ct
                    (notify_start ctx conn)
                    op))
  http_request-Reached conn uri r h =
      let q = notify_start_quiet ctx conn in
      let op = (parse_uri uri).0 in
      elim (http_request_cases conn uri r h) [
        | inl e ↦ inl (ap (λ x. ca_calls x.log) e)
        | inr (inl (e, p)) ↦ inl (refused (notify_start ctx conn) r e p ∙ q)
        | inr (inr (p, d)) ↦
            let u = ((parse_uri_iff uri op).0 p).1 in
            elim (dispatch_calls op (notify_start ctx conn) r d) [
              | inl t ↦ inl (t ∙ q)
              | inr (t, v) ↦ inr (t ∙ ap suc q, (op, u, v))
            ]
      ]
