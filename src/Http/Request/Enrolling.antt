-- ===== src/Http/Request/Enrolling.antt =====
-- src/est/est_server.c: which enrolments over HTTP reach the CA.
use aims_libest.Prelude.{
  suc, Bytes, Option, none, some, true, ◌≡◌, ◌≢◌, refl, sym, ◌∙◌, ap, ◌⊎◌, inl, inr, arith, take,
  codes, Option-cases,
}
use aims_libest.Api.{
  Status, Operation, simple_enroll, simple_reenroll, server_keygen, EnrollReq, simple_enroll_req,
  reenroll_req, serverkeygen_req,
}
use aims_libest.Safec.{strncmp_iff}
use aims_libest.Ossl.{X509, Ssl, Ossl}
use aims_libest.Context.{Ctx}
use aims_libest.Conn.{Conn, ca_calls}
use aims_libest.Enroll.Handler.{Outcome, handle_simple_enroll}
use aims_libest.Enroll.Keygen.{KeygenOutcome, Keygen, handle_server_keygen}
use aims_libest.Enroll.Keygen.Vetting.{KeyVetted, handle_server_keygen-KeyVetted}
use aims_libest.Enroll.Vetting.{Vetted, handle_simple_enroll-Vetted}
use aims_libest.Base64.{Bio}
use aims_libest.CsrAttrs.{Asn1}
use aims_libest.Http.Request.{
  Reply, notify_req, notify_rsp, is_post, returned_cert, run_enroll, enroll_end, enroll,
}
use aims_libest.Http.Request.Quiet.{notify_req_quiet, notify_rsp_quiet, answer_enroll_quiet}

is_post-method : (method : Bytes) → is_post method ≡ true → take 4 method ≡ codes "POST"
is_post-method method h = (strncmp_iff 4 method (codes "POST")).0 (ground arith)

-- the operation that an enrolment belongs to
abbrev pub op_of : EnrollReq → Operation
op_of simple_enroll_req = simple_enroll
op_of reenroll_req = simple_reenroll
op_of serverkeygen_req = server_keygen

module _ (o : Ossl) (a : Asn1) (bio : Bio) (csrattrs_present : Ctx → Bytes → Option X509 → Status)
    (g : Keygen) (ctx : Ctx) (ssl : Ssl) (method body : Bytes) (ct : Option Bytes) where
  -- The request that reached the CA, with all that was checked.
  pub record Reached (conn : Conn) (op : Operation) : Type 0 where
    pub req : EnrollReq
    pub operation : op ≡ op_of req
    pub method_is_post : take 4 method ≡ codes "POST"
    pub content_type : Bytes
    pub has_content_type : ct ≡ some content_type
    pub outcome : Outcome
    pub vetted :
        Vetted o csrattrs_present ctx ssl ssl.peer_certificate body none content_type
          (notify_req o ctx body req conn)
          req
          outcome
        ⊎ ((req ≡ serverkeygen_req)
            × KeyVetted o bio csrattrs_present g ctx ssl ssl.peer_certificate body none content_type
                (notify_req o ctx body req conn))

  -- The CA is asked no more, or once.
  abbrev pub AtMostOnce : Conn → Operation → Reply → Type 0
  AtMostOnce conn op r =
      (ca_calls r.conn.log ≡ ca_calls conn.log)
      ⊎ ((ca_calls r.conn.log ≡ suc (ca_calls conn.log)) × Reached conn op)

  -- An enrolment runs the handler and then answers.
  enroll_cases :
      (conn : Conn) (req : EnrollReq) (ct' : Bytes) (r : Reply)
      → enroll o a bio csrattrs_present g ctx conn ssl ct' body req ≡ some r
      → (out : Outcome) × (run_enroll o a bio csrattrs_present g ctx
            (notify_req o ctx body req conn)
            ssl
            ct'
            body
            req
          ≡ some out)
        × (r ≡ enroll_end o a bio csrattrs_present g ctx body req out)
  unfolding enroll
  enroll_cases conn req ct' r h =
      elim (Option-cases (
        run_enroll o a bio csrattrs_present g ctx (notify_req o ctx body req conn) ssl ct' body
          req)) [ inl z ↦ absurd (ground arith) | inr (out, z) ↦ (out, z, ground arith) ]

  runs_simple :
      (conn : Conn) (req : EnrollReq) (ct' : Bytes)
      → req ≢ serverkeygen_req
      → run_enroll o a bio csrattrs_present g ctx conn ssl ct' body req
        ≡ handle_simple_enroll o csrattrs_present ctx conn ssl ssl.peer_certificate ct' body none
            req true
  unfolding run_enroll
  runs_simple conn simple_enroll_req ct' k = refl
  runs_simple conn reenroll_req ct' k = refl
  runs_simple conn serverkeygen_req ct' k = absurd (k refl)

  enroll_end_quiet :
      (req : EnrollReq) (out : Outcome)
      → ca_calls (enroll_end o a bio csrattrs_present g ctx body req out).conn.log
        ≡ ca_calls out.conn.log
  unfolding enroll_end
  enroll_end_quiet req out =
      answer_enroll_quiet ctx out.status (notify_rsp o ctx body req out.status out.conn)
      ∙ notify_rsp_quiet o ctx body req out.status out.conn

  simple_calls :
      (conn : Conn) (req : EnrollReq) (ct' : Bytes) (r : Reply)
      → req ≢ serverkeygen_req
      → is_post method ≡ true
      → ct ≡ some ct'
      → enroll o a bio csrattrs_present g ctx conn ssl ct' body req ≡ some r
      → AtMostOnce conn (op_of req) r
  simple_calls conn req ct' r k m c h =
      let (out, z, e) = enroll_cases conn req ct' r h in
      let s = sym (runs_simple (notify_req o ctx body req conn) req ct' k) ∙ z in
      let q = notify_req_quiet o ctx body req conn in
      let t = ap (λ x. ca_calls x.conn.log) e ∙ enroll_end_quiet req out in
      elim (handle_simple_enroll-Vetted o csrattrs_present ctx ssl ssl.peer_certificate body none
        ct' true (notify_req o ctx body req conn) req out s) [
          | inl u ↦ inl (t ∙ u ∙ q)
          | inr (u, v) ↦ inr (
            t ∙ u ∙ ap suc q,
            record {
              req = req;
              operation = refl;
              method_is_post = is_post-method method m;
              content_type = ct';
              has_content_type = c;
              outcome = out;
              vetted = inl v;
            },
          )
        ]

  keygen_out :
      (conn : Conn) (ct' : Bytes) (out : Outcome)
      → returned_cert (
          handle_server_keygen o bio csrattrs_present g ctx conn ssl ssl.peer_certificate ct' body
            none)
        ≡ some out
      → (r : KeygenOutcome) × (handle_server_keygen o bio csrattrs_present g ctx conn ssl
            ssl.peer_certificate ct' body none
          ≡ some r)
        × (out.conn ≡ r.conn)
  keygen_out conn ct' out h =
      elim (Option-cases (
        handle_server_keygen o bio csrattrs_present g ctx conn ssl ssl.peer_certificate ct' body
          none)) [ inl z ↦ absurd (ground arith) | inr (r, z) ↦ (r, z, ground arith) ]

  keygen_calls :
      (conn : Conn) (ct' : Bytes) (r : Reply)
      → is_post method ≡ true
      → ct ≡ some ct'
      → enroll o a bio csrattrs_present g ctx conn ssl ct' body serverkeygen_req ≡ some r
      → AtMostOnce conn server_keygen r
  unfolding run_enroll
  keygen_calls conn ct' r m c h =
      let (out, z, e) = enroll_cases conn serverkeygen_req ct' r h in
      let (k, y, w) = keygen_out (notify_req o ctx body serverkeygen_req conn) ct' out z in
      let q = notify_req_quiet o ctx body serverkeygen_req conn in
      let t =
        ap (λ x. ca_calls x.conn.log) e
        ∙ enroll_end_quiet serverkeygen_req out
        ∙ ap (λ x. ca_calls x.log) w in
      elim (handle_server_keygen-KeyVetted o bio csrattrs_present g ctx ssl ssl.peer_certificate
        body none (notify_req o ctx body serverkeygen_req conn) ct' k y) [
          | inl u ↦ inl (t ∙ u ∙ q)
          | inr (u, v) ↦ inr (
            t ∙ u ∙ ap suc q,
            record {
              req = serverkeygen_req;
              operation = refl;
              method_is_post = is_post-method method m;
              content_type = ct';
              has_content_type = c;
              outcome = out;
              vetted = inr (refl, v);
            },
          )
        ]

  pub enroll_calls :
      (conn : Conn) (req : EnrollReq) (ct' : Bytes) (r : Reply)
      → is_post method ≡ true
      → ct ≡ some ct'
      → enroll o a bio csrattrs_present g ctx conn ssl ct' body req ≡ some r
      → AtMostOnce conn (op_of req) r
  enroll_calls conn simple_enroll_req ct' r m c h =
      simple_calls conn simple_enroll_req ct' r (λ e. cc) m c h
  enroll_calls conn reenroll_req ct' r m c h = simple_calls conn reenroll_req ct' r (λ e. cc) m c h
  enroll_calls conn serverkeygen_req ct' r m c h = keygen_calls conn ct' r m c h
