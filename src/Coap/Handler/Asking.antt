-- ===== src/Coap/Handler/Asking.antt =====
-- src/est/est_server_coap.c: which requests of the enrolment over CoAP reach the CA.
use aims_libest.Prelude.{
  ℕ, suc, ◌*◌, ◌≡◌, ◌≢◌, ◌⊎◌, inl, inr, refl, sym, ap, ◌∙◌, Bytes, [], ◌∷◌, Option, none, some,
  Bool, true, false, if◌then◌else◌, ◌==◌, length, get_elem?, arith, Bool-cases, Option-cases,
}
use aims_libest.Api.{Status, EnrollReq, server}
use aims_libest.Ossl.{X509, Ssl, Ossl}
use aims_libest.Context.{Ctx}
use aims_libest.Conn.{Conn, ca_calls}
use aims_libest.Base64.{Bio, Encoded, refused, fits, overruns, base64_encode}
use aims_libest.Stdlib.{Stdlib}
use aims_libest.Enroll.Handler.{Outcome, handle_simple_enroll}
use aims_libest.Enroll.Vetting.{Vetted, handle_simple_enroll-Vetted}
use aims_libest.Http.Request.{notify_start, notify_req, notify_rsp}
use aims_libest.Http.Request.Quiet.{
  notify_start_quiet, notify_end_quiet, notify_req_quiet, notify_rsp_quiet,
}
use aims_libest.Coap.{CoapReq, Node, Reqs, set_node, get_coap_req}
use aims_libest.Coap.Blocks.{Received, more, whole, refuse, is_begun, restart, receive_request}
use aims_libest.Coap.Handler.Request.{
  check_content_type-only, IsPath, request_of-IsPath, restart_brings, Brings,
}
use aims_libest.Coap.Handler.{
  CoapRequest, CoapReply, check_content_type, check_accept, option_code, request_of, fail,
  send_response, keep_response, enrolled, run_mode, enroll_csr, enroll_buffer, taken_in,
  new_payload, with_node, got_node, with_peer, sen_handler,
}

fail_quiet :
    (ctx : Ctx) (code : ℕ) (reqs : Reqs) (conn : Conn)
    → ca_calls (fail ctx code reqs conn).conn.log ≡ ca_calls conn.log
fail_quiet ctx code reqs conn = notify_end_quiet ctx conn

failed :
    (ctx : Ctx) (code : ℕ) (reqs : Reqs) (conn : Conn) (r : CoapReply)
    → some (fail ctx code reqs conn) ≡ some r
    → ca_calls r.conn.log ≡ ca_calls conn.log
failed ctx code reqs conn r h =
    let same : r ≡ fail ctx code reqs conn = cc in
    ap (λ x. ca_calls x.conn.log) same ∙ notify_end_quiet ctx conn

sent :
    (ctx : Ctx) (is_last : Bool) (reqs : Reqs) (conn : Conn) (r : CoapReply)
    → some (send_response ctx is_last reqs conn) ≡ some r
    → ca_calls r.conn.log ≡ ca_calls conn.log
sent ctx is_last reqs conn r h =
    let same : r ≡ send_response ctx is_last reqs conn = cc in
    ap (λ x. ca_calls x.conn.log) same
    ∙ elim (Bool-cases is_last) [ inl b ↦ rw b (notify_end_quiet ctx conn) | inr b ↦ rw b refl ]

kept :
    (ctx : Ctx) (req : CoapRequest) (reqs : Reqs) (i : ℕ) (node : Node) (conn : Conn)
    (der : Option Bytes) (r : CoapReply)
    → keep_response ctx req reqs i node conn der ≡ some r
    → ca_calls r.conn.log ≡ ca_calls conn.log
kept ctx req reqs i node conn none r h = absurd (ground arith)
kept ctx req reqs i node conn (some []) r h = failed ctx 500 reqs conn r h
kept ctx req reqs i node conn (some (c ∷ der)) r h = sent ctx req.is_last _ conn r h

enrolled_quiet :
    (bio : Bio) (ctx : Ctx) (req : CoapRequest) (reqs : Reqs) (i : ℕ) (node : Node) (conn : Conn)
    (st : Status) (cert : Option Bytes) (r : CoapReply)
    → enrolled bio ctx req reqs i node conn st cert ≡ some r
    → ca_calls r.conn.log ≡ ca_calls conn.log
unfolding enrolled
enrolled_quiet bio ctx req reqs i node conn (some e) cert r h = failed ctx _ reqs conn r h
enrolled_quiet bio ctx req reqs i node conn none cert r h = kept ctx req reqs i node conn _ r h

module _ (o : Ossl) (bio : Bio) (csrattrs : Ctx → Bytes → Option X509 → Status) (std : Stdlib Node)
    (proxy_enroll : Ctx → Conn → Ssl → Bytes → EnrollReq → Option Outcome) (ctx : Ctx)
    (is_server : ctx.est_mode ≡ server) where
  -- The enrolment that asked the CA, with what the handler has seen of its CSR.
  pub record AskedFor (ssl : Ssl) (peer : X509) (er : EnrollReq) (csr : Bytes) : Type 0 where
    pub b64 : Bytes
    pub conn : Conn
    pub outcome : Outcome
    pub not_empty : csr ≢ []
    pub encoded : base64_encode bio csr (length csr * 2) true ≡ fits b64
    pub vetted : Vetted o csrattrs ctx ssl (some peer) b64 none [] conn er outcome

  abbrev AtMostOnce : Ssl → X509 → EnrollReq → (Bytes → Type 0) → Conn → CoapReply → Type 0
  AtMostOnce ssl peer er IsFrom conn r =
      (ca_calls r.conn.log ≡ ca_calls conn.log)
      ⊎ ((ca_calls r.conn.log ≡ suc (ca_calls conn.log))
          × ((csr : Bytes) × IsFrom csr × AskedFor ssl peer er csr))

  module _ (ssl : Ssl) (peer : X509) (er : EnrollReq) (req : CoapRequest) (r : CoapReply)
      (IsFrom : Bytes → Type 0) where
    fits_calls :
        (reqs : Reqs) (i : ℕ) (node : Node) (conn : Conn) (b64 : Bytes)
        → IsFrom node.req_buf
        → node.req_buf ≢ []
        → base64_encode bio node.req_buf (length node.req_buf * 2) true ≡ fits b64
        → enroll_csr o bio csrattrs std proxy_enroll ctx req reqs i node ssl peer er conn (fits b64)
          ≡ some r
        → AtMostOnce ssl peer er IsFrom conn r
    unfolding enroll_csr run_mode
    fits_calls reqs i node conn b64 from n e h =
        let conn1 = notify_req o ctx node.req_buf er conn in
        let q = notify_req_quiet o ctx node.req_buf er conn in
        elim (Option-cases
          (handle_simple_enroll o csrattrs ctx conn1 ssl (some peer) [] b64 none er true)) [
            | inl z ↦ absurd (ground arith)
            | inr (out, z) ↦
                let conn2 = notify_rsp o ctx node.req_buf er out.status out.conn in
                let w : enrolled bio ctx req reqs i node conn2 out.status out.cert ≡ some r =
                  ground arith in
                let t =
                  enrolled_quiet bio ctx req reqs i node conn2 out.status out.cert r w
                  ∙ notify_rsp_quiet o ctx node.req_buf er out.status out.conn in
                elim (handle_simple_enroll-Vetted o csrattrs ctx ssl (some peer) b64 none [] true
                  conn1 er out z) [
                    | inl u ↦ inl (t ∙ u ∙ q)
                    | inr (u, v) ↦ inr (
                      t ∙ u ∙ ap suc q,
                      (
                        node.req_buf,
                        from,
                        record {
                          b64 = b64;
                          conn = conn1;
                          outcome = out;
                          not_empty = n;
                          encoded = e;
                          vetted = v;
                        },
                      ),
                    )
                  ]
          ]

    csr_calls :
        (reqs : Reqs) (i : ℕ) (node : Node) (conn : Conn) (e : Encoded)
        → IsFrom node.req_buf
        → node.req_buf ≢ []
        → base64_encode bio node.req_buf (length node.req_buf * 2) true ≡ e
        → enroll_csr o bio csrattrs std proxy_enroll ctx req reqs i node ssl peer er conn e ≡ some r
        → AtMostOnce ssl peer er IsFrom conn r
    csr_calls reqs i node conn refused from n q h =
        inl (unfold enroll_csr in failed ctx 500 reqs conn r h)
    csr_calls reqs i node conn (overruns t) from n q h = absurd (unfold enroll_csr in ground arith)
    csr_calls reqs i node conn (fits b64) from n q h = fits_calls reqs i node conn b64 from n q h

    buffer_calls :
        (reqs : Reqs) (i : ℕ) (node : Node) (conn : Conn)
        → IsFrom node.req_buf
        → enroll_buffer o bio csrattrs std proxy_enroll ctx req reqs i node ssl peer er conn
          ≡ some r
        → AtMostOnce ssl peer er IsFrom conn r
    unfolding enroll_buffer
    buffer_calls reqs i node conn from h = elim (Bool-cases (length node.req_buf == 0)) [
      | inl z ↦ inl (failed ctx 400 reqs conn r (ground arith))
      | inr z ↦
          csr_calls reqs i node conn _ from (λ e. let l = ap length e in ground arith) refl
            (ground arith)
    ]

    taken_calls :
        (reqs : Reqs) (i : ℕ) (conn : Conn) (t : Option Received)
        → ((node : Node) → t ≡ some (whole node) → IsFrom node.req_buf)
        → taken_in o bio csrattrs std proxy_enroll ctx req reqs i ssl peer er conn t ≡ some r
        → AtMostOnce ssl peer er IsFrom conn r
    unfolding taken_in
    taken_calls reqs i conn none from h = absurd (ground arith)
    taken_calls reqs i conn (some (more node)) from h =
        let same : record { code = 231; reqs = set_node reqs i node; conn = conn } ≡ r = cc in
        inl (ap (λ x. ca_calls x.conn.log) (sym same))
    taken_calls reqs i conn (some (refuse code node)) from h = inl (failed ctx code _ conn r h)
    taken_calls reqs i conn (some (whole node)) from h =
        buffer_calls (set_node reqs i node) i node conn (from node refl) h

    start_quiet :
        (b : Bool) (conn : Conn)
        → ca_calls (if b then conn else notify_start ctx conn).log ≡ ca_calls conn.log
    start_quiet true conn = refl
    start_quiet false conn = notify_start_quiet ctx conn

    new_calls :
        (reqs : Reqs) (i : ℕ) (node : Node) (conn : Conn)
        → ((got : Node)
            → receive_request req.block1 req.payload node ≡ some (whole got)
            → IsFrom got.req_buf)
        → new_payload o bio csrattrs std proxy_enroll ctx req reqs i node ssl peer er conn ≡ some r
        → AtMostOnce ssl peer er IsFrom conn r
    unfolding new_payload
    new_calls reqs i node conn from h =
        let conn1 = if is_begun node.req_buf then conn else notify_start ctx conn in
        let q = start_quiet (is_begun node.req_buf) conn in
        elim (Option-cases (check_accept 281 req.accepts)) [
          | inr (e, z) ↦ inl (failed ctx (option_code e) reqs conn1 r (ground arith) ∙ q)
          | inl z ↦
              elim (taken_calls reqs i conn1 (receive_request req.block1 req.payload node) from
                (ground arith)) [ inl u ↦ inl (u ∙ q) | inr (u, v) ↦ inr (u ∙ ap suc q, v) ]
        ]

    node_calls :
        (cr : CoapReq) (conn : Conn) (found : Option ℕ × Reqs)
        → ((csr : Bytes) → Brings req found csr → IsFrom csr)
        → got_node o bio csrattrs std proxy_enroll ctx req ssl peer er cr conn found ≡ some r
        → AtMostOnce ssl peer er IsFrom conn r
    unfolding got_node with_node
    node_calls cr conn (none, reqs) from h = inl (failed ctx 500 reqs conn r h)
    node_calls cr conn (some i, reqs) from h =
        elim (Option-cases (get_elem? reqs.coap_req_array i)) [
          | inl z ↦ absurd (ground arith)
          | inr (node, z) ↦
              let node' = restart cr req.block1 req.payload node in
              elim (Bool-cases (is_begun node'.resp_buf)) [
                | inl b ↦ inl (sent ctx req.is_last (set_node reqs i node') conn r (ground arith))
                | inr b ↦
                    new_calls (set_node reqs i node') i node' conn
                      (λ got k.
                        from got.req_buf
                          (i, node, refl, z, restart_brings cr req.block1 req.payload node got k))
                      (ground arith)
              ]
        ]

  -- Over CoAP a server asks the CA at most once for a request, and only for one with the content type
  -- of PKCS 10 alone, on a path that is not empty and with which est/sen or est/sren begins, from a client
  -- with a certificate, with a CSR that is not empty and fits its buffer in base64, after all the checks of
  -- the handler that HTTP has too. The CSR is the request's payload, or what the node that get_coap_req finds
  -- holds, with the payload as its last block behind it or, if that block is empty or begins before the
  -- end of the buffer, alone.
  pub sen_handler-AskedFor :
      (req : CoapRequest) (reqs : Reqs) (conn : Conn) (r : CoapReply)
      → sen_handler o bio csrattrs std proxy_enroll ctx req reqs conn ≡ some r
      → (ca_calls r.conn.log ≡ ca_calls conn.log)
        ⊎ ((ca_calls r.conn.log ≡ suc (ca_calls conn.log))
            × (req.content_types ≡ 286 ∷ [])
            × ((ssl : Ssl) × (peer : X509) × (er : EnrollReq) × (cr : CoapReq) × (req.tls
                  ≡ some ssl)
                × (ssl.peer_certificate ≡ some peer)
                × IsPath req.uri_path er cr
                × ((csr : Bytes) × Brings req (get_coap_req std reqs req.remote_addr cr) csr
                    × AskedFor ssl peer er csr)))
  unfolding sen_handler with_peer
  sen_handler-AskedFor req reqs conn r h =
      elim (Option-cases (check_content_type 286 req.content_types)) [
        | inr (e, c) ↦ inl (ground arith)
        | inl c ↦ elim (Option-cases req.tls) [
          | inl s ↦ inl (failed ctx 401 reqs conn r (ground arith))
          | inr (ssl, s) ↦ elim (Option-cases ssl.peer_certificate) [
            | inl p ↦ inl (failed ctx 401 reqs conn r (ground arith))
            | inr (peer, p) ↦ elim (Option-cases (request_of req.uri_path)) [
              | inl u ↦ inl (failed ctx 500 reqs conn r (ground arith))
              | inr ((er, cr), u) ↦
                  let found = get_coap_req std reqs req.remote_addr cr in
                  elim (node_calls ssl peer er req r (Brings req found) cr conn found (λ csr b. b)
                    (ground arith)) [
                      | inl k ↦ inl k
                      | inr (k, v) ↦ inr (
                        k,
                        check_content_type-only 286 req.content_types c,
                        (ssl, peer, er, cr, s, p, request_of-IsPath req.uri_path er cr u, v),
                      )
                    ]
            ]
          ]
        ]
      ]
