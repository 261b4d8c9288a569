-- ===== src/Coap/Handler.antt =====
-- src/est/est_server_coap.c: est_coap_check_option and est_coap_sen_handler, the enrolment over CoAP.
-- What libcoap reads of a request is `CoapRequest`; how it cuts a response into blocks is left to it.
-- The enrolment of a proxy is a parameter. The timers, which only log, and failures of malloc are left
-- out, and so is a CoAP context without an EST context.
pub mod Request
pub mod Asking
use aims_libest.Prelude.{
  ℕ, ◌*◌, Bytes, List, [], ◌∷◌, Option, none, some, Bool, true, false, not, ◌&&◌, min,
  if◌then◌else◌, ltb, ◌==◌, length, get_elem?, is_zero, codes,
}
use aims_libest.Api.{
  EstError, Status, bad_content_type, http_bad_req, http_unsupported, bad_pkcs10, csr_attr_missing,
  no_ssl_ctx, http_no_content, http_not_found, auth_fail_tlsuid, ca_enroll_retry, http_locked,
  ip_connect, EnrollReq, simple_enroll_req, reenroll_req, Mode, client, server, proxy,
}
use aims_libest.Api
use aims_libest.Ossl.{X509, Ssl, Ossl}
use aims_libest.Context.{Ctx}
use aims_libest.Conn.{Conn}
use aims_libest.Safec.{strcmp_s}
use aims_libest.Base64.{Bio, base64_decode, Encoded, refused, fits, overruns, base64_encode}
use aims_libest.Stdlib.{Stdlib}
use aims_libest.Enroll.Handler.{Outcome, handle_simple_enroll}
use aims_libest.Http.Request.{notify_start, notify_end, notify_req, notify_rsp}
use aims_libest.Coap.{CoapReq, sen, sren, Node, Reqs, set_node, get_coap_req}
use aims_libest.Coap.Blocks.{
  buf_len_max, Block, Received, more, whole, refuse, is_begun, restart, receive_request,
}

pub record CoapRequest : Type 0 where
  -- resource->uri_path
  pub uri_path : Bytes
  -- the values of the options COAP_OPTION_CONTENT_TYPE and COAP_OPTION_ACCEPT, in their order
  pub content_types : List ℕ
  pub accepts : List ℕ
  pub block1 : Option Block
  pub payload : Bytes
  -- session->remote_addr, as est_invoke_enroll_get_ip_port reads it
  pub remote_addr : Option (Bytes × ℕ)
  -- session->tls
  pub tls : Option Ssl
  -- no block of the response comes after this one
  pub is_last : Bool

pub record CoapReply : Type 0 where
  pub code : ℕ
  pub reqs : Reqs
  pub conn : Conn

-- est_coap_check_option for a content type, and for an Accept
unfoldable pub check_content_type : ℕ → List ℕ → Status
check_content_type media [] = some bad_content_type
check_content_type media (v ∷ vs) =
    if not (v == media)
    then if ltb 65535 v then some bad_content_type else some http_bad_req
    else elim vs [ [] ↦ none | w ∷ ws ↦ some bad_content_type ]

unfoldable pub check_accept : ℕ → List ℕ → Status
check_accept media [] = none
check_accept media (v ∷ vs) =
    if not (v == media)
    then if ltb 65535 v then some bad_content_type else some http_unsupported
    else elim vs [ [] ↦ none | w ∷ ws ↦ some bad_content_type ]

-- the code of a failed check
abbrev pub option_code : EstError → ℕ
option_code bad_content_type = 402
option_code http_bad_req = 400
option_code http_unsupported = 406
option_code _ = 500

abbrev pub matches : Bytes → Bytes → Bool
matches uri name = elim (strcmp_s uri (length uri) name) [ none ↦ false | some d ↦ is_zero d ]

unfoldable pub request_of : Bytes → Option (EnrollReq × CoapReq)
request_of uri =
    if matches uri (codes "est/sen")
    then some (simple_enroll_req, sen)
    else if matches uri (codes "est/sren")
    then some (reenroll_req, sren)
    else none

-- the code that an error of the enrolment becomes
unfoldable pub enroll_code : EstError → ℕ
enroll_code bad_pkcs10 = 400
enroll_code csr_attr_missing = 400
enroll_code http_bad_req = 400
enroll_code no_ssl_ctx = 400
enroll_code http_no_content = 204
enroll_code http_not_found = 404
enroll_code auth_fail_tlsuid = 401
enroll_code Api.EstError.auth_fail = 401
enroll_code http_unsupported = 502
enroll_code ca_enroll_retry = 503
enroll_code http_locked = 503
enroll_code ip_connect = 504
enroll_code _ = 500

-- error_exit
abbrev pub fail : Ctx → ℕ → Reqs → Conn → CoapReply
fail ctx code reqs conn = record { code = code; reqs = reqs; conn = notify_end ctx conn }

abbrev pub send_response : Ctx → Bool → Reqs → Conn → CoapReply
send_response ctx is_last reqs conn = record {
  code = 204;
  reqs = reqs;
  conn = if is_last then notify_end ctx conn else conn;
}

abbrev pub keep_response :
    Ctx → CoapRequest → Reqs → ℕ → Node → Conn → Option Bytes → Option CoapReply
keep_response ctx req reqs i node conn none = none
keep_response ctx req reqs i node conn (some []) = some (fail ctx 500 reqs conn)
keep_response ctx req reqs i node conn (some (c ∷ der)) =
    some (send_response ctx req.is_last (set_node reqs i (record node { resp_buf = c ∷ der })) conn)

abbrev pub cert_of : Option Bytes → Bytes
cert_of none = []
cert_of (some cert) = cert

-- what the enrolment has returned; the certificate is decoded into the node
unfoldable pub enrolled :
    Bio → Ctx → CoapRequest → Reqs → ℕ → Node → Conn → Status → Option Bytes → Option CoapReply
unfolding buf_len_max
enrolled bio ctx req reqs i node conn (some e) cert = some (fail ctx (enroll_code e) reqs conn)
enrolled bio ctx req reqs i node conn none cert =
    keep_response ctx req reqs i node conn
      (base64_decode bio (cert_of cert) (min (length (cert_of cert)) buf_len_max))

module _ (o : Ossl) (bio : Bio) (csrattrs : Ctx → Bytes → Option X509 → Status) (std : Stdlib Node)
    (proxy_enroll : Ctx → Conn → Ssl → Bytes → EnrollReq → Option Outcome) where
  -- the handler of the mode; the inner `none` is a mode without one
  unfoldable pub run_mode :
      Mode → Ctx → Conn → Ssl → X509 → Bytes → EnrollReq → Option (Option Outcome)
  run_mode server ctx conn ssl peer b64 er =
      elim (handle_simple_enroll o csrattrs ctx conn ssl (some peer) [] b64 none er true) [
        | none ↦ none
        | some r ↦ some (some r)
      ]
  run_mode proxy ctx conn ssl peer b64 er = elim (proxy_enroll ctx conn ssl b64 er) [
    | none ↦ none
    | some r ↦ some (some r)
  ]
  run_mode client ctx conn ssl peer b64 er = some none

  -- the CSR in base64
  unfoldable pub enroll_csr :
      Ctx
      → CoapRequest
      → Reqs
      → ℕ
      → Node
      → Ssl
      → X509
      → EnrollReq
      → Conn
      → Encoded
      → Option CoapReply
  unfolding run_mode
  enroll_csr ctx req reqs i node ssl peer er conn refused = some (fail ctx 500 reqs conn)
  enroll_csr ctx req reqs i node ssl peer er conn (overruns text) = none
  enroll_csr ctx req reqs i node ssl peer er conn (fits b64) =
      let conn1 = notify_req o ctx node.req_buf er conn in
      elim (run_mode ctx.est_mode ctx conn1 ssl peer b64 er) [
        | none ↦ none
        | some none ↦ some (fail ctx 500 reqs conn1)
        | some (some r) ↦
            enrolled bio ctx req reqs i node (notify_rsp o ctx node.req_buf er r.status r.conn)
              r.status r.cert
      ]

  -- the whole payload is there
  unfoldable pub enroll_buffer :
      Ctx → CoapRequest → Reqs → ℕ → Node → Ssl → X509 → EnrollReq → Conn → Option CoapReply
  unfolding enroll_csr
  enroll_buffer ctx req reqs i node ssl peer er conn =
      if length node.req_buf == 0
      then some (fail ctx 400 reqs conn)
      else enroll_csr ctx req reqs i node ssl peer er conn
          (base64_encode bio node.req_buf (length node.req_buf * 2) true)

  unfoldable pub taken_in :
      Ctx
      → CoapRequest
      → Reqs
      → ℕ
      → Ssl
      → X509
      → EnrollReq
      → Conn
      → Option Received
      → Option CoapReply
  unfolding enroll_buffer
  taken_in ctx req reqs i ssl peer er conn none = none
  taken_in ctx req reqs i ssl peer er conn (some (more node)) =
      some (record { code = 231; reqs = set_node reqs i node; conn = conn })
  taken_in ctx req reqs i ssl peer er conn (some (refuse code node)) =
      some (fail ctx code (set_node reqs i node) conn)
  taken_in ctx req reqs i ssl peer er conn (some (whole node)) =
      enroll_buffer ctx req (set_node reqs i node) i node ssl peer er conn

  -- a node without a response takes the payload in
  unfoldable pub new_payload :
      Ctx → CoapRequest → Reqs → ℕ → Node → Ssl → X509 → EnrollReq → Conn → Option CoapReply
  unfolding taken_in
  new_payload ctx req reqs i node ssl peer er conn =
      let conn1 = if is_begun node.req_buf then conn else notify_start ctx conn in
      elim (check_accept 281 req.accepts) [
        | some e ↦ some (fail ctx (option_code e) reqs conn1)
        | none ↦
            taken_in ctx req reqs i ssl peer er conn1 (receive_request req.block1 req.payload node)
      ]

  unfoldable pub with_node :
      Ctx → CoapRequest → Reqs → ℕ → Node → Ssl → X509 → EnrollReq → Conn → Option CoapReply
  unfolding new_payload
  with_node ctx req reqs i node ssl peer er conn =
      if is_begun node.resp_buf
      then some (send_response ctx req.is_last reqs conn)
      else new_payload ctx req reqs i node ssl peer er conn

  unfoldable pub got_node :
      Ctx
      → CoapRequest
      → Ssl
      → X509
      → EnrollReq
      → CoapReq
      → Conn
      → Option ℕ × Reqs
      → Option CoapReply
  unfolding with_node
  got_node ctx req ssl peer er cr conn (none, reqs) = some (fail ctx 500 reqs conn)
  got_node ctx req ssl peer er cr conn (some i, reqs) = elim (get_elem? reqs.coap_req_array i) [
    | none ↦ none
    | some node ↦
        let node' = restart cr req.block1 req.payload node in
        with_node ctx req (set_node reqs i node') i node' ssl peer er conn
  ]

  unfoldable pub with_peer : Ctx → CoapRequest → Reqs → Conn → Ssl → X509 → Option CoapReply
  unfolding got_node
  with_peer ctx req reqs conn ssl peer = elim (request_of req.uri_path) [
    | none ↦ some (fail ctx 500 reqs conn)
    | some (er, cr) ↦
        got_node ctx req ssl peer er cr conn (get_coap_req std reqs req.remote_addr cr)
  ]

  -- `none` is an access out of bounds, or a call of a NULL callback.
  unfoldable pub sen_handler : Ctx → CoapRequest → Reqs → Conn → Option CoapReply
  unfolding with_peer
  sen_handler ctx req reqs conn = elim (check_content_type 286 req.content_types) [
    | some e ↦ some (record { code = option_code e; reqs = reqs; conn = conn })
    | none ↦ elim req.tls [
      | none ↦ some (fail ctx 401 reqs conn)
      | some ssl ↦ elim ssl.peer_certificate [
        | none ↦ some (fail ctx 401 reqs conn)
        | some peer ↦ with_peer ctx req reqs conn ssl peer
      ]
    ]
  ]
