-- ===== src/Examples/CoapRequests.antt =====
-- A run of the enrolment over CoAP.
use aims_libest.Prelude.{
  suc, ◌≡◌, ◌⊎◌, refl, Bytes, [], ◌∷◌, Option, none, some, true, codes, decimal,
}
use aims_libest.Api.{EnrollReq, coap}
use aims_libest.Ossl.{X509, Ssl}
use aims_libest.Context.{Ctx}
use aims_libest.Conn.{Conn, ca_calls}
use aims_libest.Safec.{strncmp, strcmp_s}
use aims_libest.AuthHeader.{parse_auth_header, check_credentials, starts_with_nocase, lowercase}
use aims_libest.Auth.Tls.{check_for_tls_cert_auth}
use aims_libest.Auth.ByCert.{parse_csr}
use aims_libest.Auth.Enroll.{enroll_auth, creds}
use aims_libest.Base64.{
  Bio, is_space, byte_at, padding, analyze, trim, max_in, checked_read, decode_trimmed,
  base64_decode, written, base64_encode,
}
use aims_libest.Enroll.Csr.{check_cmc_ra, has_cmc_ra, check_csr}
use aims_libest.Enroll.Handler.{
  Outcome, wrong_type, vet, authorized, vetted, call_ca, respond, handle_simple_enroll,
}
use aims_libest.Http.Request.{notify_req, notify_rsp}
use aims_libest.Coap.{CoapReq, Reqs, coap_bsearch_compare, with_key, get_coap_req}
use aims_libest.Coap.Blocks.{buf_len_max, copy, receive_whole, restart, receive_request}
use aims_libest.Coap.Handler.{
  CoapRequest, CoapReply, check_content_type, check_accept, request_of, enrolled, run_mode,
  enroll_csr, enroll_buffer, taken_in, new_payload, with_node, got_node, with_peer, sen_handler,
}
use aims_libest.Coap.Handler.Request.{IsPath, Brings}
use aims_libest.Coap.Handler.Asking.{AskedFor, sen_handler-AskedFor}
use aims_libest.Examples.Data.{ossl, ssl, conn, ctx, attributes}
use aims_libest.Examples.Sorting.{std, sort, search}

abbrev over_coap : Ctx
over_coap = record ctx { transport_mode = coap }

abbrev pub bio : Bio
bio = record {
  new = true;
  read = λ flag s n. some (5 ∷ 9 ∷ 7 ∷ []);
  write = λ flag s. some (codes "BwcH\n");
}

abbrev no_proxy : Ctx → Conn → Ssl → Bytes → EnrollReq → Option Outcome
no_proxy c k s b er = none

abbrev enrolment : CoapRequest
enrolment = record {
  uri_path = codes "est/sen";
  content_types = 286 ∷ [];
  accepts = 281 ∷ [];
  block1 = none;
  payload = 7 ∷ 7 ∷ 7 ∷ [];
  remote_addr = some (codes "10.0.0.1", 5683);
  tls = some ssl;
  is_last = true;
}

abbrev free_nodes : Reqs
free_nodes = record {
  coap_req_array = with_key [] ∷ with_key [] ∷ [];
  coap_req_cnt = 0;
  cur_max_coap_req_array = 2;
}

abbrev run : Option CoapReply
run = sen_handler ossl bio attributes std no_proxy over_coap enrolment free_nodes conn

abbrev given : Option CoapReply → CoapReply
given none = record { code = 0; reqs = free_nodes; conn = conn }
given (some r) = r

runs : run ≡ some (given run)
unfolding sen_handler with_peer check_content_type request_of strcmp_s strncmp get_coap_req
    coap_bsearch_compare sort search decimal got_node restart with_node new_payload check_accept
    receive_request receive_whole copy buf_len_max taken_in enroll_buffer base64_encode written
    enroll_csr notify_req notify_rsp run_mode handle_simple_enroll wrong_type enroll_auth
    check_for_tls_cert_auth creds parse_auth_header starts_with_nocase lowercase check_credentials
    parse_csr authorized vet check_csr check_cmc_ra has_cmc_ra vetted call_ca respond enrolled
    base64_decode analyze is_space byte_at trim max_in padding decode_trimmed checked_read
runs = refl

sen_handler-AskedFor_example :
    (ca_calls (given run).conn.log ≡ ca_calls conn.log)
    ⊎ ((ca_calls (given run).conn.log ≡ suc (ca_calls conn.log))
        × (enrolment.content_types ≡ 286 ∷ [])
        × ((ssl : Ssl) × (peer : X509) × (er : EnrollReq) × (cr : CoapReq) × (enrolment.tls
              ≡ some ssl)
            × (ssl.peer_certificate ≡ some peer)
            × IsPath enrolment.uri_path er cr
            × ((csr : Bytes) × Brings enrolment
                  (get_coap_req std free_nodes enrolment.remote_addr cr)
                  csr
                × AskedFor ossl bio attributes std no_proxy over_coap refl ssl peer er csr)))
sen_handler-AskedFor_example =
    sen_handler-AskedFor ossl bio attributes std no_proxy over_coap refl enrolment free_nodes conn
      (given run) runs

-- The request asks the CA once, and its certificate is answered.
run_asks : (ca_calls (given run).conn.log ≡ 1) × ((given run).code ≡ 204)
unfolding sen_handler with_peer check_content_type request_of strcmp_s strncmp get_coap_req
    coap_bsearch_compare sort search decimal got_node restart with_node new_payload check_accept
    receive_request receive_whole copy buf_len_max taken_in enroll_buffer base64_encode written
    enroll_csr notify_req notify_rsp run_mode handle_simple_enroll wrong_type enroll_auth
    check_for_tls_cert_auth creds parse_auth_header starts_with_nocase lowercase check_credentials
    parse_csr authorized vet check_csr check_cmc_ra has_cmc_ra vetted call_ca respond enrolled
    base64_decode analyze is_space byte_at trim max_in padding decode_trimmed checked_read
run_asks = (refl, refl)
