-- ===== src/Examples/Requests.antt =====
-- Runs of the HTTP front end.
use aims_libest.Prelude.{
  suc, ◌≤◌, Option, none, some, ◌≡◌, ◌≢◌, ◌↔◌, ◌⊎◌, refl, starts_with, decimal, codes,
}
use aims_libest.Api.{
  client, Operation, simple_enroll, op_max, auth_fail, ca_enroll_retry, http_no_content,
}
use aims_libest.Conn.{ca_calls, mg_write}
use aims_libest.Safec.{strncmp}
use aims_libest.AuthHeader.{parse_auth_header, check_credentials, starts_with_nocase, lowercase}
use aims_libest.Auth.Tls.{check_for_tls_cert_auth}
use aims_libest.Auth.ByCert.{parse_csr}
use aims_libest.Auth.Enroll.{enroll_auth, creds}
use aims_libest.Enroll.Csr.{check_cmc_ra, has_cmc_ra, check_csr}
use aims_libest.Enroll.Handler.{
  wrong_type, vet, authorized, vetted, call_ca, respond, write_cert, handle_simple_enroll,
}
use aims_libest.Http.Uri.{uri_of, parse_uri, is_uri, parse_uri_iff, simple_enroll_uri}
use aims_libest.Http.Error.{send_http_error}
use aims_libest.Http.Answers.{send_http_error-status}
use aims_libest.Http.Request.{Reply, notify_req, notify_rsp, http_request, notify_start}
use aims_libest.Http.Request.Enrolling.{Reached}
use aims_libest.Http.Request.Asking.{http_request-Reached}
use aims_libest.Examples.Attributes.{asn1, bio}
use aims_libest.Examples.NewKey.{keygen}
use aims_libest.Examples.Data.{ossl, ssl, conn, ctx, body, attributes}

parse_uri_iff_example :
    (parse_uri simple_enroll_uri ≡ (simple_enroll, none))
    ↔ ((simple_enroll ≢ op_max) × (simple_enroll_uri ≡ uri_of simple_enroll))
parse_uri_iff_example = parse_uri_iff simple_enroll_uri simple_enroll

send_http_error-status_example :
    (400 ≤ (send_http_error ctx conn auth_fail).status_code)
    ⊎ (((send_http_error ctx conn auth_fail).status_code ≡ 204) × (auth_fail ≡ http_no_content))
    ⊎ (((send_http_error ctx conn auth_fail).status_code ≡ 202)
        × (auth_fail ≡ ca_enroll_retry)
        × (ctx.est_mode ≢ client))
send_http_error-status_example = send_http_error-status ctx conn auth_fail

abbrev asked_for : Option Reply
asked_for =
    http_request ossl asn1 bio attributes keygen ctx conn (some ssl) (codes "POST")
      simple_enroll_uri body (some (codes "application/pkcs10"))

abbrev given : Option Reply → Reply
given (some r) = r
given none = record { status = none; ctx = ctx; conn = conn }

abbrev reply : Reply
reply = given asked_for

request_runs : asked_for ≡ some reply
unfolding http_request parse_uri is_uri strncmp notify_req notify_rsp handle_simple_enroll
    wrong_type starts_with enroll_auth check_for_tls_cert_auth creds parse_auth_header
    starts_with_nocase lowercase check_credentials
request_runs = refl

http_request-Reached_example :
    (ca_calls reply.conn.log ≡ ca_calls conn.log)
    ⊎ ((ca_calls reply.conn.log ≡ suc (ca_calls conn.log))
        × ((op : Operation) × (simple_enroll_uri ≡ uri_of op)
            × Reached ossl asn1 bio attributes keygen ctx ssl
                (codes "POST")
                body
                (some (codes "application/pkcs10"))
                (notify_start ctx conn)
                op))
http_request-Reached_example =
    http_request-Reached ossl asn1 bio attributes keygen ctx ssl (codes "POST") body
      (some (codes "application/pkcs10")) conn simple_enroll_uri reply request_runs

-- The request reaches the CA once.
request_asks : ca_calls reply.conn.log ≡ 1
unfolding http_request parse_uri is_uri strncmp notify_req notify_rsp handle_simple_enroll
    wrong_type starts_with enroll_auth check_for_tls_cert_auth creds parse_auth_header
    starts_with_nocase lowercase check_credentials vet check_csr check_cmc_ra has_cmc_ra parse_csr
    authorized vetted call_ca respond write_cert mg_write decimal
request_asks = refl
