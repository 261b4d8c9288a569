-- ===== src/Examples/Enrolment.antt =====
-- Runs of the enrolment's checks and of its handler.
use aims_libest.Prelude.{
  Bytes, none, some, starts_with, true, false, ◌≡◌, ◌↔◌, ◌⊎◌, refl, codes, decimal, is_neg,
}
use aims_libest.Api.{simple_enroll_req}
use aims_libest.Context.{EnrollCb}
use aims_libest.Conn.{Conn, ca_calls, mg_write}
use aims_libest.Safec.{memcmp_s, strncmp}
use aims_libest.Auth.ByCert.{parse_csr}
use aims_libest.Auth.Enroll.{Attempt, enroll_auth, creds}
use aims_libest.Enroll.Csr.{check_cmc_ra, has_cmc_ra, tls_uid_auth, compare_uid, check_csr}
use aims_libest.Enroll.Pop.{Matches, tls_uid_auth_iff}
use aims_libest.Enroll.Handler.{
  Outcome, write_cert, respond, enroll_cb, wrong_type, vet, vetted, authorized, call_ca,
  handle_simple_enroll,
}
use aims_libest.Enroll.Checks.{IsAuthorized}
use aims_libest.AuthHeader.{parse_auth_header, check_credentials, starts_with_nocase, lowercase}
use aims_libest.Auth.Tls.{check_for_tls_cert_auth}
use aims_libest.Enroll.Vetting.{Vetted, handle_simple_enroll-Vetted}
use aims_libest.Enroll.Issue.{Issued, answer, asked, handle_simple_enroll-Issued}
use aims_libest.Examples.Data.{ossl, ssl, conn, ctx, body, attributes}
use aims_libest.Examples.Login.{login}

tls_uid_auth_iff_example : (tls_uid_auth ossl ctx ssl 7 ≡ none) ↔ (
    ((is_neg (ossl.req_challenge_index 7) ≡ true) × (ctx.server_enable_pop ≡ false))
    ⊎ ((is_neg (ossl.req_challenge_index 7) ≡ false)
        × ((bs : Bytes) × (ossl.req_attr 7 (ossl.req_challenge_index 7) ≡ some bs)
            × Matches ssl.tls_uid bs)))
tls_uid_auth_iff_example = tls_uid_auth_iff ossl ctx ssl 7

abbrev pub ct : Bytes
ct = codes "application/pkcs10"

-- the connection when the CA is asked
abbrev conn_asked : Conn
conn_asked = asked ossl attributes ctx ssl (some 11) body ct none true conn simple_enroll_req login

abbrev pub issued : Outcome
issued = respond ctx true conn_asked none (codes "cert")

handle_runs :
    handle_simple_enroll ossl attributes ctx conn ssl (some 11) ct body none simple_enroll_req true
    ≡ some issued
unfolding handle_simple_enroll wrong_type starts_with enroll_auth check_for_tls_cert_auth creds
    parse_auth_header starts_with_nocase lowercase check_credentials parse_csr authorized vetted vet
    check_csr check_cmc_ra has_cmc_ra tls_uid_auth compare_uid memcmp_s strncmp call_ca
handle_runs = refl

handle_simple_enroll-Vetted_example :
    (ca_calls issued.conn.log ≡ 0)
    ⊎ ((ca_calls issued.conn.log ≡ 1)
        × Vetted ossl attributes ctx ssl (some 11) body none ct conn simple_enroll_req issued)
handle_simple_enroll-Vetted_example =
    handle_simple_enroll-Vetted ossl attributes ctx ssl (some 11) body none ct true conn
      simple_enroll_req issued handle_runs

issue_succeeds : issued.status ≡ none
unfolding respond write_cert mg_write decimal
issue_succeeds = refl

handle_simple_enroll-Issued_example :
    (cb : EnrollCb) × (a : Attempt) × (enroll_cb ctx simple_enroll_req ≡ some cb)
    × (enroll_auth ossl ctx ssl conn none simple_enroll_req body ≡ some a)
    × IsAuthorized a.state
    × Issued ctx true
        (asked ossl attributes ctx ssl (some 11) body ct none true conn simple_enroll_req a)
        (answer ossl attributes ctx ssl (some 11) body ct none true conn simple_enroll_req cb a).rc
        (answer ossl attributes ctx ssl
          (some 11)
          body
          ct
          none
          true
          conn
          simple_enroll_req
          cb
          a).cert
        issued
handle_simple_enroll-Issued_example =
    handle_simple_enroll-Issued ossl attributes ctx ssl (some 11) body ct none true conn
      simple_enroll_req issued handle_runs issue_succeeds
