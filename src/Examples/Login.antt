-- ===== src/Examples/Login.antt =====
-- Runs of the Authorization header's parser and of the authentication of an enrolment.
use aims_libest.Prelude.{none, some, true, ◌≡◌, ◌↔◌, refl, inl, codes}
use aims_libest.Api.{
  http_auth, cert_auth, hdr_good, hdr_bad, auth_basic, simple_enroll_req, reenroll_req,
  is_nonzero_req,
}
use aims_libest.Conn.{Conn, note, auth_call}
use aims_libest.AuthHeader.{parse_auth_header, check_credentials, starts_with_nocase, lowercase}
use aims_libest.Auth.Tls.{check_for_tls_cert_auth}
use aims_libest.Auth.ByCert.{handle_eca}
use aims_libest.Auth.Enroll.{Attempt, enroll_auth, creds, eca_creds}
use aims_libest.Auth.Enroll.Evidence.{Evidence, enroll_auth-Evidence}
use aims_libest.Auth.Enroll.Policy.{enroll_auth-required}
use aims_libest.Eca.MfgList.{get_mfg}
use aims_libest.Eca.Header.{build_header}
use aims_libest.Eca.Subject.{cert_subject_field}
use aims_libest.Examples.Data.{ossl, ssl, conn, ctx, coap_ctx, body, credentials, accept}

abbrev pub logged_in : Conn
logged_in = record conn { user_id = codes "joe" }

abbrev digest_conn : Conn
digest_conn = record conn { authorization = some (codes "Digest x") }

is_digest_header : starts_with_nocase (codes "Digest ") (codes "Digest x") ≡ true
unfolding starts_with_nocase lowercase
is_digest_header = refl

-- the login with the password, over the verified certificate
abbrev pub login : Attempt
login = record {
  hdr = hdr_good;
  state = http_auth;
  csr = none;
  conn = note logged_in (auth_call credentials);
}

pub login_runs : enroll_auth ossl ctx ssl conn none simple_enroll_req body ≡ some login
unfolding enroll_auth check_for_tls_cert_auth creds parse_auth_header starts_with_nocase lowercase
    check_credentials
login_runs = refl

enroll_auth-Evidence_example : Evidence ossl ctx ssl conn none body http_auth
enroll_auth-Evidence_example =
    enroll_auth-Evidence ossl ctx ssl conn none body simple_enroll_req login login_runs

crash_runs : enroll_auth ossl coap_ctx ssl conn none simple_enroll_req body ≡ none
unfolding enroll_auth check_for_tls_cert_auth eca_creds handle_eca get_mfg build_header
    cert_subject_field
crash_runs = refl

-- a header of a scheme that the server does not support
abbrev bad_conn : Conn
bad_conn = record conn { authorization = some (codes "Digest x") }

abbrev kept : Attempt
kept = record { hdr = hdr_bad; state = cert_auth; csr = none; conn = bad_conn }

kept_runs : enroll_auth ossl ctx ssl bad_conn none reenroll_req body ≡ some kept
unfolding enroll_auth check_for_tls_cert_auth creds parse_auth_header starts_with_nocase lowercase
    check_credentials
kept_runs = refl

enroll_auth-required_example :
    (kept.state ≡ cert_auth)
    ↔ ((is_nonzero_req reenroll_req ≡ true) × ((parse_auth_header auth_basic bad_conn).0 ≡ hdr_bad))
enroll_auth-required_example =
    enroll_auth-required ossl ctx ssl bad_conn none body 11 (refl, inl refl) accept refl refl refl
      refl reenroll_req kept kept_runs

abbrev no_header : Conn
no_header = record conn { authorization = none }
