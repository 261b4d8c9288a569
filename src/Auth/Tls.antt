-- ===== src/Auth/Tls.antt =====
-- src/est/est_server.c: check_for_TLS_cert_auth, and the test for SRP that follows it.
use aims_libest.Prelude.{
  ℕ, Option, none, some, Bool, true, false, not, ◌&&◌, ◌==◌, if◌then◌else◌, is_some,
}
use aims_libest.Api.{AuthState, unauthorized, cert_auth, srp_auth}
use aims_libest.Ossl.{X509, Ssl}

-- X509_V_OK and X509_V_ERR_UNABLE_TO_GET_CRL
abbrev pub x509_v_ok : ℕ
x509_v_ok = 0

abbrev pub x509_v_err_unable_to_get_crl : ℕ
x509_v_err_unable_to_get_crl = 3

-- What check_for_TLS_cert_auth returns and leaves in its output arguments.
pub record TlsCheck : Type 0 where
  pub proceed : Bool
  pub peer : Option X509
  pub state : AuthState

unfoldable pub check_for_tls_cert_auth : Ssl → TlsCheck
check_for_tls_cert_auth ssl = elim ssl.peer_certificate [
  | none ↦ record { proceed = true; peer = none; state = unauthorized }
  | some cert ↦
      if ssl.verify_result == x509_v_ok
      then record { proceed = true; peer = some cert; state = cert_auth }
      else if ssl.verify_result == x509_v_err_unable_to_get_crl
      then record { proceed = true; peer = some cert; state = cert_auth }
      else record { proceed = false; peer = none; state = unauthorized }
]

abbrev pub is_cert_auth : AuthState → Bool
is_cert_auth cert_auth = true
is_cert_auth _ = false

abbrev pub is_unauthorized : AuthState → Bool
is_unauthorized unauthorized = true
is_unauthorized _ = false

-- SRP counts where there is no certificate.
abbrev pub with_srp : Ssl → AuthState → AuthState
with_srp ssl state =
    if not (is_cert_auth state) && is_some ssl.srp_username then srp_auth else state
