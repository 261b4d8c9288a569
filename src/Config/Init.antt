-- ===== src/Config/Init.antt =====
-- src/est/est_server.c: est_server_init. The PKCS7 that OpenSSL makes of
-- the certificates of the response, and the result of loading the trusted ones, are arguments.
use aims_libest.Prelude.{
  ℕ, ℤ, pos, Bytes, [], Option, none, some, Bool, true, false, not, ◌==◌, is_some, if◌then◌else◌,
}
use aims_libest.Api.{server, http, auth_basic, csr_check_off, Status}
use aims_libest.Ossl.{X509, PKey}
use aims_libest.Context.{Ctx}
use aims_libest.Safec.{strnlen_s}

abbrev pub retry_period_def : ℤ
retry_period_def = pos 3600

abbrev pub read_timeout_def : ℤ
read_timeout_def = pos 10

abbrev pub brski_retry_period_def : ℤ
brski_retry_period_def = pos 30

abbrev pub est_ca_max : ℕ
est_ca_max = 2000000

-- the context after memzero_s and the assignments of est_server_init
abbrev pub initial : Option Bytes → Ctx
initial ca_certs = record {
  est_mode = server;
  transport_mode = http;
  ca_certs = ca_certs;
  server_csrattrs = none;
  csr_pop_present = false;
  enroll_pkcs10_cb = none;
  reenroll_pkcs10_cb = none;
  get_cacerts_cb = none;
  get_csr_cb = none;
  http_auth_cb = none;
  srp_username_cb = none;
  server_keygen_pkcs10_cb = none;
  brski_voucher_req_cb = none;
  brski_voucher_status_cb = none;
  brski_enroll_status_cb = none;
  enroll_req_event_cb = false;
  enroll_rsp_event_cb = false;
  auth_result_event_cb = false;
  endpoint_req_event_cb = false;
  auth_mode = auth_basic;
  require_http_auth = true;
  server_enable_pop = true;
  enforce_csrattrs = false;
  enable_srp = false;
  retry_period = retry_period_def;
  retry_after_delay = pos 0;
  server_read_timeout = read_timeout_def;
  brski_retry_period = brski_retry_period_def;
  ecdhe_nid = pos 0;
  dh_tmp = none;
  perf_timers_enabled = false;
  eca = record {
    enabled = false;
    csr_check = csr_check_off;
    mfgs = none;
    local_pki_nid = pos 0;
    pwd = [];
  };
}

-- the length check of a buffer that is there
abbrev good_length : Option Bytes → ℕ → Bool
good_length none len = true
good_length (some chain) len = strnlen_s chain est_ca_max == len

-- est_load_ca_certs, where there is a buffer: what is left in `ca_certs`, or a failure
abbrev load_ca_certs : (Bytes → Option Bytes) → Option Bytes → Option (Option Bytes)
load_ca_certs pkcs7 none = some none
load_ca_certs pkcs7 (some chain) = elim (pkcs7 chain) [
  | none ↦ none
  | some certs ↦ some (some certs)
]

abbrev start : Option (Option Bytes) → Option Ctx
start none = none
start (some ca_certs) = some (initial ca_certs)

-- `pkcs7` is the conversion of est_load_ca_certs, and `trusted` the code of est_load_trusted_certs.
unfoldable pub server_init :
    Option Bytes
    → ℕ
    → Option Bytes
    → ℕ
    → Bool
    → Option Bytes
    → Option X509
    → Option PKey
    → (Bytes → Option Bytes)
    → Status
    → Option Ctx
server_init ca_chain ca_chain_len resp_chain resp_chain_len is_pem realm tls_id_cert tls_id_key
      pkcs7 trusted =
    if not (is_some ca_chain)
    then none
    else if not is_pem
    then none
    else if not (good_length ca_chain ca_chain_len)
    then none
    else if not (good_length resp_chain resp_chain_len)
    then none
    else if not (is_some tls_id_cert)
    then none
    else if not (is_some tls_id_key)
    then none
    else if not (is_some realm)
    then none
    else if is_some trusted
    then none
    else start (load_ca_certs pkcs7 resp_chain)
