-- ===== src/Examples/ClientRuns.antt =====
-- Runs of the client.
use aims_libest.Prelude.{
  ℕ, Bytes, false, codes, ◌++◌, ◌⊎◌, starts_with, decimal, pos, ◌≡◌, refl, List, [], ◌∷◌, Option,
  none, some, true, arith, get_elem?,
}
use aims_libest.Api.{auth_none, auth_basic, simple_enroll, ca_enroll_retry}
use aims_libest.Base64.{base64_encode}
use aims_libest.Safec.{strnlen_s}
use aims_libest.Http.Error.{retry_after_header}
use aims_libest.Client.{disconnected, Client}
use aims_libest.Client.Host.{
  Names, GeneralName, gen_dns, gen_other, verifyhost, raw_nequal, raw_equal, raw_toupper, strchr,
  cert_hostcheck, check_name,
}
use aims_libest.Client.Host.Identity.{Identifies, Alternative, AllOther, verifyhost-Identifies}
use aims_libest.Client.Headers.{parse_status_code}
use aims_libest.Client.Response.{get_response, read_response, get_response}
use aims_libest.Client.Response.Retry.{read_response-retry}
use aims_libest.Client.Response.Accepted.{Accepted, read_response-Accepted}
use aims_libest.Client.Request.{
  op_simple_enroll, op_simple_reenroll, Crypto, build_header, put_together,
}
use aims_libest.Client.Request.Fits.{reenroll_request-fits}
use aims_libest.Enroll.Handler.{cert_header}
use aims_libest.Client.Response.Issued.{get_response-cert_header}
use aims_libest.Client.Enroll.{op_of, Net, CsrApi, tcw_ok, Result, result, client_enroll}
use aims_libest.Client.Enroll.Trace.{Visits, client_enroll-Visits}
use aims_libest.Client.Enroll.Kept.{Enrolled}
use aims_libest.Client.Enroll.Success.{client_enroll-Finished}
use aims_libest.Examples.Codec.{bio}

-- a certificate for every name of one label under example.com, and no address for a name
abbrev names : Names
names = record {
  inet_pton = λ s. none;
  inet_pton6 = λ s. none;
  subject_alt_name = λ c. some (gen_other ∷ gen_dns (codes "*.Example.com") ∷ []);
  common_name = λ c. none;
}

verifyhost-Identifies_example :
    ((xs : List GeneralName) × (i : ℕ) × (x : GeneralName) × (names.subject_alt_name 3 ≡ some xs)
      × (get_elem? xs i ≡ some x)
      × Alternative names (codes "est.example.com") x)
    ⊎ (((xs : List GeneralName) → names.subject_alt_name 3 ≡ some xs → AllOther names xs)
        × ((cn : Bytes) × (names.common_name 3 ≡ some (some cn))
            × Identifies names (codes "est.example.com") cn))
unfolding verifyhost check_name strnlen_s cert_hostcheck raw_equal raw_toupper strchr raw_nequal
verifyhost-Identifies_example = verifyhost-Identifies names (codes "est.example.com") 3 refl

-- a client that has been initialized
abbrev pub client : Client
client = record {
  est_client_initialized = true;
  est_server = codes "est.example.com";
  est_port_num = pos 443;
  uri_path_segment = none;
  enable_srp = false;
  auth_credentials_cb = none;
  auth_mode = auth_none;
  userid = [];
  password = [];
  realm = [];
  s_nonce = [];
  token_error = [];
  token_error_desc = [];
  csr_pop_required = false;
  client_force_pop = false;
  read_timeout = pos 10;
  last_http_status = pos 0;
  retry_after_delay = 0;
  retry_after_date = 0;
  enrolled_client_cert = none;
  log = [];
}

read_response-retry_example :
    read_response (λ s. []) client simple_enroll (retry_after_header (pos 120)) ≡ (
      some ca_enroll_retry,
      record client { last_http_status = pos 202; retry_after_delay = 120; retry_after_date = 0 },
      none,
    )
read_response-retry_example = read_response-retry (λ s. []) client simple_enroll 120 (omega arith)

get_response-cert_header_example :
    get_response
      (λ s. [])
      client
      (op_of op_simple_enroll)
      (some (cert_header 3) ∷ some (codes "MI") ∷ some (codes "I") ∷ [])
      true
    ≡ (none, record client { last_http_status = pos 200 }, some (codes "MII"))
unfolding decimal
get_response-cert_header_example =
    get_response-cert_header b'M' (codes "II") (omega arith) (omega arith) (λ s. []) client
      op_simple_enroll (some (cert_header 3) ∷ some (codes "MI") ∷ some (codes "I") ∷ []) true tt
      refl (omega arith)

-- a certificate, as the server sends it
abbrev issued : Bytes
issued =
    codes
      "HTTP/1.1 200 OK\r\nContent-Type: application/pkcs7-mime; smime-type=certs-only\r\nContent-Length: 2\r\n\r\nAB"

read_response-Accepted_example :
    ((read_response (λ s. []) client simple_enroll issued).1
      ≡ record client { last_http_status = parse_status_code issued })
    × Accepted simple_enroll issued (read_response (λ s. []) client simple_enroll issued).2
unfolding read_response starts_with
read_response-Accepted_example =
    read_response-Accepted (λ s. []) client simple_enroll issued (λ e. cc) refl

-- a world with one server, which answers every request with a certificate
abbrev net : Net
net = record {
  tcw_connect = λ l. tcw_ok;
  setsockopt = λ l. true;
  bio_new_socket = λ l. true;
  new_ssl = λ l. true;
  connect_ssl = λ l. true;
  peer_certificate = λ l. some 3;
  tls_uid = λ l. some (codes "uid");
  write = λ l. true;
  reads = λ l. some issued ∷ [];
  peek = λ l. false;
  next_fields = λ s. [];
  fips_mode = false;
}

abbrev csrs : CsrApi
csrs = record {
  fresh = 1;
  set_version = λ r. some r;
  add_cn = λ r cn. some r;
  add_challenge = λ r uid. some r;
  set_pubkey = λ r k. some r;
  sign = λ r k. some r;
  clear_challenge = λ r. r;
  body = λ r. codes "CSR";
}

abbrev crypto : Crypto
crypto = record { random = none; md5 = none }

-- the client behind its enrolment
abbrev attempted : Option Result
attempted =
    client_enroll net names csrs bio crypto client op_simple_enroll (codes "device") (some 5)

abbrev text_of : Option Bytes → Bytes
text_of none = []
text_of (some s) = s

abbrev outcome_of : Option Result → Result
outcome_of none = result none client 0
outcome_of (some r) = r

abbrev finished : Result
finished = outcome_of attempted

is_finished : attempted ≡ some finished
unfolding client_enroll verifyhost check_name strnlen_s cert_hostcheck raw_equal raw_toupper strchr
    raw_nequal build_header put_together decimal get_response starts_with
is_finished = refl

succeeded : finished.status ≡ none
unfolding client_enroll verifyhost check_name strnlen_s cert_hostcheck raw_equal raw_toupper strchr
    raw_nequal build_header put_together decimal get_response starts_with
succeeded = refl

client_enroll-Visits_example :
    Visits net names csrs bio crypto (codes "est.example.com") false [] finished.ctx.log
client_enroll-Visits_example =
    client_enroll-Visits net names csrs bio crypto client op_simple_enroll (codes "device") (some 5)
      finished refl is_finished

client_enroll-Finished_example :
    Enrolled net op_simple_enroll (disconnected ∷ []) finished
    × (finished.ctx.auth_mode ≡ auth_none)
client_enroll-Finished_example =
    client_enroll-Finished net names csrs bio crypto client op_simple_enroll (codes "device")
      (some 5) finished is_finished succeeded

-- a client that has been asked for a password
abbrev challenged : Client
challenged = record client { auth_mode = auth_basic; userid = codes "user"; password = codes "pwd" }

abbrev header : Bytes
header = text_of (build_header bio crypto challenged op_simple_reenroll 3)

is_header : build_header bio crypto challenged op_simple_reenroll 3 ≡ some header
unfolding build_header base64_encode decimal
is_header = refl

reenroll_request-fits_example :
    put_together header (codes "CSR") ≡ some (header ++ codes "\r\n" ++ codes "CSR" ++ codes "\r\n")
reenroll_request-fits_example =
    reenroll_request-fits bio crypto challenged (codes "CSR") header is_header (omega arith)
