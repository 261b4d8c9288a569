-- ===== src/Examples/Data.antt =====
-- A small world: one client with certificate 11 and a CSR 7, one CA, and a server over HTTP.
use aims_libest.Prelude.{
  ℤ, pos, Bytes, List, [], ◌∷◌, Option, none, some, Bool, true, false, ◌==◌, if◌then◌else◌, codes,
  take,
}
use aims_libest.Api.{Status, auth_basic, auth_digest, coap}
use aims_libest.Ossl.{X509, X509Req, Store, Asn1Object, Ssl, Ossl}
use aims_libest.Context.{AuthHdr, MfgInfo, Eca, EnrollCb, AuthCb, Ctx}
use aims_libest.Conn.{Conn, empty_auth_hdr}
use aims_libest.Config.Init.{initial}

abbrev parse : Bool → Bytes → Option X509Req
parse b64 [] = none
parse b64 (c ∷ s) = some 7

abbrev ra_test : Asn1Object → ℤ
ra_test x = if x == 9 then pos 0 else pos 1

-- Store 1 verifies the client's chain, and every other store refuses it.
abbrev verifies : Store → ℤ
verifies s = if s == 1 then pos 1 else pos 0

abbrev pub ossl : Ossl
ossl = record {
  bio_new_mem_buf = λ s. true;
  bio_new_b64 = true;
  d2i_req = parse;
  req_pubkey = λ r. some 3;
  req_verify = λ r k. pos 1;
  req_challenge_index = λ r. pos 0;
  req_attr = λ r i. some (codes "uid");
  ext_key_usage = λ c. some (5 ∷ 9 ∷ []);
  cmp_cmc_ra = ra_test;
  cert_subject_index = λ c n. n;
  cert_subject_data = λ c i. codes "SN";
  req_subject_index = λ r n. n;
  req_subject_data = λ r i. codes "SN";
  store_ctx_init = λ s c ch. true;
  verify_cert = λ s c ch. verifies s;
  strndup = λ s n. some (take n s);
}

abbrev pub ssl : Ssl
ssl = record {
  peer_certificate = some 11;
  verify_result = 0;
  srp_username = none;
  peer_cert_chain = some 21;
  tls_uid = some (codes "uid");
}

abbrev pub credentials : AuthHdr
credentials = record empty_auth_hdr {
  mode = auth_basic;
  user = some (codes "joe");
  pwd = some (codes "pw");
}

-- what the parser leaves of a digest header with no response value
abbrev pub no_response : AuthHdr
no_response = record empty_auth_hdr {
  mode = auth_digest;
  user = some (codes "joe");
  uri = some (codes "/");
  nonce = some (codes "n");
  nc = some (codes "1");
  cnonce = some (codes "c");
}

abbrev pub conn : Conn
conn = record {
  user_id = [];
  authorization = some (codes "Basic x");
  parse_digest = λ h. no_response;
  parse_basic = λ h. credentials;
  parse_token = λ h. credentials;
  takes = λ n. 100000;
  status_code = 0;
  log = [];
}

abbrev pub body : Bytes
body = codes "csr"

abbrev pub accept : AuthCb
accept ah peer path_seg = true

abbrev pub ca : EnrollCb
ca csr user peer path_seg = record { rc = none; cert = codes "cert" }

abbrev pub ctx : Ctx
ctx = record (initial (some (codes "p7"))) {
  enroll_pkcs10_cb = some ca;
  reenroll_pkcs10_cb = some ca;
  http_auth_cb = some accept;
}

abbrev pub attributes : Ctx → Bytes → Option X509 → Status
attributes c csr peer = none

-- two slots in use, of which the second verifies the client
abbrev slot : Store → MfgInfo
slot s = record { name = codes "m"; nid = pos 2; truststore = some s; store_ctx = true }

abbrev empty_slot : MfgInfo
empty_slot = record { name = []; nid = pos 0; truststore = none; store_ctx = false }

abbrev pub two_used : List MfgInfo
two_used = slot 0 ∷ slot 1 ∷ empty_slot ∷ empty_slot ∷ []

abbrev pub all_used : List MfgInfo
all_used = slot 0 ∷ slot 1 ∷ slot 0 ∷ slot 0 ∷ []

abbrev pub none_used : List MfgInfo
none_used = empty_slot ∷ empty_slot ∷ empty_slot ∷ empty_slot ∷ []

abbrev pub eca_with : List MfgInfo → Eca
eca_with ms = record ctx.eca { enabled = true; mfgs = some ms; pwd = codes "cisco" }

abbrev pub coap_ctx : Ctx
coap_ctx = record ctx { transport_mode = coap; http_auth_cb = none; eca = eca_with two_used }
