-- ===== src/Api.antt =====
-- src/est/est.h: the error codes and the enumerations of the public interface.
-- EST_ERR_NONE is `none`; every other code of EST_ERROR is `some` of its constructor.
use aims_libest.Prelude.{Option, Bool, true, false}

pub data EstError : Type 0 where
  no_ctx no_csr no_cert no_key invalid_parameters load_cacerts load_trust_certs bad_mode : EstError
  bad_pkcs10 http_write http_unsupported http_cannot_build_header http_bad_req : EstError
  http_not_found http_no_content http_locked http_invalid_path_segment : EstError
  http_path_segment_not_supported bad_content_type bad_content_len no_ssl_ctx auth_fail : EstError
  auth_fail_tlsuid auth_pending ca_enroll_fail ca_enroll_retry wrong_method x509_sign : EstError
  x509_ver x509_cn x509_attr x509_pubkey malloc ssl_write ssl_read ssl_new ssl_ctx_new : EstError
  ssl_connect ssl_cipher_list pem_read null_callback ip_getaddr ip_connect : EstError
  invalid_server_name invalid_port_num client_invalid_key client_not_initialized : EstError
  zero_length_buf read_buffer_too_small buf_exceeds_max_len no_certificate no_certs_found : EstError
  fqdn_mismatch syscall already_enabled already_disabled csr_already_signed : EstError
  csr_attr_missing invalid_digest cacert_verification invalid_token invalid_retry_value : EstError
  bad_x509 bad_base64 bad_asn1_hex bad_asn1_hex_too_short bad_asn1_hex_too_long : EstError
  srp_strength_low srp_userid_bad srp_pwd_bad cb_failed client_proxy_mode_not_supported : EstError
  invalid_client_proxy_protocol invalid_client_proxy_auth client_brski_mode_not_supported : EstError
  client_coap_mode_not_supported client_brski_no_voucher client_brski_nonce_missing : EstError
  client_brski_nonce_mismatch client_brski_nonce_too_large client_brski_serial_num_missing :
      EstError
  client_brski_serial_num_mismatch client_brski_serial_num_too_large : EstError
  client_brski_voucher_verify_failed bad_key multipart_parse enc_priv_key_cms : EstError
  cms_type_conversion export_key_material validation coap_init_fail coap_processing_error : EstError
  server_already_operational unknown : EstError

-- an EST_ERROR
abbrev pub Status : Type 0
Status = Option EstError

-- EST_MODE
pub data Mode : Type 0 where
  client server proxy : Mode

-- EST_TRANSPORT_MODE
pub data Transport : Type 0 where
  http coap : Transport

-- EST_HTTP_AUTH_MODE
pub data AuthMode : Type 0 where
  auth_none auth_basic auth_digest auth_token auth_fail : AuthMode

-- EST_ENROLL_REQ_TYPE
pub data EnrollReq : Type 0 where
  simple_enroll_req reenroll_req serverkeygen_req : EnrollReq

-- EST_AUTH_STATE
pub data AuthState : Type 0 where
  unauthorized csr_parse_fail http_auth http_auth_pending cert_auth srp_auth : AuthState

-- EST_HTTP_AUTH_HDR_RESULT
pub data AuthHdrResult : Type 0 where
  hdr_good hdr_missing hdr_bad eca_csr_check_fail eca_csr_parse_fail eca_err : AuthHdrResult

-- EST_OPERATION without the BRSKI operations, which an ordinary build leaves out
pub data Operation : Type 0 where
  simple_enroll simple_reenroll cacerts csrattrs server_keygen op_max : Operation

-- EST_ECA_CSR_CHECK_FLAG
pub data CsrCheck : Type 0 where
  csr_check_off csr_check_on : CsrCheck

-- the truth of an EST_ENROLL_REQ_TYPE in a C condition
abbrev pub is_nonzero_req : EnrollReq → Bool
is_nonzero_req simple_enroll_req = false
is_nonzero_req reenroll_req = true
is_nonzero_req serverkeygen_req = true
