-- ===== src/Context.antt =====
-- src/est/est_locl.h: the context `struct est_ctx` of a server, as far as the modelled code reads
-- and writes it, with the structures that it holds. The members of Enhanced Certificate
-- Authentication are grouped in `Eca`.
use aims_libest.Prelude.{ℕ, ℤ, Bool, Bytes, List, Option}
use aims_libest.Api.{Status, Mode, Transport, AuthMode, CsrCheck}
use aims_libest.Ossl.{X509, Store}

-- EST_HTTP_AUTH_HDR: the credentials of one request
pub record AuthHdr : Type 0 where
  pub mode : AuthMode
  pub user : Option Bytes
  pub pwd : Option Bytes
  pub uri : Option Bytes
  pub cnonce : Option Bytes
  pub qop : Option Bytes
  pub nc : Option Bytes
  pub nonce : Option Bytes
  pub response : Option Bytes
  pub auth_token : Option Bytes

-- ENCHD_CERT_MFG_INFO: one slot of the list of manufacturers. A free slot has no trust store.
pub record MfgInfo : Type 0 where
  pub name : Bytes
  pub nid : ℤ
  pub truststore : Option Store
  pub store_ctx : Bool

pub record Eca : Type 0 where
  pub enabled : Bool
  pub csr_check : CsrCheck
  pub mfgs : Option (List MfgInfo)
  pub local_pki_nid : ℤ
  pub pwd : Bytes

-- what the application's enrolment callbacks hand back: the code, and the PKCS7 that they built
pub record EnrollReply : Type 0 where
  pub rc : Status
  pub cert : Bytes

-- The callbacks get no context here: an application that reads it closes over it.
abbrev pub EnrollCb : Type 0
EnrollCb = Bytes → Option Bytes → Option X509 → Option Bytes → EnrollReply

abbrev pub AuthCb : Type 0
AuthCb = AuthHdr → Option X509 → Option Bytes → Bool

pub record Ctx : Type 0 where
  pub est_mode : Mode
  pub transport_mode : Transport
  pub ca_certs : Option Bytes
  pub server_csrattrs : Option Bytes
  pub csr_pop_present : Bool
  -- callbacks
  pub enroll_pkcs10_cb : Option EnrollCb
  pub reenroll_pkcs10_cb : Option EnrollCb
  pub get_cacerts_cb : Option (Option Bytes → Option Bytes)
  pub get_csr_cb : Option (Option Bytes → Option X509 → Option Bytes)
  pub http_auth_cb : Option AuthCb
  pub srp_username_cb : Option ℕ
  -- callbacks that the modelled code sets and never calls
  pub server_keygen_pkcs10_cb : Option ℕ
  pub brski_voucher_req_cb : Option ℕ
  pub brski_voucher_status_cb : Option ℕ
  pub brski_enroll_status_cb : Option ℕ
  -- the event callbacks only tell the application of what happened
  pub enroll_req_event_cb : Bool
  pub enroll_rsp_event_cb : Bool
  pub auth_result_event_cb : Bool
  pub endpoint_req_event_cb : Bool
  -- configuration
  pub auth_mode : AuthMode
  pub require_http_auth : Bool
  pub server_enable_pop : Bool
  pub enforce_csrattrs : Bool
  pub enable_srp : Bool
  pub retry_period : ℤ
  pub retry_after_delay : ℤ
  pub server_read_timeout : ℤ
  pub brski_retry_period : ℤ
  pub ecdhe_nid : ℤ
  pub dh_tmp : Option ℕ
  pub perf_timers_enabled : Bool
  pub eca : Eca
