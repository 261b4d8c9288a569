-- ===== src/Config/Call.antt =====
-- src/est/est_server.c: a call of one of the functions that configure a server, on a context that
-- may be NULL, and sequences of calls.
use aims_libest.Prelude.{ℕ, ℤ, Bytes, List, [], ◌∷◌, Option, none, some, Bool}
use aims_libest.Api.{EstError, Status, no_ctx, invalid_parameters, bad_mode, AuthMode, CsrCheck}
use aims_libest.Ossl.{X509}
use aims_libest.Context.{Ctx, Eca, EnrollCb, AuthCb}
use aims_libest.Eca.MfgList.{Loader}
use aims_libest.Config.Eca.{enable_enhanced_cert_auth, add_mfg_info, disable_enhanced_cert_auth}
use aims_libest.Config.Setters.{
  set_auth_mode, set_ca_enroll_cb, set_ca_reenroll_cb, set_server_side_keygen_enroll_cb, set_csr_cb,
  set_cacerts_cb, set_http_auth_cb, set_http_auth_required, enable_srp, enable_pop, disable_pop,
  set_retry_period, set_ecdhe_curve, set_dh_parms, enforce_csrattr, set_read_timeout,
  set_brski_voucher_req_cb, set_brski_voucher_status_cb, set_brski_enroll_status_cb,
  set_brski_retry_period,
}

-- A call carries its arguments, and what the libraries answer while it runs.
pub data Call : Type 0 where
  call_set_auth_mode : Bool → AuthMode → Call
  call_set_ca_enroll_cb call_set_ca_reenroll_cb : Option EnrollCb → Call
  call_set_server_side_keygen_enroll_cb : Option ℕ → Call
  call_set_csr_cb : Option (Option Bytes → Option X509 → Option Bytes) → Call
  call_set_cacerts_cb : Option (Option Bytes → Option Bytes) → Call
  call_set_http_auth_cb : Option AuthCb → Call
  call_set_http_auth_required : Bool → Call
  call_enable_enhanced_cert_auth : ℤ → Option Bytes → Option CsrCheck → Call
  call_add_mfg_info : Loader → Option Bytes → ℤ → Option Bytes → ℕ → Call
  call_disable_enhanced_cert_auth : Call
  call_enable_srp : Option ℕ → Call
  call_enable_pop call_disable_pop call_enforce_csrattr call_enable_tls10 : Call
  call_set_retry_period call_set_ecdhe_curve call_set_read_timeout call_set_brski_retry_period :
      ℤ → Call
  call_set_dh_parms : (ℕ → Option ℕ) → Option ℕ → Call
  call_set_brski_voucher_req_cb call_set_brski_voucher_status_cb : Option ℕ → Call
  call_set_brski_enroll_status_cb : Option ℕ → Call

abbrev pub on_eca : Ctx → Eca × Status → Ctx × Status
on_eca ctx (e, st) = (record ctx { eca = e }, st)

unfoldable pub apply : Ctx → Call → Ctx × Status
apply ctx (call_set_auth_mode fips amode) = set_auth_mode fips ctx amode
apply ctx (call_set_ca_enroll_cb cb) = set_ca_enroll_cb ctx cb
apply ctx (call_set_ca_reenroll_cb cb) = set_ca_reenroll_cb ctx cb
apply ctx (call_set_server_side_keygen_enroll_cb cb) = set_server_side_keygen_enroll_cb ctx cb
apply ctx (call_set_csr_cb cb) = set_csr_cb ctx cb
apply ctx (call_set_cacerts_cb cb) = set_cacerts_cb ctx cb
apply ctx (call_set_http_auth_cb cb) = set_http_auth_cb ctx cb
apply ctx (call_set_http_auth_required required) = set_http_auth_required ctx required
apply ctx (call_enable_enhanced_cert_auth nid pwd check) =
    on_eca ctx (enable_enhanced_cert_auth ctx.eca nid pwd check)
apply ctx (call_add_mfg_info l name nid store len) =
    on_eca ctx (add_mfg_info l ctx.eca name nid store len)
apply ctx call_disable_enhanced_cert_auth = on_eca ctx (disable_enhanced_cert_auth ctx.eca)
apply ctx (call_enable_srp cb) = enable_srp ctx cb
apply ctx call_enable_pop = enable_pop ctx
apply ctx call_disable_pop = disable_pop ctx
apply ctx call_enforce_csrattr = enforce_csrattr ctx
apply ctx call_enable_tls10 = (ctx, some bad_mode)
apply ctx (call_set_retry_period seconds) = set_retry_period ctx seconds
apply ctx (call_set_ecdhe_curve nid) = set_ecdhe_curve ctx nid
apply ctx (call_set_read_timeout timeout) = set_read_timeout ctx timeout
apply ctx (call_set_brski_retry_period seconds) = set_brski_retry_period ctx seconds
apply ctx (call_set_dh_parms dup parms) = set_dh_parms dup ctx parms
apply ctx (call_set_brski_voucher_req_cb cb) = set_brski_voucher_req_cb ctx cb
apply ctx (call_set_brski_voucher_status_cb cb) = set_brski_voucher_status_cb ctx cb
apply ctx (call_set_brski_enroll_status_cb cb) = set_brski_enroll_status_cb ctx cb

-- the code that a NULL context gets
abbrev pub null_ctx_error : Call → EstError
null_ctx_error (call_add_mfg_info l name nid store len) = invalid_parameters
null_ctx_error call_enable_tls10 = bad_mode
null_ctx_error _ = no_ctx

unfoldable pub invoke : Option Ctx → Call → Option Ctx × Status
invoke none c = (none, some (null_ctx_error c))
invoke (some ctx) c = let (ctx', st) = apply ctx c in (some ctx', st)

-- the context after a sequence of calls, whatever each returned
unfoldable pub configure : Option Ctx → List Call → Option Ctx
configure ctx [] = ctx
configure ctx (c ∷ cs) = configure (invoke ctx c).0 cs
