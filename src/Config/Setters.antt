-- ===== src/Config/Setters.antt =====
-- src/est/est_server.c: the functions that set one part of the configuration. The context is not
-- NULL here; `Call` adds what the functions do with a NULL context.
use aims_libest.Prelude.{
  ℕ, ℤ, pos, Bytes, Option, none, some, Bool, true, false, not, ◌||◌, if◌then◌else◌, ltb_ℤ,
}
use aims_libest.Api.{
  EstError, Status, invalid_parameters, bad_mode, AuthMode, auth_basic, auth_digest, auth_token,
  Mode, server,
}
use aims_libest.Ossl.{X509}
use aims_libest.Context.{Ctx, EnrollCb, AuthCb}

abbrev pub ok : Ctx → Ctx × Status
ok ctx = (ctx, none)

abbrev reject : EstError → Ctx → Ctx × Status
reject e ctx = (ctx, some e)

-- `fips` is FIPS_mode().
unfoldable pub set_auth_mode : Bool → Ctx → AuthMode → Ctx × Status
set_auth_mode fips ctx auth_digest =
    if fips then reject bad_mode ctx else ok (record ctx { auth_mode = auth_digest })
set_auth_mode fips ctx auth_basic = ok (record ctx { auth_mode = auth_basic })
set_auth_mode fips ctx auth_token = ok (record ctx { auth_mode = auth_token })
set_auth_mode fips ctx _ = reject bad_mode ctx

unfoldable pub set_ca_enroll_cb : Ctx → Option EnrollCb → Ctx × Status
set_ca_enroll_cb ctx cb = ok (record ctx { enroll_pkcs10_cb = cb })

unfoldable pub set_ca_reenroll_cb : Ctx → Option EnrollCb → Ctx × Status
set_ca_reenroll_cb ctx cb = ok (record ctx { reenroll_pkcs10_cb = cb })

unfoldable pub set_server_side_keygen_enroll_cb : Ctx → Option ℕ → Ctx × Status
set_server_side_keygen_enroll_cb ctx cb = ok (record ctx { server_keygen_pkcs10_cb = cb })

abbrev pub is_server : Mode → Bool
is_server server = true
is_server _ = false

unfoldable pub set_csr_cb : Ctx → Option (Option Bytes → Option X509 → Option Bytes) → Ctx × Status
set_csr_cb ctx cb =
    if not (is_server ctx.est_mode)
    then reject bad_mode ctx
    else ok (record ctx { get_csr_cb = cb })

unfoldable pub set_cacerts_cb : Ctx → Option (Option Bytes → Option Bytes) → Ctx × Status
set_cacerts_cb ctx cb =
    if not (is_server ctx.est_mode)
    then reject bad_mode ctx
    else ok (record ctx { get_cacerts_cb = cb })

unfoldable pub set_http_auth_cb : Ctx → Option AuthCb → Ctx × Status
set_http_auth_cb ctx cb = ok (record ctx { http_auth_cb = cb })

unfoldable pub set_http_auth_required : Ctx → Bool → Ctx × Status
set_http_auth_required ctx required = ok (record ctx { require_http_auth = required })

unfoldable pub enable_srp : Ctx → Option ℕ → Ctx × Status
enable_srp ctx none = reject invalid_parameters ctx
enable_srp ctx (some cb) = ok (record ctx { srp_username_cb = some cb; enable_srp = true })

unfoldable pub enable_pop : Ctx → Ctx × Status
enable_pop ctx = ok (record ctx { server_enable_pop = true })

unfoldable pub disable_pop : Ctx → Ctx × Status
disable_pop ctx = ok (record ctx { server_enable_pop = false })

abbrev pub retry_period_min : ℤ
retry_period_min = pos 60

-- 3600*48
abbrev pub retry_period_max : ℤ
retry_period_max = pos 172800

unfoldable pub set_retry_period : Ctx → ℤ → Ctx × Status
set_retry_period ctx seconds =
    if ltb_ℤ retry_period_max seconds
    then reject invalid_parameters ctx
    else if ltb_ℤ seconds retry_period_min
    then reject invalid_parameters ctx
    else ok (record ctx { retry_period = seconds })

unfoldable pub set_ecdhe_curve : Ctx → ℤ → Ctx × Status
set_ecdhe_curve ctx nid =
    if not (ltb_ℤ (pos 0) nid)
    then reject invalid_parameters ctx
    else ok (record ctx { ecdhe_nid = nid })

-- `dup` is DHparams_dup.
unfoldable pub set_dh_parms : (ℕ → Option ℕ) → Ctx → Option ℕ → Ctx × Status
set_dh_parms dup ctx none = reject invalid_parameters ctx
set_dh_parms dup ctx (some parms) = ok (record ctx { dh_tmp = dup parms })

unfoldable pub enforce_csrattr : Ctx → Ctx × Status
enforce_csrattr ctx = ok (record ctx { enforce_csrattrs = true })

abbrev pub read_timeout_min : ℤ
read_timeout_min = pos 1

abbrev pub read_timeout_max : ℤ
read_timeout_max = pos 3600

unfoldable pub set_read_timeout : Ctx → ℤ → Ctx × Status
set_read_timeout ctx timeout =
    if ltb_ℤ timeout read_timeout_min || ltb_ℤ read_timeout_max timeout
    then reject invalid_parameters ctx
    else ok (record ctx { server_read_timeout = timeout })

unfoldable pub set_brski_voucher_req_cb : Ctx → Option ℕ → Ctx × Status
set_brski_voucher_req_cb ctx none = reject invalid_parameters ctx
set_brski_voucher_req_cb ctx (some cb) = ok (record ctx { brski_voucher_req_cb = some cb })

unfoldable pub set_brski_voucher_status_cb : Ctx → Option ℕ → Ctx × Status
set_brski_voucher_status_cb ctx none = reject invalid_parameters ctx
set_brski_voucher_status_cb ctx (some cb) = ok (record ctx { brski_voucher_status_cb = some cb })

unfoldable pub set_brski_enroll_status_cb : Ctx → Option ℕ → Ctx × Status
set_brski_enroll_status_cb ctx none = reject invalid_parameters ctx
set_brski_enroll_status_cb ctx (some cb) = ok (record ctx { brski_enroll_status_cb = some cb })

abbrev pub brski_retry_period_min : ℤ
brski_retry_period_min = pos 1

abbrev pub brski_retry_period_max : ℤ
brski_retry_period_max = pos 70

unfoldable pub set_brski_retry_period : Ctx → ℤ → Ctx × Status
set_brski_retry_period ctx seconds =
    if ltb_ℤ brski_retry_period_max seconds
    then reject invalid_parameters ctx
    else if ltb_ℤ seconds brski_retry_period_min
    then reject invalid_parameters ctx
    else ok (record ctx { brski_retry_period = seconds })
