-- ===== src/Config/Reject.antt =====
-- src/est/est_server.c: what a rejected call of a configuration function changes.
use aims_libest.Prelude.{
  ℤ, Bytes, Option, some, Bool, true, false, ◌≡◌, arith, is_some, leb, not, ◌&&◌, length,
}
use aims_libest.Api.{EstError, CsrCheck, already_enabled}
use aims_libest.Context.{Ctx, Eca}
use aims_libest.Eca.Header.{max_uidpwd}
use aims_libest.Safec.{strnlen_s}
use aims_libest.Config.Eca.{
  set_pwd, set_local_pki_nid, enable_enhanced_cert_auth, disable_enhanced_cert_auth,
}
use aims_libest.Config.Setters.{
  set_auth_mode, set_ca_enroll_cb, set_ca_reenroll_cb, set_server_side_keygen_enroll_cb, set_csr_cb,
  set_cacerts_cb, set_http_auth_cb, set_http_auth_required, enable_srp, enable_pop, disable_pop,
  set_retry_period, set_ecdhe_curve, set_dh_parms, enforce_csrattr, set_read_timeout,
  set_brski_voucher_req_cb, set_brski_voucher_status_cb, set_brski_enroll_status_cb,
  set_brski_retry_period,
}
use aims_libest.Config.Call.{Call, call_add_mfg_info, call_enable_enhanced_cert_auth, apply}

-- The two calls that do more than one thing.
abbrev pub is_compound : Call → Bool
is_compound (call_enable_enhanced_cert_auth nid pwd check) = true
is_compound (call_add_mfg_info l name nid store len) = true
is_compound _ = false

-- A call of one of the functions that `Call` lists, of which est_server_init_csrattrs is none, leaves the
-- context as it was where it returns an error, unless it enables Enhanced Cert Auth or adds a
-- manufacturer.
pub apply_rejected :
    (ctx : Ctx) (c : Call) (e : EstError)
    → is_compound c ≡ false
    → (apply ctx c).1 ≡ some e
    → (apply ctx c).0 ≡ ctx
unfolding apply set_auth_mode set_ca_enroll_cb set_ca_reenroll_cb set_server_side_keygen_enroll_cb
    set_csr_cb set_cacerts_cb set_http_auth_cb set_http_auth_required enable_srp enable_pop
    disable_pop set_retry_period set_ecdhe_curve set_dh_parms enforce_csrattr set_read_timeout
    set_brski_voucher_req_cb set_brski_voucher_status_cb set_brski_enroll_status_cb
    set_brski_retry_period disable_enhanced_cert_auth
apply_rejected ctx c e k h = ground arith

-- Enabling Enhanced Cert Auth: while it is on, the call changes nothing; otherwise it fails exactly
-- for a password of more than MAX_UIDPWD bytes or a flag outside the enumeration, and the field of
-- the local PKI is set even then.
pub enable_enhanced_cert_auth_cases :
    (e : Eca) (nid : ℤ) (pwd : Bytes) (check : Option CsrCheck)
    → (e.enabled ≡ true
        → enable_enhanced_cert_auth e nid (some pwd) check ≡ (e, some already_enabled))
      × (e.enabled ≡ false
          → ((enable_enhanced_cert_auth e nid (some pwd) check).0.local_pki_nid ≡ nid)
            × ((enable_enhanced_cert_auth e nid (some pwd) check).0.enabled
                ≡ (leb (length pwd) max_uidpwd && is_some check))
            × (is_some (enable_enhanced_cert_auth e nid (some pwd) check).1
                ≡ not (leb (length pwd) max_uidpwd && is_some check)))
unfolding enable_enhanced_cert_auth set_pwd set_local_pki_nid strnlen_s
enable_enhanced_cert_auth_cases e nid pwd check = ground arith
