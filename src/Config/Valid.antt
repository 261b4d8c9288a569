-- ===== src/Config/Valid.antt =====
-- src/est/est_server.c: what holds of the configuration of a server after any sequence of calls.
use aims_libest.Prelude.{
  ℕ, ◌≤◌, ℤ, ◌≤ℤ◌, is_neg, Bytes, List, [], ◌∷◌, Option, none, some, Bool, true, false, ◌≡◌, ◌≢◌,
  refl, sym, ◌∙◌, subst, arith, length, is_some, Bool-cases, ◌⊎◌, inl, inr,
}
use aims_libest.Api.{auth_none, auth_fail, server, Status, CsrCheck}
use aims_libest.Ossl.{X509, PKey}
use aims_libest.Context.{Ctx, Eca}
use aims_libest.Safec.{strnlen_s}
use aims_libest.Eca.Header.{max_uidpwd}
use aims_libest.Eca.MfgList.{Loader, load_manufacturer, mfg_info_list_destroy}
use aims_libest.Eca.MfgList.Slots.{
  ListIsValid, load_manufacturer-ListIsValid, load_manufacturer_frame,
  mfg_info_list_create-ListIsValid, mfg_info_list_create_frame,
}
use aims_libest.Config.Init.{initial, server_init}
use aims_libest.Config.Eca.{
  set_pwd, with_list, enable_enhanced_cert_auth, add_mfg_info, disable_enhanced_cert_auth,
}
use aims_libest.Config.Setters.{
  set_auth_mode, set_ca_enroll_cb, set_ca_reenroll_cb, set_server_side_keygen_enroll_cb, set_csr_cb,
  set_cacerts_cb, set_http_auth_cb, set_http_auth_required, enable_srp, enable_pop, disable_pop,
  set_retry_period, set_ecdhe_curve, set_dh_parms, enforce_csrattr, set_read_timeout,
  set_brski_voucher_req_cb, set_brski_voucher_status_cb, set_brski_enroll_status_cb,
  set_brski_retry_period, retry_period_min, retry_period_max, read_timeout_min, read_timeout_max,
  brski_retry_period_min, brski_retry_period_max,
}
use aims_libest.Config.Call.{
  Call, call_add_mfg_info, call_enable_enhanced_cert_auth, call_disable_enhanced_cert_auth, apply,
  invoke, configure,
}

-- The part outside Enhanced Cert Auth: the ranges of the periods and of the timeout, a supported
-- authentication mode, an SRP callback where SRP is on, and no negative curve.
abbrev pub SettingsAreValid : Ctx → Type 0
SettingsAreValid ctx =
    (ctx.est_mode ≡ server)
    × (ctx.auth_mode ≢ auth_none)
    × (ctx.auth_mode ≢ auth_fail)
    × (retry_period_min ≤ℤ ctx.retry_period)
    × (ctx.retry_period ≤ℤ retry_period_max)
    × (read_timeout_min ≤ℤ ctx.server_read_timeout)
    × (ctx.server_read_timeout ≤ℤ read_timeout_max)
    × (brski_retry_period_min ≤ℤ ctx.brski_retry_period)
    × (ctx.brski_retry_period ≤ℤ brski_retry_period_max)
    × (is_neg ctx.ecdhe_nid ≡ false)
    × (ctx.enable_srp ≡ true → is_some ctx.srp_username_cb ≡ true)

-- Enhanced Cert Auth: the password fits its buffer, the list is well formed, and it is there only
-- while the feature is on.
abbrev pub EcaIsValid : Eca → Type 0
EcaIsValid e =
    (length e.pwd ≤ max_uidpwd) × ListIsValid e.mfgs × (e.enabled ≡ false → e.mfgs ≡ none)

abbrev pub IsValid : Ctx → Type 0
IsValid ctx = SettingsAreValid ctx × EcaIsValid ctx.eca

enable-EcaIsValid :
    (e : Eca) (nid : ℤ) (pwd : Option Bytes) (check : Option CsrCheck)
    → EcaIsValid e
    → EcaIsValid (enable_enhanced_cert_auth e nid pwd check).0
unfolding enable_enhanced_cert_auth set_pwd strnlen_s
enable-EcaIsValid e nid pwd check v = ground arith

list_created :
    (l : Loader) (e : Eca)
    → EcaIsValid e
    → (ListIsValid (with_list l e).0.mfgs)
      × ((with_list l e).0.enabled ≡ e.enabled)
      × ((with_list l e).0.pwd ≡ e.pwd)
unfolding with_list
list_created l e v = elim (Bool-cases (is_some e.mfgs)) [
  | inl s ↦ rw s (v.1, refl, refl)
  | inr s ↦
      let (en, pw) = mfg_info_list_create_frame l e in
      rw s (mfg_info_list_create-ListIsValid l e, en, pw)
]

-- The call leaves the members alone, creates the list, or loads into the list.
added :
    (l : Loader) (e : Eca) (name : Bytes) (nid : ℤ) (store : Bytes) (len : ℕ)
    → ((add_mfg_info l e (some name) nid (some store) len).0 ≡ e)
      ⊎ ((e.enabled ≡ true)
          × ((add_mfg_info l e (some name) nid (some store) len).0 ≡ (with_list l e).0))
      ⊎ ((e.enabled ≡ true)
          × ((add_mfg_info l e (some name) nid (some store) len).0
              ≡ (load_manufacturer l (with_list l e).0 name nid store).0))
unfolding add_mfg_info
added l e name nid store len = ground arith

enabled-EcaIsValid :
    (e f : Eca)
    → EcaIsValid e
    → ListIsValid f.mfgs
    → e.enabled ≡ true
    → f.enabled ≡ e.enabled
    → f.pwd ≡ e.pwd
    → EcaIsValid f
enabled-EcaIsValid e f v lv t en pw = (rw pw v.0, lv, λ h. absurd (ground arith))

add-EcaIsValid :
    (l : Loader) (e : Eca) (name : Option Bytes) (nid : ℤ) (store : Option Bytes) (len : ℕ)
    → EcaIsValid e
    → EcaIsValid (add_mfg_info l e name nid store len).0
unfolding add_mfg_info
add-EcaIsValid l e none nid store len v = v
add-EcaIsValid l e (some name) nid none len v = v
add-EcaIsValid l e (some name) nid (some store) len v =
    let e1 = (with_list l e).0 in
    let (lv, en, pw) = list_created l e v in
    let (en', pw') = load_manufacturer_frame l e1 name nid store in
    elim (added l e name nid store len) [
      | inl p ↦ subst EcaIsValid (sym p) v
      | inr (inl (t, p)) ↦ subst EcaIsValid (sym p) (enabled-EcaIsValid e e1 v lv t en pw)
      | inr (inr (t, p)) ↦ subst EcaIsValid (sym p) (
          enabled-EcaIsValid e (load_manufacturer l e1 name nid store).0 v
            (load_manufacturer-ListIsValid l e1 name nid store lv) t (en' ∙ en) (pw' ∙ pw))
    ]

disable-EcaIsValid : (e : Eca) → EcaIsValid e → EcaIsValid (disable_enhanced_cert_auth e).0
unfolding disable_enhanced_cert_auth mfg_info_list_destroy
disable-EcaIsValid e v = ground arith

apply-SettingsAreValid :
    (ctx : Ctx) (c : Call) → SettingsAreValid ctx → SettingsAreValid (apply ctx c).0
unfolding apply set_auth_mode set_ca_enroll_cb set_ca_reenroll_cb set_server_side_keygen_enroll_cb
    set_csr_cb set_cacerts_cb set_http_auth_cb set_http_auth_required enable_srp enable_pop
    disable_pop set_retry_period set_ecdhe_curve set_dh_parms enforce_csrattr set_read_timeout
    set_brski_voucher_req_cb set_brski_voucher_status_cb set_brski_enroll_status_cb
    set_brski_retry_period
apply-SettingsAreValid ctx c v = ground arith

apply-EcaIsValid : (ctx : Ctx) (c : Call) → EcaIsValid ctx.eca → EcaIsValid (apply ctx c).0.eca
unfolding apply set_auth_mode set_ca_enroll_cb set_ca_reenroll_cb set_server_side_keygen_enroll_cb
    set_csr_cb set_cacerts_cb set_http_auth_cb set_http_auth_required enable_srp enable_pop
    disable_pop set_retry_period set_ecdhe_curve set_dh_parms enforce_csrattr set_read_timeout
    set_brski_voucher_req_cb set_brski_voucher_status_cb set_brski_enroll_status_cb
    set_brski_retry_period
apply-EcaIsValid ctx (call_enable_enhanced_cert_auth nid pwd check) v =
    enable-EcaIsValid ctx.eca nid pwd check v
apply-EcaIsValid ctx (call_add_mfg_info l name nid store len) v =
    add-EcaIsValid l ctx.eca name nid store len v
apply-EcaIsValid ctx call_disable_enhanced_cert_auth v = disable-EcaIsValid ctx.eca v
apply-EcaIsValid ctx c v = ground arith

initial-IsValid : (certs : Option Bytes) → IsValid (initial certs)
initial-IsValid certs = (ground arith, ground arith)

pub apply-IsValid : (ctx : Ctx) (c : Call) → IsValid ctx → IsValid (apply ctx c).0
apply-IsValid ctx c v = (apply-SettingsAreValid ctx c v.0, apply-EcaIsValid ctx c v.1)

-- After any sequence of calls of the configuration functions, those that are rejected included, a
-- context with a valid configuration is still there and has a valid configuration.
pub configure-IsValid :
    (cs : List Call) (ctx : Ctx)
    → IsValid ctx
    → (ctx' : Ctx) × (configure (some ctx) cs ≡ some ctx') × IsValid ctx'
unfolding configure invoke
configure-IsValid [] ctx v = (ctx, refl, v)
configure-IsValid (c ∷ cs) ctx v = configure-IsValid cs (apply ctx c).0 (apply-IsValid ctx c v)

-- A context that est_server_init returns has a valid configuration.
pub server_init-IsValid :
    (chain : Option Bytes) (len : ℕ) (resp : Option Bytes) (resp_len : ℕ) (is_pem : Bool)
    (realm : Option Bytes) (cert : Option X509) (key : Option PKey) (pkcs7 : Bytes → Option Bytes)
    (trusted : Status) (ctx : Ctx)
    → server_init chain len resp resp_len is_pem realm cert key pkcs7 trusted ≡ some ctx
    → IsValid ctx
unfolding server_init strnlen_s
server_init-IsValid chain len resp resp_len is_pem realm cert key pkcs7 trusted ctx h =
    let p : (certs : Option Bytes) × (ctx ≡ initial certs) = (ctx.ca_certs, ground arith) in
    subst IsValid (sym p.1) (initial-IsValid p.0)
