-- ===== src/Config/Eca.antt =====
-- src/est/est_server.c: switching Enhanced Certificate Authentication on and off, and adding a
-- manufacturer.
use aims_libest.Prelude.{
  ℕ, ◌+◌, ℤ, Bytes, Option, none, some, true, false, not, ◌==◌, is_some, if◌then◌else◌, ltb, codes,
}
use aims_libest.Api.{Status, invalid_parameters, already_enabled, already_disabled, CsrCheck}
use aims_libest.Context.{Eca}
use aims_libest.Safec.{strnlen_s}
use aims_libest.Eca.Header.{max_uidpwd}
use aims_libest.Eca.MfgList.{Loader, mfg_info_list_create, load_manufacturer, mfg_info_list_destroy}

-- strcpy_s into a buffer that the check before it has found large enough copies the whole string.
unfoldable pub set_pwd : Eca → Option Bytes → Eca × Status
set_pwd e none = (e, some invalid_parameters)
set_pwd e (some pwd) =
    if ltb max_uidpwd (strnlen_s pwd (max_uidpwd + 1))
    then (e, some invalid_parameters)
    else (record e { pwd = pwd }, none)

unfoldable pub set_local_pki_nid : Eca → ℤ → Eca × Status
set_local_pki_nid e nid = (record e { local_pki_nid = nid }, none)

-- EST_SERVER_DEFAULT_ENHCD_CERT_PWD
abbrev pub default_pwd : Bytes
default_pwd = codes "cisco"

abbrev pub or_default : Option Bytes → Bytes
or_default none = default_pwd
or_default (some pwd) = pwd

abbrev enable_with : Eca → Option CsrCheck → Eca × Status
enable_with e none = (e, some invalid_parameters)
enable_with e (some check) = (record e { csr_check = check; enabled = true }, none)

-- `none` for the flag is a value outside the enumeration.
unfoldable pub enable_enhanced_cert_auth : Eca → ℤ → Option Bytes → Option CsrCheck → Eca × Status
unfolding set_pwd set_local_pki_nid
enable_enhanced_cert_auth e nid ah_pwd check =
    let (e1, rv1) = set_local_pki_nid e nid in
    let (e2, rv2) = set_pwd e1 (some (or_default ah_pwd)) in
    if e.enabled
    then (e, some already_enabled)
    else if is_some rv1
    then (e1, rv1)
    else if is_some rv2
    then (e2, rv2)
    else enable_with e2 check

-- The list, created if there is none, with the code of its creation.
unfoldable pub with_list : Loader → Eca → Eca × Status
with_list l e = if is_some e.mfgs then (e, none) else mfg_info_list_create l e

unfoldable pub add_mfg_info : Loader → Eca → Option Bytes → ℤ → Option Bytes → ℕ → Eca × Status
add_mfg_info l e (some name) nid (some truststore) truststore_len =
    let (e1, err) = with_list l e in
    if truststore_len == 0
    then (e, some invalid_parameters)
    else if not e.enabled
    then (e, some invalid_parameters)
    else if is_some err
    then (e1, err)
    else load_manufacturer l e1 name nid truststore
add_mfg_info l e _ nid _ truststore_len = (e, some invalid_parameters)

unfoldable pub disable_enhanced_cert_auth : Eca → Eca × Status
disable_enhanced_cert_auth e =
    if not e.enabled
    then (e, some already_disabled)
    else (record (mfg_info_list_destroy e) { enabled = false }, none)
