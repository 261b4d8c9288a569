-- ===== src/Examples/Lists.antt =====
-- Runs of the list of manufacturers and of the CSR check.
use aims_libest.Prelude.{◌<◌, pos, none, some, true, ◌≡◌, ◌↔◌, refl, codes, length}
use aims_libest.Api.{hdr_good}
use aims_libest.Safec.{strcmp_s, strncmp, strnlen_s}
use aims_libest.Eca.Subject.{cert_subject_field, csr_subject_field}
use aims_libest.Eca.MfgList.{Loader, first_free, load_manufacturer, get_mfg, slot_at}
use aims_libest.Eca.MfgList.Slots.{ListIsValid, load_manufacturer-ListIsValid}
use aims_libest.Eca.MfgList.Search.{FirstAccepting, get_mfg_iff}
use aims_libest.Eca.CsrCheck.{csr_check, check_slot}
use aims_libest.Eca.CsrCheck.Identity.{Repeats, csr_check_mfg_iff}
use aims_libest.Examples.Data.{ossl, two_used, all_used, eca_with}

abbrev loader : Loader
loader = record {
  calloc = true;
  store_new = some 4;
  init_cert_store = λ s certs. none;
  store_ctx_new = true;
}

two_used-ListIsValid : ListIsValid (some two_used)
two_used-ListIsValid = (refl, (λ h. refl, (λ h. refl, (λ h. h, (λ h. h, tt)))))

load_manufacturer-ListIsValid_example :
    ListIsValid
      (load_manufacturer loader (eca_with two_used) (codes "new") (pos 3) (codes "pem")).0.mfgs
load_manufacturer-ListIsValid_example =
    load_manufacturer-ListIsValid loader (eca_with two_used) (codes "new") (pos 3) (codes "pem")
      two_used-ListIsValid

none_free : first_free all_used ≡ none
unfolding first_free
none_free = refl

get_mfg_iff_example :
    (get_mfg ossl (eca_with two_used) 11 21 ≡ (some 1, none)) ↔ FirstAccepting ossl 11 21 two_used 1
get_mfg_iff_example = get_mfg_iff ossl 11 21 (eca_with two_used) two_used 1 refl

-- The second manufacturer's store verifies the client.
second_found : get_mfg ossl (eca_with two_used) 11 21 ≡ (some 1, none)
unfolding get_mfg
second_found = refl

csr_check_mfg_iff_example :
    (csr_check ossl (eca_with two_used) (some 11) (some 7) (some 1) ≡ hdr_good)
    ↔ ((r : Repeats ossl 11 7 (slot_at two_used 1)) × (0 < length r.cert_field))
csr_check_mfg_iff_example = csr_check_mfg_iff ossl 11 7 (eca_with two_used) two_used 1 refl

local_good : csr_check ossl (eca_with two_used) (some 11) (some 7) none ≡ hdr_good
unfolding csr_check check_slot cert_subject_field csr_subject_field strcmp_s strncmp strnlen_s
local_good = refl
