-- ===== src/Eca/CsrCheck.antt =====
-- src/est/est_enhcd_cert_auth.c: perform_enhanced_cert_auth_csr_check, which holds a CSR to the
-- identity that the client certificate carries.
mod Compare
pub mod Identity
use aims_libest.Prelude.{
  ℕ, ◌+◌, ℤ, pos, Bytes, List, [], ◌∷◌, Option, none, some, Bool, not, ◌&&◌, ◌==◌, if◌then◌else◌,
  is_some, is_zero,
}
use aims_libest.Api.{AuthHdrResult, hdr_good, eca_csr_check_fail, eca_err}
use aims_libest.Ossl.{X509, X509Req, Ossl}
use aims_libest.Context.{MfgInfo, Eca}
use aims_libest.Safec.{strcmp_s, strnlen_s}
use aims_libest.Eca.MfgList.{slot_at}
use aims_libest.Eca.Subject.{cert_subject_field, csr_subject_field}
use aims_libest.Eca.Header.{max_uidpwd}

abbrev pub field_len : Bytes → ℕ
field_len s = strnlen_s s (max_uidpwd + 1)

-- the result for the last value of `cmp_ind`
abbrev result_of : ℤ → AuthHdrResult
result_of cmp_ind = if is_zero cmp_ind then hdr_good else eca_csr_check_fail

-- A certificate of a manufacturer: its subject field, which is present, against the CSR's.
pub compare_fields : Bytes → Bytes → AuthHdrResult
compare_fields cert csr =
    if not (field_len cert == field_len csr)
    then eca_csr_check_fail
    else elim (strcmp_s cert (field_len cert) csr) [
      | none ↦ eca_err
      | some cmp_ind ↦ result_of cmp_ind
    ]

unfoldable pub check_mfg : Ossl → X509 → X509Req → ℤ → AuthHdrResult
unfolding compare_fields
check_mfg o peer csr nid = elim (cert_subject_field o peer nid) [
  | none ↦ eca_csr_check_fail
  | some a ↦ elim (csr_subject_field o csr nid) [
    | none ↦ eca_csr_check_fail
    | some b ↦ compare_fields a b
  ]
]

-- One round for a certificate of the local PKI: `cmp_ind` after the occupied slot `m`. An error of
-- strcmp_s leaves it as it was.
unfoldable pub check_slot : Ossl → X509 → X509Req → MfgInfo → ℤ → ℤ
check_slot o peer csr m cmp_ind = elim (cert_subject_field o peer m.nid) [
  | none ↦ pos 1
  | some a ↦ elim (csr_subject_field o csr m.nid) [
    | none ↦ pos 1
    | some b ↦
        if not (field_len a == field_len b)
        then pos 1
        else elim (strcmp_s a (field_len a) b) [ none ↦ cmp_ind | some c ↦ c ]
  ]
]

abbrev pub is_occupied : MfgInfo → Bool
is_occupied m = is_some m.truststore && m.store_ctx

-- The loop, up to the first round that leaves 0 in `cmp_ind`.
unfoldable pub check_slots : Ossl → X509 → X509Req → ℤ → List MfgInfo → ℤ
check_slots o peer csr cmp_ind [] = cmp_ind
check_slots o peer csr cmp_ind (m ∷ ms) =
    let c = check_slot o peer csr m cmp_ind in
    let skipped = check_slots o peer csr cmp_ind ms in
    let next = check_slots o peer csr c ms in
    if is_occupied m then (if is_zero c then c else next) else skipped

check_list : Ossl → X509 → X509Req → Option ℕ → List MfgInfo → AuthHdrResult
unfolding check_mfg check_slots
check_list o peer csr (some i) ms = check_mfg o peer csr (slot_at ms i).nid
check_list o peer csr none ms = result_of (check_slots o peer csr (pos 0) ms)

csr_check_in :
    Ossl → Option (List MfgInfo) → Option X509 → Option X509Req → Option ℕ → AuthHdrResult
unfolding check_list
csr_check_in o mfgs none csr i = eca_err
csr_check_in o mfgs (some peer) none i = eca_err
csr_check_in o none (some peer) (some csr) i = eca_csr_check_fail
csr_check_in o (some ms) (some peer) (some csr) i = check_list o peer csr i ms

unfoldable pub csr_check : Ossl → Eca → Option X509 → Option X509Req → Option ℕ → AuthHdrResult
unfolding csr_check_in
csr_check o e peer csr i = csr_check_in o e.mfgs peer csr i
