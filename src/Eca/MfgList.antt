-- ===== src/Eca/MfgList.antt =====
-- src/est/est_enhcd_cert_auth.c: the list of manufacturers, NUM_SUPPORTED_MFG slots, each free or
-- with a trust store.
pub mod Slots
pub mod Search
use aims_libest.Prelude.{
  ℕ, zero, suc, ◌+◌, ℤ, pos, Bytes, List, [], ◌∷◌, Option, none, some, Bool, true, false,
  if◌then◌else◌, is_some, is_zero, set, replicate,
}
use aims_libest.Api.{Status, invalid_parameters, malloc, validation, unknown}
use aims_libest.Ossl.{X509, Chain, Store, Ossl}
use aims_libest.Context.{MfgInfo, Eca}
use aims_libest.Safec.{strncpy_s}

abbrev pub num_supported_mfg : ℕ
num_supported_mfg = 4

abbrev pub mfg_name_max_len : ℕ
mfg_name_max_len = 255

-- What OpenSSL and the allocator answer while a manufacturer is loaded: calloc, X509_STORE_new,
-- `ossl_init_cert_store` on the PEM bundle, X509_STORE_CTX_new.
pub record Loader : Type 0 where
  pub calloc : Bool
  pub store_new : Option Store
  pub init_cert_store : Store → Bytes → Status
  pub store_ctx_new : Bool

abbrev pub free_slot : MfgInfo
free_slot = record { name = []; nid = pos 0; truststore = none; store_ctx = false }

pub mfg_info_list_create : Loader → Eca → Eca × Status
mfg_info_list_create l e =
    if l.calloc
    then (record e { mfgs = some (replicate num_supported_mfg free_slot) }, none)
    else (record e { mfgs = none }, some malloc)

-- the loop over the slots: the first one with no trust store
unfoldable pub first_free : List MfgInfo → Option ℕ
first_free [] = none
first_free (m ∷ ms) =
    let rest = first_free ms in
    if is_some m.truststore then elim rest [ none ↦ none | some i ↦ some (suc i) ] else some 0

-- The index, where `none` is -1, and the code.
pub get_next_mfg_info_ind : Option (List MfgInfo) → Option ℕ × Status
get_next_mfg_info_ind none = (none, some invalid_parameters)
get_next_mfg_info_ind (some ms) = (first_free ms, none)

abbrev pub slot_at : List MfgInfo → ℕ → MfgInfo
slot_at [] i = free_slot
slot_at (m ∷ ms) zero = m
slot_at (m ∷ ms) (suc i) = slot_at ms i

-- What is left in the slot, and the code: from the copy of the name to X509_STORE_CTX_new.
pub load_slot : Loader → MfgInfo → Bytes → ℤ → Bytes → MfgInfo × Status
load_slot l m mfg_name nid certs =
    elim (strncpy_s (mfg_name_max_len + 1) mfg_name mfg_name_max_len) [
      | none ↦ (record m { name = [] }, some unknown)
      | some n ↦
          let m' : MfgInfo = record m { name = n; nid = nid; truststore = none } in
          elim l.store_new [
            | none ↦ (m', some malloc)
            | some s ↦ elim (l.init_cert_store s certs) [
              | some rv ↦ (m', some rv)
              | none ↦
                  if l.store_ctx_new
                  then (record m' { truststore = some s; store_ctx = true }, none)
                  else (record m' { store_ctx = false }, some malloc)
            ]
          ]
    ]

-- `rv != EST_ERR_NONE || i < 0` gives back `rv`, which is EST_ERR_NONE where the list is full.
load_at : Loader → Eca → List MfgInfo → Bytes → ℤ → Bytes → Option ℕ → Status → Eca × Status
unfolding load_slot
load_at l e ms mfg_name nid certs i (some rv) = (e, some rv)
load_at l e ms mfg_name nid certs none none = (e, none)
load_at l e ms mfg_name nid certs (some i) none =
    let (m, rv) = load_slot l (slot_at ms i) mfg_name nid certs in
    (record e { mfgs = some (set ms i m) }, rv)

load_in : Loader → Eca → Bytes → ℤ → Bytes → Option (List MfgInfo) → Eca × Status
unfolding load_at get_next_mfg_info_ind
load_in l e mfg_name nid certs none = (e, some invalid_parameters)
load_in l e mfg_name nid certs (some ms) =
    let (i, rv) = get_next_mfg_info_ind (some ms) in load_at l e ms mfg_name nid certs i rv

-- est_load_enhcd_cert_auth_manufacturer
unfoldable pub load_manufacturer : Loader → Eca → Bytes → ℤ → Bytes → Eca × Status
unfolding load_in
load_manufacturer l e mfg_name nid certs = load_in l e mfg_name nid certs e.mfgs

-- mfg_info_list_destroy: the stores are freed with the list
unfoldable pub mfg_info_list_destroy : Eca → Eca
mfg_info_list_destroy e = record e { mfgs = none }

-- The loop of `get_mfg` from slot `i` on. `rv` starts as EST_ERR_VALIDATION and is overwritten by
-- the result of X509_verify_cert, where 0 reads as EST_ERR_NONE.
unfoldable pub scan_mfgs : Ossl → X509 → Chain → Status → ℕ → List MfgInfo → Option ℕ × Status
scan_mfgs o peer chain rv i [] = (none, rv)
scan_mfgs o peer chain rv i (m ∷ ms) =
    let skipped = scan_mfgs o peer chain rv (suc i) ms in
    let refused = scan_mfgs o peer chain none (suc i) ms in
    elim m.truststore [
      | none ↦ skipped
      | some s ↦
          if m.store_ctx
          then (if o.store_ctx_init s peer chain
              then (if is_zero (o.verify_cert s peer chain) then refused else (some i, none))
              else (none, some malloc))
          else skipped
    ]

-- est_enhcd_cert_auth_get_mfg: the index, where `none` is -1, and the code
unfoldable pub get_mfg : Ossl → Eca → X509 → Chain → Option ℕ × Status
unfolding scan_mfgs
get_mfg o e peer chain = elim e.mfgs [
  | none ↦ (none, none)
  | some ms ↦ scan_mfgs o peer chain (some validation) 0 ms
]
