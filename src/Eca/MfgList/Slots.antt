-- ===== src/Eca/MfgList/Slots.antt =====
-- src/est/est_enhcd_cert_auth.c: what loading a manufacturer does to the slots.
use aims_libest.Prelude.{
  ℕ, zero, suc, ◌+◌, ◌<◌, ℤ, Bytes, List, [], ◌∷◌, Option, none, some, true, ◌≡◌, refl, ◌∙◌, ◌≢◌,
  arith, is_some, length, set, get_elem?, length-set, get_elem?-set_self, get_elem?-set_ne,
  Option-cases, Bool-cases, inl, inr,
}
use aims_libest.Ossl.{Store}
use aims_libest.Context.{MfgInfo, Eca}
use aims_libest.Safec.{strncpy_s}
use aims_libest.Eca.MfgList.{
  Loader, num_supported_mfg, mfg_name_max_len, slot_at, mfg_info_list_create, first_free, load_slot,
  get_next_mfg_info_ind, load_at, load_in, load_manufacturer,
}

-- A slot with a trust store has its verification context too.
abbrev pub SlotIsSound : MfgInfo → Type 0
SlotIsSound m = is_some m.truststore ≡ true → m.store_ctx ≡ true

abbrev pub AllSound : List MfgInfo → Type 0
AllSound [] = Unit
AllSound (m ∷ ms) = SlotIsSound m × AllSound ms

abbrev pub ListIsValid : Option (List MfgInfo) → Type 0
ListIsValid none = Unit
ListIsValid (some ms) = (length ms ≡ num_supported_mfg) × AllSound ms

AllSound-set :
    (ms : List MfgInfo) (i : ℕ) (m : MfgInfo) → AllSound ms → SlotIsSound m → AllSound (set ms i m)
AllSound-set [] i m h s = tt
AllSound-set (x ∷ xs) zero m h s = (s, h.1)
AllSound-set (x ∷ xs) (suc i) m h s = (h.0, AllSound-set xs i m h.1 s)

load_slot-SlotIsSound :
    (l : Loader) (m : MfgInfo) (n : Bytes) (nid : ℤ) (certs : Bytes)
    → SlotIsSound m
    → SlotIsSound (load_slot l m n nid certs).0
unfolding load_slot
load_slot-SlotIsSound l m n nid certs h = ground arith

slot_at-SlotIsSound : (ms : List MfgInfo) (i : ℕ) → AllSound ms → SlotIsSound (slot_at ms i)
slot_at-SlotIsSound [] i h = λ e. cc
slot_at-SlotIsSound (m ∷ ms) zero h = h.0
slot_at-SlotIsSound (m ∷ ms) (suc i) h = slot_at-SlotIsSound ms i h.1

pub first_free_bound :
    (ms : List MfgInfo) (i : ℕ)
    → first_free ms ≡ some i
    → (i < length ms) × (get_elem? ms i ≡ some (slot_at ms i)) × ((slot_at ms i).truststore ≡ none)
unfolding first_free
first_free_bound [] i h = cc
first_free_bound (m ∷ ms) zero h = ground arith
first_free_bound (m ∷ ms) (suc i) h = ground (arith, first_free_bound ms i)

set-ListIsValid :
    (l : Loader) (ms : List MfgInfo) (i : ℕ) (n : Bytes) (nid : ℤ) (certs : Bytes)
    → ListIsValid (some ms)
    → ListIsValid (some (set ms i (load_slot l (slot_at ms i) n nid certs).0))
set-ListIsValid l ms i n nid certs h = (
  length-set ms i _ ∙ h.0,
  AllSound-set ms i _ h.1 (load_slot-SlotIsSound l _ n nid certs (slot_at-SlotIsSound ms i h.1)),
)

load_in-ListIsValid :
    (l : Loader) (e : Eca) (n : Bytes) (nid : ℤ) (certs : Bytes) (ms : Option (List MfgInfo))
    → e.mfgs ≡ ms
    → ListIsValid ms
    → ListIsValid (load_in l e n nid certs ms).0.mfgs
unfolding load_in load_at get_next_mfg_info_ind
load_in-ListIsValid l e n nid certs none p h = rw p tt
load_in-ListIsValid l e n nid certs (some ms) p h = elim (Option-cases (first_free ms)) [
  | inl q ↦ rw q (rw p h)
  | inr (i, q) ↦ rw q (set-ListIsValid l ms i n nid certs h)
]

-- Whatever OpenSSL and the allocator answer, and whether or not the load succeeds, the list of
-- manufacturers keeps its four slots, and a slot with a trust store has its verification context.
pub load_manufacturer-ListIsValid :
    (l : Loader) (e : Eca) (n : Bytes) (nid : ℤ) (certs : Bytes)
    → ListIsValid e.mfgs
    → ListIsValid (load_manufacturer l e n nid certs).0.mfgs
unfolding load_manufacturer
load_manufacturer-ListIsValid l e n nid certs h = load_in-ListIsValid l e n nid certs e.mfgs refl h

-- What the load writes into the slot that it takes.
abbrev loaded_slot : MfgInfo → Bytes → ℤ → Store → MfgInfo
loaded_slot m n nid s = record m { name = n; nid = nid; truststore = some s; store_ctx = true }

-- With a free slot and every library call succeeding, the first free slot takes the manufacturer,
-- every other slot is as it was, and the code is EST_ERR_NONE.
pub load_manufacturer-first_free :
    (l : Loader) (e : Eca) (ms : List MfgInfo) (i : ℕ) (s : Store) (n : Bytes) (nid : ℤ)
    (certs : Bytes)
    → e.mfgs ≡ some ms
    → first_free ms ≡ some i
    → strncpy_s (mfg_name_max_len + 1) n mfg_name_max_len ≡ some n
    → l.store_new ≡ some s
    → l.init_cert_store s certs ≡ none
    → l.store_ctx_new ≡ true
    → (load_manufacturer l e n nid certs
        ≡ (record e { mfgs = some (set ms i (loaded_slot (slot_at ms i) n nid s)) }, none))
      × (get_elem? (set ms i (loaded_slot (slot_at ms i) n nid s)) i
          ≡ some (loaded_slot (slot_at ms i) n nid s))
      × ((j : ℕ)
          → i ≢ j
          → get_elem? (set ms i (loaded_slot (slot_at ms i) n nid s)) j ≡ get_elem? ms j)
unfolding load_manufacturer load_slot
load_manufacturer-first_free l e ms i s n nid certs p q c new init ctx = (
  ground arith,
  get_elem?-set_self ms i _ (first_free_bound ms i q).0,
  λ j ne. get_elem?-set_ne ms _ ne,
)

-- With no free slot nothing is stored, and the code is EST_ERR_NONE all the same.
pub load_manufacturer-full :
    (l : Loader) (e : Eca) (ms : List MfgInfo) (n : Bytes) (nid : ℤ) (certs : Bytes)
    → e.mfgs ≡ some ms
    → first_free ms ≡ none
    → load_manufacturer l e n nid certs ≡ (e, none)
unfolding load_manufacturer
load_manufacturer-full l e ms n nid certs p q = ground arith

-- The load touches the list alone.
pub load_manufacturer_frame :
    (l : Loader) (e : Eca) (n : Bytes) (nid : ℤ) (certs : Bytes)
    → ((load_manufacturer l e n nid certs).0.enabled ≡ e.enabled)
      × ((load_manufacturer l e n nid certs).0.pwd ≡ e.pwd)
unfolding load_manufacturer
load_manufacturer_frame l e n nid certs = ground arith

pub mfg_info_list_create-ListIsValid :
    (l : Loader) (e : Eca) → ListIsValid (mfg_info_list_create l e).0.mfgs
unfolding mfg_info_list_create
mfg_info_list_create-ListIsValid l e = elim (Bool-cases l.calloc) [
  | inl c ↦ rw c (refl, (λ h. h, (λ h. h, (λ h. h, (λ h. h, tt)))))
  | inr c ↦ rw c tt
]

pub mfg_info_list_create_frame :
    (l : Loader) (e : Eca)
    → ((mfg_info_list_create l e).0.enabled ≡ e.enabled)
      × ((mfg_info_list_create l e).0.pwd ≡ e.pwd)
unfolding mfg_info_list_create
mfg_info_list_create_frame l e = ground arith
