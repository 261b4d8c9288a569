-- ===== src/Eca/CsrCheck/Identity.antt =====
-- src/est/est_enhcd_cert_auth.c: a CSR passes where it repeats the certificate's identity.
use aims_libest.Prelude.{
  ℕ, ◌<◌, ℤ, pos, Bytes, List, [], ◌∷◌, none, some, ◌≡◌, refl, ◌↔◌, ◌⊎◌, inl, inr, arith, length,
  take, is_zero, true, false, Bool-cases, Option-cases, ◌==◌, ==_iff,
}
use aims_libest.Api.{hdr_good}
use aims_libest.Ossl.{X509, X509Req, Ossl}
use aims_libest.Context.{MfgInfo, Eca}
use aims_libest.Safec.{strcmp_s}
use aims_libest.Eca.MfgList.{slot_at}
use aims_libest.Eca.Subject.{cert_subject_field, csr_subject_field}
use aims_libest.Eca.CsrCheck.{
  field_len, compare_fields, check_mfg, check_slot, is_occupied, check_slots, check_list,
  csr_check_in, csr_check,
}
use aims_libest.Eca.CsrCheck.Compare.{
  compare_good, compare_fields_good, compare_fields_nonempty, compare_fields_equal, compare_error,
}

-- The CSR repeats the field of slot `m`: both subjects have it, and agree in their first
-- MAX_UIDPWD + 1 bytes.
pub record Repeats (o : Ossl) (peer : X509) (csr : X509Req) (m : MfgInfo) : Type 0 where
  pub cert_field : Bytes
  pub csr_field : Bytes
  pub in_cert : cert_subject_field o peer m.nid ≡ some cert_field
  pub in_csr : csr_subject_field o csr m.nid ≡ some csr_field
  pub agree : take 256 cert_field ≡ take 256 csr_field

module _ (o : Ossl) (peer : X509) (csr : X509Req) where
  check_mfg-Repeats :
      (m : MfgInfo)
      → check_mfg o peer csr m.nid ≡ hdr_good
      → (r : Repeats o peer csr m) × (0 < length r.cert_field)
  unfolding check_mfg
  check_mfg-Repeats m h = elim (Option-cases (cert_subject_field o peer m.nid)) [
    | inl p ↦ absurd (ground arith)
    | inr (a, p) ↦ elim (Option-cases (csr_subject_field o csr m.nid)) [
      | inl q ↦ absurd (ground arith)
      | inr (b, q) ↦
          let e : compare_fields a b ≡ hdr_good = ground arith in
          (
            record {
              cert_field = a;
              csr_field = b;
              in_cert = p;
              in_csr = q;
              agree = compare_fields_good a b e;
            },
            compare_fields_nonempty a b e,
          )
    ]
  ]

  Repeats-check_mfg :
      (m : MfgInfo) (r : Repeats o peer csr m)
      → 0 < length r.cert_field
      → check_mfg o peer csr m.nid ≡ hdr_good
  unfolding check_mfg
  Repeats-check_mfg m r p = ground (arith, compare_fields_equal r.cert_field r.csr_field p r.agree)

  -- A certificate of manufacturer `i` passes exactly when the CSR repeats its identifying field,
  -- and the field is not empty.
  pub csr_check_mfg_iff :
      (e : Eca) (ms : List MfgInfo) (i : ℕ)
      → e.mfgs ≡ some ms
      → (csr_check o e (some peer) (some csr) (some i) ≡ hdr_good)
        ↔ ((r : Repeats o peer csr (slot_at ms i)) × (0 < length r.cert_field))
  unfolding csr_check csr_check_in check_list
  csr_check_mfg_iff e ms i p = (
    λ h. check_mfg-Repeats (slot_at ms i) (rw p at h),
    λ r. rw p (Repeats-check_mfg (slot_at ms i) r.0 r.1),
  )

  check_slot-Repeats :
      (m : MfgInfo) (c : ℤ) → is_zero (check_slot o peer csr m c) ≡ true → Repeats o peer csr m
  unfolding check_slot
  check_slot-Repeats m c h = elim (Option-cases (cert_subject_field o peer m.nid)) [
    | inl p ↦ absurd (ground arith)
    | inr (a, p) ↦ elim (Option-cases (csr_subject_field o csr m.nid)) [
      | inl q ↦ absurd (ground arith)
      | inr (b, q) ↦ record {
        cert_field = a;
        csr_field = b;
        in_cert = p;
        in_csr = q;
        agree = agree a b p q;
      }
    ]
  ]
    where
      agree :
          (a b : Bytes)
          → cert_subject_field o peer m.nid ≡ some a
          → csr_subject_field o csr m.nid ≡ some b
          → take 256 a ≡ take 256 b
      agree a b p q = elim (Bool-cases (field_len a == field_len b)) [
        | inr x ↦ absurd (ground arith)
        | inl x ↦ elim (Option-cases (strcmp_s a (field_len a) b)) [
          | inl y ↦ compare_error a b ((==_iff _ _).0 x) y
          | inr (d, y) ↦ compare_good a b ((==_iff _ _).0 x) d y (ground arith)
        ]
      ]

  abbrev pub NoneOccupied : List MfgInfo → Type 0
  NoneOccupied [] = Unit
  NoneOccupied (m ∷ ms) = (is_occupied m ≡ false) × NoneOccupied ms

  abbrev pub SomeRepeats : List MfgInfo → Type 0
  SomeRepeats [] = ⊥
  SomeRepeats (m ∷ ms) = ((is_occupied m ≡ true) × Repeats o peer csr m) ⊎ SomeRepeats ms

  check_slots-zero :
      (ms : List MfgInfo) (c : ℤ)
      → is_zero (check_slots o peer csr c ms) ≡ true
      → ((is_zero c ≡ true) × NoneOccupied ms) ⊎ SomeRepeats ms
  unfolding check_slots
  check_slots-zero [] c h = inl (h, tt)
  check_slots-zero (m ∷ ms) c h = elim (Bool-cases (is_occupied m)) [
    | inr free ↦ elim (check_slots-zero ms c (ground arith)) [
      | inl (z, n) ↦ inl (z, (free, n))
      | inr r ↦ inr (inr r)
    ]
    | inl used ↦ elim (Bool-cases (is_zero (check_slot o peer csr m c))) [
      | inl z ↦ inr (inl (used, check_slot-Repeats m c z))
      | inr nz ↦ elim (check_slots-zero ms (check_slot o peer csr m c) (ground arith)) [
        | inl (z, n) ↦ absurd (ground arith)
        | inr r ↦ inr (inr r)
      ]
    ]
  ]

  -- A certificate of the local PKI passes only where some loaded manufacturer's field is repeated in
  -- the CSR, or where no manufacturer is loaded.
  pub csr_check_local :
      (e : Eca) (ms : List MfgInfo)
      → e.mfgs ≡ some ms
      → csr_check o e (some peer) (some csr) none ≡ hdr_good
      → NoneOccupied ms ⊎ SomeRepeats ms
  unfolding csr_check csr_check_in check_list
  csr_check_local e ms p h =
      let h' : csr_check_in o (some ms) (some peer) (some csr) none ≡ hdr_good = rw p at h in
      elim (check_slots-zero ms (pos 0) (ground arith)) [ inl (z, n) ↦ inl n | inr r ↦ inr r ]

  check_slots_free : (ms : List MfgInfo) (c : ℤ) → NoneOccupied ms → check_slots o peer csr c ms ≡ c
  unfolding check_slots
  check_slots_free [] c h = refl
  check_slots_free (m ∷ ms) c h = ground (arith, check_slots_free ms c)

  -- A list of manufacturers with no store loaded lets every CSR of a local certificate pass.
  pub csr_check_free :
      (e : Eca) (ms : List MfgInfo)
      → e.mfgs ≡ some ms
      → NoneOccupied ms
      → csr_check o e (some peer) (some csr) none ≡ hdr_good
  unfolding csr_check csr_check_in check_list
  csr_check_free e ms p h = rw p (rw (check_slots_free ms (pos 0) h) refl)
