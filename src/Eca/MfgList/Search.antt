-- ===== src/Eca/MfgList/Search.antt =====
-- src/est/est_enhcd_cert_auth.c: which manufacturer the peer certificate belongs to.
use aims_libest.Prelude.{
  ℕ, zero, suc, ◌+◌, List, [], ◌∷◌, none, some, true, false, ◌≡◌, sym, subst, ◌∙◌, ◌↔◌, ◌⊎◌, inl,
  inr, arith, is_zero, Option-cases, Bool-cases,
}
use aims_libest.Api.{Status, malloc, validation}
use aims_libest.Ossl.{X509, Chain, Store, Ossl}
use aims_libest.Context.{MfgInfo, Eca}
use aims_libest.Eca.MfgList.{scan_mfgs, get_mfg}

module _ (o : Ossl) (peer : X509) (chain : Chain) where
  -- X509_verify_cert on the slot's store answers something other than 0.
  abbrev pub Accepts : MfgInfo → Type 0
  Accepts m =
      (s : Store) × (m.truststore ≡ some s)
      × (m.store_ctx ≡ true)
      × (o.store_ctx_init s peer chain ≡ true)
      × (is_zero (o.verify_cert s peer chain) ≡ false)

  -- The slot is free, or its store was asked and answered 0.
  abbrev pub Refuses : MfgInfo → Type 0
  Refuses m =
      (m.truststore ≡ none)
      ⊎ (m.store_ctx ≡ false)
      ⊎ ((s : Store) × (m.truststore ≡ some s)
          × (o.store_ctx_init s peer chain ≡ true)
          × (is_zero (o.verify_cert s peer chain) ≡ true))

  -- Slot `i` is the first that accepts.
  abbrev pub FirstAccepting : List MfgInfo → ℕ → Type 0
  FirstAccepting [] i = ⊥
  FirstAccepting (m ∷ ms) zero = Accepts m
  FirstAccepting (m ∷ ms) (suc i) = Refuses m × FirstAccepting ms i

  abbrev pub AllRefuse : List MfgInfo → Type 0
  AllRefuse [] = Unit
  AllRefuse (m ∷ ms) = Refuses m × AllRefuse ms

  -- One slot: it is passed over, it accepts, or its verification cannot be set up.
  scan_step :
      (m : MfgInfo) (ms : List MfgInfo) (rv : Status) (k : ℕ)
      → ((rv' : Status) × Refuses m
          × (scan_mfgs o peer chain rv k (m ∷ ms) ≡ scan_mfgs o peer chain rv' (suc k) ms))
        ⊎ (Accepts m × (scan_mfgs o peer chain rv k (m ∷ ms) ≡ (some k, none)))
        ⊎ (scan_mfgs o peer chain rv k (m ∷ ms) ≡ (none, some malloc))
  unfolding scan_mfgs
  scan_step m ms rv k = elim (Option-cases m.truststore) [
    | inl p ↦ inl (rv, inl p, ground arith)
    | inr (s, p) ↦ elim (Bool-cases m.store_ctx) [
      | inr q ↦ inl (rv, inr (inl q), ground arith)
      | inl q ↦ elim (Bool-cases (o.store_ctx_init s peer chain)) [
        | inr r ↦ inr (inr (ground arith))
        | inl r ↦ elim (Bool-cases (is_zero (o.verify_cert s peer chain))) [
          | inl z ↦ inl (none, inr (inr (s, p, r, z)), ground arith)
          | inr z ↦ inr (inl ((s, p, q, r, z), ground arith))
        ]
      ]
    ]
  ]

  scan_mfgs-first :
      (ms : List MfgInfo) (rv : Status) (k i : ℕ) (st : Status)
      → scan_mfgs o peer chain rv k ms ≡ (some i, st)
      → (d : ℕ) × (i ≡ k + d) × FirstAccepting ms d × (st ≡ none)
  scan_mfgs-first [] rv k i st h = unfold scan_mfgs in cc
  scan_mfgs-first (m ∷ ms) rv k i st h = elim (scan_step m ms rv k) [
    | inl (rv', r, e) ↦
        let (d, p, f, q) = scan_mfgs-first ms rv' (suc k) i st (sym e ∙ h) in
        (suc d, omega arith, (r, f), q)
    | inr (inl (a, e)) ↦ (0, ground arith, a, ground arith)
    | inr (inr e) ↦ cc
  ]

  scan_mfgs_found :
      (ms : List MfgInfo) (rv : Status) (k i : ℕ)
      → FirstAccepting ms i
      → scan_mfgs o peer chain rv k ms ≡ (some (k + i), none)
  unfolding scan_mfgs
  scan_mfgs_found [] rv k i f = absurd f
  scan_mfgs_found (m ∷ ms) rv k zero (s, p, q, r, z) = ground arith
  scan_mfgs_found (m ∷ ms) rv k (suc i) (r, f) =
      ground (arith, scan_mfgs_found ms rv (suc k) i f, scan_mfgs_found ms none (suc k) i f)

  -- The peer is of manufacturer `i` exactly when slot `i` is the first whose verification of the
  -- peer certificate does not answer 0, every slot before it being free or having answered 0.
  pub get_mfg_iff :
      (e : Eca) (ms : List MfgInfo) (i : ℕ)
      → e.mfgs ≡ some ms
      → (get_mfg o e peer chain ≡ (some i, none)) ↔ FirstAccepting ms i
  unfolding get_mfg
  get_mfg_iff e ms i p = (
    λ h. found h,
    λ f. rw (p, get_mfg) (scan_mfgs_found ms (some validation) 0 i f ∙ ground arith),
  )
    where
      found : get_mfg o e peer chain ≡ (some i, none) → FirstAccepting ms i
      found h =
          let (d, q, f, t) = scan_mfgs-first ms (some validation) 0 i none (ground arith) in
          subst (FirstAccepting ms) (omega arith) f
