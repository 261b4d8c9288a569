-- ===== src/CsrAttrs/Sanity/Laws.antt =====
-- src/est/est.c: what est_asn1_sanity_test accepts, and that its loop ends.
use aims_libest.Prelude.{
  ℕ, zero, suc, ◌≤◌, ◌+◌, if◌then◌else◌, Bytes, [], ◌∷◌, none, some, Bool, true, false, ◌||◌, ◌≡◌,
  ◌↔◌, refl, sym, ap, ◌∙◌, subst, ◌⊎◌, inl, inr, arith, ltb, length, Bool-cases, Option-cases,
}
use aims_libest.Api.{Status, bad_asn1_hex, bad_asn1_hex_too_short, bad_asn1_hex_too_long}
use aims_libest.CsrAttrs.{Tag, object_tag, set_tag, sequence_tag, other_tag, Asn1, advance}
use aims_libest.CsrAttrs.Items.{
  IsItem, an_object, undecoded, opened, passed, Behind, advance-Behind, Behind-advance,
}
use aims_libest.CsrAttrs.Enforce.{Progresses, advance_shorter}
use aims_libest.CsrAttrs.Sanity.{
  Round, corrupt, round, tag_round, sanity_round, sanity_loop, max_csrattrs, asn1_sanity_test,
}

sanity_round-moves :
    (a : Asn1) (p : Progresses a) (s : Bytes) (found : Bool) (n : ℕ)
    → sanity_round a s ≡ round found n
    → 1 ≤ n
unfolding sanity_round
sanity_round-moves a p s found n h = elim (Option-cases (a.d2i_object s)) [
  | inl q ↦ ground (arith, p.header s)
  | inr ((obj, k), q) ↦ ground (arith, p.header s, p.object s obj k q)
]

-- The bytes divide into items of ASN.1 without a rest; the flag tells whether a challengePassword is
-- among them.
pub data Items (a : Asn1) : Bytes → Bool → Type 0 where
  done : Items a [] false
  next :
      (c : ℕ) (s rest : Bytes) (found pop : Bool) (n : ℕ)
      → IsItem a (c ∷ s) found n
      → Behind n (c ∷ s) rest
      → Items a rest pop
      → Items a (c ∷ s) (found || pop)

tag_round-IsItem :
    (a : Asn1) (s : Bytes) (t : Tag) (found : Bool) (n : ℕ)
    → (a.get_object s).bad ≡ false
    → (a.get_object s).tag ≡ t
    → tag_round a s (a.get_object s) t ≡ round found n
    → IsItem a s found n
tag_round-IsItem a s object_tag found n b t h = elim (Option-cases (a.d2i_object s)) [
  | inl q ↦
      let f : false ≡ found = ground arith in
      let m : (a.get_object s).hdr_len ≡ n = ground arith in
      subst (IsItem a s found) m
        (subst (λ x. IsItem a s x (a.get_object s).hdr_len) f (undecoded b t q))
  | inr ((obj, k), q) ↦
      let m : k ≡ n = ground arith in
      an_object obj found n b t (q ∙ ap (λ x. some (obj, x)) m) (ground arith)
]
tag_round-IsItem a s set_tag found n b t h =
    let f : false ≡ found = ground arith in
    let m : (a.get_object s).hdr_len ≡ n = ground arith in
    subst (IsItem a s found) m
      (subst (λ x. IsItem a s x (a.get_object s).hdr_len) f (opened b (inl t)))
tag_round-IsItem a s sequence_tag found n b t h =
    let f : false ≡ found = ground arith in
    let m : (a.get_object s).hdr_len ≡ n = ground arith in
    subst (IsItem a s found) m
      (subst (λ x. IsItem a s x (a.get_object s).hdr_len) f (opened b (inr t)))
tag_round-IsItem a s other_tag found n b t h =
    let k = (a.get_object s).hdr_len + (a.get_object s).len in
    let f : false ≡ found = ground arith in
    let m : k ≡ n = ground arith in
    subst (IsItem a s found) m (subst (λ x. IsItem a s x k) f (passed b t))

sanity_round-IsItem :
    (a : Asn1) (s : Bytes) (found : Bool) (n : ℕ)
    → sanity_round a s ≡ round found n
    → IsItem a s found n
unfolding sanity_round
sanity_round-IsItem a s found n h = elim (Bool-cases (a.get_object s).bad) [
  | inl b ↦ absurd (ground arith)
  | inr b ↦ tag_round-IsItem a s (a.get_object s).tag found n b refl (ground arith)
]

IsItem-sanity_round :
    (a : Asn1) (s : Bytes) (found : Bool) (n : ℕ)
    → IsItem a s found n
    → sanity_round a s ≡ round found n
unfolding sanity_round
IsItem-sanity_round a s _ _ (an_object obj found n b t q c) = rw b (rw t (rw q (rw c refl)))
IsItem-sanity_round a s _ _ (undecoded b t q) = rw b (rw t (rw q refl))
IsItem-sanity_round a s _ _ (opened b (inl t)) = rw b (rw t refl)
IsItem-sanity_round a s _ _ (opened b (inr t)) = rw b (rw t refl)
IsItem-sanity_round a s _ _ (passed b t) = rw b (rw t refl)

-- MAX_CSRATTRS_WITHPOP or MAX_CSRATTRS
abbrev most : Bool → ℕ
most pop = if pop then 1035 else 1024

max_csrattrs-most : (pop : Bool) → max_csrattrs pop ≡ most pop
unfolding max_csrattrs
max_csrattrs-most true = refl
max_csrattrs-most false = refl

or_assoc : (x y z : Bool) → (x || y) || z ≡ x || (y || z)
or_assoc true y z = refl
or_assoc false y z = refl

module _ (a : Asn1) where
  -- One round: the loop is over with an error, or it goes on behind the item.
  loop_round :
      (fuel c : ℕ) (s : Bytes) (pop : Bool)
      → ((q : Bool) × (sanity_loop a (suc fuel) (c ∷ s) pop ≡ some (some bad_asn1_hex, q)))
        ⊎ ((found : Bool) × (n : ℕ) × (rest : Bytes) × (sanity_round a (c ∷ s) ≡ round found n)
            × (advance n (c ∷ s) ≡ some rest)
            × (sanity_loop a (suc fuel) (c ∷ s) pop ≡ sanity_loop a fuel rest (pop || found)))
  unfolding sanity_loop
  loop_round fuel c s pop = go (sanity_round a (c ∷ s)) refl
    where
      go :
          (i : Round)
          → sanity_round a (c ∷ s) ≡ i
          → ((q : Bool) × (sanity_loop a (suc fuel) (c ∷ s) pop ≡ some (some bad_asn1_hex, q)))
            ⊎ ((found : Bool) × (n : ℕ) × (rest : Bytes) × (sanity_round a (c ∷ s) ≡ round found n)
                × (advance n (c ∷ s) ≡ some rest)
                × (sanity_loop a (suc fuel) (c ∷ s) pop ≡ sanity_loop a fuel rest (pop || found)))
      go corrupt q = inl (pop, ground arith)
      go (round found n) q = elim (Option-cases (advance n (c ∷ s))) [
        | inl u ↦ inl (pop || found, ground arith)
        | inr (rest, u) ↦ inr (found, n, rest, q, u, ground arith)
      ]

  -- The loop ends within as many rounds as there are bytes.
  pub sanity_loop_ends :
      Progresses a
      → (fuel : ℕ) (s : Bytes) (pop : Bool) → length s ≤ fuel
      → (st : Status) × (q : Bool) × (sanity_loop a fuel s pop ≡ some (st, q))
  sanity_loop_ends p fuel [] pop l = (none, pop, unfold sanity_loop in refl)
  sanity_loop_ends p zero (c ∷ s) pop l = absurd (omega arith)
  sanity_loop_ends p (suc fuel) (c ∷ s) pop l = elim (loop_round fuel c s pop) [
    | inl (q, e) ↦ (some bad_asn1_hex, q, e)
    | inr (found, n, rest, r, u, e) ↦
        let m = sanity_round-moves a p (c ∷ s) found n r in
        let shorter = advance_shorter n (c ∷ s) rest u in
        let (st, q, w) = sanity_loop_ends p fuel rest (pop || found) (omega arith) in (st, q, e ∙ w)
  ]

  sanity_loop-Items :
      (fuel : ℕ) (s : Bytes) (pop q : Bool)
      → sanity_loop a fuel s pop ≡ some (none, q)
      → (found : Bool) × Items a s found × (pop || found ≡ q)
  sanity_loop-Items fuel [] pop q h = (false, done, unfold sanity_loop in ground arith)
  sanity_loop-Items zero (c ∷ s) pop q h = absurd (unfold sanity_loop in ground arith)
  sanity_loop-Items (suc fuel) (c ∷ s) pop q h = elim (loop_round fuel c s pop) [
    | inl (q', e) ↦ absurd (ground arith)
    | inr (found, n, rest, r, u, e) ↦
        let (later, i, same) = sanity_loop-Items fuel rest (pop || found) q (sym e ∙ h) in
        (
          found || later,
          next c s rest found later n (sanity_round-IsItem a (c ∷ s) found n r)
              (advance-Behind n (c ∷ s) rest u) i,
          sym (or_assoc pop found later) ∙ same,
        )
  ]

  sanity_loop-next :
      (fuel c : ℕ) (s rest : Bytes) (pop found : Bool) (n : ℕ)
      → sanity_round a (c ∷ s) ≡ round found n
      → advance n (c ∷ s) ≡ some rest
      → sanity_loop a (suc fuel) (c ∷ s) pop ≡ sanity_loop a fuel rest (pop || found)
  unfolding sanity_loop
  sanity_loop-next fuel c s rest pop found n r u = ground arith

  Items-sanity_loop :
      Progresses a
      → (fuel : ℕ) (s : Bytes) (pop found : Bool) → Items a s found
      → length s ≤ fuel
      → sanity_loop a fuel s pop ≡ some (none, pop || found)
  Items-sanity_loop p fuel _ pop _ done l = unfold sanity_loop in ground arith
  Items-sanity_loop p zero _ pop _ (next c s rest found later n x b i) l = absurd (omega arith)
  Items-sanity_loop p (suc fuel) _ pop _ (next c s rest found later n x b i) l =
      let r = IsItem-sanity_round a (c ∷ s) found n x in
      let u = Behind-advance n (c ∷ s) rest b in
      let m = sanity_round-moves a p (c ∷ s) found n r in
      let shorter = advance_shorter n (c ∷ s) rest u in
      let w = Items-sanity_loop p fuel rest (pop || found) later i (omega arith) in
      sanity_loop-next fuel c s rest pop found n r u
      ∙ w
      ∙ ap (λ x. some (none, x)) (or_assoc pop found later)

  -- Data passes exactly where it has 2 bytes at least, divides into items of ASN.1, and has 1024 bytes
  -- at most, or 1035 where one of the objects is a challengePassword, and then the flag tells of that,
  -- where the ASN.1 library moves its pointer by a byte at least each time.
  pub asn1_sanity_test_iff :
      (p : Progresses a) (der : Bytes) (pop : Bool)
      → (asn1_sanity_test a der ≡ some (none, pop))
        ↔ ((2 ≤ length der) × Items a der pop × (length der ≤ (if pop then 1035 else 1024)))
  unfolding asn1_sanity_test
  asn1_sanity_test_iff p der pop =
      let limit = max_csrattrs-most pop in
      (
        λ h.
            let (st, q, e) = sanity_loop_ends p (length der) der false (omega arith) in
            let ok : sanity_loop a (length der) der false ≡ some (none, pop) = ground arith in
            let (found, i, same) = sanity_loop-Items (length der) der false pop ok in
            (ground arith, subst (Items a der) same i, ground arith),
        λ (m, i, l).
            let ok = Items-sanity_loop p (length der) der false pop i (omega arith) in ground arith,
      )

  -- The test ends with a code.
  pub asn1_sanity_test_ends :
      (p : Progresses a) (der : Bytes)
      → (st : Status) × (pop : Bool) × (asn1_sanity_test a der ≡ some (st, pop))
  unfolding asn1_sanity_test
  asn1_sanity_test_ends p der =
      let (st, q, e) = sanity_loop_ends p (length der) der false (omega arith) in
      elim (Bool-cases (ltb (length der) 2)) [
        | inl x ↦ (some bad_asn1_hex_too_short, false, ground arith)
        | inr x ↦ elim (Option-cases st) [
          | inr (err, y) ↦ (some err, q, ground arith)
          | inl y ↦ elim (Bool-cases (ltb (max_csrattrs q) (length der))) [
            | inl z ↦ (some bad_asn1_hex_too_long, q, ground arith)
            | inr z ↦ (none, q, ground arith)
          ]
        ]
      ]
