-- ===== src/CsrAttrs/Enforce.antt =====
-- src/est/est_server.c: the loop over the attributes ends, and a CSR that passes has them all.
use aims_libest.Prelude.{
  ℕ, zero, suc, ◌+◌, ◌≤◌, Bytes, List, [], ◌∷◌, Option, none, some, Bool, true, false, ◌≡◌, ◌≢◌,
  refl, sym, ap, subst, ◌∙◌, ◌⊎◌, inl, inr, arith, length, take, is_zero, is_some, not, ◌&&◌, ltb,
  Bool-cases, Option-cases,
}
use aims_libest.Api.{Status, bad_asn1_hex, bad_base64, invalid_parameters, unknown}
use aims_libest.Context.{Ctx}
use aims_libest.Ossl.{Asn1Object, X509}
use aims_libest.Safec.{strcmp_s, strncmp, strncmp_iff}
use aims_libest.CsrAttrs.Items.{
  IsItem, an_object, undecoded, opened, passed, Behind, Behind-advance,
}
use aims_libest.CsrAttrs.{
  object_tag, Asn1, est_max_attr_len, match_oid, require_oid, Item, broken, item, read_item,
  advance, need, walk, check_der, check_data, attrs_of, all_csrattrs_present,
}

-- The library moves the pointer by a byte at least.
pub record Progresses (a : Asn1) : Type 0 where
  pub header : (s : Bytes) → 1 ≤ (a.get_object s).hdr_len
  pub object : (s : Bytes) (obj : Asn1Object) (n : ℕ) → a.d2i_object s ≡ some (obj, n) → 1 ≤ n

pub advance_shorter :
    (n : ℕ) (s rest : Bytes) → advance n s ≡ some rest → length rest + n ≡ length s
unfolding advance
advance_shorter zero s rest h = ground arith
advance_shorter (suc n) [] rest h = ground arith
advance_shorter (suc n) (c ∷ s) rest h = let e = advance_shorter n s rest h in omega arith

read_item-moves :
    (a : Asn1) (p : Progresses a) (s : Bytes) (want : Option Bytes) (n : ℕ)
    → read_item a s ≡ item want n
    → 1 ≤ n
unfolding read_item
read_item-moves a p s want n h = elim (Option-cases (a.d2i_object s)) [
  | inl q ↦ ground (arith, p.header s)
  | inr ((obj, k), q) ↦ ground (arith, p.header s, p.object s obj k q)
]

-- The CSR's OIDs have one that agrees with `t` in its first EST_MAX_ATTR_LEN bytes.
abbrev pub Has : List Bytes → Bytes → Type 0
Has [] t = ⊥
Has (oid ∷ oids) t = (take est_max_attr_len oid ≡ take est_max_attr_len t) ⊎ Has oids t

match_oid-Has : (t : Bytes) (oids : List Bytes) → match_oid t oids ≡ some true → Has oids t
unfolding match_oid strcmp_s
match_oid-Has t [] h = absurd (ground arith)
match_oid-Has t (oid ∷ oids) h = elim (Bool-cases (is_zero (strncmp oid t est_max_attr_len))) [
  | inl z ↦ inl ((strncmp_iff est_max_attr_len oid t).0 (ground arith))
  | inr z ↦ inr (match_oid-Has t oids (ground arith))
]

require_oid-Has : (oids : List Bytes) (t : Bytes) → require_oid oids t ≡ none → Has oids t
unfolding require_oid
require_oid-Has [] t h = absurd (ground arith)
require_oid-Has (oid ∷ oids) t h = match_oid-Has t (oid ∷ oids) (ground arith)

-- The data, divided into items of ASN.1, has an object with text `t`, which is no challengePassword.
pub data Wants (a : Asn1) (t : Bytes) : Bytes → Type 0 where
  here :
      (c : ℕ) (s : Bytes) (obj : Asn1Object) (n : ℕ)
      → (a.get_object (c ∷ s)).bad ≡ false
      → (a.get_object (c ∷ s)).tag ≡ object_tag
      → a.d2i_object (c ∷ s) ≡ some (obj, n)
      → a.is_challenge obj ≡ false
      → a.text obj ≡ t
      → Wants a t (c ∷ s)
  later :
      (c : ℕ) (s rest : Bytes) (found : Bool) (n : ℕ)
      → IsItem a (c ∷ s) found n
      → Behind n (c ∷ s) rest
      → Wants a t rest
      → Wants a t (c ∷ s)

-- What the loop reads of an item.
IsItem-read_item :
    (a : Asn1) (s : Bytes) (found : Bool) (n : ℕ)
    → IsItem a s found n
    → (read_item a s ≡ broken unknown) ⊎ ((want : Option Bytes) × (read_item a s ≡ item want n))
unfolding read_item
IsItem-read_item a s _ _ (an_object obj true n b t q c) = inr (none, rw b (rw t (rw q (rw c refl))))
IsItem-read_item a s _ _ (an_object obj false n b t q c) =
    inr (some (a.text obj), rw b (rw t (rw q (rw c refl))))
IsItem-read_item a s _ _ (undecoded b t q) = inl (rw b (rw t (rw q refl)))
IsItem-read_item a s _ _ (opened b (inl t)) = inr (none, rw b (rw t refl))
IsItem-read_item a s _ _ (opened b (inr t)) = inr (none, rw b (rw t refl))
IsItem-read_item a s _ _ (passed b t) = inr (none, rw b (rw t refl))

object_read :
    (a : Asn1) (s : Bytes) (obj : Asn1Object) (n : ℕ)
    → (a.get_object s).bad ≡ false
    → (a.get_object s).tag ≡ object_tag
    → a.d2i_object s ≡ some (obj, n)
    → a.is_challenge obj ≡ false
    → read_item a s ≡ item (some (a.text obj)) n
unfolding read_item
object_read a s obj n b t q c = rw b (rw t (rw q (rw c refl)))

module _ (a : Asn1) (oids : List Bytes) where
  -- One round: the loop is over, or it goes on with what is behind the item.
  walk_round :
      (fuel c : ℕ) (s : Bytes)
      → ((st : Status) × (walk a oids (suc fuel) (c ∷ s) ≡ some st) × (st ≢ none))
        ⊎ ((want : Option Bytes) × (n : ℕ) × (rest : Bytes) × (read_item a (c ∷ s) ≡ item want n)
            × (need oids want ≡ none)
            × (advance n (c ∷ s) ≡ some rest)
            × (walk a oids (suc fuel) (c ∷ s) ≡ walk a oids fuel rest))
  unfolding walk
  walk_round fuel c s = go (read_item a (c ∷ s)) refl
    where
      go :
          (i : Item)
          → read_item a (c ∷ s) ≡ i
          → ((st : Status) × (walk a oids (suc fuel) (c ∷ s) ≡ some st) × (st ≢ none))
            ⊎ ((want : Option Bytes) × (n : ℕ) × (rest : Bytes) × (read_item a (c ∷ s)
                  ≡ item want n)
                × (need oids want ≡ none)
                × (advance n (c ∷ s) ≡ some rest)
                × (walk a oids (suc fuel) (c ∷ s) ≡ walk a oids fuel rest))
      go (broken e) q = inl (some e, ground arith, λ u. cc)
      go (item want n) q = elim (Option-cases (need oids want)) [
        | inr (e, r) ↦ inl (some e, ground arith, λ u. cc)
        | inl r ↦ elim (Option-cases (advance n (c ∷ s))) [
          | inl u ↦ inl (some bad_asn1_hex, ground arith, λ v. cc)
          | inr (rest, u) ↦ inr (want, n, rest, q, r, u, ground arith)
        ]
      ]

  -- The loop over the attributes ends, within as many rounds as the data has bytes, where the library
  -- moves the pointer by a byte at least each time.
  pub walk_ends :
      Progresses a
      → (fuel : ℕ) (s : Bytes) → length s ≤ fuel
      → (st : Status) × (walk a oids fuel s ≡ some st)
  walk_ends p fuel [] l = (none, unfold walk in refl)
  walk_ends p zero (c ∷ s) l = absurd (omega arith)
  walk_ends p (suc fuel) (c ∷ s) l = elim (walk_round fuel c s) [
    | inl (st, e, k) ↦ (st, e)
    | inr (want, n, rest, q, r, u, e) ↦
        let m = read_item-moves a p (c ∷ s) want n q in
        let shorter = advance_shorter n (c ∷ s) rest u in
        let (st, w) = walk_ends p fuel rest (omega arith) in (st, e ∙ w)
  ]

  -- A CSR passes the loop only if, for every attribute that the data asks for, challengePassword apart,
  -- its own OIDs have one that agrees in the first EST_MAX_ATTR_LEN bytes.
  pub walk-Has :
      (t : Bytes) (fuel : ℕ) (s : Bytes) → walk a oids fuel s ≡ some none → Wants a t s → Has oids t
  walk-Has t zero _ h (here c s obj n b g d k e) = absurd (unfold walk in ground arith)
  walk-Has t zero _ h (later c s rest found n x b w) = absurd (unfold walk in ground arith)
  walk-Has t (suc fuel) _ h (here c s obj n b g d k text) = elim (walk_round fuel c s) [
    | inl (st, e, f) ↦ absurd (f (ground arith))
    | inr (want', n', rest', q', r, u', e) ↦
        let q = object_read a (c ∷ s) obj n b g d k in
        let same : want' ≡ some t = ground arith in
        require_oid-Has oids t (subst (λ x. need oids x ≡ none) same r)
  ]
  walk-Has t (suc fuel) _ h (later c s rest found n x b w) = elim (walk_round fuel c s) [
    | inl (st, e, k) ↦ absurd (k (ground arith))
    | inr (want', n', rest', q', r, u', e) ↦ elim (IsItem-read_item a (c ∷ s) found n x) [
      | inl q ↦ absurd (ground arith)
      | inr (want, q) ↦
          let u = Behind-advance n (c ∷ s) rest b in
          let moved : n' ≡ n = ground arith in
          let there : advance n' (c ∷ s) ≡ advance n (c ∷ s) = ap (λ m. advance m (c ∷ s)) moved in
          let same : rest' ≡ rest = ground arith in
          walk-Has t fuel rest (subst (λ y. walk a oids fuel y ≡ some none) same (sym e ∙ h)) w
    ]
  ]

  check_der_ends :
      Progresses a → (d : Option Bytes) → (st : Status) × (check_der a oids d ≡ some st)
  unfolding check_der
  check_der_ends p none = (_, refl)
  check_der_ends p (some der) =
      let (st, w) = walk_ends p (length der) der (omega arith) in
      elim (Bool-cases (ltb (length der) 1)) [
        | inl x ↦ (some bad_base64, ground arith)
        | inr x ↦ elim (Bool-cases (ltb 1024 (length der))) [
          | inl y ↦ (some invalid_parameters, ground arith)
          | inr y ↦ elim (Bool-cases (ltb (length der) 2)) [
            | inl z ↦ (some invalid_parameters, ground arith)
            | inr z ↦ (st, ground arith)
          ]
        ]
      ]

module _ (a : Asn1) (decode : Bytes → Option Bytes) (oids : List Bytes) (ctx : Ctx)
    (peer : Option X509) where
  check_data_ends :
      Progresses a → (d : Option Bytes) → (st : Status) × (check_data a decode oids d ≡ some st)
  unfolding check_data
  check_data_ends p none = (_, refl)
  check_data_ends p (some attrs) =
      let (st, w) = check_der_ends a oids p (decode attrs) in
      elim (Bool-cases (ltb (length attrs) 4)) [
        | inl x ↦ (some invalid_parameters, ground arith)
        | inr x ↦ (st, ground arith)
      ]

  -- The check of the attributes ends with a code, whatever the CSR's list and its code, where the
  -- library of ASN.1 moves its pointer by a byte at least each time.
  pub all_csrattrs_present_ends :
      Progresses a
      → (rv : Status)
      → (st : Status) × (all_csrattrs_present a decode (rv, oids) ctx peer ≡ some st)
  unfolding all_csrattrs_present
  all_csrattrs_present_ends p (some e) =
      elim (Bool-cases (not (is_some ctx.server_csrattrs) && not (is_some ctx.get_csr_cb))) [
        | inl x ↦ (none, ground arith)
        | inr x ↦ (some e, ground arith)
      ]
  all_csrattrs_present_ends p none =
      let (st, w) = check_data_ends p (attrs_of ctx peer) in
      elim (Bool-cases (not (is_some ctx.server_csrattrs) && not (is_some ctx.get_csr_cb))) [
        | inl x ↦ (none, ground arith)
        | inr x ↦ (st, ground arith)
      ]
