-- ===== src/CsrAttrs/Items.antt =====
-- src/est/est.c and src/est/est_server.c: the items of ASN.1 that est_asn1_sanity_test and
-- est_server_all_csrattrs_present walk over, in terms of what the ASN.1 library answers.
use aims_libest.Prelude.{
  ℕ, zero, suc, ◌+◌, Bytes, [], ◌∷◌, ◌++◌, none, some, Bool, false, ◌≡◌, ◌⊎◌, refl, sym, ◌∙◌, ap,
  arith, length,
}
use aims_libest.Ossl.{Asn1Object}
use aims_libest.CsrAttrs.{object_tag, set_tag, sequence_tag, other_tag, Asn1, advance}

-- The item at the start of the bytes, whether it is a challengePassword, and how many bytes of it are
-- passed: an object, an object that does not decode, of which the header is passed, the header of a
-- SET or a SEQUENCE, or any other item whole.
pub data IsItem (a : Asn1) (s : Bytes) : Bool → ℕ → Type 0 where
  an_object :
      (obj : Asn1Object) (found : Bool) (n : ℕ)
      → (a.get_object s).bad ≡ false
      → (a.get_object s).tag ≡ object_tag
      → a.d2i_object s ≡ some (obj, n)
      → a.is_challenge obj ≡ found
      → IsItem a s found n
  undecoded :
      (a.get_object s).bad ≡ false
      → (a.get_object s).tag ≡ object_tag
      → a.d2i_object s ≡ none
      → IsItem a s false (a.get_object s).hdr_len
  opened :
      (a.get_object s).bad ≡ false
      → ((a.get_object s).tag ≡ set_tag) ⊎ ((a.get_object s).tag ≡ sequence_tag)
      → IsItem a s false (a.get_object s).hdr_len
  passed :
      (a.get_object s).bad ≡ false
      → (a.get_object s).tag ≡ other_tag
      → IsItem a s false ((a.get_object s).hdr_len + (a.get_object s).len)

-- `rest` is the bytes without the first `n` of them
abbrev pub Behind : ℕ → Bytes → Bytes → Type 0
Behind n s rest = (front : Bytes) × (length front ≡ n) × (s ≡ front ++ rest)

pub advance-Behind : (n : ℕ) (s rest : Bytes) → advance n s ≡ some rest → Behind n s rest
unfolding advance
advance-Behind zero s rest h = ([], refl, ground arith)
advance-Behind (suc n) [] rest h = absurd (ground arith)
advance-Behind (suc n) (c ∷ s) rest h =
    let (front, l, e) = advance-Behind n s rest h in (c ∷ front, ap suc l, ap (λ x. c ∷ x) e)

advance_front : (front rest : Bytes) → advance (length front) (front ++ rest) ≡ some rest
unfolding advance
advance_front [] rest = refl
advance_front (c ∷ front) rest = advance_front front rest

pub Behind-advance : (n : ℕ) (s rest : Bytes) → Behind n s rest → advance n s ≡ some rest
Behind-advance n s rest (front, l, e) =
    ap (λ x. advance x s) (sym l) ∙ ap (λ x. advance (length front) x) e ∙ advance_front front rest
