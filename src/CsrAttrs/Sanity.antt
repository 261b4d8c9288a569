-- ===== src/CsrAttrs/Sanity.antt =====
-- src/est/est.c: est_asn1_sanity_test, est_asn1_parse_attributes, est_is_challengePassword_present,
-- est_decode_attributes_helper, est_get_attributes_helper. Failures of malloc are left out.
pub mod Laws
use aims_libest.Prelude.{
  ℕ, zero, suc, ◌+◌, ◌*◌, Bytes, List, [], ◌∷◌, Option, none, some, Bool, true, false, ◌||◌,
  if◌then◌else◌, ltb, ◌==◌, length,
}
use aims_libest.Api.{
  EstError, Status, bad_asn1_hex, bad_asn1_hex_too_short, bad_asn1_hex_too_long, bad_base64,
  invalid_parameters,
}
use aims_libest.Ossl.{Asn1Object}
use aims_libest.Base64.{Bio, base64_decode}
use aims_libest.CsrAttrs.{Tag, object_tag, set_tag, sequence_tag, other_tag, Header, Asn1, advance}

-- one round of a loop: the library's error, or whether an object is a challengePassword, and how far
-- the pointer moves
pub data Round : Type 0 where
  corrupt : Round
  round : Bool → ℕ → Round

-- An object that does not decode leaves the pointer behind its header.
abbrev object_round : Asn1 → Header → Option (Asn1Object × ℕ) → Round
object_round a h none = round false h.hdr_len
object_round a h (some (obj, n)) = round (a.is_challenge obj) n

abbrev pub tag_round : Asn1 → Bytes → Header → Tag → Round
tag_round a s h object_tag = object_round a h (a.d2i_object s)
tag_round a s h set_tag = round false h.hdr_len
tag_round a s h sequence_tag = round false h.hdr_len
tag_round a s h other_tag = round false (h.hdr_len + h.len)

unfoldable pub sanity_round : Asn1 → Bytes → Round
sanity_round a s = let h = a.get_object s in if h.bad then corrupt else tag_round a s h h.tag

-- The loop, with `pop_present`; the outer `none` is that the fuel ran out.
unfoldable pub sanity_loop : Asn1 → ℕ → Bytes → Bool → Option (Status × Bool)
sanity_loop a fuel [] pop = some (none, pop)
sanity_loop a zero (c ∷ s) pop = none
sanity_loop a (suc fuel) (c ∷ s) pop = elim (sanity_round a (c ∷ s)) [
  | corrupt ↦ some (some bad_asn1_hex, pop)
  | round found n ↦ elim (advance n (c ∷ s)) [
    | none ↦ some (some bad_asn1_hex, pop || found)
    | some rest ↦ sanity_loop a fuel rest (pop || found)
  ]
]

-- MAX_CSRATTRS, MAX_CSRATTRS_WITHPOP
unfoldable pub max_csrattrs : Bool → ℕ
max_csrattrs false = 1024
max_csrattrs true = 1035

abbrev limited : ℕ → Option (Status × Bool) → Option (Status × Bool)
limited len none = none
limited len (some (some e, pop)) = some (some e, pop)
limited len (some (none, pop)) =
    if ltb (max_csrattrs pop) len then some (some bad_asn1_hex_too_long, pop) else some (none, pop)

-- MIN_ASN1_CSRATTRS
unfoldable pub asn1_sanity_test : Asn1 → Bytes → Option (Status × Bool)
unfolding sanity_loop max_csrattrs
asn1_sanity_test a der =
    if ltb (length der) 2
    then some (some bad_asn1_hex_too_short, false)
    else limited (length der) (sanity_loop a (length der) der false)

module _ (a : Asn1) (bio : Bio) where
  -- from the decoded bytes on, with the `pop_present` of before
  sanity_of : Option Bytes → Bool → Option (Status × Bool)
  unfolding asn1_sanity_test
  sanity_of none pop = none
  sanity_of (some []) pop = some (some bad_base64, pop)
  sanity_of (some (c ∷ der)) pop = asn1_sanity_test a (c ∷ der)

  -- MIN_CSRATTRS. The length is the caller's; the decoder goes by the NUL. `none` is a read in front
  -- of the text, or that the fuel ran out.
  unfoldable pub asn1_parse_attributes : Bytes → ℕ → Bool → Option (Status × Bool)
  unfolding sanity_of
  asn1_parse_attributes p len pop =
      if ltb len 4
      then some (some invalid_parameters, pop)
      else sanity_of (base64_decode bio p (len * 2)) pop

  -- `none` is a NULL pointer
  unfoldable pub is_challenge_password_present : Option Bytes → ℕ → Option (Status × Bool)
  unfolding asn1_parse_attributes
  is_challenge_password_present none len = some (none, false)
  is_challenge_password_present (some p) len =
      if len == 0 then some (none, false) else asn1_parse_attributes p len false

-- The code, and the bytes where it is EST_ERR_NONE; the receiving pointers are not NULL.
unfoldable pub decode_attributes_helper : Bio → Option Bytes → ℕ → Option (Status × Bytes)
decode_attributes_helper bio none len = some (some invalid_parameters, [])
decode_attributes_helper bio (some p) len =
    if ltb len 4 then some (some invalid_parameters, []) else elim (base64_decode bio p (len * 2)) [
      | none ↦ none
      | some [] ↦ some (some bad_base64, [])
      | some (c ∷ der) ↦ some (none, c ∷ der)
    ]
