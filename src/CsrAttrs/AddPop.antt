-- ===== src/CsrAttrs/AddPop.antt =====
-- src/est/est.c: est_add_challengePassword, which puts the OID of the challengePassword behind the
-- attributes that a server asks for. Failures of malloc are left out.
pub mod Laws
use aims_libest.Prelude.{
  ℕ, ◌+◌, ◌*◌, ◌/◌, ◌%◌, Bytes, List, [], ◌∷◌, ◌++◌, Option, none, some, Bool, true, false,
  if◌then◌else◌, leb, length,
}
use aims_libest.Api.{Status, bad_asn1_hex, bad_base64, malloc}
use aims_libest.Base64.{Bio, base64_decode, Encoded, refused, fits, overruns, base64_encode}
use aims_libest.CsrAttrs.{Tag, object_tag, set_tag, sequence_tag, other_tag, Header, Asn1, advance}

abbrev pub is_sequence : Tag → Bool
is_sequence sequence_tag = true
is_sequence _ = false

abbrev pub hex_chpw : Bytes
hex_chpw = 6 ∷ 9 ∷ 42 ∷ 134 ∷ 72 ∷ 134 ∷ 247 ∷ 13 ∷ 1 ∷ 9 ∷ 7 ∷ []

-- the header of the new SEQUENCE, for so many bytes of content
unfoldable pub sequence_header : ℕ → Bytes
sequence_header n =
    if leb 256 n
    then 48 ∷ 130 ∷ (n / 256) % 256 ∷ n % 256 ∷ []
    else if leb 128 n
    then 48 ∷ 129 ∷ n ∷ []
    else 48 ∷ n ∷ []

-- the new attributes, of the old content
unfoldable pub new_der : Bytes → Bytes
new_der content = sequence_header (length content + length hex_chpw) ++ (content ++ hex_chpw)

abbrev pub encoded : Encoded → Option (Status × Bytes)
encoded refused = some (some bad_base64, [])
encoded (fits text) = some (none, text)
encoded (overruns text) = none

unfoldable pub with_content : Bio → Option Bytes → Option (Status × Bytes)
with_content bio none = none
with_content bio (some content) =
    encoded (base64_encode bio (new_der content) (length (new_der content) * 2) false)

module _ (a : Asn1) (bio : Bio) where
  unfoldable pub with_der : Option Bytes → Option (Status × Bytes)
  unfolding with_content
  with_der none = none
  with_der (some []) = some (some malloc, [])
  with_der (some (c ∷ der)) =
      let h = a.get_object (c ∷ der) in
      if is_sequence h.tag
      then with_content bio (advance h.hdr_len (c ∷ der))
      else some (some bad_asn1_hex, [])

  -- The code, and the new text where it is EST_ERR_NONE. `none` is a read or a write out of bounds.
  unfoldable pub add_challenge_password : Bytes → ℕ → Option (Status × Bytes)
  unfolding with_der
  add_challenge_password base64 len = with_der (base64_decode bio base64 (len * 2))
