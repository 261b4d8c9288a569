-- ===== src/CsrAttrs/AddPop/Laws.antt =====
-- src/est/est.c: the new attributes are the old ones with the challengePassword behind them, in DER.
use aims_libest.Prelude.{
  ℕ, zero, suc, ◌+◌, ◌*◌, ◌/◌, ◌%◌, ◌≤◌, ◌<◌, Bytes, [], ◌∷◌, ◌++◌, Option, none, some, not, true,
  false, ◌≡◌, ◌≢◌, refl, sym, inl, inr, arith, if◌then◌else◌, ltb, leb, ◌==◌, length, length-append,
  Bool-cases, Option-cases,
}
use aims_libest.Api.{Status, bad_asn1_hex}
use aims_libest.Base64.Laws.{blacks, base64_decode-inside}
use aims_libest.Base64.{
  Bio, base64_decode, Encoded, refused, fits, overruns, written, base64_encode,
}
use aims_libest.Base64.RoundTrip.{base64_encode-written, Codes, base64_decode-encode}
use aims_libest.CsrAttrs.{Asn1, advance}
use aims_libest.CsrAttrs.AddPop.{
  is_sequence, hex_chpw, sequence_header, new_der, with_content, with_der, encoded,
  add_challenge_password,
}

abbrev exactly : ℕ → Bytes → Option Bytes
exactly n s = if length s == n then some s else none

-- X.690: the content of a SEQUENCE that is all of the bytes, where its length takes no more than two
-- bytes, in the shortest form
abbrev one_byte : Bytes → Option Bytes
one_byte [] = none
one_byte (x ∷ s) = if ltb x 128 then none else exactly x s

abbrev two_bytes : Bytes → Option Bytes
two_bytes (x ∷ y ∷ s) = if x == 0 then none else exactly (x * 256 + y) s
two_bytes _ = none

abbrev pub read_sequence : Bytes → Option Bytes
read_sequence (tag ∷ n ∷ s) =
    if not (tag == 48)
    then none
    else if ltb n 128
    then exactly n s
    else if n == 129
    then one_byte s
    else if n == 130
    then two_bytes s
    else none
read_sequence _ = none

read-header :
    (s : Bytes) → length s < 65536 → read_sequence (sequence_header (length s) ++ s) ≡ some s
unfolding sequence_header
read-header s h = elim (Bool-cases (leb 256 (length s))) [
  | inl e ↦ let high : (length s / 256) % 256 ≡ length s / 256 = omega arith in ground arith
  | inr e ↦ elim (Bool-cases (leb 128 (length s))) [ inl f ↦ ground arith | inr f ↦ ground arith ]
]

-- Content below 2^16 - 11 bytes becomes a DER SEQUENCE of that content and the OID of the
-- challengePassword.
pub read_sequence-new_der :
    (content : Bytes)
    → length content + 11 < 65536
    → read_sequence (new_der content) ≡ some (content ++ hex_chpw)
unfolding new_der
read_sequence-new_der content h =
    let l = length-append content hex_chpw in
    rw (sym l) (read-header (content ++ hex_chpw) (omega arith))

-- The library's encoder makes four characters of every three bytes that it begins.
abbrev pub Sized : Bio → Type 0
Sized bio =
    (src text : Bytes) → bio.write true src ≡ some text → length text ≡ 4 * ((length src + 2) / 3)

length-new_der : (content : Bytes) → 13 ≤ length (new_der content)
unfolding new_der sequence_header
length-new_der content = ground (arith, length-append content hex_chpw)

new_der-fits :
    (bio : Bio) (content text : Bytes)
    → Sized bio
    → base64_encode bio (new_der content) (length (new_der content) * 2) false ≢ overruns text
unfolding base64_encode written
new_der-fits bio content text z h = elim (Option-cases (bio.write true (new_der content))) [
  | inl q ↦ ground arith
  | inr (t, q) ↦ ground (arith, z (new_der content) t q, length-new_der content)
]

encoded-total :
    (e : Encoded)
    → ((text : Bytes) → e ≢ overruns text)
    → (r : Status × Bytes) × (encoded e ≡ some r)
encoded-total refused k = (_, refl)
encoded-total (fits text) k = (_, refl)
encoded-total (overruns text) k = absurd (k text refl)

-- The header of an object lies inside the bytes.
abbrev pub Inside : Asn1 → Type 0
Inside a = (s : Bytes) → (a.get_object s).hdr_len ≤ length s

advance-total : (n : ℕ) (s : Bytes) → n ≤ length s → (rest : Bytes) × (advance n s ≡ some rest)
unfolding advance
advance-total zero s l = (s, refl)
advance-total (suc n) [] l = absurd (omega arith)
advance-total (suc n) (c ∷ s) l = advance-total n s (omega arith)

with_der-total :
    (a : Asn1) (bio : Bio) (der : Bytes)
    → Inside a
    → Sized bio
    → (r : Status × Bytes) × (with_der a bio (some der) ≡ some r)
unfolding with_der with_content
with_der-total a bio [] inside z = (_, refl)
with_der-total a bio (c ∷ der) inside z =
    let h = a.get_object (c ∷ der) in
    let (content, r) = advance-total h.hdr_len (c ∷ der) (inside (c ∷ der)) in
    let (out, e) = encoded-total _ (λ text. new_der-fits bio content text z) in
    elim (Bool-cases (is_sequence h.tag)) [
      | inl t ↦ (out, ground arith)
      | inr t ↦ ((some bad_asn1_hex, []), ground arith)
    ]

-- A challengePassword is put behind any text that is not white space throughout without a read or a
-- write out of bounds, where the header of an object lies inside the bytes, and the encoder makes four
-- characters of every three bytes that it begins.
pub add_challenge_password-total :
    (a : Asn1) (bio : Bio) (base64 : Bytes) (len : ℕ)
    → Inside a
    → Sized bio
    → blacks base64 ≢ 0
    → (r : Status × Bytes) × (add_challenge_password a bio base64 len ≡ some r)
unfolding add_challenge_password
add_challenge_password-total a bio base64 len inside z k =
    let (der, q) = base64_decode-inside bio base64 (len * 2) k in
    rw q (with_der-total a bio der inside z)

-- Where the new attributes are made, they are the encoding of what was read in the old SEQUENCE with
-- the OID of the challengePassword behind it.
add_challenge_password-made :
    (a : Asn1) (bio : Bio) (base64 : Bytes) (len : ℕ) (text : Bytes)
    → add_challenge_password a bio base64 len ≡ some (none, text)
    → (der content : Bytes) × (base64_decode bio base64 (len * 2) ≡ some der)
      × (is_sequence (a.get_object der).tag ≡ true)
      × (advance (a.get_object der).hdr_len der ≡ some content)
      × (base64_encode bio (new_der content) (length (new_der content) * 2) false ≡ fits text)
unfolding add_challenge_password with_der with_content
add_challenge_password-made a bio base64 len text h =
    elim (Option-cases (base64_decode bio base64 (len * 2))) [
      | inl q ↦ absurd (ground arith)
      | inr ([], q) ↦ absurd (ground arith)
      | inr (c ∷ der, q) ↦
          elim (Option-cases (advance (a.get_object (c ∷ der)).hdr_len (c ∷ der))) [
            | inl r ↦ absurd (ground arith)
            | inr (content, r) ↦ (c ∷ der, content, q, ground arith, r, ground arith)
          ]
    ]

-- The new attributes, decoded, are a DER SEQUENCE of what the old SEQUENCE held and the OID of the
-- challengePassword, where the old one held less than 2^16 - 11 bytes, and the encoder writes base64
-- that the decoder reads.
pub add_challenge_password-read :
    (a : Asn1) (bio : Bio) (base64 : Bytes) (len : ℕ) (text : Bytes)
    → ((src out : Bytes) → bio.write true src ≡ some out → Codes bio src out)
    → add_challenge_password a bio base64 len ≡ some (none, text)
    → (der content : Bytes) × (base64_decode bio base64 (len * 2) ≡ some der)
      × (is_sequence (a.get_object der).tag ≡ true)
      × (advance (a.get_object der).hdr_len der ≡ some content)
      × (length content + 11 < 65536
          → (new : Bytes) × (base64_decode bio text (length text * 2) ≡ some new)
            × (read_sequence new ≡ some (content ++ hex_chpw)))
add_challenge_password-read a bio base64 len text codes h =
    let (der, content, d, t, r, e) = add_challenge_password-made a bio base64 len text h in
    (
      der,
      content,
      d,
      t,
      r,
      λ small.
          let l = length-new_der content in
          let size : length text ≡ 4 * ((length (new_der content) + 2) / 3) =
            (codes _ text (base64_encode-written bio (new_der content) text _ e)).size in
          (
            new_der content,
            base64_decode-encode bio (new_der content) text (length (new_der content) * 2)
                (length text * 2) (codes (new_der content) text) (omega arith) (omega arith) e,
            read_sequence-new_der content small,
          ),
    )
