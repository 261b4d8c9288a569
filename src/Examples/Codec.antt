-- ===== src/Examples/Codec.antt =====
-- Runs of the base64 routines, on a library that knows one text and what it gains with a
-- challengePassword.
use aims_libest.Prelude.{
  ℕ, ◌+◌, ◌*◌, ◌≤◌, ◌<◌, Bytes, [], ◌∷◌, ◌++◌, Option, none, some, Bool, true, false, ◌&&◌, leb,
  if◌then◌else◌, ◌==◌, ◌≡◌, ◌↔◌, refl, inl, inr, sym, subst, length, codes, min, arith, Bool-cases,
}
use aims_libest.Base64.{
  Bio, is_space, byte_at, padding, analyze, trim, max_in, checked_read, decode_trimmed,
  base64_decode, fits, overruns, written, base64_encode,
}
use aims_libest.Base64.Laws.{blacks, IsBounded, base64_decode-outside_iff, base64_encode-overruns}
use aims_libest.Base64.RoundTrip.{Codes, base64_decode-encode}
use aims_libest.CsrAttrs.{sequence_tag, Asn1, advance}
use aims_libest.CsrAttrs.AddPop.{
  is_sequence, hex_chpw, sequence_header, new_der, with_content, with_der, add_challenge_password,
}
use aims_libest.CsrAttrs.AddPop.Laws.{read_sequence, add_challenge_password-read}

abbrev same : Bytes → Bytes → Bool
same [] [] = true
same (x ∷ s) (y ∷ t) = x == y && same s t
same _ _ = false

same_eq : (s t : Bytes) → same s t ≡ true → s ≡ t
same_eq [] [] h = refl
same_eq [] (y ∷ t) h = absurd (ground arith)
same_eq (x ∷ s) [] h = absurd (ground arith)
same_eq (x ∷ s) (y ∷ t) h = ground (arith, same_eq s t)

abbrev old_text : Bytes
old_text = codes "MAIGAA=="

abbrev old_der : Bytes
old_der = 48 ∷ 2 ∷ 6 ∷ 0 ∷ []

abbrev new_text : Bytes
new_text = codes "MA0GAAYJKoZIhvcNAQkH"

abbrev extended_der : Bytes
extended_der = 48 ∷ 13 ∷ 6 ∷ 0 ∷ hex_chpw

abbrev at_most : ℕ → Bytes → Option Bytes
at_most n s = if leb (length s) n then some s else none

abbrev pub bio : Bio
bio = record {
  new = true;
  read = λ flag s n. if same s new_text then at_most n extended_der else at_most n old_der;
  write = λ flag s. if same s extended_der then some new_text else none;
}

-- every object is a SEQUENCE
abbrev sequences : Asn1
sequences = record {
  get_object = λ s. record { bad = false; tag = sequence_tag; hdr_len = min 2 (length s); len = 0 };
  d2i_object = λ s. none;
  is_challenge = λ x. false;
  text = λ x. [];
}

base64_decode-outside_iff_example :
    (base64_decode bio (32 ∷ 10 ∷ []) 8 ≡ none) ↔ (blacks (32 ∷ 10 ∷ []) ≡ 0)
base64_decode-outside_iff_example = base64_decode-outside_iff bio (32 ∷ 10 ∷ []) 8 refl

at_most-length : (n : ℕ) (s out : Bytes) → at_most n s ≡ some out → length out ≤ n
at_most-length n s out h = elim (Bool-cases (leb (length s) n)) [
  | inl e ↦ ground arith
  | inr e ↦ absurd (ground arith)
]

bio-IsBounded : IsBounded bio
bio-IsBounded = record {
  bounded = λ flag src out n h. elim (Bool-cases (same src new_text)) [
    | inl e ↦ at_most-length n extended_der out (ground arith)
    | inr e ↦ at_most-length n old_der out (ground arith)
  ];
}

old_decodes : base64_decode bio old_text 16 ≡ some old_der
unfolding base64_decode analyze is_space byte_at trim max_in padding decode_trimmed checked_read
old_decodes = refl

-- a buffer of 20 bytes has no room for the NUL
too_long : base64_encode bio extended_der 20 false ≡ overruns new_text
unfolding base64_encode written
too_long = refl

base64_encode-overruns_example : (20 ≤ length new_text) × (length new_text ≤ 20 + 4)
base64_encode-overruns_example =
    base64_encode-overruns bio extended_der new_text 20 false refl too_long

extended-Codes : Codes bio extended_der new_text
unfolding is_space padding byte_at
extended-Codes = record { solid = refl; size = refl; pad = refl; back = λ n l. ground arith }

bio-Codes : (src out : Bytes) → bio.write true src ≡ some out → Codes bio src out
bio-Codes src out h = elim (Bool-cases (same src extended_der)) [
  | inr e ↦ absurd (ground arith)
  | inl e ↦
      let here = same_eq src extended_der e in
      let there : out ≡ new_text = ground arith in
      subst (λ x. Codes bio x out) (sym here)
        (subst (λ y. Codes bio extended_der y) (sym there) extended-Codes)
]

encodes : base64_encode bio extended_der 30 false ≡ fits new_text
unfolding base64_encode written
encodes = refl

base64_decode-encode_example : base64_decode bio new_text 15 ≡ some extended_der
base64_decode-encode_example =
    base64_decode-encode bio extended_der new_text 30 15 (bio-Codes extended_der new_text)
      (omega arith) (omega arith) encodes

adds : add_challenge_password sequences bio old_text 8 ≡ some (none, new_text)
unfolding add_challenge_password with_der with_content new_der sequence_header advance base64_decode
    analyze is_space byte_at trim max_in padding decode_trimmed checked_read base64_encode written
adds = refl

add_challenge_password-read_example :
    (der content : Bytes) × (base64_decode bio old_text 16 ≡ some der)
    × (is_sequence (sequences.get_object der).tag ≡ true)
    × (advance (sequences.get_object der).hdr_len der ≡ some content)
    × (length content + 11 < 65536
        → (new : Bytes) × (base64_decode bio new_text (length new_text * 2) ≡ some new)
          × (read_sequence new ≡ some (content ++ hex_chpw)))
add_challenge_password-read_example =
    add_challenge_password-read sequences bio old_text 8 new_text bio-Codes adds
