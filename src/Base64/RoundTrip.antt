-- ===== src/Base64/RoundTrip.antt =====
-- src/est/est.c: what est_base64_encode writes, est_base64_decode reads.
use aims_libest.Prelude.{
  ℕ, zero, suc, ◌+◌, ◌-◌, ◌*◌, ◌/◌, ◌%◌, ◌≤◌, ◌<◌, true, false, Bytes, [], ◌∷◌, none, some, ltb,
  ◌==◌, ◌≡◌, inl, inr, refl, ap, ◌∙◌, sym, length, arith, Option-cases,
}
use aims_libest.Base64.{
  Bio, is_space, newline_inside, analyze_from, analyze, byte_at, trim, max_in, padding,
  checked_read, decode_trimmed, base64_decode, fits, written, base64_encode,
}
use aims_libest.Base64.Laws.{blacks, analyze-blacks}

-- What base64 is: `text` is the encoding of `src` without newlines, and reading it gives `src` back.
pub record Codes (bio : Bio) (src text : Bytes) : Type 0 where
  pub solid : blacks text ≡ length text
  pub size : length text ≡ 4 * ((length src + 2) / 3)
  pub pad : padding text (length text - 1) ≡ 3 * ((length src + 2) / 3) - length src
  pub back : (n : ℕ) → length src ≤ n → bio.read true text n ≡ some src

blacks_le : (s : Bytes) → blacks s ≤ length s
blacks_le [] = omega arith
blacks_le (c ∷ s) = ground (arith, blacks_le s)

solid_at : (s : Bytes) (i : ℕ) → blacks s ≡ length s → i < length s → is_space (byte_at s i) ≡ false
unfolding byte_at
solid_at [] i h l = absurd (omega arith)
solid_at (c ∷ s) zero h l = ground (arith, blacks_le s)
solid_at (c ∷ s) (suc i) h l = solid_at s i (ground (arith, blacks_le s)) (omega arith)

solid-newline :
    (s : Bytes) (i n : ℕ) → blacks s ≡ length s → (analyze_from s i none n).contains_newline ≡ false
unfolding analyze_from newline_inside
solid-newline [] i n h = refl
solid-newline (c ∷ s) i n h =
    let black : is_space c ≡ false = ground (arith, blacks_le s) in
    rw black (solid-newline s (suc i) (suc n) (ground (arith, blacks_le s)))

solid-trim : (s : Bytes) → blacks s ≡ length s → 0 < length s → trim s (length s) ≡ some (length s)
unfolding trim
solid-trim [] h l = absurd (omega arith)
solid-trim (c ∷ s) h l = rw (solid_at (c ∷ s) (length s) h (omega arith)) refl

max_in_enough : (n d : ℕ) → n ≤ d → ltb (max_in d) (4 * ((n + 2) / 3)) ≡ false
unfolding max_in
max_in_enough n d l = ground arith

decode_coded :
    (bio : Bio) (src text : Bytes) (dst_size : ℕ)
    → Codes bio src text
    → bio.new ≡ true
    → 0 < length src
    → length src ≤ dst_size
    → base64_decode bio text dst_size ≡ some src
unfolding base64_decode decode_trimmed checked_read
decode_coded bio src text dst_size c b l d =
    let n = length src in
    let room = max_in_enough n dst_size d in
    let size = c.size in
    let solid = c.solid in
    let all : (analyze text).len_no_whitespace ≡ 4 * ((n + 2) / 3) =
      omega (arith, analyze-blacks text) in
    let line : (analyze text).contains_newline ≡ false =
      unfold analyze in solid-newline text 0 0 solid in
    let whole = solid-trim text solid (omega arith) in
    let whole' : trim text (length text) ≡ some (4 * ((n + 2) / 3)) = whole ∙ ap some size in
    let blocks : (4 * ((n + 2) / 3)) % 4 == 0 ≡ true = ground arith in
    let long : ltb (4 * ((n + 2) / 3)) 3 ≡ false = ground arith in
    let left : padding text (4 * ((n + 2) / 3) - 1) ≡ 3 * ((n + 2) / 3) - n = rw (sym size) c.pad in
    let exact : (length src == 3 * (4 * ((n + 2) / 3)) / 4 - (3 * ((n + 2) / 3) - n)) ≡ true =
      ground arith in
    let read = c.back dst_size d in
    rw all (
      rw room (
        rw b
          (rw blocks (rw whole' (rw long (rw line (rw read (rw left (rw all (rw exact refl))))))))))

pub base64_encode-written :
    (bio : Bio) (src text : Bytes) (max_dst_len : ℕ)
    → base64_encode bio src max_dst_len false ≡ fits text
    → bio.write true src ≡ some text
unfolding base64_encode written
base64_encode-written bio src text max_dst_len h = elim (Option-cases (bio.write true src)) [
  | inl q ↦ absurd (ground arith)
  | inr (t, q) ↦ ground arith
]

-- A text that the encoder fits into its buffer, without newlines, is decoded to the bytes that it was
-- made of, into any buffer that holds them, unless there are none.
pub base64_decode-encode :
    (bio : Bio) (src text : Bytes) (max_dst_len dst_size : ℕ)
    → (bio.write true src ≡ some text → Codes bio src text)
    → 0 < length src
    → length src ≤ dst_size
    → base64_encode bio src max_dst_len false ≡ fits text
    → base64_decode bio text dst_size ≡ some src
unfolding base64_encode
base64_decode-encode bio src text max_dst_len dst_size codes l d h =
    decode_coded bio src text dst_size (codes (base64_encode-written bio src text max_dst_len h))
      (ground arith) l d
