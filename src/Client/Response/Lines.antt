-- ===== src/Client/Response/Lines.antt =====
-- src/est/est_client_http.c: how one header, and a number in it, is read.
use aims_libest.Prelude.{
  ℕ, zero, suc, ◌+◌, ◌*◌, ◌/◌, ◌%◌, ◌≤◌, ◌<◌, Bytes, [], ◌∷◌, ◌++◌, some, true, false, ltb, ◌==◌,
  ◌≡◌, refl, ap, ◌∙◌, arith, length, codes, starts_with, decimal, decimal_onto, Bool-cases, inl,
  inr,
}
use aims_libest.Client.Headers.{
  header_lines, skip_quoted, skip_span, digits, strcspn, header_end, all_digits,
}

digit_value : (c m : ℕ) (s : Bytes) → c < 10 → digits m ((b'0' + c) ∷ s) ≡ digits (m * 10 + c) s
unfolding digits
digit_value c m s h = ground arith

digits-decimal_onto :
    (fuel n : ℕ) (out : Bytes) → n < fuel → digits 0 (decimal_onto fuel n out) ≡ digits n out
unfolding decimal_onto
digits-decimal_onto zero n out h = absurd (omega arith)
digits-decimal_onto (suc fuel) n out h = elim (Bool-cases (ltb n 10)) [
  | inl b ↦
      let e : n < 10 = ground arith in
      rw b (digit_value n 0 out e ∙ ap (λ m. digits m out) (omega arith))
  | inr b ↦
      let e : n / 10 < fuel = ground arith in
      let f : n / 10 * 10 + n % 10 ≡ n = omega arith in
      rw b (
        digits-decimal_onto fuel (n / 10) ((b'0' + n % 10) ∷ out) e
        ∙ digit_value (n % 10) (n / 10) out (omega arith)
        ∙ ap (λ m. digits m out) f)
]

-- the bytes of a number in front of the rest are digits
abbrev pub Digits : Bytes → Type 0
Digits s = all_digits s ≡ true

decimal_onto-Digits : (fuel n : ℕ) (out : Bytes) → Digits out → Digits (decimal_onto fuel n out)
unfolding decimal_onto
decimal_onto-Digits zero n out h = h
decimal_onto-Digits (suc fuel) n out h = elim (Bool-cases (ltb n 10)) [
  | inl b ↦ let e : n < 10 = ground arith in rw b (ground arith)
  | inr b ↦ rw b (decimal_onto-Digits fuel (n / 10) ((b'0' + n % 10) ∷ out) (ground arith))
]

-- a number is read back from its digits
pub digits-decimal : (n : ℕ) → digits 0 (decimal n) ≡ n
unfolding decimal digits
digits-decimal n = digits-decimal_onto (suc n) n [] (omega arith)

pub decimal-Digits : (n : ℕ) → Digits (decimal n)
unfolding decimal
decimal-Digits n = decimal_onto-Digits (suc n) n [] refl

-- The empty line behind the digits is found.
pub header_end-Digits :
    (s rest : Bytes)
    → Digits s
    → header_end (s ++ 13 ∷ 10 ∷ 13 ∷ 10 ∷ rest) ≡ some (length (13 ∷ 10 ∷ 13 ∷ 10 ∷ rest))
unfolding header_end starts_with
header_end-Digits [] rest h = refl
header_end-Digits (zero ∷ s) rest h = absurd (ground arith)
header_end-Digits (suc c ∷ s) rest h =
    let e : 12 ≤ c = ground arith in
    let f : (13 == suc c) ≡ false = ground arith in rw f (header_end-Digits s rest (ground arith))

-- The word of a header's value is its digits.
pub strcspn-Digits :
    (s rest : Bytes)
    → Digits s
    → strcspn (codes "\r\n") (s ++ 13 ∷ 10 ∷ 13 ∷ 10 ∷ rest) ≡ (s, 13 ∷ 10 ∷ 13 ∷ 10 ∷ rest)
unfolding strcspn
strcspn-Digits [] rest h = refl
strcspn-Digits (c ∷ s) rest h =
    let i = strcspn-Digits s rest (ground arith) in
    let e : 48 ≤ c = ground arith in
    let f : (c == 0) ≡ false = ground arith in
    let g : (c == 13) ≡ false = ground arith in
    let k : (c == 10) ≡ false = ground arith in rw f (rw g (rw k (rw i refl)))

-- No white space stands in front of the digits.
pub skip_span-Digits :
    (s rest : Bytes)
    → Digits s
    → skip_span (codes " ") (s ++ 13 ∷ 10 ∷ 13 ∷ 10 ∷ rest) ≡ s ++ 13 ∷ 10 ∷ 13 ∷ 10 ∷ rest
unfolding skip_span
skip_span-Digits [] rest h = refl
skip_span-Digits (c ∷ s) rest h = let f : (c == 32) ≡ false = ground arith in rw f refl

-- one header
pub more_lines :
    (n m : ℕ) (buf buf1 buf2 : Bytes) (c : ℕ) (name value : Bytes)
    → skip_quoted (codes ":") (codes " ") buf ≡ (c ∷ name, buf1)
    → skip_quoted (codes "\r\n") (codes "\r\n") buf1 ≡ (value, buf2)
    → ltb (length buf2) m ≡ false
    → header_lines (suc n) (some m) buf ≡ (
      record { name = c ∷ name; value = value } ∷ (header_lines n (some m) buf2).0,
      (header_lines n (some m) buf2).1,
    )
unfolding header_lines skip_quoted
more_lines n m buf buf1 buf2 c name value p q b =
    rw (ap (λ x. x.0) p)
      (rw (ap (λ x. x.1) p) (rw (ap (λ x. x.0) q) (rw (ap (λ x. x.1) q) (rw b refl))))

pub last_line :
    (n m : ℕ) (buf buf1 buf2 : Bytes) (c : ℕ) (name value : Bytes)
    → skip_quoted (codes ":") (codes " ") buf ≡ (c ∷ name, buf1)
    → skip_quoted (codes "\r\n") (codes "\r\n") buf1 ≡ (value, buf2)
    → ltb (length buf2) m ≡ true
    → header_lines (suc n) (some m) buf ≡ (record { name = c ∷ name; value = value } ∷ [], buf2)
unfolding header_lines skip_quoted
last_line n m buf buf1 buf2 c name value p q b =
    rw (ap (λ x. x.0) p)
      (rw (ap (λ x. x.1) p) (rw (ap (λ x. x.0) q) (rw (ap (λ x. x.1) q) (rw b refl))))
