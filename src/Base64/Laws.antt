-- ===== src/Base64/Laws.antt =====
-- src/est/est.c: the lengths and the reads of the base64 routines.
use aims_libest.Prelude.{
  ◌≢◌, ℕ, zero, suc, ◌+◌, ◌*◌, ◌/◌, ◌≤◌, ◌<◌, Bool, true, not, Bytes, [], ◌∷◌, Option, none, some,
  ◌==◌, ◌≡◌, ◌↔◌, inl, inr, refl, if◌then◌else◌, length, arith, Bool-cases, Option-cases,
}
use aims_libest.Base64.{
  Bio, is_space, analyze_from, analyze, byte_at, trim, max_in, checked_read, decode_trimmed,
  base64_decode, overruns, written, base64_encode,
}

-- how many characters are no white space
abbrev pub blacks : Bytes → ℕ
blacks [] = 0
blacks (c ∷ s) = if is_space c then blacks s else suc (blacks s)

analyze_from-blacks :
    (s : Bytes) (i : ℕ) (temp : Option ℕ) (n : ℕ)
    → (analyze_from s i temp n).len_no_whitespace ≡ n + blacks s
unfolding analyze_from
analyze_from-blacks [] i temp n = omega arith
analyze_from-blacks (c ∷ s) i temp n = elim (Bool-cases (is_space c)) [
  | inl e ↦ rw e (analyze_from-blacks s (suc i) _ n)
  | inr e ↦ let h = analyze_from-blacks s (suc i) temp (suc n) in rw e (omega arith)
]

pub analyze-blacks : (s : Bytes) → (analyze s).len_no_whitespace ≡ blacks s
unfolding analyze
analyze-blacks s = omega (arith, analyze_from-blacks s 0 none 0)

-- the characters before `n` are all white space
abbrev pub Whites : Bytes → ℕ → Type 0
Whites s n = (i : ℕ) → i < n → is_space (byte_at s i) ≡ true

trim_iff : (s : Bytes) (n : ℕ) → (trim s n ≡ none) ↔ Whites s n
unfolding trim
trim_iff s zero = (λ _ i l. absurd (omega arith), λ _. refl)
trim_iff s (suc n) = elim (Bool-cases (is_space (byte_at s n))) [
  | inl e ↦ (
    λ h i l. elim (Bool-cases (i == n)) [
      | inl q ↦ let same : i ≡ n = ground arith in rw same e
      | inr q ↦ (trim_iff s n).0 (ground arith) i (ground arith)
    ],
    λ w. rw e ((trim_iff s n).1 λ i l. w i (omega arith)),
  )
  | inr e ↦ (λ h. absurd (ground arith), λ w. absurd (ground (arith, w n (omega arith))))
]

blacks_iff : (s : Bytes) → (blacks s ≡ 0) ↔ Whites s (length s)
unfolding byte_at
blacks_iff [] = (λ _ i l. absurd (omega arith), λ _. refl)
blacks_iff (c ∷ s) = elim (Bool-cases (is_space c)) [
  | inl e ↦ (
    λ h i. elim i as (λ k. k < suc (length s) → is_space (byte_at (c ∷ s) k) ≡ true) [
      | zero ↦ λ l. e
      | suc j ↦ λ l. (blacks_iff s).0 (ground arith) j (omega arith)
    ],
    λ w. rw e ((blacks_iff s).1 λ i l. w (suc i) (omega arith)),
  )
  | inr e ↦ (λ h. absurd (ground arith), λ w. absurd (ground (arith, w 0 (omega arith))))
]

-- Where the BIOs can be made, the decoder reads the byte in front of its source exactly where the
-- source is white space throughout.
pub base64_decode-outside_iff :
    (bio : Bio) (src : Bytes) (dst_size : ℕ)
    → bio.new ≡ true
    → (base64_decode bio src dst_size ≡ none) ↔ (blacks src ≡ 0)
unfolding base64_decode decode_trimmed max_in
base64_decode-outside_iff bio src dst_size b = elim (Bool-cases (blacks src == 0)) [
  | inl e ↦
      let none_left = (trim_iff src (length src)).1 ((blacks_iff src).0 (ground arith)) in
      ground (arith, analyze-blacks src)
  | inr e ↦ elim (Option-cases (trim src (length src))) [
    | inl q ↦ absurd (ground (arith, (blacks_iff src).1 ((trim_iff src (length src)).0 q)))
    | inr (n, q) ↦ ground (arith, analyze-blacks src)
  ]
]

pub base64_decode-inside :
    (bio : Bio) (src : Bytes) (dst_size : ℕ)
    → blacks src ≢ 0
    → (out : Bytes) × (base64_decode bio src dst_size ≡ some out)
base64_decode-inside bio src dst_size k = elim (Option-cases (base64_decode bio src dst_size)) [
  | inr found ↦ found
  | inl h ↦ elim (Bool-cases bio.new) [
    | inl b ↦ absurd (k ((base64_decode-outside_iff bio src dst_size b).0 h))
    | inr b ↦ absurd (unfold base64_decode in ground arith)
  ]
]

pub record IsBounded (bio : Bio) : Type 0 where
  pub bounded :
      (flag : Bool) (src out : Bytes) (n : ℕ) → bio.read flag src n ≡ some out → length out ≤ n

-- The decoded bytes fit the buffer, and are three for every four characters at most.
pub base64_decode-length :
    (bio : Bio) (src : Bytes) (dst_size : ℕ) (out : Bytes)
    → IsBounded bio
    → base64_decode bio src dst_size ≡ some out
    → (length out ≤ dst_size) × (4 * length out ≤ 3 * blacks src)
unfolding base64_decode decode_trimmed checked_read
base64_decode-length bio src dst_size out bd h =
    let flag = not (analyze src).contains_newline in
    elim (Option-cases (trim src (length src))) [
      | inl q ↦ ground (arith, analyze-blacks src)
      | inr (n, q) ↦ elim (Option-cases (bio.read flag src dst_size)) [
        | inl r ↦ ground (arith, analyze-blacks src)
        | inr (text, r) ↦ ground (arith, analyze-blacks src, bd.bounded flag src text dst_size r)
      ]
    ]

-- The encoder writes behind its buffer only where its own check of the lengths passes, and then by
-- four bytes at most, where the filter makes four characters of every three bytes that it begins.
pub base64_encode-overruns :
    (bio : Bio) (src text : Bytes) (max_dst_len : ℕ) (nl : Bool)
    → length text ≡ 4 * ((length src + 2) / 3)
    → base64_encode bio src max_dst_len nl ≡ overruns text
    → (max_dst_len ≤ length text) × (length text ≤ max_dst_len + 4)
unfolding base64_encode written
base64_encode-overruns bio src text max_dst_len nl l h = ground arith
