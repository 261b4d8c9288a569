-- ===== src/Eca/CsrCheck/Compare.antt =====
-- src/est/est_enhcd_cert_auth.c: what the comparison of two subject fields amounts to.
use aims_libest.Prelude.{
  ℕ, zero, suc, ◌<◌, ℤ, pos, Bytes, [], ◌∷◌, none, some, ◌≡◌, refl, inl, inr, arith, length, take,
  min, is_zero, true, Bool-cases, Option-cases, ◌∙◌, sym, ap, ◌==◌, ==_iff,
}
use aims_libest.Api.{hdr_good}
use aims_libest.Safec.{strncmp, strcmp_s, strnlen_s, strncmp_iff}
use aims_libest.Eca.CsrCheck.{field_len, compare_fields}

take-min-length : (k : ℕ) (a : Bytes) → take (min (length a) k) a ≡ take k a
take-min-length zero [] = ground arith
take-min-length zero (x ∷ a) = ground arith
take-min-length (suc k) [] = ground arith
take-min-length (suc k) (x ∷ a) =
    let e : min (suc (length a)) (suc k) ≡ suc (min (length a) k) = omega arith in
    rw e (ap (λ t. x ∷ t) (take-min-length k a))

length-take : (k : ℕ) (a : Bytes) → length (take k a) ≡ min (length a) k
length-take zero a = omega arith
length-take (suc k) [] = omega arith
length-take (suc k) (x ∷ a) = omega (arith, length-take k a)

-- Texts whose lengths agree up to `k`, and their bytes too, agree in their first `k` bytes.
agree_up_to :
    (k : ℕ) (a b : Bytes)
    → min (length a) k ≡ min (length b) k
    → take (min (length a) k) a ≡ take (min (length a) k) b
    → take k a ≡ take k b
agree_up_to k a b e t =
    sym (take-min-length k a) ∙ t ∙ ap (λ (n : ℕ). take n b) e ∙ take-min-length k b

lengths_agree : (k : ℕ) (a b : Bytes) → take k a ≡ take k b → min (length a) k ≡ min (length b) k
lengths_agree k a b h = sym (length-take k a) ∙ ap length h ∙ length-take k b

bytes_agree :
    (k : ℕ) (a b : Bytes)
    → take k a ≡ take k b
    → take (min (length a) k) a ≡ take (min (length a) k) b
bytes_agree k a b h =
    take-min-length k a
    ∙ h
    ∙ sym (take-min-length k b)
    ∙ ap (λ (n : ℕ). take n b) (sym (lengths_agree k a b h))

is_zero→pos : (c : ℤ) → is_zero c ≡ true → c ≡ pos 0
is_zero→pos c h = ground arith

-- What `compare_fields` and a round of the loop find for two fields that are present.
pub compare_good :
    (a b : Bytes)
    → field_len a ≡ field_len b
    → (c : ℤ) → strcmp_s a (field_len a) b ≡ some c
    → is_zero c ≡ true
    → take 256 a ≡ take 256 b
unfolding strcmp_s strnlen_s
compare_good a b e c s z =
    agree_up_to 256 a b e ((strncmp_iff (min (length a) 256) a b).0 (ground (arith, is_zero→pos c)))

strcmp_s_equal :
    (n : ℕ) (a b : Bytes) → 0 < n → strncmp a b n ≡ pos 0 → strcmp_s a n b ≡ some (pos 0)
unfolding strcmp_s
strcmp_s_equal n a b p h = ground arith

min_pos : (n k : ℕ) → 0 < n → 0 < k → 0 < min n k
min_pos n k p q = omega arith

pub compare_equal :
    (a b : Bytes)
    → 0 < length a
    → take 256 a ≡ take 256 b
    → (field_len a ≡ field_len b) × (strcmp_s a (field_len a) b ≡ some (pos 0))
unfolding strnlen_s
compare_equal a b p h = (
  lengths_agree 256 a b h,
  strcmp_s_equal (min (length a) 256) a b (min_pos (length a) 256 p (omega arith))
      ((strncmp_iff (min (length a) 256) a b).1 (bytes_agree 256 a b h)),
)

pub compare_fields_good : (a b : Bytes) → compare_fields a b ≡ hdr_good → take 256 a ≡ take 256 b
unfolding compare_fields
compare_fields_good a b h = elim (Bool-cases (field_len a == field_len b)) [
  | inr x ↦ ground arith
  | inl x ↦ elim (Option-cases (strcmp_s a (field_len a) b)) [
    | inl y ↦ ground arith
    | inr (c, y) ↦ compare_good a b ((==_iff _ _).0 x) c y (ground arith)
  ]
]

pub compare_fields_nonempty : (a b : Bytes) → compare_fields a b ≡ hdr_good → 0 < length a
unfolding compare_fields strcmp_s strnlen_s
compare_fields_nonempty [] b h = ground arith
compare_fields_nonempty (x ∷ a) b h = omega arith

pub compare_fields_equal :
    (a b : Bytes) → 0 < length a → take 256 a ≡ take 256 b → compare_fields a b ≡ hdr_good
unfolding compare_fields
compare_fields_equal a b p h =
    let (e, s) = compare_equal a b p h in rw ((==_iff _ _).1 e) (rw s refl)

-- An error of strcmp_s is a length of 0, on both sides.
pub compare_error :
    (a b : Bytes)
    → field_len a ≡ field_len b
    → strcmp_s a (field_len a) b ≡ none
    → take 256 a ≡ take 256 b
unfolding strcmp_s strnlen_s
compare_error a b e s =
    let z : min (length a) 256 ≡ 0 = ground arith in agree_up_to 256 a b e (rw z refl)
