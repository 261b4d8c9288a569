-- ===== src/Safec.antt =====
-- safe_c_stub/src/safe_str_stub.c, safe_c_stub/src/safe_mem_stub.c: the bounded string functions
-- that the library calls. A C string is the list of its bytes before the NUL. A pointer argument
-- here is never NULL; `none` is a code other than EOK, with the output left as it was.
use aims_libest.Prelude.{
  ℕ, zero, suc, ℤ, pos, negsuc, Bytes, [], ◌∷◌, Option, none, some, min, ltb, ◌==◌, ◌≡◌, refl, ◌↔◌,
  if◌then◌else◌, length, take, arith,
}

-- the sign of strncmp(a, b, n)
unfoldable pub strncmp : Bytes → Bytes → ℕ → ℤ
strncmp a b zero = pos 0
strncmp [] [] (suc n) = pos 0
strncmp [] (y ∷ b) (suc n) = negsuc 0
strncmp (x ∷ a) [] (suc n) = pos 1
strncmp (x ∷ a) (y ∷ b) (suc n) =
    let rest = strncmp a b n in if x == y then rest else if ltb x y then negsuc 0 else pos 1

unfoldable pub strcmp_s : Bytes → ℕ → Bytes → Option ℤ
strcmp_s dest dmax src = if dmax == 0 then none else some (strncmp dest src dmax)

unfoldable pub strnlen_s : Bytes → ℕ → ℕ
strnlen_s s smax = min (length s) smax

-- the bytes that the destination holds before its NUL
unfoldable pub strncpy_s : ℕ → Bytes → ℕ → Option Bytes
strncpy_s dmax src slen =
    if dmax == 0
    then none
    else if ltb (min slen (length src)) dmax
    then some (take slen src)
    else none

-- memcmp over buffers of at least `slen` bytes
unfoldable pub memcmp_s : Bytes → ℕ → Bytes → ℕ → Option ℤ
memcmp_s dest dmax src slen =
    if dmax == 0
    then none
    else if slen == 0
    then none
    else if ltb dmax slen
    then none
    else some (strncmp (take slen dest) (take slen src) slen)

-- strncmp compares equal exactly where the first bytes agree.
pub strncmp_iff : (n : ℕ) (a b : Bytes) → (strncmp a b n ≡ pos 0) ↔ (take n a ≡ take n b)
unfolding strncmp
strncmp_iff zero a b = (λ _. refl, λ _. refl)
strncmp_iff (suc n) [] [] = (λ _. refl, λ _. refl)
strncmp_iff (suc n) [] (y ∷ b) = ground arith
strncmp_iff (suc n) (x ∷ a) [] = ground arith
strncmp_iff (suc n) (x ∷ a) (y ∷ b) = ground (arith, strncmp_iff n a b)
