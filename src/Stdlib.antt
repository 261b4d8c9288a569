-- ===== src/Stdlib.antt =====
-- qsort and bsearch of the C library, which the tables of src/est/est_proxy.c and
-- src/est/est_server_coap.c are kept with, as parameters.
pub mod Counts
use aims_libest.Prelude.{
  ℕ, ℤ, pos, ◌≤ℤ◌, ◌+◌, List, [], ◌∷◌, Option, none, some, Bool, true, false, if◌then◌else◌, ◌≡◌,
  is_zero, get_elem?,
}

pub record Stdlib (A : Type 0) : Type 0 where
  pub qsort : (A → A → ℤ) → List A → List A
  -- the index of the element found, where the key is read as an element
  pub bsearch : (A → A → ℤ) → A → List A → Option ℕ

module _ {A : Type 0} where
  abbrev pub count : (A → Bool) → List A → ℕ
  count p [] = 0
  count p (x ∷ xs) = if p x then 1 + count p xs else count p xs

  module _ (cmp : A → A → ℤ) where
    abbrev pub Before : A → List A → Type 0
    Before x [] = Unit
    Before x (y ∷ ys) = cmp x y ≤ℤ pos 0

    abbrev pub IsSorted : List A → Type 0
    IsSorted [] = Unit
    IsSorted (x ∷ xs) = Before x xs × IsSorted xs

    -- what the C standard says of the two functions, for one order
    pub record Lawful (std : Stdlib A) : Type 0 where
      pub counted : (p : A → Bool) (xs : List A) → count p (std.qsort cmp xs) ≡ count p xs
      pub sorted : (xs : List A) → IsSorted (std.qsort cmp xs)
      pub found :
          (k : A) (xs : List A) (i : ℕ)
          → IsSorted xs
          → std.bsearch cmp k xs ≡ some i
          → (y : A) × (get_elem? xs i ≡ some y) × (cmp k y ≡ pos 0)
      pub missed :
          (k : A) (xs : List A)
          → IsSorted xs
          → std.bsearch cmp k xs ≡ none
          → count (λ y. is_zero (cmp k y)) xs ≡ 0
