-- ===== src/Stdlib/Counts.antt =====
-- How often the elements of a table meet a test.
use aims_libest.Prelude.{
  ℕ, zero, suc, ◌+◌, ◌≤◌, List, [], ◌∷◌, ◌++◌, some, Bool, true, if◌then◌else◌, ◌≡◌, refl, inl, inr,
  arith, get_elem?, set, replicate, length, Option-cases, ℤ, pos, is_zero, ◌&&◌, not, sym, ◌∙◌,
}
use aims_libest.Stdlib.{Stdlib, count, IsSorted, Lawful}

module _ {A : Type 0} (p : A → Bool) where
  pub count-append : (xs ys : List A) → count p (xs ++ ys) ≡ count p xs + count p ys
  count-append [] ys = omega arith
  count-append (x ∷ xs) ys = ground (arith, count-append xs ys)

  pub count-length : (xs : List A) → count p xs ≤ length xs
  count-length [] = omega arith
  count-length (x ∷ xs) = ground (arith, count-length xs)

  abbrev pub one : A → ℕ
  one x = if p x then 1 else 0

  -- A write to a table takes the old element out of the count, and puts the new one in.
  pub count-set :
      (xs : List A) (i : ℕ) (x y : A)
      → get_elem? xs i ≡ some x
      → count p (set xs i y) + one x ≡ count p xs + one y
  count-set [] i x y h = absurd (ground arith)
  count-set (z ∷ xs) zero x y h = let same : z ≡ x = cc in rw same (ground arith)
  count-set (z ∷ xs) (suc i) x y h = ground (arith, count-set xs i x y h)

  -- an element that is there is counted
  pub count_pos :
      (xs : List A) (i : ℕ) (x : A) → get_elem? xs i ≡ some x → p x ≡ true → 1 ≤ count p xs
  count_pos [] i x h t = absurd (ground arith)
  count_pos (z ∷ xs) zero x h t = let same : z ≡ x = cc in rw same (ground arith)
  count_pos (z ∷ xs) (suc i) x h t = ground (arith, count_pos xs i x h t)

  pub count-replicate : (n : ℕ) (x : A) → count p (replicate n x) ≡ (if p x then n else 0)
  count-replicate zero x = ground arith
  count-replicate (suc n) x = ground (arith, count-replicate n x)

module _ {A : Type 0} where
  pub count-true : (xs : List A) → count (λ x. true) xs ≡ length xs
  count-true [] = refl
  count-true (x ∷ xs) = omega (arith, count-true xs)

  pub count-ext : (p q : A → Bool) (xs : List A) → ((x : A) → p x ≡ q x) → count p xs ≡ count q xs
  count-ext p q [] h = refl
  count-ext p q (x ∷ xs) h = ground (arith, h x, count-ext p q xs h)

  -- the elements that meet `p` are those that meet `q` too, and those that do not
  pub count_split :
      (p q : A → Bool) (xs : List A)
      → count p xs ≡ count (λ x. p x && q x) xs + count (λ x. p x && not (q x)) xs
  count_split p q [] = omega arith
  count_split p q (x ∷ xs) = ground (arith, count_split p q xs)

  module _ (cmp : A → A → ℤ) (std : Stdlib A) (lawful : Lawful cmp std) where
    pub length-qsort : (xs : List A) → length (std.qsort cmp xs) ≡ length xs
    length-qsort xs =
        sym (count-true (std.qsort cmp xs)) ∙ lawful.counted (λ x. true) xs ∙ count-true xs

    -- an element with the key is found
    pub bsearch_finds :
        (k : A) (xs : List A)
        → IsSorted cmp xs
        → 1 ≤ count (λ y. is_zero (cmp k y)) xs
        → (i : ℕ) × (y : A) × (std.bsearch cmp k xs ≡ some i)
          × (get_elem? xs i ≡ some y)
          × (cmp k y ≡ pos 0)
    bsearch_finds k xs s h = elim (Option-cases (std.bsearch cmp k xs)) [
      | inl q ↦ absurd (omega (arith, h, lawful.missed k xs s q))
      | inr (i, q) ↦ let (y, e, f) = lawful.found k xs i s q in (i, y, q, e, f)
    ]
