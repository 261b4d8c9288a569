-- ===== src/Examples/Sorting.antt =====
-- An insertion sort and a linear search, which do what the C standard says of qsort and bsearch.
use aims_libest.Prelude.{
  ℕ, suc, ℤ, pos, ltb_ℤ, ◌≤ℤ◌, List, [], ◌∷◌, Option, none, some, Bool, true, if◌then◌else◌, ◌≡◌,
  refl, inl, inr, arith, is_zero, get_elem?, Bool-cases, Option-cases,
}
use aims_libest.Stdlib.{Stdlib, count, Before, IsSorted, Lawful}

zero_value : (z : ℤ) → is_zero z ≡ true → z ≡ pos 0
zero_value z h = ground arith

module _ {A : Type 0} (cmp : A → A → ℤ) where
  insert : A → List A → List A
  insert x [] = x ∷ []
  insert x (y ∷ ys) =
      let rest = insert x ys in if ltb_ℤ (pos 0) (cmp x y) then y ∷ rest else x ∷ y ∷ ys

  unfoldable pub sort : List A → List A
  unfolding insert
  sort [] = []
  sort (x ∷ xs) = insert x (sort xs)

  unfoldable pub search : A → List A → Option ℕ
  search k [] = none
  search k (y ∷ ys) =
      let rest = search k ys in
      if is_zero (cmp k y) then some 0 else elim rest [ none ↦ none | some i ↦ some (suc i) ]

  insert-counted : (p : A → Bool) (x : A) (xs : List A) → count p (insert x xs) ≡ count p (x ∷ xs)
  unfolding insert
  insert-counted p x [] = refl
  insert-counted p x (y ∷ ys) = ground (arith, insert-counted p x ys)

  sort-counted : (p : A → Bool) (xs : List A) → count p (sort xs) ≡ count p xs
  unfolding sort
  sort-counted p [] = refl
  sort-counted p (x ∷ xs) = ground (arith, insert-counted p x (sort xs), sort-counted p xs)

  search-found :
      (k : A) (xs : List A) (i : ℕ)
      → search k xs ≡ some i
      → (y : A) × (get_elem? xs i ≡ some y) × (cmp k y ≡ pos 0)
  unfolding search
  search-found k [] i h = absurd (ground arith)
  search-found k (y ∷ ys) i h = elim (Bool-cases (is_zero (cmp k y))) [
    | inl e ↦ let first : i ≡ 0 = ground arith in rw first (y, refl, zero_value (cmp k y) e)
    | inr e ↦ elim (Option-cases (search k ys)) [
      | inl q ↦ absurd (ground arith)
      | inr (j, q) ↦ let later : i ≡ suc j = ground arith in rw later (search-found k ys j q)
    ]
  ]

  search-missed : (k : A) (xs : List A) → search k xs ≡ none → count (λ y. is_zero (cmp k y)) xs ≡ 0
  unfolding search
  search-missed k [] h = refl
  search-missed k (y ∷ ys) h = elim (Option-cases (search k ys)) [
    | inl q ↦ ground (arith, search-missed k ys q)
    | inr (i, q) ↦ absurd (ground arith)
  ]

  module _ (total : (x y : A) → ltb_ℤ (pos 0) (cmp x y) ≡ true → cmp y x ≤ℤ pos 0) where
    insert-Before :
        (z x : A) (xs : List A) → cmp z x ≤ℤ pos 0 → Before cmp z xs → Before cmp z (insert x xs)
    unfolding insert
    insert-Before z x [] h b = h
    insert-Before z x (y ∷ ys) h b = elim (Bool-cases (ltb_ℤ (pos 0) (cmp x y))) [
      | inl e ↦ rw e b
      | inr e ↦ rw e h
    ]

    insert-IsSorted : (x : A) (xs : List A) → IsSorted cmp xs → IsSorted cmp (insert x xs)
    unfolding insert
    insert-IsSorted x [] s = (tt, tt)
    insert-IsSorted x (y ∷ ys) s = elim (Bool-cases (ltb_ℤ (pos 0) (cmp x y))) [
      | inl e ↦ rw e (insert-Before y x ys (total x y e) s.0, insert-IsSorted x ys s.1)
      | inr e ↦ rw e (ground arith, s)
    ]

    sort-IsSorted : (xs : List A) → IsSorted cmp (sort xs)
    unfolding sort
    sort-IsSorted [] = tt
    sort-IsSorted (x ∷ xs) = insert-IsSorted x (sort xs) (sort-IsSorted xs)

abbrev pub std : {A : Type 0} → Stdlib A
std = record { qsort = sort; bsearch = search }

pub std-Lawful :
    {A : Type 0} (cmp : A → A → ℤ)
    → ((x y : A) → ltb_ℤ (pos 0) (cmp x y) ≡ true → cmp y x ≤ℤ pos 0)
    → Lawful cmp std
std-Lawful cmp total = record {
  counted = sort-counted cmp;
  sorted = sort-IsSorted cmp total;
  found = λ k xs i s. search-found cmp k xs i;
  missed = λ k xs s. search-missed cmp k xs;
}
