-- ===== src/ConsistentHash/Sorted.antt =====
-- The sorted hashes of the ring.
use telemetry_punitha.Prelude.{
  ℕ, ◌≤◌, ◌≡◌, refl, Bool, true, false, ◌||◌, List, [], ◌∷◌, ◌++◌, arith, eqb, leb, Bool-cases, inl,
  inr,
}
use telemetry_punitha.ConsistentHash.{insert_sorted, sort}

unfoldable pub has : ℕ → List ℕ → Bool
has x [] = false
has x (y ∷ ys) = eqb y x || has x ys

abbrev pub IsSorted : List ℕ → Type 0
IsSorted [] = Unit
IsSorted (x ∷ xs) = ((y : ℕ) → has y xs ≡ true → x ≤ y) × IsSorted xs

has-insert_sorted : (x y : ℕ) (ys : List ℕ) → has x (insert_sorted y ys) ≡ (eqb y x || has x ys)
unfolding has insert_sorted
has-insert_sorted x y [] = refl
has-insert_sorted x y (z ∷ zs) = ground (arith, has-insert_sorted x y zs)

-- Sorting keeps the elements.
pub has-sort : (x : ℕ) (xs : List ℕ) → has x (sort xs) ≡ has x xs
unfolding has sort
has-sort x [] = refl
has-sort x (y ∷ ys) = ground (arith, has-insert_sorted x y (sort ys), has-sort x ys)

insert_sorted-IsSorted : (x : ℕ) (ys : List ℕ) → IsSorted ys → IsSorted (insert_sorted x ys)
unfolding insert_sorted has
insert_sorted-IsSorted x [] s = (λ y h. ground arith, tt)
insert_sorted-IsSorted x (y ∷ ys) s = elim (Bool-cases (leb x y)) [
  | inl e ↦ rw e (λ z m. ground (arith, s.0 z), s)
  | inr e ↦
      rw e (λ z m. ground (arith, has-insert_sorted z x ys, s.0 z), insert_sorted-IsSorted x ys s.1)
]

pub sort-IsSorted : (xs : List ℕ) → IsSorted (sort xs)
unfolding sort
sort-IsSorted [] = tt
sort-IsSorted (x ∷ xs) = insert_sorted-IsSorted x (sort xs) (sort-IsSorted xs)

pub has-append : (x : ℕ) (xs ys : List ℕ) → has x (xs ++ ys) ≡ (has x xs || has x ys)
unfolding has
has-append x [] ys = refl
has-append x (y ∷ xs) ys = ground (arith, has-append x xs ys)
