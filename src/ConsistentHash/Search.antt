-- ===== src/ConsistentHash/Search.antt =====
-- sort.Search on the sorted hashes finds the first one that is not below the hash.
use telemetry_punitha.Prelude.{
  ℕ, zero, suc, ◌+◌, ◌-◌, ◌/◌, ◌≤◌, ◌<◌, ◌≡◌, Bool, true, List, [], ◌∷◌, arith, leb, ltb, length,
  if◌then◌else◌,
}
use telemetry_punitha.ConsistentHash.{search_loop, search_first, at_least}
use telemetry_punitha.ConsistentHash.Sorted.{has, IsSorted}

-- How many of the hashes stand before the first one that is not below `h`.
unfoldable pub rank : ℕ → List ℕ → ℕ
rank h [] = 0
rank h (x ∷ xs) = if ltb x h then suc (rank h xs) else 0

pub rank-le : (h : ℕ) (xs : List ℕ) → rank h xs ≤ length xs
unfolding rank
rank-le h [] = omega arith
rank-le h (x ∷ xs) = ground (arith, rank-le h xs)

at_least-sorted :
    (h y : ℕ) (xs : List ℕ) (i : ℕ)
    → ((z : ℕ) → has z xs ≡ true → y ≤ z)
    → h ≤ y
    → i < length xs
    → at_least xs h i ≡ true
unfolding has at_least
at_least-sorted h y [] i low le lt = absurd (omega arith)
at_least-sorted h y (x ∷ xs) zero low le lt = ground (arith, low x)
at_least-sorted h y (x ∷ xs) (suc i) low le lt =
    at_least-sorted h y xs i (λ z m. low z (ground arith)) le (omega arith)

-- On sorted hashes the test of the search is true from the rank on.
pub at_least-rank :
    (h : ℕ) (xs : List ℕ) (i : ℕ)
    → IsSorted xs
    → i < length xs
    → at_least xs h i ≡ leb (rank h xs) i
unfolding at_least rank
at_least-rank h [] i s lt = absurd (omega arith)
at_least-rank h (x ∷ xs) zero s lt = ground arith
at_least-rank h (x ∷ xs) (suc i) s lt =
    ground (arith, at_least-rank h xs i s.1, at_least-sorted h x xs i s.0)

search_loop_lem :
    (fuel : ℕ) (f : ℕ → Bool) (r i j n : ℕ)
    → ((k : ℕ) → k < n → f k ≡ leb r k)
    → i ≤ r
    → r ≤ j
    → j ≤ n
    → j - i ≤ fuel
    → search_loop fuel f i j ≡ r
unfolding search_loop
search_loop_lem zero f r i j n h a b c d = omega arith
search_loop_lem (suc fuel) f r i j n h a b c d = ground (
  arith,
  h ((i + j) / 2),
  search_loop_lem fuel f r i ((i + j) / 2) n h,
  search_loop_lem fuel f r ((i + j) / 2 + 1) j n h,
)

-- The binary search ends at the rank of the hash.
pub search_first-rank :
    (h : ℕ) (xs : List ℕ) → IsSorted xs → search_first (length xs) (at_least xs h) ≡ rank h xs
unfolding search_first
search_first-rank h xs s =
    search_loop_lem (length xs) (at_least xs h) (rank h xs) 0 (length xs) (length xs)
      (λ k lt. at_least-rank h xs k s lt) (omega arith) (rank-le h xs) (omega arith) (omega arith)
