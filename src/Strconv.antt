-- ===== src/Strconv.antt =====
-- The package strconv as the program uses it: Atoi, and the %d of fmt for ints.
pub mod RoundTrip
use telemetry_punitha.Prelude.{
  ℕ, zero, suc, ◌+◌, ◌-◌, ◌*◌, ◌/◌, ◌%◌, ◌^◌, ◌&&◌, Bool, true, false, List, [], ◌∷◌, ◌++◌, Option,
  none, some, Text, eqb, ltb, leb, if◌then◌else◌,
}
use telemetry_punitha.Prelude.Int.{ℤ, pos, negsuc}

abbrev pub is_digit : ℕ → Bool
is_digit c = leb b'0' c && leb c b'9'

-- The value of a run of digits after the digits that gave `n`.
digits : ℕ → Text → Option ℕ
digits n [] = some n
digits n (c ∷ s) = if is_digit c then digits (n * 10 + (c - b'0')) s else none

-- One digit at least.
unfoldable pub unsigned : Text → Option ℕ
unfolding digits
unsigned [] = none
unsigned (c ∷ s) = digits 0 (c ∷ s)

-- A 64-bit int, or the range error.
unfoldable pub positive : Option ℕ → Option ℤ
positive none = none
positive (some n) = if ltb n (2 ^ 63) then some (pos n) else none

unfoldable pub negative : Option ℕ → Option ℤ
negative none = none
negative (some zero) = some (pos zero)
negative (some (suc n)) = if ltb n (2 ^ 63) then some (negsuc n) else none

-- strconv.Atoi(s); `none` is the error.
unfoldable pub atoi : Text → Option ℤ
unfolding positive negative unsigned
atoi [] = none
atoi (c ∷ s) =
    if eqb c b'-'
    then negative (unsigned s)
    else if eqb c b'+'
    then positive (unsigned s)
    else positive (unsigned (c ∷ s))

-- The range error of a text that Atoi refuses: 2^64 is reached before a bad byte, or there is none.
out_of_range : ℕ → Text → Bool
out_of_range n [] = leb (2 ^ 63) n
out_of_range n (c ∷ s) =
    let value = n * 10 + (c - b'0') in
    let rest = out_of_range value s in
    if is_digit c then (if leb (2 ^ 64) value then true else rest) else false

-- The value beside the error: the nearest int for a range error, and 0 otherwise.
error_value : Text → ℤ
unfolding out_of_range
error_value [] = pos 0
error_value (c ∷ s) =
    if eqb c b'-'
    then (if out_of_range 0 s then negsuc (2 ^ 63 - 1) else pos 0)
    else if out_of_range 0 (if eqb c b'+' then s else c ∷ s)
    then pos (2 ^ 63 - 1)
    else pos 0

-- n, _ := strconv.Atoi(s)
unfoldable pub atoi_value : Text → ℤ
unfolding error_value
atoi_value s = elim (atoi s) [ none ↦ error_value s | some n ↦ n ]

-- The digits of `n`, the last one from `n % 10`; fuel above `n` is enough.
unfoldable pub print : ℕ → ℕ → Text
print zero n = []
print (suc f) n =
    let front = print f (n / 10) in
    if ltb n 10 then (n + b'0') ∷ [] else front ++ (n % 10 + b'0') ∷ []

unfoldable pub itoa_ℕ : ℕ → Text
unfolding print
itoa_ℕ n = print (suc n) n

-- fmt.Sprintf("%d", z)
unfoldable pub itoa : ℤ → Text
unfolding itoa_ℕ
itoa (pos n) = itoa_ℕ n
itoa (negsuc n) = b'-' ∷ itoa_ℕ (suc n)
