-- ===== src/Url/Wire.antt =====
-- URLs that a request line can carry.
use telemetry_punitha.Prelude.{
  ℕ, ◌+◌, ◌/◌, ◌%◌, zero, suc, ◌≡◌, refl, true, [], ◌∷◌, ◌++◌, Text, ltb, arith, Bool-cases, inl,
  inr,
}
use telemetry_punitha.Prelude.Int.{ℤ, pos, negsuc}
use telemetry_punitha.Strconv.{itoa, itoa_ℕ, print}
use telemetry_punitha.Url.{before, is_wire, is_target}

pub is_wire-append : (s t : Text) → is_wire s ≡ true → is_wire t ≡ true → is_wire (s ++ t) ≡ true
unfolding is_wire
is_wire-append [] t p q = q
is_wire-append (c ∷ s) t p q = ground (arith, is_wire-append s t)

is_wire-before : (c : ℕ) (s : Text) → is_wire s ≡ true → is_wire (before c s) ≡ true
unfolding is_wire before
is_wire-before c [] h = refl
is_wire-before c (x ∷ s) h = ground (arith, is_wire-before c s)

pub is_wire-is_target : (url : Text) → is_wire url ≡ true → is_target url ≡ true
unfolding is_target
is_wire-is_target url h = is_wire-before b'#' url h

is_wire-print : (f n : ℕ) → is_wire (print f n) ≡ true
unfolding print is_wire
is_wire-print zero n = refl
is_wire-print (suc f) n = elim (Bool-cases (ltb n 10)) [
  | inl small ↦ rw small (ground arith)
  | inr large ↦ rw large (
      is_wire-append (print f (n / 10)) ((n % 10 + b'0') ∷ []) (is_wire-print f (n / 10))
        (ground arith))
]

pub is_wire-itoa : (z : ℤ) → is_wire (itoa z) ≡ true
unfolding itoa itoa_ℕ is_wire
is_wire-itoa (pos n) = is_wire-print (suc n) n
is_wire-itoa (negsuc n) = is_wire-print (suc (suc n)) (suc n)
