-- ===== src/Strconv/RoundTrip.antt =====
-- Atoi reads back what %d prints, so a partition survives its trip through a URL.
use mathlib.Core.List.{append_assoc, append-nil}
use telemetry_punitha.Prelude.{
  ℕ, zero, suc, Bool, false, ◌||◌, eqb, mentions, mentions-append, ◌+◌, ◌-◌, ◌*◌, ◌/◌, ◌%◌, ◌^◌,
  ◌<◌, ◌≤◌, ◌≡◌, [], ◌∷◌, ◌++◌, some, Text, ltb, arith, Bool-cases, inl, inr, ap, sym, refl, ◌∙◌,
  ltb→lt,
}
use telemetry_punitha.Prelude.Int.{ℤ, pos, negsuc}
use telemetry_punitha.Strconv.{is_digit, atoi_value, digits, unsigned, atoi, print, itoa_ℕ, itoa}

-- An int of 64 bits.
abbrev pub IsInt64 : ℤ → Type 0
IsInt64 (pos n) = n < 2 ^ 63
IsInt64 (negsuc n) = n < 2 ^ 63

digit_lem : (a d : ℕ) (s : Text) → d < 10 → digits a ((d + b'0') ∷ s) ≡ digits (a * 10 + d) s
unfolding digits
digit_lem a d s h = let e : d + 48 - 48 ≡ d = omega arith in ground (arith, e)

-- Reading the digits of `n` gives `n`, whatever follows.
digits-print : (f n : ℕ) (s : Text) → n < f → digits 0 (print f n ++ s) ≡ digits n s
unfolding print
digits-print zero n s h = elim h [ ]
digits-print (suc f) n s h = elim (Bool-cases (ltb n 10)) [
  | inl small ↦ rw small (digit_lem 0 n s (ltb→lt n 10 small) ∙ ap (λ k. digits k s) (omega arith))
  | inr large ↦
      rw (large, append_assoc)
        (digits-print f (n / 10) ((n % 10 + b'0') ∷ s) (ground arith)
          ∙ digit_lem (n / 10) (n % 10) s (omega arith)
          ∙ ap (λ k. digits k s) (omega arith))
]

-- A print starts with a digit, so with no sign.
abbrev StartsWithDigit : Text → Type 0
StartsWithDigit s = (c : ℕ) × (rest : Text) × (s ≡ c ∷ rest) × (b'0' ≤ c) × (c ≤ b'9')

StartsWithDigit-append : {s : Text} (t : Text) → StartsWithDigit s → StartsWithDigit (s ++ t)
StartsWithDigit-append t (c, rest, e, low, high) = (c, rest ++ t, ap (λ u. u ++ t) e, low, high)

print-StartsWithDigit : (f n : ℕ) → n < f → StartsWithDigit (print f n)
unfolding print
print-StartsWithDigit zero n h = elim h [ ]
print-StartsWithDigit (suc f) n h = elim (Bool-cases (ltb n 10)) [
  | inl small ↦
      let low : n < 10 = ltb→lt n 10 small in (n + b'0', [], rw small, omega arith, omega arith)
  | inr large ↦
      rw large (StartsWithDigit-append _ (print-StartsWithDigit f (n / 10) (ground arith)))
]

unsigned-itoa_ℕ : (n : ℕ) → unsigned (itoa_ℕ n) ≡ some n
unfolding unsigned itoa_ℕ
unsigned-itoa_ℕ n =
    let (c, rest, e, low, high) = print-StartsWithDigit (suc n) n (omega arith) in
    let whole : digits 0 (print (suc n) n) ≡ some n =
      ap (digits 0) (sym (append-nil (print (suc n) n)))
      ∙ digits-print (suc n) n [] (omega arith) in
    ground (arith, whole, e)

-- A 64-bit int written in decimal and read by Atoi comes back.
pub atoi-itoa : (z : ℤ) → IsInt64 z → atoi (itoa z) ≡ some z
unfolding atoi itoa
atoi-itoa (pos n) h =
    let (c, rest, e, low, high) = print-StartsWithDigit (suc n) n (omega arith) in
    ground (arith, unsigned-itoa_ℕ n, e)
atoi-itoa (negsuc n) h = ground (arith, unsigned-itoa_ℕ (suc n))

-- The bytes that an int in decimal can have.
abbrev pub in_decimal : ℕ → Bool
in_decimal c = eqb c b'-' || is_digit c

print_plain : (c f n : ℕ) → in_decimal c ≡ false → mentions c (print f n) ≡ false
unfolding print mentions
print_plain c zero n h = refl
print_plain c (suc f) n h = elim (Bool-cases (ltb n 10)) [
  | inl small ↦ rw small (ground arith)
  | inr large ↦ rw large (
      mentions-append c (print f (n / 10)) ((n % 10 + b'0') ∷ [])
      ∙ ground (arith, print_plain c f (n / 10) h))
]

-- An int in decimal has no other byte.
pub itoa_plain : (c : ℕ) (z : ℤ) → in_decimal c ≡ false → mentions c (itoa z) ≡ false
unfolding itoa itoa_ℕ mentions
itoa_plain c (pos n) h = print_plain c (suc n) n h
itoa_plain c (negsuc n) h = ground (arith, print_plain c (suc (suc n)) (suc n) h)

-- What Atoi returns beside a nil error is what it returns.
pub atoi_value-atoi : (s : Text) (z : ℤ) → atoi s ≡ some z → atoi_value s ≡ z
unfolding atoi_value
atoi_value-atoi s z h = ground (arith, h)
