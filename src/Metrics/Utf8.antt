-- ===== src/Metrics/Utf8.antt =====
-- utf8.ValidString, by which the Prometheus client tells a label value that it takes.
use telemetry_punitha.Prelude.{
  ℕ, zero, suc, Bool, true, false, ◌&&◌, List, [], ◌∷◌, Option, none, some, Text, eqb, leb, ltb,
  if◌then◌else◌,
}

-- The bytes that must follow a first byte: how many, and the range of the next one.
followers : ℕ → Option (ℕ × ℕ × ℕ)
followers c =
    if ltb c 128
    then some (0, 128, 191)
    else if leb 194 c && leb c 223
    then some (1, 128, 191)
    else if eqb c 224
    then some (2, 160, 191)
    else if eqb c 237
    then some (2, 128, 159)
    else if leb 225 c && leb c 239
    then some (2, 128, 191)
    else if eqb c 240
    then some (3, 144, 191)
    else if leb 241 c && leb c 243
    then some (3, 128, 191)
    else if eqb c 244
    then some (3, 128, 143)
    else none

utf8_from : ℕ → ℕ → ℕ → Text → Bool
unfolding followers
utf8_from zero low high [] = true
utf8_from (suc n) low high [] = false
utf8_from zero low high (c ∷ s) = elim (followers c) [
  | none ↦ false
  | some (n, low', high') ↦ utf8_from n low' high' s
]
utf8_from (suc n) low high (c ∷ s) = leb low c && leb c high && utf8_from n 128 191 s

unfoldable pub is_utf8 : Text → Bool
unfolding utf8_from
is_utf8 s = utf8_from 0 128 191 s

unfoldable pub all_utf8 : List Text → Bool
all_utf8 [] = true
all_utf8 (s ∷ more) = is_utf8 s && all_utf8 more
