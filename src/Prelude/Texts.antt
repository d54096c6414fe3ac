-- ===== src/Prelude/Texts.antt =====
-- Go strings as lists of bytes (ASCII literals are written by `codes "…"`), with the functions of
-- the package strings that the program calls.
use Prim.Native.Nat.{ℕ}
use Prim.Native.Char.{code}
use Prim.Native.String.{String}
use mathlib.Core.Path.{◌≡◌, refl}
use mathlib.Core.Logic.{◌↔◌}
use mathlib.Core.Bool.{Bool, true, false, ◌&&◌, ◌||◌}
use mathlib.Core.List.{List, [], ◌∷◌, ◌++◌, append_assoc, append-nil}
use native.Mathlib.Omega.{arith}
use telemetry_punitha.Prelude.Tests.{eqb, Eq, if◌then◌else◌}

abbrev pub Text : Type 0
Text = List ℕ

-- The bytes of an ASCII literal.
abbrev pub codes : String → Text
codes String.[] = []
codes (String.◌∷◌ letter more) = code letter ∷ codes more

unfoldable pub text_eqb : Text → Text → Bool
text_eqb [] [] = true
text_eqb [] (b ∷ t) = false
text_eqb (a ∷ s) [] = false
text_eqb (a ∷ s) (b ∷ t) = eqb a b && text_eqb s t

text_eqb-eq : (s t : Text) → text_eqb s t ≡ true → s ≡ t
unfolding text_eqb
text_eqb-eq [] [] h = refl
text_eqb-eq [] (b ∷ t) h = cc
text_eqb-eq (a ∷ s) [] h = cc
text_eqb-eq (a ∷ s) (b ∷ t) h = ground (arith, text_eqb-eq s t)

text_eqb_refl : (s : Text) → text_eqb s s ≡ true
unfolding text_eqb
text_eqb_refl [] = refl
text_eqb_refl (a ∷ s) = ground (arith, text_eqb_refl s)

pub text_eqb_iff : (s t : Text) → (text_eqb s t ≡ true) ↔ (s ≡ t)
text_eqb_iff s t = (text_eqb-eq s t, λ e. ground (arith, text_eqb_refl s))

instance abbrev pub text_eq : Eq Text
text_eq = record { same = text_eqb; same_iff = text_eqb_iff }

pub append_given : (s t : Text) (c : ℕ) → text_eqb (s ++ c ∷ t) [] ≡ false
unfolding text_eqb
append_given [] t c = refl
append_given (x ∷ s) t c = refl

-- strings.HasPrefix(s, prefix)
unfoldable pub has_prefix : Text → Text → Bool
has_prefix s [] = true
has_prefix [] (b ∷ p) = false
has_prefix (a ∷ s) (b ∷ p) = eqb a b && has_prefix s p

drop_prefix : Text → Text → Text
drop_prefix s [] = s
drop_prefix [] (b ∷ p) = []
drop_prefix (a ∷ s) (b ∷ p) = drop_prefix s p

-- strings.TrimPrefix(s, prefix)
unfoldable pub trim_prefix : Text → Text → Text
unfolding drop_prefix has_prefix
trim_prefix s p = if has_prefix s p then drop_prefix s p else s

append-drop_prefix : (s p : Text) → has_prefix s p ≡ true → p ++ drop_prefix s p ≡ s
unfolding has_prefix drop_prefix
append-drop_prefix s [] h = refl
append-drop_prefix [] (b ∷ p) h = absurd (ground arith)
append-drop_prefix (a ∷ s) (b ∷ p) h = ground (arith, append-drop_prefix s p)

pub has_prefix-append : (p s : Text) → has_prefix (p ++ s) p ≡ true
unfolding has_prefix
has_prefix-append [] s = refl
has_prefix-append (b ∷ p) s = ground (arith, has_prefix-append p s)

drop_prefix-append : (p s : Text) → drop_prefix (p ++ s) p ≡ s
unfolding drop_prefix
drop_prefix-append [] s = refl
drop_prefix-append (b ∷ p) s = drop_prefix-append p s

pub trim_prefix-append : (p s : Text) → trim_prefix (p ++ s) p ≡ s
unfolding trim_prefix
trim_prefix-append p s = ground (arith, has_prefix-append p s, drop_prefix-append p s)

-- Whether the text has the byte.
unfoldable pub mentions : ℕ → Text → Bool
mentions c [] = false
mentions c (x ∷ s) = eqb x c || mentions c s

pub mentions-append : (c : ℕ) (s t : Text) → mentions c (s ++ t) ≡ (mentions c s || mentions c t)
unfolding mentions
mentions-append c [] t = refl
mentions-append c (x ∷ s) t = ground (arith, mentions-append c s t)

pub append-trim_prefix : (s p : Text) → has_prefix s p ≡ true → p ++ trim_prefix s p ≡ s
unfolding trim_prefix
append-trim_prefix s p h = rw h (append-drop_prefix s p h)

-- strings.Split(s, sep) for a separator of one byte, of which `acc` has been read in the current
-- part.
split_from : ℕ → Text → Text → List Text
split_from sep acc [] = acc ∷ []
split_from sep acc (c ∷ s) =
    if eqb c sep then acc ∷ split_from sep [] s else split_from sep (acc ++ c ∷ []) s

unfoldable pub split : ℕ → Text → List Text
unfolding split_from
split sep s = split_from sep [] s

split_from-append :
    (sep : ℕ) (acc s rest : Text)
    → mentions sep s ≡ false
    → split_from sep acc (s ++ sep ∷ rest) ≡ (acc ++ s) ∷ split_from sep [] rest
unfolding split_from mentions
split_from-append sep acc [] rest h = rw append-nil (ground arith)
split_from-append sep acc (c ∷ s) rest h =
    ground (arith, split_from-append sep (acc ++ c ∷ []) s rest, append_assoc acc (c ∷ []) s)

-- A part with no separator inside is split off whole.
pub split-append :
    (sep : ℕ) (s rest : Text)
    → mentions sep s ≡ false
    → split sep (s ++ sep ∷ rest) ≡ s ∷ split sep rest
unfolding split
split-append sep s rest h = split_from-append sep [] s rest h

split_from_plain :
    (sep : ℕ) (acc s : Text) → mentions sep s ≡ false → split_from sep acc s ≡ (acc ++ s) ∷ []
unfolding split_from mentions
split_from_plain sep acc [] h = rw append-nil refl
split_from_plain sep acc (c ∷ s) h =
    ground (arith, split_from_plain sep (acc ++ c ∷ []) s, append_assoc acc (c ∷ []) s)

pub split_plain : (sep : ℕ) (s : Text) → mentions sep s ≡ false → split sep s ≡ s ∷ []
unfolding split
split_plain sep s h = split_from_plain sep [] s h
