-- ===== src/HttpQueue/Lines.antt =====
-- bufio.Scanner with its split function ScanLines, and what it does on lines that were written.
use mathlib.Core.List.{append_assoc, append-nil}
use telemetry_punitha.Prelude.{
  ℕ, ◌≡◌, refl, ap, ◌∙◌, Bool, true, false, not, ◌&&◌, inl, inr, Bool-cases, All, List, [], ◌∷◌,
  ◌++◌, Text, text_eq, ◌==◌, text_eqb, text_eqb_iff, append_given, eqb, if◌then◌else◌, mentions,
  mentions-append, arith,
}
use telemetry_punitha.Prelude.Int.{ℤ}
use telemetry_punitha.Strconv.{itoa}
use telemetry_punitha.Strconv.RoundTrip.{itoa_plain}
use telemetry_punitha.MsgQueue.Http.{newline}

-- A carriage return at the end goes.
unfoldable pub drop_cr : Text → Text
drop_cr [] = []
drop_cr (c ∷ []) = if eqb c 13 then [] else c ∷ []
drop_cr (c ∷ d ∷ s) = c ∷ drop_cr (d ∷ s)

-- The lines of a text, of which `acc` has been read; a last line with no newline counts if it is
-- not empty.
lines_from : Text → Text → List Text
lines_from acc [] = if acc == [] then [] else drop_cr acc ∷ []
lines_from acc (c ∷ s) =
    if eqb c newline then drop_cr acc ∷ lines_from [] s else lines_from (acc ++ c ∷ []) s

unfoldable pub scan_lines : Text → List Text
unfolding lines_from
scan_lines s = lines_from [] s

-- A text that is one line as it stands.
abbrev pub IsLine : Text → Type 0
IsLine s = (mentions newline s ≡ false) × (mentions 13 s ≡ false)

pub IsLine-append : (s t : Text) → IsLine s → IsLine t → IsLine (s ++ t)
IsLine-append s t a b = ground (arith, mentions-append newline s t, mentions-append 13 s t)

drop_cr_lem : (s : Text) → mentions 13 s ≡ false → drop_cr s ≡ s
unfolding drop_cr mentions
drop_cr_lem [] h = refl
drop_cr_lem (c ∷ []) h = ground arith
drop_cr_lem (c ∷ d ∷ s) h = ground (arith, drop_cr_lem (d ∷ s))

lines_from-append :
    (acc s rest : Text)
    → mentions newline s ≡ false
    → lines_from acc (s ++ newline ∷ rest) ≡ drop_cr (acc ++ s) ∷ lines_from [] rest
unfolding lines_from mentions
lines_from-append acc [] rest h = rw append-nil refl
lines_from-append acc (c ∷ s) rest h =
    ground (arith, lines_from-append (acc ++ c ∷ []) s rest, append_assoc acc (c ∷ []) s)

-- A line that is written is read.
pub scan_lines-append :
    (s rest : Text) → IsLine s → scan_lines (s ++ newline ∷ rest) ≡ s ∷ scan_lines rest
unfolding scan_lines
scan_lines-append s rest h =
    lines_from-append [] s rest h.0 ∙ ap (λ l. l ∷ lines_from [] rest) (drop_cr_lem s h.1)

pub scan_lines-nil : scan_lines [] ≡ []
unfolding scan_lines text_eqb
scan_lines-nil = refl

pub itoa-IsLine : (z : ℤ) → IsLine (itoa z)
itoa-IsLine z = (itoa_plain newline z refl, itoa_plain 13 z refl)

-- Whether no line of the text is empty; `start` says whether a line begins with the text.
unfoldable pub has_no_blank : Bool → Text → Bool
has_no_blank start [] = true
has_no_blank start (c ∷ s) = not (start && eqb c newline) && has_no_blank (eqb c newline) s

pub has_no_blank_prefix :
    (start : Bool) (s t : Text) → has_no_blank start (s ++ t) ≡ true → has_no_blank start s ≡ true
unfolding has_no_blank
has_no_blank_prefix start [] t h = refl
has_no_blank_prefix start (c ∷ s) t h = ground (arith, has_no_blank_prefix (eqb c newline) s t)

has_no_blank_more :
    (s rest : Text)
    → mentions newline s ≡ false
    → has_no_blank false (s ++ newline ∷ rest) ≡ has_no_blank true rest
unfolding has_no_blank mentions
has_no_blank_more [] rest h = refl
has_no_blank_more (c ∷ s) rest h = ground (arith, has_no_blank_more s rest)

pub has_no_blank_line :
    (c : ℕ) (s rest : Text)
    → mentions newline (c ∷ s) ≡ false
    → has_no_blank true ((c ∷ s) ++ newline ∷ rest) ≡ has_no_blank true rest
unfolding has_no_blank mentions
has_no_blank_line c s rest h = ground (arith, has_no_blank_more s rest)

lines_from_given :
    (acc s : Text)
    → mentions 13 acc ≡ false
    → mentions 13 s ≡ false
    → has_no_blank (acc == []) s ≡ true
    → All (λ line. (line == []) ≡ false) (lines_from acc s)
unfolding lines_from has_no_blank mentions
lines_from_given acc [] ha hs blank = elim (Bool-cases (acc == [])) [
  | inl none' ↦ rw none' tt
  | inr some' ↦ rw (some', drop_cr_lem acc ha) (some', tt)
]
lines_from_given acc (c ∷ s) ha hs blank = elim (Bool-cases (eqb c newline)) [
  | inl ends ↦
      rw (ends, drop_cr_lem acc ha)
        (
          ground arith,
          lines_from_given [] s refl (ground arith) (ground (arith, text_eqb_iff [] [])),
        )
  | inr goes ↦ rw goes (
      lines_from_given (acc ++ c ∷ []) s (ground (arith, mentions-append 13 acc (c ∷ [])))
        (ground arith) (ground (arith, append_given acc [] c)))
]

-- The scanner gives no empty line for a text that has none.
pub scan_lines_given :
    (s : Text)
    → mentions 13 s ≡ false
    → has_no_blank true s ≡ true
    → All (λ line. (line == []) ≡ false) (scan_lines s)
unfolding scan_lines mentions
scan_lines_given s h blank = lines_from_given [] s refl h (unfold text_eqb in blank)
