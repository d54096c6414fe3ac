-- ===== src/MsgQueue/Ids.antt =====
-- genID of services/msg_queue/main.go, with encoding/base64's RawURLEncoding.
use telemetry_punitha.Prelude.{
  ℕ, ◌+◌, ◌-◌, ◌*◌, ◌/◌, ◌%◌, ◌<◌, ◌≡◌, refl, ap, ◌∙◌, Bool, true, false, ◌&&◌, [], ◌∷◌, Text, ltb,
  leb, eqb, length, if◌then◌else◌, mentions, arith,
}
use telemetry_punitha.HttpQueue.Lines.{IsLine}
use telemetry_punitha.MsgQueue.Http.{newline}

-- The letter of six bits: A-Z, a-z, 0-9, - and _.
unfoldable pub letter : ℕ → ℕ
letter n =
    if ltb n 26
    then n + b'A'
    else if ltb n 52
    then n - 26 + b'a'
    else if ltb n 62
    then n - 52 + b'0'
    else if eqb n 62
    then b'-'
    else b'_'

-- Three bytes are four letters; the bits of a shorter end are filled up with zeros.
unfoldable pub encode : Text → Text
unfolding letter
encode [] = []
encode (a ∷ []) = letter (a / 4) ∷ letter (a % 4 * 16) ∷ []
encode (a ∷ b ∷ []) = letter (a / 4) ∷ letter (a % 4 * 16 + b / 16) ∷ letter (b % 16 * 4) ∷ []
encode (a ∷ b ∷ c ∷ more) =
    letter (a / 4)
    ∷ letter (a % 4 * 16 + b / 16)
    ∷ letter (b % 16 * 4 + c / 64)
    ∷ letter (c % 64)
    ∷ encode more

-- `b` is what rand.Read wrote into the 16 bytes.
unfoldable pub gen_id : Text → Text
gen_id b = encode b

-- The six bits of a letter.
unfoldable pub value : ℕ → ℕ
value c =
    if leb b'A' c && leb c b'Z'
    then c - b'A'
    else if leb b'a' c && leb c b'z'
    then c - b'a' + 26
    else if leb b'0' c && leb c b'9'
    then c - b'0' + 52
    else if eqb c b'-'
    then 62
    else 63

unfoldable pub decode : Text → Text
decode (w ∷ x ∷ []) = (value w * 4 + value x / 16) ∷ []
decode (w ∷ x ∷ y ∷ []) = (value w * 4 + value x / 16) ∷ (value x % 16 * 16 + value y / 4) ∷ []
decode (w ∷ x ∷ y ∷ z ∷ more) =
    (value w * 4 + value x / 16)
    ∷ (value x % 16 * 16 + value y / 4)
    ∷ (value y % 4 * 64 + value z)
    ∷ decode more
decode s = []

unfoldable pub are_bytes : Text → Bool
are_bytes [] = true
are_bytes (b ∷ s) = ltb b 256 && are_bytes s

value-letter : (n : ℕ) → n < 64 → value (letter n) ≡ n
unfolding value letter
value-letter n h = ground arith

-- Three bytes come back from the bits that they are cut into.
first_byte :
    (a k : ℕ)
    → a < 256
    → k < 16
    → value (letter (a / 4)) * 4 + value (letter (a % 4 * 16 + k)) / 16 ≡ a
first_byte a k h l = omega (
  arith,
  value-letter (a / 4) (omega (arith, h)),
  value-letter (a % 4 * 16 + k) (omega (arith, l)),
)

second_byte :
    (a b k : ℕ)
    → b < 256
    → k < 4
    → value (letter (a % 4 * 16 + b / 16)) % 16 * 16 + value (letter (b % 16 * 4 + k)) / 4 ≡ b
second_byte a b k h l = omega (
  arith,
  value-letter (a % 4 * 16 + b / 16) (omega (arith, h)),
  value-letter (b % 16 * 4 + k) (omega (arith, l)),
)

third_byte :
    (b c : ℕ)
    → c < 256
    → value (letter (b % 16 * 4 + c / 64)) % 4 * 64 + value (letter (c % 64)) ≡ c
third_byte b c h = omega (
  arith,
  value-letter (b % 16 * 4 + c / 64) (omega (arith, h)),
  value-letter (c % 64) (omega arith),
)

add_nothing : (n : ℕ) → n ≡ n + 0
add_nothing n = omega arith

are_bytes-tail : (b : ℕ) (s : Text) → are_bytes (b ∷ s) ≡ true → (b < 256) × (are_bytes s ≡ true)
unfolding are_bytes
are_bytes-tail b s h = (ground arith, ground arith)

cons_eq : {a b : ℕ} {s t : Text} → a ≡ b → s ≡ t → a ∷ s ≡ b ∷ t
cons_eq p q = ground (arith, p, q)

decode-encode : (s : Text) → are_bytes s ≡ true → decode (encode s) ≡ s
unfolding decode encode
decode-encode [] h = refl
decode-encode (a ∷ []) h =
    let (small, _) = are_bytes-tail a [] h in
    cons_eq
      (ap (λ k. value (letter (a / 4)) * 4 + value (letter k) / 16) (add_nothing (a % 4 * 16))
        ∙ first_byte a 0 small (omega arith))
      refl
decode-encode (a ∷ b ∷ []) h =
    let (small, more) = are_bytes-tail a (b ∷ []) h in
    let (low, _) = are_bytes-tail b [] more in
    cons_eq (first_byte a (b / 16) small (omega (arith, low))) (
      cons_eq
        (ap (λ k. value (letter (a % 4 * 16 + b / 16)) % 16 * 16 + value (letter k) / 4)
            (add_nothing (b % 16 * 4))
          ∙ second_byte a b 0 low (omega arith))
        refl)
decode-encode (a ∷ b ∷ c ∷ more) h =
    let (small, h1) = are_bytes-tail a (b ∷ c ∷ more) h in
    let (low, h2) = are_bytes-tail b (c ∷ more) h1 in
    let (least, h3) = are_bytes-tail c more h2 in
    cons_eq (first_byte a (b / 16) small (omega (arith, low))) (
      cons_eq (second_byte a b (c / 64) low (omega (arith, least)))
        (cons_eq (third_byte b c least) (decode-encode more h3)))

-- Four letters for three bytes.
length-encode : (s : Text) → length (encode s) ≡ (length s * 4 + 2) / 3
unfolding encode
length-encode [] = refl
length-encode (a ∷ []) = refl
length-encode (a ∷ b ∷ []) = refl
length-encode (a ∷ b ∷ c ∷ more) = omega (arith, length-encode more)

letter_plain : (n c : ℕ) → ltb c b'-' ≡ true → eqb (letter n) c ≡ false
unfolding letter
letter_plain n c h = ground arith

encode_plain : (s : Text) (c : ℕ) → ltb c b'-' ≡ true → mentions c (encode s) ≡ false
unfolding encode mentions
encode_plain [] c h = refl
encode_plain (a ∷ []) c h = ground (arith, letter_plain (a / 4) c h, letter_plain (a % 4 * 16) c h)
encode_plain (a ∷ b ∷ []) c h = ground (
  arith,
  letter_plain (a / 4) c h,
  letter_plain (a % 4 * 16 + b / 16) c h,
  letter_plain (b % 16 * 4) c h,
)
encode_plain (a ∷ b ∷ d ∷ more) c h = ground (
  arith,
  letter_plain (a / 4) c h,
  letter_plain (a % 4 * 16 + b / 16) c h,
  letter_plain (b % 16 * 4 + d / 64) c h,
  letter_plain (d % 64) c h,
  encode_plain more c h,
)

-- The ID made of 16 random bytes has 22 bytes, is a single line, and gives the random bytes back
-- when it is decoded, so that different bytes make different IDs.
pub gen_id_lem :
    (b : Text)
    → are_bytes b ≡ true
    → length b ≡ 16
    → (decode (gen_id b) ≡ b) × (length (gen_id b) ≡ 22) × IsLine (gen_id b)
unfolding gen_id
gen_id_lem b bytes long = (
  decode-encode b bytes,
  length-encode b ∙ ap (λ n. (n * 4 + 2) / 3) long,
  (encode_plain b newline refl, encode_plain b 13 refl),
)
