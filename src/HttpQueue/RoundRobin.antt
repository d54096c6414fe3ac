-- ===== src/HttpQueue/RoundRobin.antt =====
-- The partitions that HTTPMessageQueue publishes to, internal/shared/http_message_queue.go.
use native.Mathlib.Nat.{suc-mod, mod-lt, mod-le, mod_self, mod-eq_of_lt}
use telemetry_punitha.Prelude.{
  ℕ, zero, suc, ◌+◌, ◌-◌, ◌%◌, ◌^◌, ◌≤◌, ◌<◌, ◌≡◌, refl, ap, sym, ◌∙◌, Bool, true, false, ◌&&◌,
  List, [], ◌∷◌, Option, none, some, Text, text_eq, Option-cases, eqb, leb, ltb, if◌then◌else◌,
  arith, Bool-cases, inl, inr, ◌==◌, subst,
}
use telemetry_punitha.Prelude.Int.{to_uint64, to_int, ℤ, pos, negsuc, int_eq, ltb_ℤ}
use telemetry_punitha.Strconv.{atoi, positive, negative, unsigned}
use telemetry_punitha.Strconv.RoundTrip.{IsInt64}
use telemetry_punitha.HttpQueue.{
  HttpMessageQueue, partition_at, calculate_publish_partition, max_partitions_of,
  new_http_message_queue,
}

-- The partitions of `n` calls in a row.
unfoldable pub partitions : ℕ → HttpMessageQueue → List (Option ℤ)
partitions zero h = []
partitions (suc n) h = let (p, after) = calculate_publish_partition h in p ∷ partitions n after

abbrev pub is_at : ℕ → Option ℤ → Bool
is_at j none = false
is_at j (some z) = z == pos j

-- How often partition `j` is among them.
unfoldable pub uses : ℕ → List (Option ℤ) → ℕ
uses j [] = 0
uses j (p ∷ ps) = (if is_at j p then 1 else 0) + uses j ps

-- The partition is the counter before the call modulo the maximum, and the counter goes up by one.
pub calculate_publish_partition_lem :
    (k : ℕ) (h : HttpMessageQueue)
    → h.max_partitions ≡ pos (suc k)
    → suc k < 2 ^ 63
    → h.publish_counter + 1 < 2 ^ 64
    → calculate_publish_partition h ≡ (
      some (pos (h.publish_counter % suc k)),
      record h { publish_counter = h.publish_counter + 1 },
    )
unfolding calculate_publish_partition partition_at to_uint64 to_int
calculate_publish_partition_lem k h max small room =
    let c = h.publish_counter in
    let up : (c + 1) % 2 ^ 64 ≡ c + 1 = omega arith in
    let down : (c + 1 + 2 ^ 64 - 1) % 2 ^ 64 ≡ c = omega arith in
    let below : c % suc k < suc k = mod-lt c (omega arith) in rw (max, up, down) (ground arith)

-- The remainder of the next counter.
next_mod : (c k : ℕ) → suc c % suc k ≡ (if eqb (c % suc k + 1) (suc k) then 0 else c % suc k + 1)
next_mod c k =
    let below : c % suc k < suc k = mod-lt c (omega arith) in
    elim (Bool-cases (eqb (c % suc k + 1) (suc k))) [
      | inl wraps ↦
          let e : suc (c % suc k) ≡ suc k = ground arith in
          suc-mod c (suc k) ∙ ap (λ r. r % suc k) e ∙ mod_self (suc k) ∙ (rw wraps refl)
      | inr inside ↦ suc-mod c (suc k) ∙ mod-eq_of_lt (ground arith) ∙ (rw inside (omega arith))
    ]

-- How often `n` steps around a circle of `m` places, from place `r`, visit place `j`.
turns : ℕ → ℕ → ℕ → ℕ → ℕ
turns j m zero r = 0
turns j m (suc n) r = (if eqb r j then 1 else 0) + turns j m n (if eqb (r + 1) m then 0 else r + 1)

turns_straight :
    (j m n r : ℕ) → r + n ≤ m → turns j m n r ≡ (if leb r j && ltb j (r + n) then 1 else 0)
unfolding turns
turns_straight j m zero r h = ground arith
turns_straight j m (suc zero) r h = ground arith
turns_straight j m (suc (suc n)) r h = ground (arith, turns_straight j m (suc n) (r + 1))

turns_around :
    (j m n r q : ℕ)
    → r + suc n ≡ m
    → turns j m (suc (q + n)) r ≡ turns j m (suc n) r + turns j m q 0
unfolding turns
turns_around j m zero r q h =
    let wraps : (if eqb (r + 1) m then 0 else r + 1) ≡ 0 = ground arith in
    let same : q + 0 ≡ q = omega arith in rw (wraps, same) (omega arith)
turns_around j m (suc n) r q h =
    let inside : (if eqb (r + 1) m then 0 else r + 1) ≡ r + 1 = ground arith in
    let next : q + suc n ≡ suc (q + n) = omega arith in
    rw (inside, next) (omega (arith, turns_around j m n (r + 1) q (omega arith)))

turns_once : (j m r : ℕ) → j < m → r < m → turns j m m r ≡ 1
turns_once j m r hj hr =
    let n = m - r - 1 in
    let split : suc (r + n) ≡ m = omega arith in
    ap (λ l. turns j m l r) (sym split)
    ∙ turns_around j m n r r (omega arith)
    ∙ ground (arith, turns_straight j m (suc n) r, turns_straight j m r 0)

uses-partitions :
    (j k n : ℕ) (h : HttpMessageQueue)
    → h.max_partitions ≡ pos (suc k)
    → suc k < 2 ^ 63
    → h.publish_counter + n < 2 ^ 64
    → uses j (partitions n h) ≡ turns j (suc k) n (h.publish_counter % suc k)
unfolding uses partitions turns
uses-partitions j k zero h max small room = refl
uses-partitions j k (suc n) h max small room =
    let c = h.publish_counter in
    let after : HttpMessageQueue = record h { publish_counter = c + 1 } in
    ground (
      arith,
      calculate_publish_partition_lem k h max small (omega arith),
      uses-partitions j k n after max small (omega arith),
      next_mod c k,
    )

-- With a positive maximum below 2^63, as many publishes in a row as there are partitions go once
-- to each partition, wherever the counter stands, unless it wraps around 2^64 among them.
pub partitions_fair :
    (j k : ℕ) (h : HttpMessageQueue)
    → h.max_partitions ≡ pos (suc k)
    → suc k < 2 ^ 63
    → h.publish_counter + suc k < 2 ^ 64
    → j < suc k
    → uses j (partitions (suc k) h) ≡ 1
partitions_fair j k h max small room below =
    uses-partitions j k (suc k) h max small room
    ∙ turns_once j (suc k) (h.publish_counter % suc k) below
        (mod-lt h.publish_counter (omega arith))

positive_max : (o : Option ℕ) (n : ℕ) → positive o ≡ some (pos n) → n < 2 ^ 63
unfolding positive
positive_max none n e = absurd (ground arith)
positive_max (some k) n e = ground arith

negative_max : (o : Option ℕ) (n : ℕ) → negative o ≡ some (pos n) → n < 2 ^ 63
unfolding negative
negative_max none n e = absurd (ground arith)
negative_max (some zero) n e = ground arith
negative_max (some (suc k)) n e = absurd (ground arith)

-- Atoi gives an int of 64 bits.
atoi_max : (s : Text) (n : ℕ) → atoi s ≡ some (pos n) → n < 2 ^ 63
unfolding atoi
atoi_max [] n e = absurd (ground arith)
atoi_max (c ∷ s) n e = ground (
  arith,
  positive_max (unsigned s) n,
  negative_max (unsigned s) n,
  positive_max (unsigned (c ∷ s)) n,
)

-- The maximum is positive, whatever the environment.
parsed_maximum :
    (env : Text) (z : ℤ)
    → atoi env ≡ some z
    → ltb_ℤ (pos 0) z ≡ true
    → (k : ℕ) × (z ≡ pos (suc k)) × (suc k < 2 ^ 63)
parsed_maximum env (pos zero) e above = absurd (ground arith)
parsed_maximum env (pos (suc k)) e above = (k, refl, atoi_max env (suc k) e)
parsed_maximum env (negsuc n) e above = absurd (ground arith)

maximum : (env : Text) → (k : ℕ) × (max_partitions_of env ≡ pos (suc k)) × (suc k < 2 ^ 63)
unfolding max_partitions_of
maximum env = elim (Bool-cases (env == [])) [
  | inl unset ↦ (1, ground arith, omega arith)
  | inr given ↦ elim (Option-cases (atoi env)) [
    | inl bad ↦ (1, ground arith, omega arith)
    | inr (z, read) ↦ elim (Bool-cases (ltb_ℤ (pos 0) z)) [
      | inr low ↦ (1, ground arith, omega arith)
      | inl above ↦
          let (k, same, small) = parsed_maximum env z read above in (k, ground arith, small)
    ]
  ]
]

-- A client that NewHTTPMessageQueue makes never panics in a publish, whatever its environment
-- and its counter: the partition is a number below the maximum.
pub calculate_publish_partition_range :
    (env base_url topic group name : Text) (counter : ℕ)
    → (k : ℕ) × (r : ℕ) × (max_partitions_of env ≡ pos (suc k))
      × (r < suc k)
      × ((calculate_publish_partition
            (record (new_http_message_queue env base_url topic group name) {
              publish_counter = counter;
            })).0
          ≡ some (pos r))
unfolding new_http_message_queue calculate_publish_partition partition_at to_uint64 to_int
calculate_publish_partition_range env base_url topic group name counter =
    let (k, same, small) = maximum env in
    let current = (counter + 1) % 2 ^ 64 in
    let below : (current + 2 ^ 64 - 1) % 2 ^ 64 % suc k < suc k = mod-lt _ (omega arith) in
    (k, (current + 2 ^ 64 - 1) % 2 ^ 64 % suc k, same, below, ground arith)

to_int-IsInt64 : (n : ℕ) → n < 2 ^ 64 → IsInt64 (to_int n)
unfolding to_int
to_int-IsInt64 n h = elim (Bool-cases (ltb n (2 ^ 63))) [
  | inl small ↦ rw small (ground arith)
  | inr large ↦ rw large (ground arith)
]

partition_at-IsInt64 : (c n : ℕ) (part : ℤ) → partition_at c n ≡ some part → IsInt64 part
unfolding partition_at
partition_at-IsInt64 c zero part e = absurd (ground arith)
partition_at-IsInt64 c (suc n) part e =
    let whole = (c + 2 ^ 64 - 1) % 2 ^ 64 in
    let below : whole % suc n ≤ whole = mod-le whole (suc n) in
    let same : to_int (whole % suc n) ≡ part = ground arith in
    subst IsInt64 same (to_int-IsInt64 (whole % suc n) (omega arith))

-- A partition that is published to is an int of 64 bits.
pub calculate_publish_partition-IsInt64 :
    (h : HttpMessageQueue) (part : ℤ) → (calculate_publish_partition h).0 ≡ some part → IsInt64 part
unfolding calculate_publish_partition
calculate_publish_partition-IsInt64 h part e =
    partition_at-IsInt64 ((h.publish_counter + 1) % 2 ^ 64) (to_uint64 h.max_partitions) part e
