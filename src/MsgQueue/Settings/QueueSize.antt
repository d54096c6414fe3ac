-- ===== src/MsgQueue/Settings/QueueSize.antt =====
-- getQueueSize of services/msg_queue/main.go.
use telemetry_punitha.Prelude.{
  ◌≡◌, refl, true, [], none, codes, text_eq, text_eqb_iff, arith, if◌then◌else◌,
}
use telemetry_punitha.Prelude.Int.{ℤ, pos, ltb_ℤ, leb_ℤ}
use telemetry_punitha.Strconv.{atoi, itoa}
use telemetry_punitha.Strconv.RoundTrip.{IsInt64, atoi-itoa}
use telemetry_punitha.Config.{Environment}
use telemetry_punitha.MsgQueue.Settings.{get_queue_size}

atoi_nil : atoi [] ≡ none
unfolding atoi
atoi_nil = refl

-- x
pub get_queue_size_lem :
    (env : Environment) (z : ℤ)
    → IsInt64 z
    → env (codes "QUEUE_SIZE") ≡ itoa z
    → (get_queue_size env ≡ (if ltb_ℤ (pos 1000) z then z else pos 1000))
      × (leb_ℤ (pos 1000) (get_queue_size env) ≡ true)
unfolding get_queue_size
get_queue_size_lem env z small set =
    let e : get_queue_size env ≡ (if ltb_ℤ (pos 1000) z then z else pos 1000) =
      ground (arith, atoi-itoa z small, atoi_nil, text_eqb_iff (env (codes "QUEUE_SIZE")) []) in
    (e, ground (arith, e))
