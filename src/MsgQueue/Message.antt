-- ===== src/MsgQueue/Message.antt =====
-- The messages of services/msg_queue/main.go, and encoding/json as it is used on them.
use telemetry_punitha.Prelude.{ℕ, ◌≡◌, Option, some, Text}
use telemetry_punitha.Prelude.Int.{ℤ}

-- Times are numbers (nanoseconds, say).
pub record Message : Type 0 where
  pub id : Text
  pub payload : Text
  pub created_at : ℕ
  pub topic : Text
  pub partition : ℤ

-- json.Marshal and json.Unmarshal at a Message. A message is plain if its texts are valid UTF-8;
-- any other text comes back altered.
pub record Codec : Type 1 where
  pub marshal : Message → Text
  pub unmarshal : Text → Option Message
  pub IsPlain : Message → Type 0
  pub unmarshal-marshal : (m : Message) → IsPlain m → unmarshal (marshal m) ≡ some m
