-- ===== src/MsgQueue/Routes.antt =====
-- The routes of main in services/msg_queue/main.go.
use telemetry_punitha.Prelude.{[], ◌∷◌, Text, codes}
use telemetry_punitha.Prelude.Map.{Map}

pub data Endpoint : Type 0 where
  produce : Endpoint
  consume : Endpoint
  ack : Endpoint
  topics : Endpoint
  health : Endpoint
  metrics : Endpoint

unfoldable pub routes : Map Text Endpoint
routes =
    (codes "/produce", produce)
    ∷ (codes "/consume", consume)
    ∷ (codes "/ack", ack)
    ∷ (codes "/topics", topics)
    ∷ (codes "/health", health)
    ∷ (codes "/metrics", metrics)
    ∷ []
