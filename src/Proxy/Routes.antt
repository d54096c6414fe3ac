-- ===== src/Proxy/Routes.antt =====
-- The routes of Start in services/msg_queue_proxy/main.go.
use telemetry_punitha.Prelude.{[], ◌∷◌, Text, codes}
use telemetry_punitha.Prelude.Map.{Map}

pub data Endpoint : Type 0 where
  produce : Endpoint
  consume : Endpoint
  ack : Endpoint
  topics : Endpoint
  health : Endpoint
  status : Endpoint
  stats : Endpoint
  metrics : Endpoint

unfoldable pub routes : Map Text Endpoint
routes =
    (codes "/produce", produce)
    ∷ (codes "/consume", consume)
    ∷ (codes "/ack", ack)
    ∷ (codes "/topics", topics)
    ∷ (codes "/health", health)
    ∷ (codes "/status", status)
    ∷ (codes "/stats", stats)
    ∷ (codes "/metrics", metrics)
    ∷ []
