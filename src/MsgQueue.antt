-- ===== src/MsgQueue.antt =====
-- The message broker, services/msg_queue/main.go.
pub mod Message
pub mod Partition
pub mod Broker
pub mod Http
pub mod Handlers
pub mod Settings
pub mod Ids
pub mod Routes
pub mod Service
