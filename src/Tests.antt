-- ===== src/Tests.antt =====
-- Tests of the definitions and examples of the theorems at concrete inputs.
mod Samples
mod MsgQueue
mod Broker
mod ConsistentHash
mod Proxy
mod HttpQueue
mod Pipeline
mod Startup
mod Queues
mod Arrival
mod Metrics
mod Service
mod Dispatch
