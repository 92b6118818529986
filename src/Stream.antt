-- ===== src/Stream.antt =====
-- `usecase/streaming/v2`: the events of a thread's runs as one numbered stream, filtered for a client.
pub mod Blocks
pub mod ToolCalls
pub mod Messages
pub mod Interrupts
pub mod Channels
pub mod Session
pub mod Events
pub mod Drain
pub mod Reconnect
pub mod Induction
pub mod Sequence
pub mod Requests
pub mod Subgraphs
pub mod Payloads
pub mod Idle
