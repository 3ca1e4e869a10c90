-- ===== src/Replay.antt =====
-- replay/: durable-call identity, the journal as the engine reads it, and the replay engine.
pub mod Examples
pub mod Identity
pub mod Machine
pub mod Load
pub mod Failures
pub mod Engine
pub mod Waits
pub mod Drive
pub mod Commit
pub mod Growth
pub mod Appends
pub mod Settled
pub mod Hits
pub mod Answers
pub mod View
pub mod Recovery
