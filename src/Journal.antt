-- ===== src/Journal.antt =====
-- journal/: the event log and its serialization.
pub mod Codec
pub mod Events
pub mod Wire
pub mod Store
