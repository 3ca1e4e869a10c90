-- ===== src/Control.antt =====
-- control/: the commands that the worker applies.
pub mod Commands
pub mod ForkPoint
pub mod Forks
pub mod Apply
pub mod Growth
pub mod Writes
pub mod Cancellation
pub mod Cuts
pub mod Seeding
mod Examples
