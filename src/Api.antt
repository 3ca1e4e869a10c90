-- ===== src/Api.antt =====
-- api/ and versioning/: how a caller starts a run, drives it to its outcome, cancels and forks it.
pub mod Versions
pub mod Outcome
pub mod Runner
pub mod Fork
pub mod Growth
pub mod Ends
pub mod Keys
pub mod Examples
