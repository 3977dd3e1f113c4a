-- ===== src/Queue.antt =====
-- Queue messages: their idempotency claims, in a claim cell or in the run's own cell.
pub mod Claim
pub mod Cell
pub mod RunClaim
pub mod Handle
pub mod Agreement
pub mod Alarm
pub mod Exclusion
pub mod Suspended
mod Tests
