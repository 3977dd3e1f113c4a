-- ===== src/RunCell.antt =====
-- The run's cell, `WorkflowRunDO`: events and retention.
pub mod Retention
pub mod Page
pub mod Events
pub mod Schedule
pub mod Steps
pub mod Expiry
pub mod Journal
pub mod Ended
pub mod Lookups
pub mod Payload
pub mod Orphan
pub mod Fence
pub mod Pages
pub mod Completion
pub mod Deletion
pub mod Told
pub mod Announced
pub mod Notified
mod Tests
