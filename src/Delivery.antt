-- ===== src/Delivery.antt =====
-- The delivery of queue messages: the consumer, the envelope, and the delivery to the workflow.
pub mod Deadline
pub mod Envelope
pub mod Accepted
pub mod Consumer
pub mod Settled
pub mod Resumes
pub mod Hops
pub mod Decide
pub mod Deliver
pub mod Reasons
pub mod Claimed
pub mod Timely
mod Tests
