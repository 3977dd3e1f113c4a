-- ===== src/Stream.antt =====
-- Streams: the binary protocol, the stream cell and the registry of a run's streams.
pub mod Bytes
pub mod Protocol
pub mod ReadFrame
pub mod Frames
pub mod ReadTrip
pub mod Rows
pub mod Segment
pub mod Cell
pub mod Read
pub mod Expire
pub mod Registry
pub mod Groups
pub mod Packing
pub mod ReadPlan
pub mod ReadCollect
pub mod TakeChunks
pub mod ReadSegments
pub mod ReadRows
pub mod Log
pub mod Append
pub mod Calls
pub mod Refines
pub mod ReadOn
pub mod Pages
pub mod PageLoops
pub mod PageSteps
pub mod Removal
pub mod Draining
mod Tests
