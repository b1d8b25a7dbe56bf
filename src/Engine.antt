-- ===== src/Engine.antt =====
-- crates/around-engine/src/pipeline.rs: the multi-stream engine.
pub mod State
pub mod Api
pub mod Query
pub mod Loop
pub mod Schedule
pub mod Frame
pub mod Invariant
pub mod Seek
pub mod Prepare
pub mod Rounds
pub mod Calls
pub mod Runs
pub mod BadReads
pub mod Take
pub mod Reach
pub mod EndOfStream
pub mod Ends
pub mod Counts
mod Tests
