-- ===== src/Ipc.antt =====
-- crates/around-engine/src/ipc: commands from clients.
pub mod Types
pub mod Status
pub mod Codecs
pub mod Handlers
pub mod Answers
pub mod Invariant
pub mod Files
pub mod Listing
pub mod Play
pub mod Varint
pub mod Framing
pub mod Lines
pub mod Connection
pub mod Consumes
pub mod Sent
pub mod Sessions
pub mod Detection
mod Tests
mod WireTests
mod SessionTests
