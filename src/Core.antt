-- ===== src/Core.antt =====
-- crates/around-core.
pub mod Spec
pub mod Buffer
pub mod Buffers
pub mod ByteOrders
mod Tests
mod BufferTests
