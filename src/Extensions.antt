-- ===== src/Extensions.antt =====
-- crates/around-extensions.
pub mod Trust
pub mod State
pub mod Lifecycle
pub mod Slots
pub mod Scan
pub mod Load
pub mod Unload
pub mod Reload
pub mod Keeps
pub mod Consistent
pub mod Known
pub mod Installing
pub mod Claims
pub mod Loading
pub mod LoadEnds
pub mod Unloading
pub mod Unloads
pub mod Reach
pub mod Drains
pub mod Reloading
pub mod Reloads
mod Tests
mod FrameworkTests
