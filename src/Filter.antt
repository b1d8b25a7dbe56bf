-- ===== src/Filter.antt =====
-- crates/around-engine/src/filter_chain.rs: the last step of a chain, the encoding for a device.
pub mod Encode
pub mod Written
pub mod Encoded
mod Tests
