-- ===== src/Output.antt =====
-- crates/around-engine/src/output_plan.rs and output_session.rs.
pub mod Device
pub mod Loss
pub mod Plan
pub mod Session
mod Tests
