-- ===== src/Execution.antt =====
-- crates/execution: what happens to durable state.
pub mod Session
pub mod Observation
pub mod Invocation
pub mod Settlement
pub mod Steps
pub mod Fence
pub mod Replay
pub mod Answers
