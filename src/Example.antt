-- ===== src/Example.antt =====
-- Small databases on which the theorems are applied.
pub mod Data
pub mod Runs
pub mod Fence
pub mod Session
pub mod Observation
pub mod Channel
pub mod Kernel
