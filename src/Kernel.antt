-- ===== src/Kernel.antt =====
-- crates/kernel: the substrate over the durable store.
pub mod Delivery
pub mod Message
pub mod Channel
pub mod Membership
pub mod Closing
