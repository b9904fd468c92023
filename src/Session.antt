-- ===== src/Session.antt =====
-- Client sessions and the broker's state: src/session.rs.
pub mod PacketId
pub mod State
pub mod Deliver
pub mod Registry
pub mod Invariant
pub mod Preserved
pub mod Delivery
pub mod Counts
pub mod Turns
pub mod Departed
pub mod Routed
pub mod Reached
mod Tests
