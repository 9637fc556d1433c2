-- ===== src/Outbound.antt =====
-- src/outbound.rs.
pub mod Guard
pub mod Message
pub mod Truncate
pub mod Wait
pub mod Client
pub mod Stop
