-- ===== src/Http.antt =====
-- src/http_protocol.rs.
pub mod Form
pub mod Read
pub mod Request
pub mod Space
