-- ===== src/Web.antt =====
-- src/web.rs.
pub mod Rate
pub mod Tickets
pub mod Auth
pub mod Api
pub mod Reply
pub mod Response
pub mod Mock
pub mod Connection
pub mod Accept
pub mod Events
pub mod Exposure
pub mod Startup
