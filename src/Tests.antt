-- ===== src/Tests.antt =====
-- Concrete runs of the modelled code.
pub mod Calls
pub mod Doc
pub mod Dumps
pub mod Guards
pub mod Limits
pub mod Requests
pub mod Responses
pub mod Sockets
pub mod Startups
pub mod Turns
pub mod Waits
pub mod Workers
