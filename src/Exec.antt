-- ===== src/Exec.antt =====
-- The statements that the runtime worker runs itself: src/sandbox.rs, src/function_exec.rs and
-- src/procedure_exec.rs.
pub mod Quote
pub mod Sandbox
pub mod Build
pub mod Call
pub mod Policy
pub mod Rules
pub mod Safety
