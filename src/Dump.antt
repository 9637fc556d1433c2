-- ===== src/Dump.antt =====
-- src/sql_parser.rs: the reader of PostgreSQL's node dumps.
pub mod Analyze
pub mod Body
pub mod Find
pub mod Names
pub mod Token
