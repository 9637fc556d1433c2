-- ===== src/Extension.antt =====
-- src/lib.rs: the SQL functions of the extension and the registration of its two workers.
pub mod Workers
pub mod Host
pub mod Llm
use allgres_agent.Base.{Option}
use allgres_agent.Text.{Bytes}
use allgres_agent.Json.{Json}
use allgres_agent.Dump.Analyze.{analyze_dump}

-- `analyze_sql`: `raw_parse_dump`, the call into PostgreSQL's parser, is an argument.
unfoldable pub analyze_sql : (json : Json) → (Bytes → Bytes) → Bytes → Option json.Value
unfolding analyze_dump
analyze_sql json raw_parse_dump sql = analyze_dump json (raw_parse_dump sql)
