-- ===== src/Lib.antt =====
-- The workers of allgres-agent, an agent runtime inside PostgreSQL: what they send to the database,
-- whom the web worker lets in, and which hosts the outbound pool may reach.
--
-- The runtime worker (src/runtime_worker.rs) claims queued work over SPI. SQL of an agent runs in
-- src/sandbox.rs, an agent's Functions and Procedures are built and called in src/function_exec.rs
-- and src/procedure_exec.rs, and HTTP calls go to the pool of src/outbound.rs. The web worker
-- (src/web.rs, src/http_protocol.rs) serves the dashboard's API and forwards calls to the runtime.
--
-- Which file models what:
--   Base, Text, Map, Utf8      numbers, bytes and text, maps, `from_utf8_lossy`
--   Json                       serde_json, as an interface that the models take as an argument
--   Ids                        `valid_uuid` of src/rpc.rs, `valid_pg_role`, `valid_sql_ident`
--   Spi                        statements, transactions and subtransactions; `run_in_subtransaction`
--                              of src/sandbox.rs, `with_fixed_role`, `drop_privileges`
--   Spi/Session                the session as PostgreSQL keeps it, from the log of events
--   Spi/Triple, Spi/Leak       rules for what is sent in which session; open subtransactions
--   Exec/Sandbox               `run_sandboxed_sql` and `pump_sql` of src/sandbox.rs
--   Exec/Quote, Exec/Build     `dollar_quote`, `run_guarded_build` and the build pumps
--   Exec/Call                  `run_function_call`, `run_procedure_call` and the call pumps
--   Exec/Policy, Rules, Safety which statements are allowed when, and that the pumps keep to it
--   Outbound/Guard             `is_blocked_ip` and `GuardedResolver` of src/outbound.rs
--   Outbound/Message, Client   `read_response`, `guarded_post_json`, `perform_http` of src/outbound.rs
--   Outbound/Wait, Stop        the loops of `CancellableTransport`, and how a lost call stops one
--   Outbound/Truncate          `truncate_utf8` of src/lib.rs
--   Http                       src/http_protocol.rs: reading a request, its parts, percent and
--                              form decoding
--   Runtime/Jobs, Claim        the jobs of the loop of src/runtime_worker.rs, and its four claims
--   Runtime/Harvest, Rpc       the submission of results; `handle_rpc_stream` of src/rpc.rs
--   Runtime/Cancel             `CancelGuard` of src/outbound.rs and
--                              `propagate_outbound_cancellations`
--   Runtime/Startup            `allgres_runtime_main` before its loop and behind it
--   Runtime/Tick               one turn of the loop of `allgres_runtime_main`
--   Runtime/Pool               `spawn_http_pool` of src/outbound.rs, as a step relation
--   Runtime/System             the worker and its pool together
--   Dump                       src/sql_parser.rs: tokens, bodies, names, and `analyze_dump`
--   Web/Rate, Tickets, Auth    the accounting, tickets and authentication of src/web.rs
--   Web/Api, Mock, Connection  `api_route`, the mock endpoints and `handle_web_connection`
--   Web/Response               `respond`, `security_headers`, `nonce`, and how a client reads a response
--   Web/Startup                `allgres_web_main` up to its loop
--   Web/Events                 `stream_events`, and how a client reads it
--   Extension                  src/lib.rs: the SQL functions, and the registration of the workers
--   Runtime/Rpc/Served, Call, EndToEnd
--                              a call, and a connection, of the web worker through the runtime up to
--                              the database, over a socket that can fail on either side
--   Config                     src/config.rs: settings, and the runtime's socket
--   Web/Exposure, Web/Accept   `check_exposure` and the accept loop of `allgres_web_main`
--   Tests                      concrete runs
--
-- Text is a list of bytes, each a number. The database is a function of the log so far and of the
-- statement sent, so a theorem for any server covers every answer and every raised ERROR, which
-- unwinds the program. The HTTP library answers each request handed to it, or fails and says whether
-- it had contacted a server by then. The file system is a parameter with the laws of POSIX on the
-- calls used, where paths may alias. Sockets, clocks, random bytes and the JSON library are arguments. Maps under a
-- lock are changed by one call at a time. The loop `pick_tag` on fuel has the length of the
-- body as fuel, and a longer delimiter cannot stand in the body. The loop that reads a request is on
-- fuel too: 2 ^ 20 + 1 turns are enough, since each but the last reads a byte. A sliced wait
-- has as fuel the turn at which the flag is set or the deadline has passed. Loops over claimed
-- entries are recursion on the list.
--
-- The worker and its pool are a step relation: a thread takes a job or sends a result, or the worker
-- makes a whole turn; what threads do during a turn stands before it or behind it. A turn meets the
-- connections and results that have arrived. The search for a tag in a dump has the length of the
-- text as fuel, and each turn of it starts behind a non-empty tag. An event stream has 31 turns as
-- fuel, which is enough for its thirty seconds, since each turn sleeps a second. A client that reads
-- a response has the length of its bytes as fuel, since each line ends in two of them.
--
-- Not modelled: the SQL control plane, the call into PostgreSQL's parser, the HTTP library's
-- transport, poisoned locks, the nonce's randomness, arithmetic on floating-point numbers, what the
-- postmaster does with a registered worker, log messages and memory contexts.
pub mod Base
pub mod Text
pub mod Map
pub mod Ids
pub mod Spi
pub mod Exec
pub mod Extension
pub mod Http
pub mod Json
pub mod Utf8
pub mod Outbound
pub mod Runtime
pub mod Web
pub mod Tests
pub mod Dump
pub mod Config
