-- ===== src/Extension/Workers.antt =====
-- src/lib.rs, how the two background workers are registered: `_PG_init` while the postmaster loads the
-- library, and `native_start_dynamic_workers` from a session. What the server answers to the two
-- queries, and what becomes of each registration, are arguments.
pub mod Once
use allgres_agent.Base.{
  ℕ, ◌≡◌, refl, ◌⊎◌, Bool, true, false, not, ◌||◌, Option, none, some, List, [], ◌∷◌, ◌++◌, map,
  any, ltb, if◌then◌else◌,
}
use allgres_agent.Text.{Bytes, codes, str_eq, split}
use allgres_agent.Json.{Json, unwrap_or}
use allgres_agent.Http.Space.{trim}
use allgres_agent.Config.{default_http_addr}

-- A `BackgroundWorkerBuilder`; the restart time is in seconds, and both workers start once recovery
-- has finished. The process to notify is none until `set_notify_pid`.
pub record Builder : Type 0 where
  pub name : Bytes
  pub function : Bytes
  pub library : Bytes
  pub restart_time : ℕ
  pub spi_access : Bool
  pub notify_pid : Option ℕ

unfoldable pub runtime_worker_builder : Builder
runtime_worker_builder = record {
  name = codes "allgres runtime";
  function = codes "allgres_runtime_main";
  library = codes "allgres";
  restart_time = 5;
  spi_access = true;
  notify_pid = none;
}

unfoldable pub web_worker_builder : Builder
web_worker_builder = record {
  name = codes "allgres web";
  function = codes "allgres_web_main";
  library = codes "allgres";
  restart_time = 5;
  spi_access = false;
  notify_pid = none;
}

abbrev pub set_notify_pid : ℕ → Builder → Builder
set_notify_pid pid b = record b { notify_pid = some pid }

-- The workers that `_PG_init` registers; the argument says whether the postmaster is loading its
-- libraries.
unfoldable pub pg_init : Bool → List Builder
unfolding runtime_worker_builder web_worker_builder
pg_init loading = if not loading then [] else runtime_worker_builder ∷ web_worker_builder ∷ []

-- `preload.split(',').any(|x| x.trim() == "allgres")`; without an answer the setting is empty.
unfoldable pub is_preloaded : Option Bytes → Bool
is_preloaded setting =
    let (p, ps) = split b',' (unwrap_or setting []) in
    any (λ x. str_eq (trim x) (codes "allgres")) (p ∷ ps)

-- What became of a registration: the worker runs under a process id, it was registered and did not
-- come up, or the postmaster could not register it.
pub data Loaded : Type 0 where
  started : ℕ → Loaded
  not_up : Bytes → Loaded
  not_registered : Loaded

module _ (json : Json) where
  open json use {Value, str, num, bool, array, object}

  -- The version, and the socket's path, come from the build and from src/config.rs.
  unfoldable pub native_status : Bytes → Option Bytes → Bytes → Value
  unfolding is_preloaded
  native_status version setting socket = object (
      (codes "name", str (codes "Allgres"))
      ∷ (codes "tagline", str (codes "Postgres Is All You Need."))
      ∷ (codes "version", str version)
      ∷ (codes "preloaded", bool (is_preloaded setting))
      ∷ (codes "runtime_worker", str (codes "allgres runtime"))
      ∷ (codes "web_worker", str (codes "allgres web"))
      ∷ (codes "web_default", str default_http_addr)
      ∷ (codes "rpc_socket", str socket)
      ∷ [])

  unfoldable pub load_report : Bytes → Loaded → Value
  load_report label (started pid) =
      object
        ((codes "worker", str label) ∷ (codes "started", bool true) ∷ (codes "pid", num pid) ∷ [])
  load_report label (not_up status) = object (
      (codes "worker", str label)
      ∷ (codes "started", bool false)
      ∷ (codes "reason", str status)
      ∷ [])
  load_report label not_registered = object (
      (codes "worker", str label)
      ∷ (codes "started", bool false)
      ∷ (
        codes "reason",
        str (codes "postmaster could not register the worker -- check max_worker_processes"),
      )
      ∷ [])

  -- The workers that the call asks the postmaster to register, in order, and its report. `running`
  -- counts the runtime workers among the server's sessions, where the query is answered, and `pid` is
  -- the process of the session, `MyProcPid`.
  unfoldable pub native_start_dynamic_workers :
      Option Bytes → Option ℕ → ℕ → (Builder → Loaded) → List Builder × Value
  unfolding is_preloaded load_report runtime_worker_builder web_worker_builder
  native_start_dynamic_workers setting running pid load =
      if is_preloaded setting
      then (
        [],
        object (
            (codes "ok", bool false)
            ∷ (
              codes "reason",
              str (
                  codes
                    "allgres is already in shared_preload_libraries; the postmaster owns these workers, dynamic start does not apply"),
            )
            ∷ []),
      )
      else if ltb 0 (unwrap_or running 0)
      then ([], object ((codes "ok", bool true) ∷ (codes "already_running", bool true) ∷ []))
      else (
        set_notify_pid pid runtime_worker_builder ∷ set_notify_pid pid web_worker_builder ∷ [],
        object (
            (codes "ok", bool true)
            ∷ (codes "already_running", bool false)
            ∷ (
              codes "results",
              array (
                  load_report (codes "allgres runtime")
                    (load (set_notify_pid pid runtime_worker_builder))
                  ∷ load_report (codes "allgres web") (load (set_notify_pid pid web_worker_builder))
                  ∷ []),
            )
            ∷ []),
      )
