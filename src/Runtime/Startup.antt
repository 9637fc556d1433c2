-- ===== src/Runtime/Startup.antt =====
-- src/runtime_worker.rs, `allgres_runtime_main` before its loop and behind it: the database it connects
-- to and the socket it binds. Whether the socket can be set not to block is an argument.
use allgres_agent.Base.{◌≡◌, sym, ap, ◌∙◌, Bool, Option, none, some, arith, if◌then◌else◌}
use allgres_agent.Text.{Bytes, codes}
use allgres_agent.Json.{unwrap_or}
use allgres_agent.Config.{
  Env, Node, Fs, join, configured_database, socket_dir, rpc_socket_path, bind_rpc_socket,
}
use allgres_agent.Config.Private.{
  Laws, HasPrivateDir, HasNoDirInside, IsPrivate, bind_rpc_socket-IsPrivate,
}
use allgres_agent.Web.Startup.{Listener, listens, allgres_web_main}

module _ (fs : Fs) where
  open fs use {State, metadata, remove_file}

  -- What the loop runs with: the database and the files.
  pub record Connected : Type 0 where
    pub database : Bytes
    pub files : State

  -- The worker comes to its loop, or has warned and returned.
  pub data Startup : Type 0 where
    loops : Connected → Startup
    bind_failed nonblocking_failed : Startup

  unfoldable pub allgres_runtime_main : Env → Option Bytes → Bytes → Bool → State → Startup
  allgres_runtime_main env data_dir temp nonblocking s =
      elim (bind_rpc_socket fs (socket_dir env data_dir temp) s) [
        | none ↦ bind_failed
        | some s' ↦
            if nonblocking
            then loops (record { database = configured_database env; files = s' })
            else nonblocking_failed
      ]

  -- Behind the loop the socket is removed, if that succeeds.
  unfoldable pub leave : Env → Option Bytes → Bytes → State → State
  leave env data_dir temp s = unwrap_or (remove_file (rpc_socket_path env data_dir temp) s) s

  loops-bound :
      (env : Env) (data_dir : Option Bytes) (temp : Bytes) (nonblocking : Bool) (s : State)
      (r : Connected)
      → allgres_runtime_main env data_dir temp nonblocking s ≡ loops r
      → bind_rpc_socket fs (socket_dir env data_dir temp) s ≡ some r.files
  unfolding allgres_runtime_main
  loops-bound env data_dir temp nonblocking s r h = ground arith

  listens-socket :
      (env : Env) (data_dir : Option Bytes) (temp : Bytes) (bind : Bytes → Option Bytes)
      (nonblocking : Option Bytes) (l : Listener)
      → allgres_web_main env data_dir temp bind nonblocking ≡ listens l
      → join (socket_dir env data_dir temp) (codes "runtime.sock") ≡ l.socket
  unfolding allgres_web_main rpc_socket_path
  listens-socket env data_dir temp bind nonblocking l h = ground arith

  -- On a POSIX file system, where no directory stands at the socket's path once its directory is
  -- ensured, and where both workers start under the same environment and data directory: once the
  -- runtime worker has come to its loop, the socket that the web worker connects to is there, neither
  -- the group nor others have a permission on it, and it stands in a directory on which they have
  -- none either.
  pub allgres_runtime_main-IsPrivate :
      (laws : Laws fs) (env : Env) (data_dir : Option Bytes) (temp : Bytes) (nonblocking : Bool)
      (s : State) (r : Connected) (bind : Bytes → Option Bytes) (web_nonblocking : Option Bytes)
      (l : Listener)
      → HasNoDirInside fs laws (socket_dir env data_dir temp) s
      → allgres_runtime_main env data_dir temp nonblocking s ≡ loops r
      → allgres_web_main env data_dir temp bind web_nonblocking ≡ listens l
      → HasPrivateDir fs laws (socket_dir env data_dir temp) r.files
        × (node : Node) × (metadata r.files l.socket ≡ some node)
        × IsPrivate node
  allgres_runtime_main-IsPrivate laws env data_dir temp nonblocking s r bind web_nonblocking l old h
        w =
      let (private, node, there, hidden) =
        bind_rpc_socket-IsPrivate fs laws (socket_dir env data_dir temp) s r.files old
          (loops-bound env data_dir temp nonblocking s r h) in
      (
        private,
        node,
        sym (ap (metadata r.files) (listens-socket env data_dir temp bind web_nonblocking l w))
            ∙ there,
        hidden,
      )
