-- ===== src/Tests/Sockets.antt =====
-- The runtime's socket on a file system that is a function, and an event stream of three frames.
use allgres_agent.Base.{
  ℕ, ◌+◌, ◌*◌, ◌≤◌, ◌≡◌, refl, sym, ap, ◌∙◌, ◌≢◌, inl, inr, true, false, Option, none, some, List,
  [], map, arith, ltb, if◌then◌else◌, Bool-cases, length,
}
use mathlib.Core.Path.{subst}
use allgres_agent.Text.{Bytes, codes, str_eq, str_eq_iff, is_empty, starts_with}
use allgres_agent.Json.{Json}
use allgres_agent.Config.{
  Env, Node, Fs, ensure_socket_dir, join, bind_rpc_socket, socket_dir, data_directory, env_opt,
  configured_database, default_http_addr, configured_http_addr, rpc_socket_path,
}
use allgres_agent.Utf8.{is_utf8}
use allgres_agent.Runtime.Startup.{
  Connected, Startup, loops, allgres_runtime_main, allgres_runtime_main-IsPrivate,
}
use allgres_agent.Web.Exposure.{check_exposure, is_loopback_addr, host_of}
use allgres_agent.Web.Startup.{Listener, listens, settings, allgres_web_main}
use allgres_agent.Config.Private.{Laws, IsNoDir, HasPrivateDir, HasNoDirInside, IsPrivate}
use allgres_agent.Web.Events.{Client, stream_events}
use allgres_agent.Web.Events.Snapshots.{
  joined, read_events, snapshots, IsCompact, Sleeps, stream_events-snapshots,
}
use allgres_agent.Tests.Doc.{doc_json}

abbrev Files : Type 0
Files = Bytes → Option Node

abbrev put : Bytes → Option Node → Files → Files
put p n s q = if str_eq p q then n else s q

put_same : (p : Bytes) (n : Option Node) (s : Files) → put p n s p ≡ n
put_same p n s = rw ((str_eq_iff p p).1 refl) refl

put_other : (p q : Bytes) (n : Option Node) (s : Files) → p ≢ q → put p n s q ≡ s q
put_other p q n s h = elim (Bool-cases (str_eq p q)) [
  | inl e ↦ absurd (h ((str_eq_iff p q).0 e))
  | inr e ↦ rw e refl
]

abbrev change : Bytes → ℕ → Option Node → Files → Option Files
change p m none s = none
change p m (some node) s = some (put p (some (record node { mode = m })) s)

abbrev forget : Bytes → Option Node → Files → Option Files
forget p none s = none
forget p (some node) s = some (put p none s)

abbrev make : Bytes → Option Node → Files → Option Files
make p none s = some (put p (some (record { is_dir = false; mode = 0x1ed })) s)
make p (some node) s = none

abbrev files : Fs
files = record {
  State = Files;
  metadata = λ s p. s p;
  create_dir = λ p m s. some (put p (some (record { is_dir = true; mode = m })) s);
  set_permissions = λ p m s. change p m (s p) s;
  remove_file = λ p s. forget p (s p) s;
  bind = λ p s. make p (s p) s;
}

change-other :
    (p q : Bytes) (m : ℕ) (o : Option Node) (s s' : Files)
    → change p m o s ≡ some s'
    → p ≢ q
    → s' q ≡ s q
change-other p q m none s s' h k = cc
change-other p q m (some node) s s' h k =
    let same : put p (some (record node { mode = m })) s ≡ s' = cc in
    sym (ap (λ (t : Files). t q) same) ∙ put_other p q _ s k

change_same :
    (p : Bytes) (m : ℕ) (o : Option Node) (s s' : Files) (node : Node)
    → change p m o s ≡ some s'
    → o ≡ some node
    → s' p ≡ some (record node { mode = m })
change_same p m none s s' node h e = cc
change_same p m (some n) s s' node h e =
    let same : put p (some (record n { mode = m })) s ≡ s' = cc in
    let this : n ≡ node = cc in
    sym (ap (λ (t : Files). t p) same)
    ∙ put_same p _ s
    ∙ ap (λ (x : Node). some (record x { mode = m })) this

forget-other :
    (p q : Bytes) (o : Option Node) (s s' : Files) → forget p o s ≡ some s' → p ≢ q → s' q ≡ s q
forget-other p q none s s' h k = cc
forget-other p q (some node) s s' h k =
    let same : put p none s ≡ s' = cc in sym (ap (λ (t : Files). t q) same) ∙ put_other p q none s k

abbrev socket : Node
socket = record { is_dir = false; mode = 0x1ed }

bound :
    (p : Bytes) (s s' : Files) (o : Option Node) (q : Bytes)
    → make p o s ≡ some s'
    → s' q ≡ put p (some socket) s q
bound p s s' none q h =
    let same : put p (some socket) s ≡ s' = cc in sym (ap (λ (t : Files). t q) same)
bound p s s' (some node) q h = cc

-- What was bound was not there.
was_free : (p : Bytes) (s s' : Files) (o : Option Node) → make p o s ≡ some s' → o ≡ none
was_free p s s' none h = refl
was_free p s s' (some node) h = cc

-- A directory is not what is no directory, nor nothing.
apart : (o : Option Node) (d : Node) → IsNoDir o → o ≡ some d → d.is_dir ≡ true → ⊥
apart none d h e k = cc
apart (some node) d h e k = cc

files-Laws : Laws files
files-Laws = record {
  tightens = λ p s s' node h e k. change_same p 0x1c0 (s p) s s' node h e;
  changes = λ p m s s' node h e k. change_same p m (s p) s s' node h e;
  change_keeps = λ p q m s s' node d h e k f l.
      change-other p q m (s p) s s' h (λ same. apart (some node) d k (sym e ∙ ap s same ∙ f) l) ∙ f;
  removal_keeps = λ p q s s' d h k f l.
      forget-other p q (s p) s s' h (λ same. apart (s p) d k (ap s same ∙ f) l) ∙ f;
  binds = λ p s s' h. (socket, bound p s s' (s p) p h ∙ put_same p _ s, refl);
  binding_keeps = λ p q s s' d h f l.
      bound p s s' (s p) q h
      ∙ put_other p q _ s
          (λ same. apart none d tt (sym (was_free p s s' (s p) h) ∙ ap s same ∙ f) l)
      ∙ f;
}

abbrev dir : Bytes
dir = codes "/run/allgres"

-- A directory that others may read, with a socket in it, left by an earlier run.
abbrev start : Files
start =
    put dir (some (record { is_dir = true; mode = 0x1ed }))
      (put (codes "/run/allgres/runtime.sock") (some socket) (λ q. none))

abbrev tightened : Files
tightened = put dir (some (record { is_dir = true; mode = 0x1c0 })) start

abbrev no_env : Env
no_env key = none

abbrev data_dir : Option Bytes
data_dir = some (codes "/run")

abbrev connected : Startup files → Connected files
connected (loops r) = r
connected _ = record { database = []; files = start }

abbrev runtime : Connected files
runtime = connected (allgres_runtime_main files no_env data_dir [] true start)

has_looped : allgres_runtime_main files no_env data_dir [] true start ≡ loops runtime
unfolding allgres_runtime_main bind_rpc_socket socket_dir data_directory env_opt configured_database
    join codes str_eq is_empty is_utf8
has_looped = refl

abbrev listener : Listener
listener = record {
  addr = default_http_addr;
  cfg = record { token = []; mock_enabled = false };
  socket = codes "/run/allgres/runtime.sock";
}

has_listened : allgres_web_main no_env data_dir [] (λ addr. none) none ≡ listens listener
unfolding allgres_web_main settings configured_http_addr rpc_socket_path socket_dir data_directory
    env_opt join check_exposure is_loopback_addr host_of codes str_eq starts_with is_empty is_utf8
has_listened = refl

-- What is left in the directory is a socket.
has_no_dir_inside : HasNoDirInside files files-Laws (socket_dir no_env data_dir []) start
unfolding ensure_socket_dir socket_dir data_directory env_opt join codes str_eq is_empty is_utf8
has_no_dir_inside u h =
    let same : tightened ≡ u = cc in
    subst (λ (t : Files). IsNoDir (t (codes "/run/allgres/runtime.sock"))) same refl

allgres_runtime_main-IsPrivate_example :
    HasPrivateDir files files-Laws (socket_dir no_env data_dir []) runtime.files
    × (node : Node) × (runtime.files listener.socket ≡ some node)
    × IsPrivate node
allgres_runtime_main-IsPrivate_example =
    allgres_runtime_main-IsPrivate files files-Laws no_env data_dir [] true start runtime
      (λ addr. none) none listener has_no_dir_inside has_looped has_listened

-- A library that prints each value as an empty object.
abbrev compact : Json
compact = record doc_json { print = λ v. codes "{}" }

compact-IsCompact : IsCompact compact (λ turn v. v)
unfolding codes
compact-IsCompact v = (refl, (refl, tt))

-- A connection that breaks at the fourth frame.
abbrev client : Client
client = record {
  head_written = true;
  start = 5;
  clock = λ turn. 6 + 1001 * turn;
  written = λ turn. ltb turn 3;
}

client-Sleeps : Sleeps compact (λ turn v. v) client
client-Sleeps turn = omega arith

stream_events-snapshots_example :
    (n : ℕ) × (fs : List Bytes) × (stream_events compact (λ turn v. v) client [] ≡ some fs)
    × (n ≤ 30)
    × (length fs ≡ n)
    × (read_events (joined fs) ≡ map (λ v. codes "{}") (snapshots compact (λ turn v. v) [] 0 n))
stream_events-snapshots_example =
    stream_events-snapshots compact (λ turn v. v) client [] compact-IsCompact client-Sleeps
      (omega arith)
