-- ===== src/Runtime/Rpc/Served.antt =====
-- What a call of the web worker over the socket can come to: `rpc` of src/web.rs on top of
-- `handle_rpc_stream` of src/rpc.rs.
use allgres_agent.Base.{
  ℕ, ◌≡◌, refl, ◌⊎◌, inl, inr, Bool, true, false, Option, none, some, ◌∷◌, ◌++◌, take,
  if◌then◌else◌, Bool-cases,
}
use allgres_agent.Text.{Bytes, codes}
use allgres_agent.Json.{Json, unwrap_or}
use allgres_agent.Utf8.{is_utf8}
use allgres_agent.Exec.Sandbox.{claimed}
use allgres_agent.Runtime.Rpc.{Stream, handle_rpc_stream}
use allgres_agent.Spi.{
  Answer, value, nothing, truth, failed, answered, raises, dashboard, Server, Log, Outcome, done,
  raised, begins, drop_privileges, ask, Reply, receive, asked, bind_outcome, ret, Stmt,
  drop_disabled, assume_worker_role, reports_ready,
}
use allgres_agent.Web.Api.{
  Exchange, not_connected, write_failed, received, read_failed, rpc, failure,
}

-- How the reply comes back: whole, not before the web worker gives up reading, or only so many bytes
-- of it, where the runtime's write fails.
pub data Return : Type 0 where
  whole lost : Return
  cut : ℕ → Return

-- What the socket does with a call: there is no connection, the request cannot be written within the
-- web worker's timeout, or they are connected. Then the runtime reads the request to its end, or its
-- read fails behind so many bytes, as over its timeout; and the reply comes back somehow.
pub data Link : Type 0 where
  no_connection : Bytes → Link
  no_write : Link
  connected : Option ℕ → Return → Link

-- The stream from which the runtime reads the request.
abbrev pub arriving : Option ℕ → Bytes → Stream
arriving none request = record { delivers = request; fails = false }
arriving (some n) request = record { delivers = take n request; fails = true }

-- `read_to_string`.
abbrev pub as_text : Bytes → Exchange
as_text s = if is_utf8 s then received s else read_failed

abbrev pub bring_back : Return → Bytes → Exchange
bring_back whole reply = as_text reply
bring_back lost reply = read_failed
bring_back (cut n) reply = as_text (take n reply)

-- The first argument is what the web worker meets where the runtime goes down over the request.
abbrev pub reply_of : Exchange → Return → Outcome Bytes → Exchange
reply_of down returns (done r) = bring_back returns r
reply_of down returns (raised e) = down

-- The web worker connects, writes a request, shuts its side down and reads the runtime's reply.
unfoldable pub through_runtime :
    (json : Json)
    → Option Bytes
    → Server json.Value
    → Bool
    → Log json.Value
    → Link
    → Exchange
    → Bytes
    → Exchange
unfolding handle_rpc_stream
through_runtime json env server ready t (no_connection e) down request = not_connected e
through_runtime json env server ready t no_write down request = write_failed
through_runtime json env server ready t (connected arrives returns) down request =
    reply_of down returns (handle_rpc_stream json env server ready (arriving arrives request) t).0

module _ (json : Json) where
  open json use {Value, parse, print}

  -- What the web worker makes of a text.
  abbrev pub as_read : Bytes → Value
  as_read s = unwrap_or (parse s) (failure json (codes "invalid_rpc_response"))

  -- What it makes of a value that the runtime printed, by how the reply comes back.
  abbrev pub returned : Return → Value → Value
  returned whole w = as_read (print w)
  returned lost w = failure json (codes "rpc_read_failed")
  returned (cut n) w =
      if is_utf8 (take n (print w))
      then as_read (take n (print w))
      else failure json (codes "rpc_read_failed")

  -- The server was asked last, in a transaction of its own, for the worker's role, and granted it; or
  -- the drop of privileges is disabled.
  abbrev pub HasDropped : Option Bytes → Log Value → Type 0
  HasDropped env log =
      (drop_disabled env ≡ true)
      ⊎ ((rest : Log Value) × (log
            ≡ asked assume_worker_role (answered (truth true)) ∷ begins ∷ rest))

  -- What became of a call that reached the runtime: the database answered it with a value, or without
  -- one; the runtime could not drop its privileges, or the extension is not installed; the runtime's
  -- read of the request failed; or the runtime went down over an ERROR of the server.
  pub data Served (env : Option Bytes) (server : Server Value) (ready : Bool) (arrives : Option ℕ)
      (returns : Return) (down : Exchange) (v : Value) (result : Value) : Type 0 where
    by_database :
        (log : Log Value) (answer : Value)
        → ready ≡ true
        → HasDropped env log
        → server log (dashboard (print v)) ≡ answered (value answer)
        → result ≡ returned returns answer
        → Served env server ready arrives returns down v result
    without_value :
        (log : Log Value) (a : Answer Value)
        → ready ≡ true
        → server log (dashboard (print v)) ≡ answered a
        → claimed a ≡ none
        → result ≡ returned returns (failure json (codes "empty_rpc_result"))
        → Served env server ready arrives returns down v result
    not_dropped :
        (log : Log Value) (a : Answer Value)
        → ready ≡ true
        → server log assume_worker_role ≡ answered a
        → reports_ready a ≡ false
        → result ≡ returned returns (failure json (codes "privilege_drop_failed"))
        → Served env server ready arrives returns down v result
    not_installed :
        ready ≡ false
        → result ≡ returned returns (failure json (codes "extension_not_installed"))
        → Served env server ready arrives returns down v result
    not_read :
        (n : ℕ)
        → arrives ≡ some n
        → result ≡ returned returns (failure json (codes "rpc_read_failed"))
        → Served env server ready arrives returns down v result
    went_down :
        (log : Log Value) (stmt : Stmt Value) (e : Bytes)
        → server log stmt ≡ raises e
        → result ≡ rpc json (λ request. down) v
        → Served env server ready arrives returns down v result

  -- What became of a call, by what the socket did.
  abbrev pub Reached : Option Bytes → Server Value → Bool → Link → Exchange → Value → Value → Type 0
  Reached env server ready (no_connection e) down v result =
      result ≡ failure json (codes "runtime unavailable: " ++ e)
  Reached env server ready no_write down v result = result ≡ failure json (codes "rpc_write_failed")
  Reached env server ready (connected arrives returns) down v result =
      Served env server ready arrives returns down v result

  -- What is known behind the drop of privileges, by its outcome.
  abbrev pub Drops : Option Bytes → Server Value → Outcome Bool × Log Value → Type 0
  Drops env server (done true, log) = HasDropped env log
  Drops env server (done false, log) =
      (t : Log Value) × (a : Answer Value) × (server t assume_worker_role ≡ answered a)
      × (reports_ready a ≡ false)
  Drops env server (raised e, log) =
      (t : Log Value) × (stmt : Stmt Value) × (m : Bytes) × (server t stmt ≡ raises m)

  asked-Drops :
      (env : Option Bytes) (server : Server Value) (t : Log Value) (r : Reply Value)
      → server (begins ∷ t) assume_worker_role ≡ r
      → Drops env server (
          bind_outcome
            (receive r)
            (asked assume_worker_role r ∷ begins ∷ t)
            (λ a. ret (reports_ready a)))
  unfolding receive reports_ready
  asked-Drops env server t (answered (truth true)) h = inr (t, refl)
  asked-Drops env server t (answered (truth false)) h = (begins ∷ t, truth false, h, refl)
  asked-Drops env server t (answered (value w)) h = (begins ∷ t, value w, h, refl)
  asked-Drops env server t (answered nothing) h = (begins ∷ t, nothing, h, refl)
  asked-Drops env server t (answered (failed e)) h = (begins ∷ t, failed e, h, refl)
  asked-Drops env server t (raises m) h = (begins ∷ t, assume_worker_role, m, h)

  pub drop_privileges-Drops :
      (env : Option Bytes) (server : Server Value) (t : Log Value)
      → Drops env server (drop_privileges env server (begins ∷ t))
  unfolding drop_privileges ask
  drop_privileges-Drops env server t = elim (Bool-cases (drop_disabled env)) [
    | inl off ↦ rw (drop_privileges, off) (inl off)
    | inr on ↦
        rw (drop_privileges, on)
          (asked-Drops env server t (server (begins ∷ t) assume_worker_role) refl)
  ]

  -- `to_string` makes text.
  abbrev pub PrintsText : Type 0
  PrintsText = (v : Value) → is_utf8 (print v) ≡ true
