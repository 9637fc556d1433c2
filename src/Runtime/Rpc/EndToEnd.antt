-- ===== src/Runtime/Rpc/EndToEnd.antt =====
-- A connection of the web worker, through the runtime, up to the database and back:
-- `handle_web_connection` of src/web.rs on top of `handle_rpc_stream` of src/rpc.rs.
use allgres_agent.Base.{◌≡◌, Bool, Option}
use allgres_agent.Text.{Bytes}
use allgres_agent.Json.{Json}
use allgres_agent.Spi.{Server, Log}
use allgres_agent.Web.Api.{Exchange}
use allgres_agent.Web.Connection.{Handled, respond_value}
use allgres_agent.Web.Connection.Forwards.{Forwards}
use allgres_agent.Runtime.Rpc.Served.{Link, Reached, through_runtime}

module _ (json : Json) (env : Option Bytes) (server : Server json.Value) (ready : Bool)
    (t : Log json.Value) (link : Link) (down : Exchange) where
  open json use {Value, parse, print}

  abbrev socket : Bytes → Exchange
  socket = through_runtime json env server ready t link down

  -- The reply is made of what the runtime came back with.
  abbrev pub IsServed : {K : Type 0} → Value → Handled K Value → Type 0
  IsServed v h =
      (result : Value) × Reached json env server ready link down v result
      × (h.reply ≡ respond_value json result)
