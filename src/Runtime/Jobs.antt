-- ===== src/Runtime/Jobs.antt =====
-- src/outbound.rs, `OutboundQueue`, `OutboundJob` and `OutboundResult`, and how the loop of
-- src/runtime_worker.rs makes jobs of claimed entries.
use allgres_agent.Base.{Bool, not, Option, none, some, List, [], ◌∷◌, if◌then◌else◌}
use allgres_agent.Text.{Bytes, codes}
use allgres_agent.Base.Int.{ℤ}
use allgres_agent.Json.{Json, and_then, unwrap_or, get_str, get_array}
use allgres_agent.Ids.{valid_uuid}
use allgres_agent.Spi.{Queue}

pub data OutboundQueue : Type 0 where
  outbound oauth agent_embedding provider_probe : OutboundQueue

-- The queue's table, by the statements that claim from it and complete in it.
unfoldable pub table : OutboundQueue → Queue
table outbound = Queue.outbound
table oauth = Queue.oauth
table agent_embedding = Queue.agent_embedding
table provider_probe = Queue.provider_probe

pub record Job (V : Type 0) : Type 0 where
  pub call_id : Bytes
  pub queue : OutboundQueue
  pub call : V

pub record Result : Type 0 where
  pub call_id : Bytes
  pub queue : OutboundQueue
  pub status : ℤ
  pub body : Bytes

-- The kind that the loop writes into the entries of a queue.
unfoldable pub forced_kind : OutboundQueue → Option Bytes
forced_kind outbound = none
forced_kind oauth = some (codes "oauth")
forced_kind agent_embedding = some (codes "embedding")
forced_kind provider_probe = some (codes "function")

module _ (json : Json) where
  open json use {Value, as_object, set, str}

  -- `if let Some(obj) = call.as_object_mut() { obj.insert("kind", …); }`.
  unfoldable pub insert_kind : Value → Option Bytes → Value
  insert_kind call none = call
  insert_kind call (some kind) = elim (as_object call) [
    | none ↦ call
    | some fields ↦ unwrap_or (set call (codes "kind") (str kind)) call
  ]

  -- The job of an entry: `none` where the loop goes on to the next one.
  unfoldable pub job_of : OutboundQueue → Value → Option (Job Value)
  unfolding insert_kind forced_kind
  job_of queue call = and_then (get_str json call (codes "call_id")) λ id.
      if not (valid_uuid id)
      then none
      else some
          (record { call_id = id; queue = queue; call = insert_kind call (forced_kind queue) })

  -- The jobs that a loop over claimed entries sends; `is_open` says that the pool has a thread that
  -- can receive, without which the first send ends the loop.
  unfoldable pub jobs_of : Bool → OutboundQueue → List Value → List (Job Value)
  unfolding job_of
  jobs_of is_open queue [] = []
  jobs_of is_open queue (call ∷ calls) =
      let rest = jobs_of is_open queue calls in
      elim (job_of queue call) [ none ↦ rest | some job ↦ if is_open then job ∷ rest else [] ]

  unfoldable pub claimed_jobs : Bool → OutboundQueue → Option Value → List (Job Value)
  unfolding jobs_of
  claimed_jobs is_open queue claimed =
      elim (and_then claimed (λ v. get_array json v (codes "calls"))) [
        | none ↦ []
        | some calls ↦ jobs_of is_open queue calls
      ]
