-- ===== src/Runtime/Capacity.antt =====
-- How many calls are in flight behind a turn.
use allgres_agent.Base.{
  ◌<◌, ℕ, suc, ◌+◌, ◌-◌, ◌≤◌, ◌≡◌, refl, Bool, ◌&&◌, Option, none, some, List, [], ◌∷◌, arith, ltb,
  if◌then◌else◌, length, length-append,
}
use allgres_agent.Text.{Bytes, codes}
use allgres_agent.Json.{Json, and_then, get_array}
use allgres_agent.Exec.Sandbox.{claimed, claim_jobs}
use allgres_agent.Runtime.Jobs.{
  OutboundQueue, outbound, oauth, agent_embedding, provider_probe, Job, job_of, jobs_of,
  claimed_jobs, table,
}
use allgres_agent.Runtime.Claim.{
  Sent, capacity, dispatch_and_claim, claim_from, add_jobs, claim_block, claim_all,
}
use allgres_agent.Spi.Ends.{
  Ends, Ends-ret, Ends-bind, Ends-if, Ends-then, Ends-ask, Ends-transaction,
}
use allgres_agent.Spi.{
  Queue, claim, watchdog, dispatch_tasks, drop_privileges, Answer, truth, value, nothing, failed,
  answered, Log, Server, M, ◌>>=◌, ret, ask,
}

module _ (json : Json) (env : Option Bytes) (server : Server json.Value) where
  open json use {Value}

  -- No more entries than a claim asks for, if it asks for any.
  abbrev pub KeepsLimit : Type 0
  KeepsLimit =
      (t : Log Value) (queue : Queue) (limit : ℕ) (v : Value) (calls : List Value)
      → 0 < limit
      → server t (claim queue limit) ≡ answered (value v)
      → get_array json v (codes "calls") ≡ some calls
      → length calls ≤ limit

  -- A claim's entries, if there are any, are within the limit.
  abbrev Within : ℕ → Option Value → Type 0
  Within limit o =
      (calls : List Value)
      → and_then o (λ v. get_array json v (codes "calls")) ≡ some calls
      → length calls ≤ limit

  Within-claimed :
      KeepsLimit
      → (t : Log Value) (queue : Queue) (limit : ℕ) (a : Answer Value) → 0 < limit
      → server t (claim queue limit) ≡ answered a
      → Within limit (claimed a)
  unfolding claimed
  Within-claimed h t queue limit (value v) k e calls e' = h t queue limit v calls k e e'
  Within-claimed h t queue limit (truth b) k e calls e' = cc
  Within-claimed h t queue limit nothing k e calls e' = cc
  Within-claimed h t queue limit (failed m) k e calls e' = cc

  Within-none : (limit : ℕ) → Within limit none
  Within-none limit calls e = cc

  ask_claim-Ends :
      KeepsLimit
      → (queue : Queue) (limit : ℕ) → 0 < limit
      → Ends (ask server (claim queue limit) >>= λ a. ret (claimed a)) (Within limit)
  ask_claim-Ends h queue limit k =
      Ends-bind (λ a. Within limit (claimed a)) _ _ _
        (Ends-ask _ server _ (λ t a e. Within-claimed h t queue limit a k e))
        (λ a p. Ends-ret Value _ _ p)

  if_dropped-Ends :
      {A : Type 0} (Q : A → Type 0) (m n : M Value A)
      → Ends m Q
      → Ends n Q
      → Ends (drop_privileges env server >>= λ dropped. if dropped then m else n) Q
  if_dropped-Ends Q m n h k =
      Ends-then Q (drop_privileges env server) _
        (λ dropped. Ends-if Q dropped m n (λ e. h) (λ e. k))

  claim_jobs-Ends :
      KeepsLimit
      → (queue : Queue) (limit : ℕ) → 0 < limit
      → Ends (claim_jobs json env server queue limit) (Within limit)
  unfolding claim_jobs
  claim_jobs-Ends h queue limit k = Ends-transaction _ _ (
      if_dropped-Ends _ _ _ (ask_claim-Ends h queue limit k)
        (Ends-ret Value _ none (Within-none limit)))

  claim_from-Ends :
      KeepsLimit
      → (queue : OutboundQueue) (limit : ℕ) → 0 < limit
      → Ends (claim_from json env server queue limit) (Within limit)
  unfolding claim_from dispatch_and_claim
  claim_from-Ends h outbound limit k = Ends-transaction _ _ (
      if_dropped-Ends _ _ _
        (Ends-then _ (ask server (watchdog _)) _ (λ a.
          Ends-then _ (ask server dispatch_tasks) _ (λ b. ask_claim-Ends h Queue.outbound limit k)))
        (Ends-ret Value _ none (Within-none limit)))
  claim_from-Ends h oauth limit k = claim_jobs-Ends h (table oauth) limit k
  claim_from-Ends h agent_embedding limit k = claim_jobs-Ends h (table agent_embedding) limit k
  claim_from-Ends h provider_probe limit k = claim_jobs-Ends h (table provider_probe) limit k

  -- At most one job for each entry.
  jobs_of-le-length :
      (is_open : Bool) (queue : OutboundQueue) (calls : List Value)
      → length (jobs_of json is_open queue calls) ≤ length calls
  unfolding jobs_of
  jobs_of-le-length is_open queue [] = omega arith
  jobs_of-le-length is_open queue (call ∷ calls) =
      let ih = jobs_of-le-length is_open queue calls in go (job_of json queue call) ih
    where
      go :
          (o : Option (Job Value))
          → length (jobs_of json is_open queue calls) ≤ length calls
          → length (elim o as (λ _. List (Job Value)) [
            | none ↦ jobs_of json is_open queue calls
            | some job ↦ if is_open then job ∷ jobs_of json is_open queue calls else []
          ])
            ≤ suc (length calls)
      go none h = omega arith
      go (some job) h = ground arith

  claimed_jobs-Within :
      (is_open : Bool) (queue : OutboundQueue) (limit : ℕ) (o : Option Value)
      → Within limit o
      → length (claimed_jobs json is_open queue o) ≤ limit
  unfolding claimed_jobs
  claimed_jobs-Within is_open queue limit o h =
      go (and_then o (λ v. get_array json v (codes "calls"))) h
    where
      go :
          (c : Option (List Value))
          → ((calls : List Value) → c ≡ some calls → length calls ≤ limit)
          → length (elim c as (λ _. List (Job Value)) [
            | none ↦ []
            | some calls ↦ jobs_of json is_open queue calls
          ])
            ≤ limit
      go none h = omega arith
      go (some calls) h =
          let le = jobs_of-le-length is_open queue calls in let bound = h calls refl in omega arith

  -- The calls in flight are those before the claims and the jobs sent since.
  abbrev pub Counts : ℕ → Sent Value → Type 0
  Counts before s = s.in_flight ≡ before + length s.jobs

  claim_block-Counts :
      (before : ℕ) (is_open ready : Bool) (queue : OutboundQueue) (s : Sent Value)
      → Counts before s
      → Ends (claim_block json env server is_open ready queue s) (Counts before)
  unfolding claim_block add_jobs
  claim_block-Counts before is_open ready queue s h =
      Ends-if _ (ready && ltb s.in_flight capacity) _ _
        (λ e. Ends-then _ (claim_from json env server queue _) _ (λ v.
          Ends-ret Value _ _
            (omega (arith, h, length-append s.jobs (claimed_jobs json is_open queue v)))))
        (λ e. Ends-ret Value _ s h)

  claim_block-Fits :
      KeepsLimit
      → (is_open ready : Bool) (queue : OutboundQueue) (s : Sent Value) → s.in_flight ≤ capacity
      → Ends (claim_block json env server is_open ready queue s) (λ s'. s'.in_flight ≤ capacity)
  unfolding claim_block add_jobs
  claim_block-Fits k is_open ready queue s h =
      Ends-if _ (ready && ltb s.in_flight capacity) _ _
        (λ e.
          Ends-bind _ _ _ _ (claim_from-Ends k queue (capacity - s.in_flight) (ground (arith, e)))
            (λ v w. Ends-ret Value _ _ (
              let le = claimed_jobs-Within is_open queue (capacity - s.in_flight) v w in
              omega arith)))
        (λ e. Ends-ret Value _ s h)

  -- What each block keeps, the four of them keep.
  claim_all-Ends :
      (P : Sent Value → Type 0) (is_open ready : Bool) (in_flight : ℕ)
      → ((queue : OutboundQueue) (s : Sent Value)
          → P s
          → Ends (claim_block json env server is_open ready queue s) P)
      → P (record { in_flight = in_flight; jobs = [] })
      → Ends (claim_all json env server is_open ready in_flight) P
  unfolding claim_all
  claim_all-Ends P is_open ready in_flight h p = Ends-bind P P _ _ (h outbound _ p) (λ a pa.
      Ends-bind P P _ _ (h oauth a pa)
        (λ b pb. Ends-bind P P _ _ (h agent_embedding b pb) (λ c pc. h provider_probe c pc)))

  pub claim_all-Counts :
      (is_open ready : Bool) (in_flight : ℕ)
      → Ends (claim_all json env server is_open ready in_flight) (Counts in_flight)
  claim_all-Counts is_open ready in_flight =
      claim_all-Ends (Counts in_flight) is_open ready in_flight
        (λ queue s h. claim_block-Counts in_flight is_open ready queue s h) (omega arith)

  pub claim_all-Fits :
      KeepsLimit
      → (is_open ready : Bool) (in_flight : ℕ) → in_flight ≤ capacity
      → Ends (claim_all json env server is_open ready in_flight) (λ s. s.in_flight ≤ capacity)
  claim_all-Fits k is_open ready in_flight h =
      claim_all-Ends _ is_open ready in_flight
        (λ queue s h. claim_block-Fits k is_open ready queue s h) h
