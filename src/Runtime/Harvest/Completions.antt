-- ===== src/Runtime/Harvest/Completions.antt =====
-- Every result is submitted to its own queue.
use allgres_agent.Base.{
  ℕ, zero, suc, ◌-◌, ◌≤◌, ◌<◌, ◌≡◌, refl, ap, ◌∙◌, inl, inr, true, false, Option, List, [], ◌∷◌,
  ◌++◌, map, arith, Bool-cases, length, ◌==◌,
}
use allgres_agent.Text.{Bytes}
use allgres_agent.Json.{Json}
use allgres_agent.Base.Int.{ℤ}
use allgres_agent.Outbound.Truncate.{
  is_char_boundary, truncate_utf8, truncate_utf8-length, truncate_utf8_last,
}
use allgres_agent.Exec.Sandbox.{complete}
use allgres_agent.Runtime.Jobs.{
  OutboundQueue, outbound, oauth, agent_embedding, provider_probe, table, Result,
}
use allgres_agent.Runtime.Harvest.{without_nul, completion, submit_result, harvest}
use allgres_agent.Spi.{
  Stmt, Queue, assume_worker_role, complete_http, Answer, truth, answered, begins, commits, asked,
  Log, Server, done, receive, ask, close_transaction, bind_outcome, transaction, drop_disabled,
  reports_ready, drop_privileges,
}

-- The completions of HTTP calls that were sent, the newest first.
abbrev pub completions_sent : {V : Type 0} → Log V → List (Stmt V)
completions_sent [] = []
completions_sent (asked (complete_http queue id status body) r ∷ t) =
    complete_http queue id status body ∷ completions_sent t
completions_sent (e ∷ t) = completions_sent t

abbrev pub onto : {A : Type 0} → List A → List A → List A
onto [] ys = ys
onto (x ∷ xs) ys = onto xs (x ∷ ys)

-- The server lets the worker drop its privileges and raises no error from a completion.
pub record Grants {V : Type 0} (server : Server V) : Type 0 where
  pub drops : (t : Log V) → server t assume_worker_role ≡ answered (truth true)
  pub completes :
      (t : Log V) (queue : Queue) (id : Bytes) (status : ℤ) (body : Bytes)
      → (a : Answer V) × (server t (complete_http queue id status body) ≡ answered a)

-- The queue in whose table the calls of a queue of the pool are kept.
abbrev pub own_queue : OutboundQueue → Queue
own_queue outbound = Queue.outbound
own_queue oauth = Queue.oauth
own_queue agent_embedding = Queue.agent_embedding
own_queue provider_probe = Queue.provider_probe

-- The text without its NUL characters.
abbrev pub drop_nul : Bytes → Bytes
drop_nul [] = []
drop_nul (zero ∷ s) = drop_nul s
drop_nul (suc c ∷ s) = suc c ∷ drop_nul s

-- The statement completes the call of the result: in its own queue, under its own id, with its status,
-- and with its body without NUL characters: all of it if it is at most 200000 bytes long, and
-- otherwise the longest beginning of it within that length that ends where a character ends.
pub record IsCompletionOf {V : Type 0} (r : Result) (s : Stmt V) : Type 0 where
  pub body : Bytes
  pub rest : Bytes
  pub completes : s ≡ complete_http (own_queue r.queue) r.call_id r.status body
  pub begins_body : drop_nul r.body ≡ body ++ rest
  pub within : length body ≤ 200000
  pub is_whole : length (drop_nul r.body) ≤ 200000 → body ≡ drop_nul r.body
  pub ends_character : is_char_boundary (drop_nul r.body) (length body) ≡ true
  pub is_longest :
      (k : ℕ)
      → length body < k
      → k ≤ 200000
      → k ≤ length (drop_nul r.body)
      → is_char_boundary (drop_nul r.body) k ≡ false

-- The statements complete the calls of the results, one each and in their order.
pub data AreCompletionsOf {V : Type 0} : List Result → List (Stmt V) → Type 0 where
  nil : AreCompletionsOf [] []
  next :
      {r : Result} {s : Stmt V} {rs : List Result} {ss : List (Stmt V)}
      → IsCompletionOf r s
      → AreCompletionsOf rs ss
      → AreCompletionsOf (r ∷ rs) (s ∷ ss)

without_nul-drop_nul : (s : Bytes) → without_nul s ≡ drop_nul s
without_nul-drop_nul [] = refl
without_nul-drop_nul (zero ∷ s) = without_nul-drop_nul s
without_nul-drop_nul (suc c ∷ s) =
    let e : (suc c == 0) ≡ false = ground arith in
    rw e (ap (λ t. suc c ∷ t) (without_nul-drop_nul s))

truncate_utf8-short : (s : Bytes) (max : ℕ) → length s ≤ max → truncate_utf8 s max ≡ s
unfolding truncate_utf8
truncate_utf8-short s max h = ground arith

own_queue-table : (q : OutboundQueue) → table q ≡ own_queue q
unfolding table
own_queue-table outbound = refl
own_queue-table oauth = refl
own_queue-table agent_embedding = refl
own_queue-table provider_probe = refl

completion_parts :
    {V : Type 0} (r : Result) (max : ℕ)
    → ◌≡◌ {A = Stmt V}
        (complete_http (table r.queue) r.call_id r.status (truncate_utf8 (without_nul r.body) max))
        (complete_http (own_queue r.queue) r.call_id r.status (truncate_utf8 (drop_nul r.body) max))
completion_parts r max =
    ap (λ q. complete_http q r.call_id r.status (truncate_utf8 (without_nul r.body) max))
      (own_queue-table r.queue)
    ∙ ap (λ t. complete_http (own_queue r.queue) r.call_id r.status (truncate_utf8 t max))
        (without_nul-drop_nul r.body)

completion-IsCompletionOf : {V : Type 0} (r : Result) → IsCompletionOf {V = V} r (completion r)
completion-IsCompletionOf {V} r =
    let text = drop_nul r.body in
    let (within, (rest, parts), ends) = truncate_utf8-length text 200000 in
    record {
      body = truncate_utf8 text 200000;
      rest = rest;
      completes = unfold completion in completion_parts r 200000;
      begins_body = parts;
      within = within;
      is_whole = truncate_utf8-short text 200000;
      ends_character = ends;
      is_longest = truncate_utf8_last text 200000;
    }

completions-AreCompletionsOf :
    {V : Type 0} (rs : List Result) → AreCompletionsOf {V = V} rs (map completion rs)
completions-AreCompletionsOf [] = nil
completions-AreCompletionsOf (r ∷ rs) =
    next (completion-IsCompletionOf r) (completions-AreCompletionsOf rs)

module _ (json : Json) (env : Option Bytes) (server : Server json.Value) where
  open json use {Value}

  -- Sending a completion returns, and what stands before it in the log sends no other.
  record Completed (s : Stmt Value) (t : Log Value) : Type 0 where
    reply : Answer Value
    before : Log Value
    returns : complete json env server s t ≡ (done tt, commits ∷ asked s (answered reply) ∷ before)
    sends_nothing : completions_sent before ≡ completions_sent t

  complete-Completed :
      ((t : Log Value) → server t assume_worker_role ≡ answered (truth true))
      → (s : Stmt Value) → ((t : Log Value) → (a : Answer Value) × (server t s ≡ answered a))
      → (t : Log Value) → Completed s t
  unfolding complete transaction drop_privileges ask receive close_transaction reports_ready
  complete-Completed drops s completes t = elim (Bool-cases (drop_disabled env)) [
    | inl e ↦
        let (a, answers) = completes (begins ∷ t) in
        record {
          reply = a;
          before = begins ∷ t;
          returns = rw (e, answers) refl;
          sends_nothing = refl;
        }
    | inr e ↦
        let before = asked assume_worker_role (answered (truth true)) ∷ begins ∷ t in
        let (a, answers) = completes before in
        record {
          reply = a;
          before = before;
          returns = rw (e, drops (begins ∷ t), answers) refl;
          sends_nothing = refl;
        }
  ]

  answers :
      Grants server
      → (r : Result) (t : Log Value) → (a : Answer Value) × (server t (completion r) ≡ answered a)
  unfolding completion
  answers g r t = g.completes t (table r.queue) r.call_id r.status _

  submit_result-Completed :
      Grants server → (r : Result) (t : Log Value) → Completed (completion r) t
  submit_result-Completed g r t = complete-Completed g.drops (completion r) (answers g r) t

  less : (n k : ℕ) → n - 1 - k ≡ n - suc k
  less n k = omega arith

  harvest_sends :
      (rs : List Result) (in_flight : ℕ) (t : Log Value)
      → Grants server
      → (log : Log Value) × (harvest json env server rs in_flight t
          ≡ (done (in_flight - length rs), log))
        × (completions_sent log ≡ onto (map completion rs) (completions_sent t))
  unfolding harvest submit_result completion
  harvest_sends [] in_flight t g = (t, ap (λ n. (done n, t)) (omega arith), refl)
  harvest_sends (r ∷ rs) in_flight t g =
      let s = submit_result-Completed g r t in
      let (log, returns, sends) =
        harvest_sends rs (in_flight - 1)
          (commits ∷ asked (completion r) (answered s.reply) ∷ s.before) g in
      (
        log,
        ap (λ o. bind_outcome o.0 o.1 (λ u. harvest json env server rs (in_flight - 1))) s.returns
            ∙ returns
            ∙ ap (λ n. (done n, log)) (less in_flight (length rs)),
        sends ∙ ap (λ c. onto (map completion rs) (completion r ∷ c)) s.sends_nothing,
      )

  -- If the server lets the worker drop its privileges and raises no error from a completion, the
  -- harvest returns with the count less the results, and has sent exactly one completion for each
  -- result, in their order: to the result's own queue, under its own id, with its status and with its
  -- body less NUL characters, which is cut at the last end of a character within 200000 bytes if it
  -- is longer.
  pub harvest-completions :
      (rs : List Result) (in_flight : ℕ) (t : Log Value)
      → Grants server
      → (log : Log Value) × (harvest json env server rs in_flight t
          ≡ (done (in_flight - length rs), log))
        × (sent : List (Stmt Value)) × AreCompletionsOf rs sent
        × (completions_sent log ≡ onto sent (completions_sent t))
  harvest-completions rs in_flight t g =
      let (log, returns, sends) = harvest_sends rs in_flight t g in
      (log, returns, map completion rs, completions-AreCompletionsOf rs, sends)
