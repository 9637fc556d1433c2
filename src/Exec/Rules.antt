-- ===== src/Exec/Rules.antt =====
-- How the parts of the worker programs keep to the policy: dropping privileges, setting up a session,
-- running a guarded statement, claiming and completing.
use allgres_agent.Base.{
  ℕ, ◌+◌, ◌≡◌, refl, inl, inr, Bool, true, false, Option, none, some, List, [], ◌∷◌, arith,
  if◌then◌else◌, All,
}
use allgres_agent.Text.{Bytes}
use allgres_agent.Json.{Json, and_then, get_array}
use allgres_agent.Exec.Policy.{Dropped, Allowed}
use allgres_agent.Exec.Sandbox.{
  read_value, claim_jobs, claimed, run_guarded, configure, complete, for_each, pump,
}
use allgres_agent.Spi.Session.{worker, Settings, Session, effect, assumed, succeeded, after}
use allgres_agent.Spi.Triple.{
  Triple, Safe, bind_rule, ret_rule, if_rule, pre_rule, ask_rule, emit_rule, transaction-Safe,
}
use allgres_agent.Spi.{
  Queue, Stmt, assume_worker_role, set_role, set_search_path, set_read_only, set_timeout,
  set_agent_id, begin_local_execution, claim, Answer, truth, value, nothing, failed, arms, disarms,
  fixes_role, restores_role, Server, M, ◌>>=◌, ret, ask, is_ok, Res, with_fixed_role, all_ok,
  drop_disabled, reports_ready, drop_privileges,
}

abbrev pub IsSetup : {V : Type 0} → Stmt V → Type 0
IsSetup (set_role r) = Unit
IsSetup set_search_path = Unit
IsSetup set_read_only = Unit
IsSetup (set_timeout n) = Unit
IsSetup (set_agent_id id) = Unit
IsSetup (begin_local_execution table id) = Unit
IsSetup _ = ⊥

abbrev pub effects : {V : Type 0} → List (Stmt V) → Settings → Settings
effects [] s = s
effects (st ∷ sts) s = effects sts (effect st s)

pub succeeded-effect :
    {V : Type 0} (st : Stmt V) (a : Answer V) (s : Settings)
    → IsSetup st
    → is_ok a ≡ true
    → succeeded st a s ≡ effect st s
unfolding is_ok
succeeded-effect (set_role r) a s h k = ground arith
succeeded-effect set_search_path a s h k = ground arith
succeeded-effect set_read_only a s h k = ground arith
succeeded-effect (set_timeout n) a s h k = ground arith
succeeded-effect (set_agent_id id) a s h k = ground arith
succeeded-effect (begin_local_execution table id) a s h k = ground arith
succeeded-effect _ a s h k = absurd h

module _ (json : Json) (env : Option Bytes) (server : Server json.Value) where
  open json use {Value}

  abbrev Keeps : {A : Type 0} → (Session → Type 0) → M Value A → (A → Session → Type 0) → Type 0
  Keeps = Triple {V = Value} (Allowed env)

  setup-Allowed : (st : Stmt Value) (σ : Session) → IsSetup st → Allowed env σ st
  setup-Allowed (set_role r) σ h = tt
  setup-Allowed set_search_path σ h = tt
  setup-Allowed set_read_only σ h = tt
  setup-Allowed (set_timeout n) σ h = tt
  setup-Allowed (set_agent_id id) σ h = tt
  setup-Allowed (begin_local_execution table id) σ h = tt
  setup-Allowed _ σ h = absurd h

  assumed-role :
      (a : Answer Value) (s : Settings) → reports_ready a ≡ true → (assumed a s).role ≡ worker
  unfolding reports_ready
  assumed-role (truth true) s h = refl
  assumed-role (truth false) s h = ground arith
  assumed-role (value v) s h = ground arith
  assumed-role nothing s h = ground arith
  assumed-role (failed e) s h = ground arith

  pub drop_rule :
      Keeps (λ σ. Unit {0}) (drop_privileges env server) (λ d σ. d ≡ true → Dropped env σ)
  unfolding drop_privileges
  drop_rule =
      if_rule (Allowed env) _ _ (drop_disabled env) _ _
        (λ e. ret_rule (Allowed env) _ _ true (λ σ u d. inl e))
        (λ e.
          bind_rule (Allowed env) _ (λ a σ. reports_ready a ≡ true → Dropped env σ) _ _ _
            (ask_rule (Allowed env) _ _ server assume_worker_role (λ σ p. tt)
              (λ σ a p h. inr (assumed-role a σ.settings h)))
            (λ a. ret_rule (Allowed env) _ _ (reports_ready a) (λ σ h. h)))

  -- A program that sends one statement once the privileges are dropped.
  pub if_dropped_rule :
      {A : Type 0} (Q : A → Session → Type 0) (m n : M Value A)
      → Keeps (Dropped env) m Q
      → Keeps (λ σ. Unit {0}) n Q
      → Keeps (λ σ. Unit {0}) (drop_privileges env server >>= λ d. if d then m else n) Q
  if_dropped_rule Q m n h k =
      bind_rule (Allowed env) _ (λ d σ. d ≡ true → Dropped env σ) _ _ _ drop_rule
        (λ d.
          if_rule (Allowed env) _ _ d m n (λ e. pre_rule (Allowed env) _ _ _ m (λ σ p. p e) h)
            (λ e. pre_rule (Allowed env) _ _ _ n (λ σ p. tt) k))

  pub all_ok_rule :
      (K : Settings → Type 0) (ss : List (Stmt Value))
      → All IsSetup ss
      → Keeps (λ σ. K (effects ss σ.settings)) (all_ok server ss) (λ b σ. b ≡ true → K σ.settings)
  unfolding all_ok
  all_ok_rule K [] h = ret_rule (Allowed env) _ _ true (λ σ k e. k)
  all_ok_rule K (st ∷ ss) h =
      bind_rule (Allowed env) _ (λ a σ. is_ok a ≡ true → K (effects ss σ.settings)) _ _ _
        (ask_rule (Allowed env) _ _ server st (λ σ p. setup-Allowed st σ h.0)
          (λ σ a p e. rw (succeeded-effect st a σ.settings h.0 e) p))
        (λ a. go (is_ok a) (all_ok_rule K ss h.1))
    where
      go :
          (b : Bool)
          → Keeps
              (λ σ. K (effects ss σ.settings))
              (all_ok server ss)
              (λ b σ. b ≡ true → K σ.settings)
          → Keeps
              (λ σ. b ≡ true → K (effects ss σ.settings))
              (elim b [ true ↦ all_ok server ss | false ↦ ret false ])
              (λ b σ. b ≡ true → K σ.settings)
      go true k = pre_rule (Allowed env) _ _ _ _ (λ σ p. p refl) k
      go false k = ret_rule (Allowed env) _ _ false (λ σ p e. ground arith)

  pub configure_rule :
      (K : Settings → Type 0) (ss : List (Stmt Value))
      → All IsSetup ss
      → ((s : Settings) → K (effects ss s))
      → Keeps (λ σ. Unit {0}) (configure json env server ss) (λ b σ. b ≡ true → K σ.settings)
  unfolding configure
  configure_rule K ss h k =
      if_dropped_rule _ _ _
        (pre_rule (Allowed env) _ _ _ _ (λ σ p. k σ.settings) (all_ok_rule K ss h))
        (ret_rule (Allowed env) _ _ false (λ σ p e. ground arith))

  pub run_guarded_rule :
      (P : Session → Type 0) (n : ℕ) (on_nothing : Res Value) (s : Stmt Value)
      → ((σ : Session)
          → P σ
          → Allowed env (after {V = Value} fixes_role (after {V = Value} (arms n) σ)) s)
      → Keeps P (run_guarded json env server n on_nothing s) (λ r σ. Unit {0})
  unfolding run_guarded with_fixed_role read_value
  run_guarded_rule P n on_nothing s h =
      bind_rule (Allowed env) P (λ u σ. Allowed env (after {V = Value} fixes_role σ) s) _ _ _
        (emit_rule (Allowed env) P _ (arms n) tt h)
        (λ u.
          bind_rule (Allowed env) _ (λ r σ. Unit {0}) _ _ _
            (bind_rule (Allowed env) _ (λ u σ. Allowed env σ s) _ _ _
              (emit_rule (Allowed env) _ _ fixes_role tt (λ σ p. p))
              (λ u.
                bind_rule (Allowed env) _ (λ r σ. Unit {0}) _ _ _
                  (bind_rule (Allowed env) _ (λ a σ. Unit {0}) _ _ _
                    (ask_rule (Allowed env) _ _ server s (λ σ p. p) (λ σ a p. tt))
                    (λ a. ret_rule (Allowed env) _ _ (read_value on_nothing a) (λ σ p. tt)))
                  (λ r.
                    bind_rule (Allowed env) _ (λ u σ. Unit {0}) _ _ _
                      (emit_rule (Allowed env) _ _ restores_role tt (λ σ p. tt))
                      (λ u. ret_rule (Allowed env) _ _ r (λ σ p. tt)))))
            (λ r.
              bind_rule (Allowed env) _ (λ u σ. Unit {0}) _ _ _
                (emit_rule (Allowed env) _ _ disarms tt (λ σ p. tt))
                (λ u. ret_rule (Allowed env) _ _ r (λ σ p. tt))))

  -- A statement that needs the privileges dropped, and whose answer is not a session matter.
  pub ask-Dropped_rule :
      {A : Type 0} (s : Stmt Value) (f : Answer Value → A)
      → ((σ : Session) → Dropped env σ → Allowed env σ s)
      → Keeps (Dropped env) (ask server s >>= λ a. ret (f a)) (λ a σ. Unit {0})
  ask-Dropped_rule s f h =
      bind_rule (Allowed env) _ (λ a σ. Unit {0}) _ _ _
        (ask_rule (Allowed env) _ _ server s h (λ σ a p. tt))
        (λ a. ret_rule (Allowed env) _ _ _ (λ σ p. tt))

  pub claim_jobs-Safe :
      (queue : Queue) (limit : ℕ) → Safe (Allowed env) (claim_jobs json env server queue limit)
  unfolding claim_jobs
  claim_jobs-Safe queue limit = transaction-Safe (Allowed env) _ (
      if_dropped_rule _ _ _ (ask-Dropped_rule (claim queue limit) claimed (λ σ p. p))
        (ret_rule (Allowed env) _ _ none (λ σ p. tt)))

  pub complete-Safe :
      (s : Stmt Value)
      → ((σ : Session) → Dropped env σ → Allowed env σ s)
      → Safe (Allowed env) (complete json env server s)
  unfolding complete
  complete-Safe s h = transaction-Safe (Allowed env) _ (
      if_dropped_rule _ _ _ (ask-Dropped_rule s (λ a. tt) h)
        (ret_rule (Allowed env) _ _ tt (λ σ p. tt)))

  pub for_each-Safe :
      (body : Value → M Value ℕ) (vs : List Value)
      → ((v : Value) → Safe (Allowed env) (body v))
      → Safe (Allowed env) (for_each json env server body vs)
  unfolding for_each
  for_each-Safe body [] h = ret_rule (Allowed env) _ _ 0 (λ σ p. tt)
  for_each-Safe body (v ∷ vs) h =
      bind_rule (Allowed env) _ (λ n σ. Unit {0}) _ _ _ (h v)
        (λ n.
          bind_rule (Allowed env) _ (λ k σ. Unit {0}) _ _ _ (for_each-Safe body vs h)
            (λ k. ret_rule (Allowed env) _ _ (n + k) (λ σ p. tt)))

  pub pump-Safe :
      (queue : Queue) (key : Bytes) (body : Value → M Value ℕ)
      → ((v : Value) → Safe (Allowed env) (body v))
      → Safe (Allowed env) (pump json env server queue key body)
  unfolding pump
  pump-Safe queue key body h =
      bind_rule (Allowed env) _ (λ jobs σ. Unit {0}) _ _ _ (claim_jobs-Safe queue _)
        (λ jobs. go (and_then jobs (λ v. get_array json v key)))
    where
      go :
          (o : Option (List Value))
          → Safe (Allowed env) {A = ℕ} (elim o as (λ _. M Value ℕ) [
            | none ↦ ret 0
            | some vs ↦ for_each json env server body vs
          ])
      go none = ret_rule (Allowed env) _ _ 0 (λ σ p. tt)
      go (some vs) = for_each-Safe body vs h
