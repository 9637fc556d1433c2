-- ===== src/Exec/Safety/Builds.antt =====
-- The pumps of Function and Procedure builds keep to the policy.
use allgres_agent.Base.{◌≡◌, refl, true, false, not, Option, none, some, ◌∷◌, arith}
use allgres_agent.Text.{Bytes, codes}
use allgres_agent.Json.{Json, get_str}
use allgres_agent.Ids.{valid_uuid, valid_sql_ident}
use allgres_agent.Exec.Policy.{Allowed}
use allgres_agent.Exec.Build.{
  Kind, ident_prefix, build_queue, ddl, wrap, unit_result, and_ok, run, create_guarded,
  assume_admin, run_guarded_build, build_completion, submit_build_result, run_build, id_key,
  pump_builds,
}
use allgres_agent.Exec.Rules.{succeeded-effect, if_dropped_rule, complete-Safe, pump-Safe}
use allgres_agent.Spi.Session.{named, Settings, Session, succeeded, after}
use allgres_agent.Spi.Triple.{
  post_rule, pre_rule, Safe-AllOk, Triple, Safe, Post, AllOk, bind_rule, ret_rule, if_rule,
  ask_rule, transaction-Safe, run_in_subtransaction-Safe,
}
use allgres_agent.Spi.{
  Reply, raises, create, enters, receive, bind_outcome, close_subtransaction, Log, set_role,
  set_check_bodies, Answer, truth, value, nothing, failed, answered, asked, Server, M, ret, ask,
  is_ok, Res, ok, err, run_in_subtransaction,
}
use allgres_agent.Exec.Safety.{run_then_submit-Safe}

module _ (json : Json) (env : Option Bytes) (server : Server json.Value) where
  open json use {Value}

  abbrev Admin : Settings → Type 0
  Admin s = s.role ≡ named (codes "allgres_function_admin")

  abbrev Checked : Settings → Type 0
  Checked s = Admin s × (s.check_bodies ≡ true)

  abbrev AfterOk : (Session → Type 0) → Res (Unit {0}) → Session → Type 0
  AfterOk K (ok u) σ = K σ
  AfterOk K (err e) σ = Unit {0}

  -- The settings that a CREATE leaves as they were.
  succeeded-create :
      (text : Bytes) (a : Answer Value) (s : Settings) → succeeded (create text) a s ≡ s
  succeeded-create text (truth b) s = refl
  succeeded-create text (value v) s = refl
  succeeded-create text nothing s = refl
  succeeded-create text (failed e) s = refl

  run_create_rule :
      (text : Bytes)
      → Triple
          (Allowed env)
          (λ σ. Checked σ.settings)
          (run json env server (create text))
          (λ r σ. Checked σ.settings)
  unfolding run
  run_create_rule text =
      bind_rule (Allowed env) _ (λ a σ. Checked σ.settings) _ _ _
        (ask_rule (Allowed env) _ _ server (create text) (λ σ p. p)
          (λ σ a p. rw (succeeded-create text a σ.settings) p))
        (λ a. ret_rule (Allowed env) _ _ _ (λ σ p. p))

  and_ok_rule :
      (P K : Session → Type 0) (m k : M Value (Res (Unit {0})))
      → Triple (Allowed env) P m (AfterOk K)
      → Triple (Allowed env) K k (λ r σ. Unit {0})
      → Triple (Allowed env) P (and_ok m k) (λ r σ. Unit {0})
  and_ok_rule P K m k h g = bind_rule (Allowed env) P (AfterOk K) _ m _ h go
    where
      go :
          (r : Res (Unit {0}))
          → Triple
              (Allowed env)
              (AfterOk K r)
              (elim r as (λ _. M Value (Res (Unit {0}))) [ ok u ↦ k | err e ↦ ret (err e) ])
              (λ r σ. Unit {0})
      go (ok u) = g
      go (err e) = ret_rule (Allowed env) _ _ (err e) (λ σ p. tt)

  run_check_rule :
      Triple
        (Allowed env)
        (λ σ. Admin σ.settings)
        (run json env server set_check_bodies)
        (AfterOk (λ σ. Checked σ.settings))
  unfolding run unit_result
  run_check_rule =
      bind_rule (Allowed env) _ (λ a σ. AfterOk (λ σ. Checked σ.settings) (unit_result a) σ) _ _ _
        (ask_rule (Allowed env) _ _ server set_check_bodies (λ σ p. tt) go)
        (λ a. ret_rule (Allowed env) _ _ (unit_result a) (λ σ p. p))
    where
      go :
          (σ : Session) (a : Answer Value)
          → Admin σ.settings
          → AfterOk
              (λ σ. Checked σ.settings)
              (unit_result a)
              (after (asked set_check_bodies (answered a)) σ)
      go σ (truth b) p = (p, refl)
      go σ (value v) p = (p, refl)
      go σ nothing p = (p, refl)
      go σ (failed e) p = tt

  -- A CREATE in its own subtransaction: where it raised an ERROR, the rollback restores the session.
  create_inner_rule :
      (text : Bytes)
      → Triple
          (Allowed env)
          (λ σ. Checked σ.settings)
          (run_in_subtransaction (run json env server (create text)))
          (λ r σ. Checked σ.settings)
  unfolding Triple run_in_subtransaction run ask close_subtransaction receive unit_result
  create_inner_rule text t o p = go (server (enters ∷ t) (create text))
    where
      go :
          (r : Reply Value)
          → Post
              (Allowed env)
              (λ r σ. Checked σ.settings)
              (close_subtransaction
                (bind_outcome
                  (receive r)
                  (asked (create text) r ∷ enters ∷ t)
                  (λ a. ret (unit_result a))).0
                (bind_outcome
                  (receive r)
                  (asked (create text) r ∷ enters ∷ t)
                  (λ a. ret (unit_result a))).1).0
              (close_subtransaction
                (bind_outcome
                  (receive r)
                  (asked (create text) r ∷ enters ∷ t)
                  (λ a. ret (unit_result a))).0
                (bind_outcome
                  (receive r)
                  (asked (create text) r ∷ enters ∷ t)
                  (λ a. ret (unit_result a))).1).1
      go (answered (truth b)) = ((tt, (p, (tt, o))), p)
      go (answered (value v)) = ((tt, (p, (tt, o))), p)
      go (answered nothing) = ((tt, (p, (tt, o))), p)
      go (answered (failed e)) = ((p, (tt, o)), p)
      go (raises e) = ((tt, (p, (tt, o))), p)

  create_guarded_rule :
      (kind : Kind) (sql_ident nanos body : Bytes)
      → Triple
          (Allowed env)
          (λ σ. Checked σ.settings)
          (create_guarded json env server kind sql_ident nanos body)
          (λ r σ. Unit {0})
  unfolding create_guarded
  create_guarded_rule kind sql_ident nanos body =
      bind_rule (Allowed env) _ (λ r σ. Checked σ.settings) _ _ _ (create_inner_rule _) go
    where
      go :
          (r : Res (Unit {0}))
          → Triple
              (Allowed env)
              (λ σ. Checked σ.settings)
              (elim r as (λ _. M Value (Res (Unit {0}))) [
                | ok u ↦ ret (ok u)
                | err e ↦
                    run json env server
                      (create (ddl kind sql_ident nanos (wrap sql_ident body (codes ";"))))
              ])
              (λ r σ. Unit {0})
      go (ok u) = ret_rule (Allowed env) _ _ (ok u) (λ σ p. tt)
      go (err e) = post_rule (Allowed env) _ _ _ _ (λ r σ p. tt) (run_create_rule _)

  assume_admin_rule :
      Triple
        (Allowed env)
        (λ σ. Unit {0})
        (assume_admin json env server)
        (λ b σ. b ≡ true → Admin σ.settings)
  unfolding assume_admin
  assume_admin_rule =
      if_dropped_rule json env server _ _ _
        (bind_rule (Allowed env) _ (λ a σ. is_ok a ≡ true → Admin σ.settings) _ _ _
          (ask_rule (Allowed env) _ _ server (set_role (codes "allgres_function_admin")) (λ σ p. tt)
            (λ σ a p e.
              rw (succeeded-effect (set_role (codes "allgres_function_admin")) a σ.settings tt e)
                refl))
          (λ a. ret_rule (Allowed env) _ _ (is_ok a) (λ σ p. p)))
        (ret_rule (Allowed env) _ _ false (λ σ p e. ground arith))

  run_guarded_build-Safe :
      (kind : Kind) (nanos sql_ident body : Bytes)
      → Safe (Allowed env) (run_guarded_build json env server kind nanos sql_ident body)
  unfolding run_guarded_build
  run_guarded_build-Safe kind nanos sql_ident body =
      if_rule (Allowed env) _ _ (not (valid_sql_ident sql_ident (ident_prefix kind))) _ _
        (λ e. ret_rule (Allowed env) _ _ _ (λ σ p. tt))
        (λ valid. transaction-Safe (Allowed env) _ (
          run_in_subtransaction-Safe (Allowed env) _ (
            bind_rule (Allowed env) _ (λ b σ. b ≡ true → Admin σ.settings) _ _ _ assume_admin_rule
              (λ b.
                if_rule (Allowed env) _ _ b _ _
                  (λ e.
                    pre_rule (Allowed env) _ _ _ _ (λ σ p. p e)
                      (and_ok_rule _ (λ σ. Checked σ.settings) _ _ run_check_rule
                        (and_ok_rule _ (λ σ. Checked σ.settings) _ _
                          (post_rule (Allowed env) _ _ _ _ after_create (run_create_rule _))
                          (create_guarded_rule kind sql_ident nanos body))))
                  (λ e. ret_rule (Allowed env) _ _ _ (λ σ p. tt))))))
    where
      after_create :
          (r : Res (Unit {0})) (σ : Session)
          → Checked σ.settings
          → AfterOk (λ σ. Checked σ.settings) r σ
      after_create (ok u) σ p = p
      after_create (err e) σ p = tt

  submit_build_result-Safe :
      (kind : Kind) (id : Bytes) (outcome : Res (Unit {0}))
      → Safe (Allowed env) (submit_build_result json env server kind id outcome)
  unfolding submit_build_result build_completion
  submit_build_result-Safe kind id (ok v) = complete-Safe json env server _ (λ σ p. p)
  submit_build_result-Safe kind id (err e) = complete-Safe json env server _ (λ σ p. p)

  run_build-Safe :
      (kind : Kind) (nanos : Bytes) (id sql_ident body : Option Bytes)
      → Safe (Allowed env) (run_build json env server kind nanos id sql_ident body)
  unfolding run_build
  run_build-Safe kind nanos (some id) (some sql_ident) (some body) =
      if_rule (Allowed env) _ _ (not (valid_uuid id)) _ _
        (λ e. ret_rule (Allowed env) _ _ 0 (λ σ p. tt))
        (λ e.
          run_then_submit-Safe json env server _ _
            (run_guarded_build-Safe kind nanos sql_ident body) (submit_build_result-Safe kind id))
  run_build-Safe kind nanos none b c = ret_rule (Allowed env) _ _ 0 (λ σ p. tt)
  run_build-Safe kind nanos (some a) none c = ret_rule (Allowed env) _ _ 0 (λ σ p. tt)
  run_build-Safe kind nanos (some a) (some b) none = ret_rule (Allowed env) _ _ 0 (λ σ p. tt)

  pub pump_builds-Safe :
      (kind : Kind) (nanos : Bytes) → Safe (Allowed env) (pump_builds json env server kind nanos)
  unfolding pump_builds
  pump_builds-Safe kind nanos =
      pump-Safe json env server (build_queue kind) (codes "builds") _ (λ v.
        run_build-Safe kind nanos (get_str json v (id_key json env server kind))
          (get_str json v (codes "sql_ident")) (get_str json v (codes "body")))

  -- From any log whose statements were all allowed, a turn of the pump of Function or Procedure
  -- builds adds only allowed statements, whatever the server answers: a CREATE is sent only as the
  -- function administrator and with function bodies checked; queues are read and completed only once
  -- the privileges were dropped or the environment disabled that.
  pub pump_builds-Allowed :
      (kind : Kind) (nanos : Bytes) (t : Log Value)
      → AllOk (Allowed env) t
      → AllOk (Allowed env) (pump_builds json env server kind nanos t).1
  pump_builds-Allowed kind nanos t h = Safe-AllOk (Allowed env) _ (pump_builds-Safe kind nanos) t h
