-- ===== src/Runtime/Pool/Answers.antt =====
-- What the pool promises the worker: a collection of calls, without order, to which sends add and
-- from which results are taken.
use allgres_agent.Base.{◌≡◌, sym, List, [], ◌∷◌, ◌++◌, map}
use allgres_agent.Text.{Bytes}
use mathlib.Core.List.{
  Perm, append_assoc, perm_middle, perm_append_singleton, perm_append_comm, map-append,
}
use mathlib.Core.List.Perm
use allgres_agent.Runtime.Jobs.{OutboundQueue, Job, Result}
use allgres_agent.Runtime.Pool.{Pool, Work, takes, finishes, answer, send}

-- A call, by its queue and its id.
abbrev pub Call : Type 0
Call = OutboundQueue × Bytes

abbrev pub job_call : {V : Type 0} → Job V → Call
job_call job = (job.queue, job.call_id)

abbrev pub result_call : Result → Call
result_call r = (r.queue, r.call_id)

-- The abstract view of a pool.
abbrev pub outstanding : {V : Type 0} → Pool V → List Call
outstanding p = map job_call p.queued ++ (map job_call p.running ++ map result_call p.results)

-- A call moves from the middle of a list to its end.
to_end :
    (k : Call) (before after results : List Call)
    → Perm ((before ++ after) ++ (results ++ k ∷ [])) ((before ++ k ∷ after) ++ results)
to_end k before after results = rw (← append_assoc) (
    Perm.trans (perm_append_singleton k ((before ++ after) ++ results))
      (Perm.symm (Perm.append_right results (perm_middle before after))))

same : {a b : List Call} → a ≡ b → Perm a b
same {a} e = rw (← e) (Perm.refl a)

pub exchange : (a b c : List Call) → Perm (a ++ (b ++ c)) (b ++ (a ++ c))
exchange a b c =
    Perm.trans (same (sym (append_assoc a b c)))
      (Perm.trans (Perm.append_right c (perm_append_comm a b)) (same (append_assoc b a c)))

regroup :
    (taken queued jobs running rest : List Call)
    → Perm
        (taken ++ ((queued ++ jobs) ++ (running ++ rest)))
        (jobs ++ (queued ++ (running ++ (taken ++ rest))))
regroup taken queued jobs running rest =
    Perm.trans (exchange taken (queued ++ jobs) (running ++ rest)) (
      Perm.trans (Perm.append_left (queued ++ jobs) (exchange taken running rest)) (
        Perm.trans (Perm.append_right _ (perm_append_comm queued jobs))
          (same (append_assoc jobs queued (running ++ (taken ++ rest))))))

module _ {V : Type 0} where
  pub Work-outstanding : {p q : Pool V} → Work p q → Perm (outstanding q) (outstanding p)
  unfolding answer
  Work-outstanding (takes idle job queued running results) =
      perm_middle (map job_call queued) (map job_call running ++ map result_call results)
  Work-outstanding (finishes idle queued before after job results status body) =
      rw
        (
          map-append job_call before after,
          map-append job_call before (job ∷ after),
          map-append result_call results (answer job status body ∷ []),
        )
        (Perm.append_left (map job_call queued) (
          to_end (job_call job) (map job_call before) (map job_call after)
            (map result_call results)))

  -- Sending adds the new calls, and taking results away takes theirs.
  pub send-outstanding :
      (p : Pool V) (jobs : List (Job V)) (taken rest : List Result)
      → p.results ≡ taken ++ rest
      → Perm
          (map result_call taken ++ outstanding (send jobs (record p { results = rest })))
          (map job_call jobs ++ outstanding p)
  unfolding send
  send-outstanding p jobs taken rest e =
      rw (e, map-append job_call p.queued jobs, map-append result_call taken rest)
        (regroup (map result_call taken) (map job_call p.queued) (map job_call jobs)
          (map job_call p.running) (map result_call rest))
