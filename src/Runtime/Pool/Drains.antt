-- ===== src/Runtime/Pool/Drains.antt =====
-- The pool performs every job it is given.
use allgres_agent.Base.{
  ℕ, zero, suc, ◌+◌, ◌*◌, ◌<◌, ◌≡◌, refl, ◌∙◌, List, [], ◌∷◌, arith, length, length-append,
}
use allgres_agent.Base.Int.{pos}
use allgres_agent.Runtime.Jobs.{Job, Result}
use allgres_agent.Runtime.Pool.{Pool, Work, takes, finishes, threads, Work-waiting}

no_items : {A : Type 0} (xs : List A) → length xs ≡ 0 → xs ≡ []
no_items [] h = refl
no_items (x ∷ xs) h = absurd (omega arith)

module _ {V : Type 0} where
  -- So many steps of the threads, one behind the other.
  pub data Works : ℕ → Pool V → Pool V → Type 0 where
    start : {p : Pool V} → Works 0 p p
    next : {n : ℕ} {p q r : Pool V} → Works n p q → Work q r → Works (suc n) p r

  -- A job in the channel has two steps before it, one with a thread has one.
  abbrev pub steps_left : Pool V → ℕ
  steps_left p = 2 * length p.queued + length p.running

  -- Nothing is queued and no thread performs a job.
  pub record Drained (p : Pool V) : Type 0 where
    pub none_queued : p.queued ≡ []
    pub none_running : p.running ≡ []

  Work-steps_left : {p q : Pool V} → Work p q → suc (steps_left q) ≡ steps_left p
  Work-steps_left (takes idle job queued running results) = omega arith
  Work-steps_left (finishes idle queued before after job results status body) =
      let long = length-append before (job ∷ after) in
      let short = length-append before after in omega arith

  Works-steps_left : {n : ℕ} {p q : Pool V} → Works n p q → n + steps_left q ≡ steps_left p
  Works-steps_left start = omega arith
  Works-steps_left (next w s) =
      let ih = Works-steps_left w in let one = Work-steps_left s in omega arith

  Works-threads : {n : ℕ} {p q : Pool V} → Works n p q → threads q ≡ threads p
  Works-threads start = refl
  Works-threads (next w s) = (Work-waiting s).1 ∙ Works-threads w

  after_one : {n : ℕ} {p q r : Pool V} → Work p q → Works n q r → Works (suc n) p r
  after_one s start = next start s
  after_one s (next w s') = next (after_one s w) s'

  -- While a job is queued or with a thread, and there is a thread, some thread can go on.
  goes_on : (p : Pool V) → 0 < threads p → 0 < steps_left p → (q : Pool V) × Work p q
  goes_on p h k = go p.idle p.queued p.running p.results h k
    where
      go :
          (idle : ℕ) (queued running : List (Job V)) (results : List Result)
          → 0 < idle + length running
          → 0 < 2 * length queued + length running
          → (q : Pool V) × Work
              (record { idle = idle; queued = queued; running = running; results = results })
              q
      go idle queued (job ∷ running) results h k =
          (_, finishes idle queued [] running job results (pos 0) [])
      go (suc idle) (job ∷ queued) [] results h k = (_, takes idle job queued [] results)
      go zero queued [] results h k = absurd (omega arith)
      go (suc idle) [] [] results h k = absurd (omega arith)

  none_left : (p : Pool V) → steps_left p ≡ 0 → Drained p
  none_left p h = record {
    none_queued = no_items p.queued (omega arith);
    none_running = no_items p.running (omega arith);
  }

  drains_from :
      (n : ℕ) (p : Pool V)
      → steps_left p ≡ n
      → 0 < threads p
      → (q : Pool V) × Works n p q × Drained q
  drains_from zero p e h = (p, start, none_left p e)
  drains_from (suc n) p e h =
      let (q, s) = goes_on p h (omega arith) in
      let one = Work-steps_left s in
      let same = (Work-waiting s).1 in
      let (r, w, d) = drains_from n q (omega arith) (omega arith) in (r, after_one s w, d)

  -- However the threads of a pool that has a thread have run so far, they can run on until no job is
  -- queued or performed any more, and as many steps as were left at the beginning lead there, however
  -- they are ordered: each job is performed without another's help and none is performed twice.
  pub pool-drains :
      {n : ℕ} {p q : Pool V}
      → 0 < threads p
      → Works n p q
      → (r : Pool V) × (k : ℕ) × Works k q r × Drained r × (n + k ≡ steps_left p)
  pool-drains {n} {p} {q} h w =
      let (r, w', d) = drains_from (steps_left q) q refl (omega (arith, Works-threads w)) in
      (r, steps_left q, w', d, Works-steps_left w)
