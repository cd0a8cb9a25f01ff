-- ===== src/Runtime/Slots.antt =====
-- The map of active tasks of a worker (src/worker/workerRuntime.mjs).
use distributed_job_queue_sc.Prelude.{
  ℕ, zero, suc, ◌+◌, ◌-◌, ◌≤◌, String, false, ◌≡◌, refl, List, [], ◌∷◌, Option, none, some, is_some,
  length, length-append, leb, where_rows, Bool-cases, inl, inr, arith, or_else,
}
use distributed_job_queue_sc.Prelude.Int.{pos}
use distributed_job_queue_sc.Input.{int, clamp_nat}
use distributed_job_queue_sc.Model.{Store, Job}
use distributed_job_queue_sc.Exec.{Result, ok, err}
use distributed_job_queue_sc.Exec.Outcome.{
  Gives, Ends, bind-Ends, then-Ends, Gives-Ends, pure-Gives, if-Ends, add_event-Gives, then-Gives,
  bind-Gives, Judge,
}
use distributed_job_queue_sc.Jobs.{get_job, replace_job}
use distributed_job_queue_sc.Outcomes.Claim.{claim_jobs-Claimed}
use distributed_job_queue_sc.Runtime.{
  JobWorker, WorkerOptions, new_worker, at_least, beat, claim_of, announce_start, tick, set_active,
  set_each, delete_active, after_tick,
}
use distributed_job_queue_sc.Runtime.Process.{
  ProcessStep, starts, ticks, renews, settles, stops, ends, schedules, calls, Runs, begins, goes,
}

length-replace_job :
    (id : String) (j : Job) (js : List Job) → length (replace_job id j js) ≡ length js
unfolding replace_job
length-replace_job id j [] = refl
length-replace_job id j (x ∷ js) = ground (arith, length-replace_job id j js)

length-set_active : (j : Job) (js : List Job) → length (set_active j js) ≤ suc (length js)
unfolding set_active
length-set_active j js = elim (Bool-cases (is_some (get_job j.id js))) [
  | inl there ↦ rw there (omega (arith, length-replace_job j.id j js))
  | inr new ↦ rw new (omega (arith, length-append js (j ∷ [])))
]

length-set_each : (js active : List Job) → length (set_each js active) ≤ length js + length active
unfolding set_each
length-set_each [] active = omega arith
length-set_each (j ∷ js) active =
    omega (arith, length-set_each js (set_active j active), length-set_active j active)

length-delete_active : (id : String) (js : List Job) → length (delete_active id js) ≤ length js
unfolding delete_active where_rows
length-delete_active id [] = omega arith
length-delete_active id (j ∷ js) = ground (arith, length-delete_active id js)

clamp_nat-le : (n : ℕ) → 1 ≤ n → clamp_nat (int (pos n)) 1 100 ≤ n
unfolding clamp_nat
clamp_nat-le n h = ground arith

announce_start-Gives :
    (worker : String) (js : List Job) (s : Store)
    → Gives (announce_start worker js) s (λ rows t. length rows ≡ length js)
unfolding announce_start
announce_start-Gives worker [] s = pure-Gives [] s refl
announce_start-Gives worker (j ∷ js) s = then-Gives _ _ s (add_event-Gives _ _ _ _ _ s) λ _ t e.
    bind-Gives _ _ t (announce_start-Gives worker js t)
      λ rest u h. pure-Gives (j ∷ rest) u (omega arith)

beat-Ends : (w : JobWorker) (s : Store) → Ends (beat w) s (λ _ t. Unit {0}) (λ t. Unit {0})
beat-Ends w s = record { verdict = judge (beat w s).0 }
  where
    judge : {B : Type 0} (r : Result B) → Judge (λ _. Unit {0}) (Unit {0}) r
    judge (ok b) = tt
    judge (err e) = tt

-- A tick starts no more jobs than there are open slots.
tick-Ends :
    (w : JobWorker) (s : Store)
    → length w.active ≤ w.concurrency
    → Ends (tick w) s (λ rows t. length rows + length w.active ≤ w.concurrency) (λ t. Unit {0})
unfolding tick
tick-Ends w s h = then-Ends _ _ s (beat-Ends w s) λ _ t _.
    if-Ends (leb w.concurrency (length w.active)) _ _ t
      (λ full. Gives-Ends _ t (pure-Gives [] t (omega arith)))
      λ open_slots. bind-Ends _ _ t (Gives-Ends _ t (claim_jobs-Claimed (claim_of w) t)) λ jobs u c.
        Gives-Ends _ u (within jobs u c.1 open_slots (announce_start-Gives w.worker_id jobs u))
  where
    within :
        (jobs : List Job) (u : Store)
        → length jobs ≤ clamp_nat (int (pos (w.concurrency - length w.active))) 1 100
        → leb w.concurrency (length w.active) ≡ false
        → Gives (announce_start w.worker_id jobs) u (λ rows t. length rows ≡ length jobs)
        → Gives
            (announce_start w.worker_id jobs)
            u
            (λ rows t. length rows + length w.active ≤ w.concurrency)
    within jobs u few room g = record {
      value = g.value;
      returns = g.returns;
      post = ground (arith, clamp_nat-le (w.concurrency - length w.active), g.post);
    }

-- The keys fit the slots.
abbrev pub Fits : JobWorker → Type 0
Fits w = length w.active ≤ w.concurrency

after_tick-Fits :
    (w : JobWorker) (r : Result (List Job))
    → Judge (λ rows. length rows + length w.active ≤ w.concurrency) (Unit {0}) r
    → Fits w
    → Fits (after_tick w r)
unfolding after_tick
after_tick-Fits w (ok jobs) j h = omega (arith, length-set_each jobs w.active)
after_tick-Fits w (err e) j h = h

step-Fits : {p q : JobWorker × Store} → ProcessStep p q → Fits p.0 → Fits q.0
step-Fits (starts w s) h = h
step-Fits (ticks w s r) h = after_tick-Fits w (tick w s).0 (tick-Ends w s h).verdict h
step-Fits (renews w s before j after m) h = h
step-Fits (settles w s before j after c o m x) h = omega (arith, length-delete_active j.id w.active)
step-Fits (stops w s) h = h
step-Fits (ends w s r) h = h
step-Fits (schedules w s c) h = h
step-Fits (calls w s c) h = h

Runs-Fits : {p q : JobWorker × Store} → Runs p q → Fits p.0 → Fits q.0
Runs-Fits begins h = h
Runs-Fits (goes r st) h = step-Fits st (Runs-Fits r h)

at_least-le : (low fallback : ℕ) (o : Option ℕ) → low ≤ at_least low fallback o
unfolding at_least
at_least-le low fallback none = omega arith
at_least-le low fallback (some zero) = omega arith
at_least-le low fallback (some (suc n)) = omega arith

-- The map `active` of a worker never has more keys than its concurrency, which is at least 1: from its
-- construction on, through any ticks, renewals, ends of tasks, stops, and calls of other processes that are no
-- imports and no archivings. A task whose key was given to a later task of the same job is not counted.
pub new_worker-Fits :
    (options : WorkerOptions) (s : Store) {q : JobWorker × Store}
    → Runs (new_worker options, s) q
    → (length q.0.active ≤ q.0.concurrency) × (1 ≤ (new_worker options).concurrency)
unfolding new_worker
new_worker-Fits options s r =
    (Runs-Fits r (omega arith), at_least-le 1 1 (some (or_else options.concurrency 2)))
