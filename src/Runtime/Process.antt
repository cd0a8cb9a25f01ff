-- ===== src/Runtime/Process.antt =====
-- A worker beside the rest of the system: what happens one after another to the worker and the
-- store. Between two steps of the worker, others may call the store.
use distributed_job_queue_sc.Prelude.{◌++◌, List, ◌∷◌, true, false, ◌≡◌}
use distributed_job_queue_sc.Model.{Store, Job}
use distributed_job_queue_sc.Api.{Call, perform}
use distributed_job_queue_sc.Runtime.{
  JobWorker, Outcome, beat, tick, after_tick, delete_active, settle, renew, begin_stop, end_stop,
  JobScheduler, scheduler_tick,
}
use distributed_job_queue_sc.Runtime.Handlers.{Conversions, Executes}

-- `start` begins with a heartbeat; `tick` runs while the worker does; the timer of a task renews the
-- lease of its job; a task ends, and deletes the key of its job, whichever task has it; `stop` stops the loop, and gives up what is left
-- after the wait; a scheduler ticks; another process calls the store.
pub data ProcessStep : JobWorker × Store → JobWorker × Store → Type 0 where
  starts :
      (w : JobWorker) (s : Store) → ProcessStep (w, s) (record w { running = true }, (beat w s).1)
  ticks :
      (w : JobWorker) (s : Store)
      → w.running ≡ true
      → ProcessStep (w, s) (after_tick w (tick w s).0, (tick w s).1)
  renews :
      (w : JobWorker) (s : Store) (before : List Job) (j : Job) (after : List Job)
      → w.tasks ≡ before ++ j ∷ after
      → ProcessStep (w, s) (w, (renew w j.id s).1)
  settles :
      (w : JobWorker) (s : Store) (before : List Job) (j : Job) (after : List Job) (c : Conversions)
      (o : Outcome)
      → w.tasks ≡ before ++ j ∷ after
      → Executes c j o
      → ProcessStep
          (w, s)
          (
            record w { active = delete_active j.id w.active; tasks = before ++ after },
            (settle w j.id o s).1,
          )
  stops :
      (w : JobWorker) (s : Store)
      → ProcessStep (w, s) (record w { running = false }, (begin_stop w s).1)
  ends : (w : JobWorker) (s : Store) → w.running ≡ false → ProcessStep (w, s) (w, (end_stop w s).1)
  schedules :
      (w : JobWorker) (s : Store) (c : JobScheduler)
      → ProcessStep (w, s) (w, (scheduler_tick c s).1)
  calls : (w : JobWorker) (s : Store) (c : Call) → ProcessStep (w, s) (w, perform c s)

-- Any number of steps.
pub data Runs (p : JobWorker × Store) : JobWorker × Store → Type 0 where
  begins : Runs p p
  goes : {q r : JobWorker × Store} → Runs p q → ProcessStep q r → Runs p r
