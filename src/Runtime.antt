-- ===== src/Runtime.antt =====
-- The worker process: `JobWorker` (src/worker/workerRuntime.mjs) and `JobScheduler`
-- (src/worker/schedulerRuntime.mjs), as methods over the store. Timers and promises are the steps of
-- Runtime/Process.antt; what is logged is left out.
pub mod Handlers
pub mod Process
pub mod Slots
pub mod Integrity
use distributed_job_queue_sc.Prelude.{
  ℕ, suc, zero, ◌+◌, ◌-◌, String, Bool, true, false, List, [], ◌∷◌, ◌++◌, Option, none, some,
  length, is_some, leb, concat, if◌then◌else◌, str_eq, max, where_rows, not, or_else,
}
use distributed_job_queue_sc.Prelude.Int.{pos}
use distributed_job_queue_sc.Text.{IdList, items, trim_items, split_from, show}
use distributed_job_queue_sc.Json.{Json}
use distributed_job_queue_sc.Input.{Parsed, int}
use distributed_job_queue_sc.Model.{Store, Job, Worker, WorkerStatus, online, job_started}
use distributed_job_queue_sc.Exec.{Exec, Result, ok, err, pure, ◌>>=◌, ◌>>◌, add_event}
use distributed_job_queue_sc.Workers.{
  Heartbeat, heartbeat_worker, mark_worker_draining, mark_worker_offline,
}
use distributed_job_queue_sc.Jobs.{get_job, replace_job}
use distributed_job_queue_sc.Jobs.Claim.{ClaimInput, claim_jobs}
use distributed_job_queue_sc.Jobs.Finish.{
  renew_lease, complete_job, fail_job, release_worker_leases,
}
use distributed_job_queue_sc.Schedules.Dispatch.{Dispatched, dispatch_due_schedules}

-- `active` holds the jobs of the map of tasks, by their ids, in the order of insertion; `tasks` holds the job
-- of each `runJob` that has not ended, also of one whose key in the map was given to a later task.
pub record JobWorker : Type 0 where
  pub worker_id : String
  pub queues : List String
  pub capabilities : List String
  pub concurrency : ℕ
  pub lease_ms : ℕ
  pub backoff_base_ms : ℕ
  pub aging_interval_ms : ℕ
  pub running : Bool
  pub active : List Job
  pub tasks : List Job

-- The options, as numbers that are not negative where they are given; `aging_interval_ms` is the
-- process's PRIORITY_AGING_MS.
pub record WorkerOptions : Type 0 where
  pub worker_id : String
  pub queues : List String
  pub capabilities : List String
  pub concurrency : Option ℕ
  pub lease_ms : Option ℕ
  pub backoff_base_ms : Option ℕ
  pub aging_interval_ms : ℕ

-- `Math.max(low, Number(value || fallback))`.
unfoldable pub at_least : ℕ → ℕ → Option ℕ → ℕ
at_least low fallback none = max low fallback
at_least low fallback (some zero) = max low fallback
at_least low fallback (some (suc n)) = max low (suc n)

-- The constructor.
unfoldable pub new_worker : WorkerOptions → JobWorker
unfolding at_least
new_worker o = record {
  worker_id = o.worker_id;
  queues = o.queues;
  capabilities = o.capabilities;
  concurrency = at_least 1 1 (some (or_else o.concurrency 2));
  lease_ms = at_least 1000 30000 o.lease_ms;
  backoff_base_ms = at_least 250 2000 o.backoff_base_ms;
  aging_interval_ms = o.aging_interval_ms;
  running = false;
  active = [];
  tasks = [];
}

-- `parseList(value)`.
unfoldable pub parse_list : String → List String
unfolding trim_items split_from
parse_list value = trim_items (split_from b',' "" value)

abbrev heartbeat_of : JobWorker → Heartbeat
heartbeat_of w = record {
  worker_id = w.worker_id;
  queues = w.queues;
  capabilities = items w.capabilities;
  concurrency = int (pos w.concurrency);
  active_jobs = pos (length w.active);
  status = online;
}

-- The heartbeat with which `start` and `tick` begin.
unfoldable pub beat : JobWorker → Exec Worker
beat w = heartbeat_worker (heartbeat_of w)

abbrev claim_of : JobWorker → ClaimInput
claim_of w = record {
  worker_id = w.worker_id;
  queues = w.queues;
  capabilities = items w.capabilities;
  limit = w.concurrency - length w.active;
  lease_ms = w.lease_ms;
  aging_interval_ms = w.aging_interval_ms;
}

-- The store's part of `runJob(job)`.
unfoldable pub announce_start : String → List Job → Exec (List Job)
announce_start worker [] = pure []
announce_start worker (j ∷ js) = do
  add_event job_started (some j.id) none (some worker)
      (concat ("Worker " ∷ worker ∷ " started " ∷ j.type ∷ "." ∷ []))
  rest ← announce_start worker js
  pure (j ∷ rest)

-- `tick()`: the jobs that it starts.
unfoldable pub tick : JobWorker → Exec (List Job)
tick w = do
  beat w
  if leb w.concurrency (length w.active)
      then pure []
      else do jobs ← claim_jobs (claim_of w); announce_start w.worker_id jobs

-- `this.active.set(job.id, task)`: a key that is there keeps its place, and its old task runs on.
unfoldable pub set_active : Job → List Job → List Job
unfolding get_job replace_job
set_active j js = if is_some (get_job j.id js) then replace_job j.id j js else js ++ j ∷ []

unfoldable pub set_each : List Job → List Job → List Job
unfolding set_active
set_each [] active = active
set_each (j ∷ js) active = set_each js (set_active j active)

-- `this.active.delete(job.id)`.
unfoldable pub delete_active : String → List Job → List Job
unfolding where_rows
delete_active id = where_rows (λ j. not (str_eq j.id id))

-- The worker after a tick: if the store threw, no task was added.
unfoldable pub after_tick : JobWorker → Result (List Job) → JobWorker
unfolding set_each
after_tick w (ok jobs) = record w { active = set_each jobs w.active; tasks = w.tasks ++ jobs }
after_tick w (err e) = w

-- How a task ends: with an output, or with the text of an error.
pub data Outcome : Type 0 where
  output : Json → Outcome
  failed : String → Outcome

-- The store's part of a task's end; an error of the store is only logged.
unfoldable pub settle : JobWorker → String → Outcome → Exec Job
settle w id (output value) = complete_job id w.worker_id value
settle w id (failed error) = fail_job id w.worker_id error w.backoff_base_ms

-- The interval of `runJob`.
unfoldable pub renew : JobWorker → String → Exec Job
renew w id = renew_lease id w.worker_id w.lease_ms

-- `stop()`, up to the wait.
unfoldable pub begin_stop : JobWorker → Exec (Unit {0})
begin_stop w = mark_worker_draining w.worker_id

-- `if (this.active.size > 0)` give the leases up.
unfoldable pub release_rest : String → List Job → Exec (List Job)
unfolding pure
release_rest worker [] = pure []
release_rest worker (j ∷ js) = release_worker_leases worker (
    concat
      ("Worker " ∷ worker ∷ " drained out with " ∷ show (suc (length js)) ∷ " active jobs." ∷ []))

-- `stop()`, after the wait.
unfoldable pub end_stop : JobWorker → Exec (Unit {0})
end_stop w = do release_rest w.worker_id w.active; mark_worker_offline w.worker_id

-- `JobScheduler`.
pub record JobScheduler : Type 0 where
  pub scheduler_id : String
  pub poll_ms : ℕ
  pub batch_size : ℕ
  pub running : Bool

unfoldable pub new_scheduler : String → (poll_ms batch_size : Option ℕ) → JobScheduler
unfolding at_least
new_scheduler id poll_ms batch_size = record {
  scheduler_id = id;
  poll_ms = at_least 500 2000 poll_ms;
  batch_size = at_least 1 25 batch_size;
  running = false;
}

-- `JobScheduler.tick()`.
unfoldable pub scheduler_tick : JobScheduler → Exec (List Dispatched)
scheduler_tick c = dispatch_due_schedules c.scheduler_id (int (pos c.batch_size))
