-- ===== src/Api.antt =====
-- The calls that the server and the workers make of the store, one after another: each method that writes
-- a table, but `importSnapshot` (Snapshots) and `archiveTerminalJobs` (Maintenance).
pub mod Writes
pub mod Performs
pub mod Integrity
pub mod Lifecycle
pub mod Capacity
use distributed_job_queue_sc.Demo.Failures.{inject_failure_scenario}
use distributed_job_queue_sc.Demo.{seed_demo_scenario, vacuum_database}
use distributed_job_queue_sc.Maintenance.{prune_events}
use distributed_job_queue_sc.Jobs.Recover.{recover_stale_leases, recover_timed_out_jobs}
use native.Mathlib.Omega.{arith}
use distributed_job_queue_sc.Prelude.{
  ℕ, String, Bool, true, false, ◌≡◌, refl, List, [], ◌∷◌, Option, All, is_some, if◌then◌else◌,
  Bool-cases, inl, inr, find, ◌++◌,
}
use distributed_job_queue_sc.Json.{Json}
use distributed_job_queue_sc.Input.{Parsed}
use distributed_job_queue_sc.Model.{Job, Store, Worker, RateLimit}
use distributed_job_queue_sc.Exec.{Exec}
use distributed_job_queue_sc.Queues.{QueueInput, upsert_queue, toggle_queue}
use distributed_job_queue_sc.Workers.{
  Heartbeat, heartbeat_worker, mark_worker_draining, mark_worker_offline, put_worker, get_worker,
  find_worker,
}
use distributed_job_queue_sc.RateLimits.{
  RateLimitInput, upsert_rate_limit, put_rate_limit, read_scope,
}
use distributed_job_queue_sc.Jobs.{
  Change, claim, defer, renew, complete, release, fail, cancel, cancel_dependent, requeue,
  allow_attempts, expire_lease, time_out,
}
use distributed_job_queue_sc.Jobs.Enqueue.{JobInput, enqueue_job, new_job}
use distributed_job_queue_sc.Jobs.Workflow.{Definition, add_alias, create_each, create_workflow}
use distributed_job_queue_sc.Jobs.Cancel.{cancel_job}
use distributed_job_queue_sc.Jobs.Finish.{
  renew_lease, complete_job, fail_job, release_worker_leases,
}
use distributed_job_queue_sc.Jobs.Requeue.{requeue_job, requeue_dead_letters}
use distributed_job_queue_sc.Jobs.Claim.{ClaimInput, claim_jobs}
use distributed_job_queue_sc.Schedules.{
  ScheduleInput, create_schedule, toggle_schedule, run_schedule_now,
}
use distributed_job_queue_sc.Schedules.Dispatch.{dispatch_due_schedules}
use distributed_job_queue_sc.Steps.{Write, row, add, give_up, configure, Reach, here, Reach-trans}
use distributed_job_queue_sc.Steps.Unique.{UniqueIds, Reach-UniqueIds}
use distributed_job_queue_sc.Steps.Moves.{
  Moves, MovesFrom, IsQuiet, Any, moves_rules, quiet_rules, quiet_methods, quiet-Moves, bind-Moves,
  then-Moves,
}
use distributed_job_queue_sc.Steps.Methods.{cancel_job-Moves, renew_lease-Moves, complete_job-Moves}
use distributed_job_queue_sc.Steps.Failures.{fail_job-Moves}
use distributed_job_queue_sc.Steps.Dispatch.{claim_jobs-Moves}
use distributed_job_queue_sc.Steps.Requests.{
  requeue_job-Moves, requeue_dead_letters-Moves, release_worker_leases-Moves, upsert_queue-Moves,
  toggle_queue-Moves, enqueue_job-Moves,
}

-- A call with its arguments; not an import, nor an archiving.
pub data Call : Type 0 where
  enqueue_call : JobInput → Call
  claim_call : ClaimInput → Call
  workflow_call : (name : String) (definitions : List Definition) → Call
  renew_call : (id worker : String) (lease_ms : ℕ) → Call
  complete_call : (id worker : String) (output : Json) → Call
  fail_call : (id worker error : String) (backoff_base_ms : ℕ) → Call
  cancel_call : (id : String) → Call
  requeue_call : (id : String) (run_at : Option ℕ) → Call
  replay_call : (queue type : String) (limit : Parsed) (max_attempts : Option Parsed) → Call
  release_call : (worker reason : String) → Call
  queue_call : QueueInput → Call
  toggle_call : (name : String) (enabled : Json) → Call
  limit_call : RateLimitInput → Call
  heartbeat_call : Heartbeat → Call
  draining_call : (worker : String) → Call
  offline_call : (worker : String) → Call
  schedule_call : ScheduleInput → Call
  pause_call : (schedule : String) (enabled : Json) → Call
  run_call : (schedule : String) → Call
  dispatch_call : (scheduler : String) (limit : Parsed) → Call
  stale_call : (now : ℕ) → Call
  timed_out_call : (now : ℕ) → Call
  prune_call : (older_than_days keep_last : Parsed) → Call
  demo_call : Call
  inject_call : (scenario : String) → Call
  vacuum_call : (before_bytes after_bytes : ℕ) → Call

-- The store after a call, whether it returned or threw.
unfoldable pub perform : Call → Store → Store
perform (enqueue_call input) s = (enqueue_job input s).1
perform (claim_call input) s = (claim_jobs input s).1
perform (workflow_call name definitions) s = (create_workflow name definitions s).1
perform (renew_call id worker lease_ms) s = (renew_lease id worker lease_ms s).1
perform (complete_call id worker output) s = (complete_job id worker output s).1
perform (fail_call id worker error base) s = (fail_job id worker error base s).1
perform (cancel_call id) s = (cancel_job id s).1
perform (requeue_call id run_at) s = (requeue_job id run_at s).1
perform (replay_call queue type limit most) s = (requeue_dead_letters queue type limit most s).1
perform (release_call worker reason) s = (release_worker_leases worker reason s).1
perform (queue_call input) s = (upsert_queue input s).1
perform (toggle_call name enabled) s = (toggle_queue name enabled s).1
perform (limit_call input) s = (upsert_rate_limit input s).1
perform (heartbeat_call h) s = (heartbeat_worker h s).1
perform (draining_call worker) s = (mark_worker_draining worker s).1
perform (offline_call worker) s = (mark_worker_offline worker s).1
perform (schedule_call input) s = (create_schedule input s).1
perform (pause_call schedule enabled) s = (toggle_schedule schedule enabled s).1
perform (run_call schedule) s = (run_schedule_now schedule s).1
perform (dispatch_call scheduler limit) s = (dispatch_due_schedules scheduler limit s).1
perform (stale_call now) s = (recover_stale_leases now s).1
perform (timed_out_call now) s = (recover_timed_out_jobs now s).1
perform (prune_call older_than_days keep_last) s = (prune_events older_than_days keep_last s).1
perform demo_call s = (seed_demo_scenario s).1
perform (inject_call scenario) s = (inject_failure_scenario scenario s).1
perform (vacuum_call before_bytes after_bytes) s = (vacuum_database before_bytes after_bytes s).1

unfoldable pub perform_all : List Call → Store → Store
perform_all [] s = s
perform_all (c ∷ cs) s = perform_all cs (perform c s)

-- The calls that give a job that has ended another life.
abbrev pub is_replay : Call → Bool
is_replay (requeue_call id run_at) = true
is_replay (replay_call queue type limit most) = true
is_replay c = false

abbrev pub is_replay_change : Change → Bool
is_replay_change (requeue later run_at at) = true
is_replay_change (allow_attempts n) = true
is_replay_change c = false
