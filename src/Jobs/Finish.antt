-- ===== src/Jobs/Finish.antt =====
-- What a worker reports of a job it runs: `renewLease`, `completeJob`, `releaseReadyDependencies`,
-- `failJob`, `resolveRetryPolicy`, `releaseWorkerLeases` (src/core/store.mjs).
use distributed_job_queue_sc.Prelude.{
  ℕ, zero, suc, ◌+◌, String, List, [], ◌∷◌, ◌++◌, Option, none, some, concat, all, ltb, max,
  or_else, where_rows, update_rows, map, if◌then◌else◌,
}
use distributed_job_queue_sc.Prelude.Int.{negsuc}
use distributed_job_queue_sc.Text.{or_text, show}
use distributed_job_queue_sc.Json.{Json, null, obj, end}
use distributed_job_queue_sc.Input.{
  RetryPolicy, exponential, as_input, normalize_retry_policy, compute_retry_delay_ms,
}
use distributed_job_queue_sc.Guidance.{FailureHint, build_failure_guidance}
use distributed_job_queue_sc.Model.{
  Job, Queue, Store, scheduled, is_waiting, job_completed, job_dependencies_released,
  job_retry_scheduled, job_dead_lettered, job_lease_released,
}
use distributed_job_queue_sc.Exec.{
  Exec, ok, or_raise, or_type_error, pure, unless, gets, ◌>>=◌, ◌>>◌, now_iso, random_below,
  add_event,
}
use distributed_job_queue_sc.Queues.{get_queue}
use distributed_job_queue_sc.Workers.{increment_worker}
use distributed_job_queue_sc.Jobs.{
  renew, complete, release, fail, holds_lease, get_job, update_job, is_job_completed, by_created,
  lease_missing,
}
use distributed_job_queue_sc.Jobs.Cancel.{cancel_dependents}

-- `renewLease(jobId, workerId, leaseMs)`.
unfoldable pub renew_lease : String → String → ℕ → Exec Job
renew_lease id worker lease_ms = do
  at ← now_iso
  found ← update_job (renew worker (at + lease_ms) at) id
  or_raise (lease_missing id) found

abbrev pub output_or_empty : Json → Json
output_or_empty null = obj end
output_or_empty v = v

abbrev pub released_message : Option String → String
released_message none = "Dependencies satisfied."
released_message (some id) = concat ("Dependencies satisfied after " ∷ id ∷ " completed." ∷ [])

unfoldable pub released_one : Option String → Option Job → Exec (List Job)
released_one finished_id none = pure []
released_one finished_id (some row) = do
  add_event job_dependencies_released (some row.id) none none (released_message finished_id)
  pure (row ∷ [])

-- One round of the loop over the waiting jobs: its dependencies are looked up as they stand then.
unfoldable pub release_one : ℕ → Option String → Job → Exec (List Job)
release_one now finished_id j = do
  ready ← gets (λ s. all (is_job_completed s) j.depends_on)
  if ready
      then update_job (release (ltb now j.run_at) now) j.id >>= released_one finished_id
      else pure []

unfoldable pub release_each : ℕ → Option String → List Job → Exec (List Job)
release_each now finished_id [] = pure []
release_each now finished_id (j ∷ js) = do
  this ← release_one now finished_id j
  rest ← release_each now finished_id js
  pure (this ++ rest)

-- `releaseReadyDependencies({ now, completedJobId })`.
unfoldable pub release_ready_dependencies : ℕ → Option String → Exec (List Job)
release_ready_dependencies now finished_id = do
  waiting ← gets (by_created (λ j. is_waiting j.status))
  release_each now finished_id waiting

-- `completeJob(jobId, workerId, output)`.
unfoldable pub complete_job : String → String → Json → Exec Job
complete_job id worker output = do
  at ← now_iso
  found ← update_job (complete worker (output_or_empty output) at) id
  row ← or_raise (lease_missing id) found
  increment_worker worker 1 0 (negsuc 0)
  add_event job_completed (some id) none (some worker)
      (concat ("Job " ∷ row.type ∷ " completed." ∷ []))
  release_ready_dependencies at (some id)
  pure row

-- A stored policy, normalised again.
unfoldable pub stored_policy : Option RetryPolicy → Option RetryPolicy
unfolding normalize_retry_policy
stored_policy none = none
stored_policy (some p) = normalize_retry_policy (some (as_input p))

abbrev pub queue_policy : Option Queue → Option RetryPolicy
queue_policy none = none
queue_policy (some q) = q.retry_policy

-- `resolveRetryPolicy(jobRow, { backoffBaseMs })`: the job's policy, the queue's, or the default.
unfoldable pub resolve_retry_policy : Store → Job → ℕ → RetryPolicy
unfolding stored_policy get_queue
resolve_retry_policy s job backoff_base_ms = or_else (stored_policy job.retry_policy) (
    or_else (stored_policy (queue_policy (get_queue job.queue s.queues))) (record {
      strategy = exponential;
      base_ms = max 250 (elim backoff_base_ms [ zero ↦ 2000 | suc n ↦ suc n ]);
      max_delay_ms = 300000;
      jitter_ms = 0;
    }))

-- `computeRetryDelayMs(policy, attempts)`, with a random draw.
unfoldable pub retry_delay : RetryPolicy → ℕ → Exec ℕ
retry_delay policy attempts = do
  random ← random_below
  pure (compute_retry_delay_ms random policy attempts)

-- `buildFailureGuidance(error, mapJob(row))`.
unfoldable pub guidance : String → Job → Exec FailureHint
guidance error j = do at ← now_iso; pure (build_failure_guidance error j.type j.queue at)

-- SELECT * FROM jobs WHERE id = ? AND lease_owner = ? AND status = 'running'
unfoldable pub held_job : String → String → Store → Option Job
unfolding get_job
held_job id worker s = elim (get_job id s.jobs) [
  | none ↦ none
  | some j ↦ if holds_lease j worker then some j else none
]

-- The end of `failJob`, from the row that holds the lease.
unfoldable pub fail_held : String → String → String → ℕ → ℕ → Job → Exec Job
fail_held id worker error backoff_base_ms at current = do
  let last_error = or_text error "Job failed"
  let retry = ltb current.attempts current.max_attempts
  policy ← gets (λ s. resolve_retry_policy s current backoff_base_ms)
  backoff ← retry_delay policy current.attempts
  let run_at = if retry then at + backoff else current.run_at
  hint ← guidance last_error current
  found ← update_job (fail retry last_error run_at hint at) id
  increment_worker worker 0 1 (negsuc 0)
  row ← or_type_error found
  add_event (if retry then job_retry_scheduled else job_dead_lettered) (some id) none (some worker)
      (if retry
        then concat ("Job retry scheduled after " ∷ show backoff ∷ "ms." ∷ [])
        else "Job moved to dead letter.")
  unless retry (
      cancel_dependents id
        (concat ("Dependency " ∷ id ∷ " failed permanently: " ∷ last_error ∷ [])))
  pure row

-- `failJob(jobId, workerId, error, { backoffBaseMs })`, from the text of the error.
unfoldable pub fail_job : String → String → String → ℕ → Exec Job
fail_job id worker error backoff_base_ms = do
  at ← now_iso
  found ← gets (held_job id worker)
  current ← or_raise (lease_missing id) found
  fail_held id worker error backoff_base_ms at current

-- The SET clause of `releaseWorkerLeases`.
unfoldable pub give_up_lease : String → ℕ → Job → Job
give_up_lease reason at j = record j {
  status = scheduled;
  run_at = at;
  lease_owner = none;
  lease_expires_at = none;
  last_error = some reason;
  updated_at = at;
}

unfoldable pub give_up_leases : String → String → ℕ → Exec (List Job)
unfolding give_up_lease
give_up_leases worker reason at s = (
  ok (map (give_up_lease reason at) (where_rows (λ j. holds_lease j worker) s.jobs)),
  record s { jobs = update_rows (λ j. holds_lease j worker) (give_up_lease reason at) s.jobs },
)

unfoldable pub log_each : String → String → List Job → Exec (Unit {0})
log_each worker reason [] = pure tt
log_each worker reason (j ∷ js) = do
  add_event job_lease_released (some j.id) none (some worker) reason
  log_each worker reason js

-- `releaseWorkerLeases(workerId, { reason })`.
unfoldable pub release_worker_leases : String → String → Exec (List Job)
release_worker_leases worker reason = do
  at ← now_iso
  rows ← give_up_leases worker reason at
  log_each worker reason rows
  pure rows
