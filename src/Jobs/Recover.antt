-- ===== src/Jobs/Recover.antt =====
-- `recoverStaleLeases` and `recoverTimedOutJobs` (src/core/store.mjs).
use distributed_job_queue_sc.Prelude.{
  ℕ, ◌+◌, String, Bool, false, ◌&&◌, List, [], ◌∷◌, ◌++◌, Option, none, some, ltb, leb, or_else,
  where_rows, concat, if◌then◌else◌,
}
use distributed_job_queue_sc.Text.{show}
use distributed_job_queue_sc.Model.{
  Job, is_running, job_lease_recovered, job_dead_lettered, job_timeout_recovered,
}
use distributed_job_queue_sc.Exec.{Exec, or_type_error, pure, unless, gets, ◌>>=◌, ◌>>◌, add_event}
use distributed_job_queue_sc.Jobs.{expire_lease, time_out, update_job}
use distributed_job_queue_sc.Jobs.Cancel.{cancel_dependents}
use distributed_job_queue_sc.Jobs.Finish.{resolve_retry_policy, retry_delay, guidance}

abbrev pub before_now : Option ℕ → ℕ → Bool
before_now none now = false
before_now (some t) now = ltb t now

-- status = 'running' AND lease_expires_at IS NOT NULL AND lease_expires_at < ?
unfoldable pub is_stale : ℕ → Job → Bool
is_stale now j = is_running j.status && before_now j.lease_expires_at now

abbrev pub can_retry : Job → Bool
can_retry j = ltb j.attempts j.max_attempts

-- One round of the loop over the stale jobs.
unfoldable pub recover_stale : ℕ → Job → Exec Job
recover_stale now j = do
  let error = concat ("Lease expired for worker " ∷ or_else j.lease_owner "null" ∷ [])
  hint ← guidance error j
  found ← update_job (expire_lease (can_retry j) error hint now) j.id
  add_event (if can_retry j then job_lease_recovered else job_dead_lettered) (some j.id) none
      j.lease_owner
      (if can_retry j
        then "Expired lease recovered."
        else "Expired lease moved job to dead letter.")
  unless (can_retry j)
      (cancel_dependents j.id (concat ("Dependency " ∷ j.id ∷ " failed after lease expiry." ∷ [])))
  or_type_error found

unfoldable pub recover_each_stale : ℕ → List Job → Exec (List Job)
recover_each_stale now [] = pure []
recover_each_stale now (j ∷ js) = do
  this ← recover_stale now j
  rest ← recover_each_stale now js
  pure (this ∷ rest)

-- `recoverStaleLeases({ now })`.
unfoldable pub recover_stale_leases : ℕ → Exec (List Job)
recover_stale_leases now = do
  stale ← gets (λ s. where_rows (is_stale now) s.jobs)
  recover_each_stale now stale

abbrev pub ran_out : Option ℕ → Option ℕ → ℕ → Bool
ran_out (some started) (some timeout) now = leb (started + timeout) now
ran_out none timeout now = false
ran_out (some started) none now = false

-- status = 'running' AND timeout_ms, started_at NOT NULL AND now - started_at >= timeout_ms
unfoldable pub is_timed_out : ℕ → Job → Bool
is_timed_out now j = is_running j.status && ran_out j.started_at j.timeout_ms now

unfoldable pub timed_out_one : ℕ → ℕ → String → Job → Option Job → Exec (List Job)
timed_out_one now delay error j none = pure []
timed_out_one now delay error j (some row) = do
  add_event (if can_retry j then job_timeout_recovered else job_dead_lettered) (some j.id) none
      j.lease_owner
      (if can_retry j
        then concat ("Timed out job scheduled for retry after " ∷ show delay ∷ "ms." ∷ [])
        else "Timed out job moved to dead letter.")
  unless (can_retry j)
      (cancel_dependents j.id (concat ("Dependency " ∷ j.id ∷ " timed out permanently." ∷ [])))
  pure (row ∷ [])

-- One round of the loop over the timed-out jobs.
unfoldable pub recover_timed_out : ℕ → Job → Exec (List Job)
recover_timed_out now j = do
  policy ← gets (λ s. resolve_retry_policy s j 2000)
  delay ← (if can_retry j then retry_delay policy j.attempts else pure 0)
  let error = concat ("Job timed out after " ∷ show (or_else j.timeout_ms 0) ∷ "ms." ∷ [])
  hint ← guidance error j
  found ←
      update_job
        (time_out (can_retry j) error (if can_retry j then now + delay else j.run_at) hint now) j.id
  timed_out_one now delay error j found

unfoldable pub recover_each_timed_out : ℕ → List Job → Exec (List Job)
recover_each_timed_out now [] = pure []
recover_each_timed_out now (j ∷ js) = do
  this ← recover_timed_out now j
  rest ← recover_each_timed_out now js
  pure (this ++ rest)

-- `recoverTimedOutJobs({ now })`.
unfoldable pub recover_timed_out_jobs : ℕ → Exec (List Job)
recover_timed_out_jobs now = do
  rows ← gets (λ s. where_rows (is_timed_out now) s.jobs)
  recover_each_timed_out now rows
