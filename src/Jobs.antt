-- ===== src/Jobs.antt =====
-- The jobs table: the statements that write one row, found by its primary key, and the reads
-- (src/core/store.mjs).
pub mod Enqueue
pub mod Workflow
pub mod Cancel
pub mod Finish
pub mod Requeue
pub mod Recover
pub mod Claim
use distributed_job_queue_sc.Prelude.{
  ℕ, suc, ◌+◌, String, Bool, true, false, ◌&&◌, List, [], ◌∷◌, ◌++◌, Option, none, some, str_eq,
  ltb, leb, or_else, is_some, is_text, find, where_rows, count_rows, sort_by, concat, if◌then◌else◌,
  ◌||◌, any,
}
use distributed_job_queue_sc.Json.{Json}
use distributed_job_queue_sc.Guidance.{FailureHint}
use distributed_job_queue_sc.Model.{
  Job, Queue, Store, Status, queued, scheduled, waiting_dependencies, running, completed, cancelled,
  dead_letter, is_running, is_completed, is_waiting, is_dispatchable, is_pending, is_active,
}
use distributed_job_queue_sc.Exec.{Exec, ok, or_raise, pure, raise, gets, ◌>>=◌, ◌>>◌}
use distributed_job_queue_sc.Queues.{get_queue}

-- One constructor for each UPDATE of a job by its id, with the values that it writes.
pub data Change : Type 0 where
  claim : (worker : String) (lease_until at : ℕ) → Change
  defer : (retry_at : ℕ) (reason : String) (at : ℕ) → Change
  renew : (worker : String) (lease_until at : ℕ) → Change
  complete : (worker : String) (output : Json) (at : ℕ) → Change
  release : (later : Bool) (at : ℕ) → Change
  fail : (retry : Bool) (error : String) (run_at : ℕ) (hint : FailureHint) (at : ℕ) → Change
  cancel : (at : ℕ) → Change
  cancel_dependent : (reason : String) (at : ℕ) → Change
  requeue : (later : Bool) (run_at at : ℕ) → Change
  allow_attempts : (max_attempts : ℕ) → Change
  expire_lease : (retry : Bool) (error : String) (hint : FailureHint) (at : ℕ) → Change
  time_out : (retry : Bool) (error : String) (run_at : ℕ) (hint : FailureHint) (at : ℕ) → Change

abbrev pub later_status : Bool → Status
later_status later = if later then scheduled else queued

abbrev pub retry_status : Bool → Status
retry_status retry = if retry then scheduled else dead_letter

-- SELECT COUNT(*) FROM jobs WHERE queue = ? AND status = 'running'
unfoldable pub count_running : String → List Job → ℕ
count_running queue = count_rows (λ j. str_eq j.queue queue && is_running j.status)

-- COUNT(running) < (SELECT concurrency FROM queues WHERE name = ?); a missing queue gives NULL.
unfoldable pub has_room : Store → String → Bool
unfolding get_queue
has_room s queue = elim (get_queue queue s.queues) [
  | none ↦ false
  | some q ↦ ltb (count_running queue s.jobs) q.concurrency
]

abbrev pub holds_lease : Job → String → Bool
holds_lease j worker = is_text j.lease_owner worker && is_running j.status

-- The conditions of the WHERE clause beside `id = ?`.
unfoldable pub where_row : Store → Change → Job → Bool
where_row s (claim worker lease_until at) j =
    is_dispatchable j.status && leb j.run_at at && has_room s j.queue
where_row s (defer retry_at reason at) j = is_dispatchable j.status
where_row s (renew worker lease_until at) j = holds_lease j worker
where_row s (complete worker output at) j = holds_lease j worker
where_row s (release later at) j = is_waiting j.status
where_row s (cancel at) j = is_pending j.status
where_row s (cancel_dependent reason at) j = is_pending j.status
where_row s (time_out retry error run_at hint at) j = is_running j.status
where_row s (fail retry error run_at hint at) j = true
where_row s (requeue later run_at at) j = true
where_row s (allow_attempts n) j = true
where_row s (expire_lease retry error hint at) j = true

-- The three ways to end an attempt that failed.
unfoldable pub end_attempt : Bool → String → ℕ → FailureHint → ℕ → Job → Job
end_attempt retry error run_at hint at j = record j {
  status = retry_status retry;
  last_error = some error;
  run_at = run_at;
  lease_owner = none;
  lease_expires_at = none;
  failure_hint = some hint;
  dead_lettered_at = if retry then none else some at;
  updated_at = at;
}

-- The SET clause.
unfoldable pub set_row : Change → Job → Job
unfolding end_attempt
set_row (claim worker lease_until at) j = record j {
  status = running;
  attempts = j.attempts + 1;
  lease_owner = some worker;
  lease_expires_at = some lease_until;
  started_at = some (or_else j.started_at at);
  updated_at = at;
}
set_row (defer retry_at reason at) j = record j {
  status = scheduled;
  run_at = retry_at;
  blocked_reason = some reason;
  updated_at = at;
}
set_row (renew worker lease_until at) j = record j {
  lease_expires_at = some lease_until;
  updated_at = at;
}
set_row (complete worker output at) j = record j {
  status = completed;
  output = some output;
  lease_owner = none;
  lease_expires_at = none;
  completed_at = some at;
  updated_at = at;
}
set_row (release later at) j = record j {
  status = later_status later;
  blocked_reason = none;
  updated_at = at;
}
set_row (fail retry error run_at hint at) j = end_attempt retry error run_at hint at j
set_row (cancel at) j = record j { status = cancelled; cancelled_at = some at; updated_at = at }
set_row (cancel_dependent reason at) j = record j {
  status = cancelled;
  blocked_reason = some reason;
  cancelled_at = some at;
  updated_at = at;
}
set_row (requeue later run_at at) j = record j {
  status = later_status later;
  run_at = run_at;
  attempts = 0;
  lease_owner = none;
  lease_expires_at = none;
  last_error = none;
  blocked_reason = none;
  failure_hint = none;
  output = none;
  started_at = none;
  completed_at = none;
  cancelled_at = none;
  dead_lettered_at = none;
  updated_at = at;
}
set_row (allow_attempts n) j = record j { max_attempts = n }
set_row (expire_lease retry error hint at) j = end_attempt retry error at hint at j
set_row (time_out retry error run_at hint at) j = end_attempt retry error run_at hint at j

-- SELECT * FROM jobs WHERE id = ?
unfoldable pub get_job : String → List Job → Option Job
get_job id = find (λ j. str_eq j.id id)

-- The row of a key, replaced.
unfoldable pub replace_job : String → Job → List Job → List Job
replace_job id new [] = []
replace_job id new (j ∷ js) = if str_eq j.id id then new ∷ js else j ∷ replace_job id new js

unfoldable pub try_change : Change → String → Option Job → Exec (Option Job)
unfolding where_row set_row replace_job
try_change c id none s = (ok none, s)
try_change c id (some j) s =
    if where_row s c j
    then (ok (some (set_row c j)), record s { jobs = replace_job id (set_row c j) s.jobs })
    else (ok none, s)

-- UPDATE jobs SET … WHERE id = ? AND … RETURNING *: the new row, if one was updated.
unfoldable pub update_job : Change → String → Exec (Option Job)
unfolding try_change get_job
update_job c id s = try_change c id (get_job id s.jobs) s

-- `findJob(jobId)`.
unfoldable pub find_job : String → Exec Job
find_job id = do
  row ← gets (λ s. get_job id s.jobs)
  or_raise (concat ("Job not found: " ∷ id ∷ [])) row

-- `isJobCompleted(jobId)`.
unfoldable pub is_job_completed : Store → String → Bool
unfolding get_job
is_job_completed s id = elim (get_job id s.jobs) [ none ↦ false | some j ↦ is_completed j.status ]

-- `countActiveJobs(queue)`, for a normalised name.
unfoldable pub count_active_jobs : Store → String → ℕ
count_active_jobs s queue = count_rows (λ j. str_eq j.queue queue && is_active j.status) s.jobs

-- SELECT … ORDER BY created_at ASC
unfoldable pub by_created : (Job → Bool) → Store → List Job
by_created test s = sort_by (λ a b. ltb a.created_at b.created_at) (where_rows test s.jobs)

abbrev pub lease_missing : String → String
lease_missing id = concat ("Running job lease not found: " ∷ id ∷ [])
