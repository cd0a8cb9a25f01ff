-- ===== src/Jobs/Cancel.antt =====
-- `cancelJob` and `cancelDependentJobs` (src/core/store.mjs).
use distributed_job_queue_sc.Prelude.{
  ℕ, zero, suc, String, List, [], ◌∷◌, ◌++◌, Option, none, some, concat, includes, length,
  if◌then◌else◌,
}
use distributed_job_queue_sc.Model.{Job, is_pending, job_cancelled, job_dependency_cancelled}
use distributed_job_queue_sc.Exec.{
  Exec, or_fail, out_of_fuel, pure, raise, gets, ◌>>=◌, ◌>>◌, now_iso, add_event,
}
use distributed_job_queue_sc.Jobs.{cancel, cancel_dependent, update_job, by_created}

abbrev pub orphan_reason : String → String → String
orphan_reason id parent =
    concat ("Dependency " ∷ id ∷ " was cancelled because " ∷ parent ∷ " could not complete." ∷ [])

-- What follows the UPDATE of one candidate: its event, its own dependents, the other candidates.
unfoldable pub cancelled_one :
    (String → String → Exec (List Job))
    → String
    → String
    → Exec (List Job)
    → Option Job
    → Exec (List Job)
cancelled_one descend parent reason rest none = rest
cancelled_one descend parent reason rest (some row) = do
  add_event job_dependency_cancelled (some row.id) none none reason
  below ← descend row.id (orphan_reason row.id parent)
  others ← rest
  pure (row ∷ below ++ others)

-- The loop over the candidates; `descend` is the call for the dependents of a cancelled job.
unfoldable pub cancel_each :
    (String → String → Exec (List Job)) → String → String → ℕ → List Job → Exec (List Job)
cancel_each descend parent reason at [] = pure []
cancel_each descend parent reason at (c ∷ cs) =
    let rest = cancel_each descend parent reason at cs in
    let this =
      update_job (cancel_dependent reason at) c.id >>= cancelled_one descend parent reason rest in
    if includes parent c.depends_on then this else rest

-- `cancelDependentJobs(parentJobId, { reason })`. Each level of the recursion follows a job that it
-- has just cancelled, so more levels than there are jobs are never needed.
unfoldable pub cancel_dependent_jobs : ℕ → String → String → Exec (List Job)
cancel_dependent_jobs zero parent reason = raise out_of_fuel
cancel_dependent_jobs (suc fuel) parent reason = do
  at ← now_iso
  candidates ← gets (by_created (λ j. is_pending j.status))
  cancel_each (cancel_dependent_jobs fuel) parent reason at candidates

-- The call at the top, with fuel that is enough.
unfoldable pub cancel_dependents : String → String → Exec (List Job)
unfolding cancel_dependent_jobs
cancel_dependents parent reason s = cancel_dependent_jobs (suc (length s.jobs)) parent reason s

abbrev pub not_cancellable : String
not_cancellable = "Only queued, scheduled, or dependency-waiting jobs can be cancelled."

-- `cancelJob(jobId)`.
unfoldable pub cancel_job : String → Exec Job
cancel_job id = do
  at ← now_iso
  found ← update_job (cancel at) id
  row ← or_fail not_cancellable found
  add_event job_cancelled (some id) none none (concat ("Job " ∷ row.type ∷ " cancelled." ∷ []))
  cancel_dependents id (concat ("Dependency " ∷ id ∷ " was cancelled." ∷ []))
  pure row
