-- ===== src/Jobs/Requeue.antt =====
-- `requeueJob` and `requeueDeadLetters` (src/core/store.mjs).
use distributed_job_queue_sc.Prelude.{
  ℕ, String, Bool, ◌||◌, ◌&&◌, List, [], ◌∷◌, Option, none, some, str_eq, ltb, or_else, where_rows,
  sort_by, take, concat, length, if◌then◌else◌,
}
use distributed_job_queue_sc.Text.{normalize_name, show, is_empty}
use distributed_job_queue_sc.Input.{Parsed, clamp_nat}
use distributed_job_queue_sc.Model.{
  Job, is_terminal, is_failed, is_dead_letter, job_requeued, dead_letter_bulk_replayed,
}
use distributed_job_queue_sc.Exec.{
  Exec, failure, or_type_error, pure, raise, gets, ◌>>=◌, ◌>>◌, now_iso, add_event,
}
use distributed_job_queue_sc.Jobs.{requeue, allow_attempts, find_job, update_job}

abbrev pub not_requeueable : String
not_requeueable = "Only completed, cancelled, failed, or dead-letter jobs can be requeued."

-- `requeueJob(jobId, { runAt })`; without a `runAt`, the clock is read for it first.
unfoldable pub run_at_or_now : Option ℕ → Exec ℕ
run_at_or_now none = now_iso
run_at_or_now (some t) = pure t

unfoldable pub requeue_job : String → Option ℕ → Exec Job
requeue_job id asked = do
  run_at ← run_at_or_now asked
  at ← now_iso
  current ← find_job id
  (if is_terminal current.status || is_failed current.status
      then pure tt
      else raise (failure not_requeueable))
  now ← now_iso
  found ← update_job (requeue (ltb now run_at) run_at at) id
  row ← or_type_error found
  add_event job_requeued (some id) none none (concat ("Job " ∷ row.type ∷ " requeued." ∷ []))
  pure row

-- The filters of `requeueDeadLetters`; "" is a filter that is not given.
unfoldable pub is_replayed : String → String → Job → Bool
unfolding is_empty normalize_name
is_replayed queue type j =
    is_dead_letter j.status
    && (is_empty queue || str_eq j.queue (normalize_name queue))
    && (is_empty type || str_eq j.type type)

unfoldable pub replay_one : Option Parsed → Job → Exec Job
replay_one none j = requeue_job j.id none
replay_one (some n) j = do
  update_job (allow_attempts (clamp_nat n 1 50)) j.id
  requeue_job j.id none

unfoldable pub replay_each : Option Parsed → List Job → Exec (List Job)
replay_each most [] = pure []
replay_each most (j ∷ js) = do
  this ← replay_one most j
  rest ← replay_each most js
  pure (this ∷ rest)

-- ORDER BY dead_lettered_at DESC, NULL last.
unfoldable pub later_dead : Job → Job → Bool
later_dead a b = ltb (or_else b.dead_lettered_at 0) (or_else a.dead_lettered_at 0)

-- `requeueDeadLetters({ queue, type, limit, maxAttempts })`.
unfoldable pub requeue_dead_letters : String → String → Parsed → Option Parsed → Exec (List Job)
requeue_dead_letters queue type limit most = do
  rows ← gets (λ s. sort_by later_dead (where_rows (is_replayed queue type) s.jobs))
  requeued ← replay_each most (take (clamp_nat limit 1 1000) rows)
  add_event dead_letter_bulk_replayed none none none
      (concat ("Requeued " ∷ show (length requeued) ∷ " dead-letter jobs." ∷ []))
  pure requeued
