-- ===== src/Maintenance.antt =====
-- `pruneEvents` and `archiveTerminalJobs` (src/core/store.mjs).
pub mod Archive
pub mod Integrity
use distributed_job_queue_sc.Prelude.{
  ℕ, ◌-◌, ◌*◌, String, Bool, true, false, ◌&&◌, not, List, [], ◌∷◌, ◌++◌, Option, none, some,
  str_eq, ltb, leb, or_else, includes, map, length, take, where_rows, sort_by, concat,
}
use distributed_job_queue_sc.Text.{show}
use distributed_job_queue_sc.Input.{Parsed, clamp_nat}
use distributed_job_queue_sc.Model.{
  Job, Event, Archived, Store, is_terminal, maintenance_events_pruned, maintenance_jobs_archived,
}
use distributed_job_queue_sc.Exec.{Exec, ok, pure, gets, ◌>>=◌, ◌>>◌, now_iso, add_event}

abbrev day_ms : ℕ
day_ms = 86400000

-- The newest `keep` events.
unfoldable pub newest : ℕ → List Event → List Event
newest keep events = take keep (sort_by (λ a b. ltb b.created_at a.created_at) events)

-- The condition of the DELETE.
unfoldable pub is_pruned : ℕ → List Event → Event → Bool
is_pruned cutoff kept e = ltb e.created_at cutoff && not (includes e.id (map (λ k. k.id) kept))

unfoldable pub delete_events : ℕ → ℕ → Exec ℕ
unfolding newest is_pruned
delete_events cutoff keep s =
    let kept = newest keep s.events in
    (
      ok (length (where_rows (is_pruned cutoff kept) s.events)),
      record s { events = where_rows (λ e. not (is_pruned cutoff kept e)) s.events },
    )

-- `pruneEvents({ olderThanDays, keepLast })`.
unfoldable pub prune_events : Parsed → Parsed → Exec (ℕ × ℕ)
prune_events older_than_days keep_last = do
  at ← now_iso
  let cutoff = at - clamp_nat older_than_days 1 3650 * day_ms
  changes ← delete_events cutoff (clamp_nat keep_last 0 10000)
  add_event maintenance_events_pruned none none none
      (concat ("Pruned " ∷ show changes ∷ " old events." ∷ []))
  pure (changes, cutoff)

-- COALESCE(completed_at, cancelled_at, dead_lettered_at, updated_at)
unfoldable pub ended_at : Job → ℕ
ended_at j =
    or_else j.completed_at (or_else j.cancelled_at (or_else j.dead_lettered_at j.updated_at))

unfoldable pub is_archived : ℕ → Job → Bool
unfolding ended_at
is_archived cutoff j = is_terminal j.status && leb (ended_at j) cutoff

-- INSERT OR REPLACE INTO job_archive …, DELETE FROM jobs WHERE id = ?
unfoldable pub archive_one : ℕ → Job → Exec (Unit {0})
archive_one at j s = (
  ok tt,
  record s {
    job_archive =
        where_rows (λ a. not (str_eq a.id j.id)) s.job_archive
        ++ record { id = j.id; job = j; archived_at = at } ∷ [];
    jobs = where_rows (λ x. not (str_eq x.id j.id)) s.jobs;
  },
)

-- The transaction; none of its statements can be refused, so it is not rolled back.
unfoldable pub archive_each : ℕ → List Job → Exec (Unit {0})
archive_each at [] = pure tt
archive_each at (j ∷ js) = do archive_one at j; archive_each at js

-- `archiveTerminalJobs({ olderThanDays, limit })`.
unfoldable pub archive_terminal_jobs : Parsed → Parsed → Exec (ℕ × ℕ)
archive_terminal_jobs older_than_days limit = do
  at ← now_iso
  let cutoff = at - clamp_nat older_than_days 0 3650 * day_ms
  rows ← gets (λ s.
      take (clamp_nat limit 1 10000)
        (sort_by (λ a b. ltb a.updated_at b.updated_at) (where_rows (is_archived cutoff) s.jobs)))
  archive_each at rows
  add_event maintenance_jobs_archived none none none
      (concat ("Archived " ∷ show (length rows) ∷ " terminal jobs." ∷ []))
  pure (length rows, cutoff)
