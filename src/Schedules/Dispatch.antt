-- ===== src/Schedules/Dispatch.antt =====
-- `dispatchDueSchedules` (src/core/store.mjs).
use distributed_job_queue_sc.Prelude.{
  ℕ, ◌+◌, String, Bool, ◌&&◌, List, [], ◌∷◌, ◌++◌, Option, none, some, ltb, leb, ◌==◌, str_eq,
  or_else, find, where_rows, update_rows, sort_by, take, concat,
}
use distributed_job_queue_sc.Json.{str}
use distributed_job_queue_sc.Input.{Parsed, clamp_nat}
use distributed_job_queue_sc.Model.{
  Job, Schedule, ScheduleKind, interval, cron, schedule_dispatched,
}
use distributed_job_queue_sc.Exec.{Exec, ok, pure, gets, ◌>>=◌, ◌>>◌, now_iso, add_event}
use distributed_job_queue_sc.Jobs.Enqueue.{enqueue_job}
use distributed_job_queue_sc.Schedules.{next_cron, scheduled_job, with_fields}

-- SELECT … WHERE enabled = 1 AND next_run_at <= ? ORDER BY next_run_at ASC LIMIT ?
unfoldable pub due_schedules : ℕ → ℕ → List Schedule → List Schedule
due_schedules at limit rows = take limit (
    sort_by (λ a b. ltb a.next_run_at b.next_run_at)
      (where_rows (λ c. c.enabled && leb c.next_run_at at) rows))

unfoldable pub run_of_kind : ScheduleKind → Schedule → ℕ → Exec ℕ
unfolding pure next_cron
run_of_kind cron c at = next_cron (or_else c.cron_expr "") at
run_of_kind interval c at = pure (c.next_run_at + c.interval_ms)

-- The next run of a row. A NULL expression is read as "".
unfoldable pub following_run : Schedule → ℕ → Exec ℕ
unfolding run_of_kind
following_run c at = run_of_kind c.schedule_kind c at

-- Whether a row is the one that was read, not dispatched since.
unfoldable pub is_untaken : Schedule → Schedule → Bool
is_untaken seen c = str_eq c.id seen.id && c.next_run_at == seen.next_run_at

-- UPDATE schedules SET last_run_at = ?, next_run_at = ?, updated_at = ?
-- WHERE id = ? AND next_run_at = ? RETURNING *
unfoldable pub take_run : Schedule → (at next : ℕ) → Exec (Option Schedule)
unfolding is_untaken
take_run seen at next s =
    let set =
      λ (c : Schedule). record c { last_run_at = some at; next_run_at = next; updated_at = at } in
    (
      ok (elim (find (is_untaken seen) s.schedules) [ none ↦ none | some c ↦ some (set c) ]),
      record s { schedules = update_rows (is_untaken seen) set s.schedules },
    )

pub record Dispatched : Type 0 where
  pub schedule : Schedule
  pub job : Job

-- What follows the update of one row.
unfoldable pub enqueue_run : String → ℕ → Schedule → Option Schedule → Exec (List Dispatched)
enqueue_run scheduler at seen none = pure []
enqueue_run scheduler at seen (some updated) = do
  iso ← gets (λ s. s.world.iso)
  job ← enqueue_job (
      scheduled_job seen
        (with_fields seen.payload "scheduledBy" (str seen.id) "scheduledAt" (str (iso at))))
  add_event schedule_dispatched (some job.id) (some seen.id) (some scheduler)
      (concat ("Schedule " ∷ seen.name ∷ " dispatched " ∷ job.type ∷ "." ∷ []))
  pure (record { schedule = updated; job = job } ∷ [])

-- The body of the loop.
unfoldable pub dispatch_one : String → ℕ → Schedule → Exec (List Dispatched)
dispatch_one scheduler at seen = do
  next ← following_run seen at
  updated ← take_run seen at next
  enqueue_run scheduler at seen updated

unfoldable pub dispatch_each : String → ℕ → List Schedule → Exec (List Dispatched)
dispatch_each scheduler at [] = pure []
dispatch_each scheduler at (c ∷ cs) = do
  this ← dispatch_one scheduler at c
  rest ← dispatch_each scheduler at cs
  pure (this ++ rest)

-- `dispatchDueSchedules({ schedulerId, limit })`.
unfoldable pub dispatch_due_schedules : String → Parsed → Exec (List Dispatched)
dispatch_due_schedules scheduler limit = do
  at ← now_iso
  rows ← gets (λ s. due_schedules at (clamp_nat limit 1 100) s.schedules)
  dispatch_each scheduler at rows
