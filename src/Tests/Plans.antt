-- ===== src/Tests/Plans.antt =====
-- Schedules and cron expressions at concrete stores.
use distributed_job_queue_sc.Prelude.{
  true, false, ◌≡◌, ◌↔◌, ◌≤◌, ◌<◌, ◌+◌, ◌*◌, ◌%◌, refl, [], ◌∷◌, none, some, where_rows, sort_by,
}
use distributed_job_queue_sc.Prelude.Int.{pos}
use distributed_job_queue_sc.Dates.{utc}
use distributed_job_queue_sc.Json.{obj, end}
use distributed_job_queue_sc.Text.{absent, split_from}
use distributed_job_queue_sc.Input.{int, clamp_nat}
use distributed_job_queue_sc.Model.{Store, Schedule, interval, cron}
use distributed_job_queue_sc.Exec.{err}
use distributed_job_queue_sc.Exec.Outcome.{Ends, Throws}
use distributed_job_queue_sc.Cron.{has}
use distributed_job_queue_sc.Cron.Search.{
  parse_cron_expression, next_cron_run, max_checks, five_fields,
}
use distributed_job_queue_sc.Cron.Range.{Listed, parse_field-Listed}
use distributed_job_queue_sc.Cron.Next.{NextRun, next_cron_run-NextRun}
use distributed_job_queue_sc.Cron.Zone.{utc-KeepsOffset, next_cron_run-later}
use distributed_job_queue_sc.Schedules.{ScheduleInput}
use distributed_job_queue_sc.Schedules.Dispatch.{dispatch_due_schedules, due_schedules}
use distributed_job_queue_sc.Schedules.Runs.{Rows, Took}
use distributed_job_queue_sc.Schedules.Batch.{now, selected}
use distributed_job_queue_sc.Schedules.Fired.{Fired, dispatch_due_schedules-Fired}
use distributed_job_queue_sc.Schedules.Blocked.{dispatch_due_schedules-Throws}
use distributed_job_queue_sc.Schedules.Created.{Created}
use distributed_job_queue_sc.Tests.{store}
use distributed_job_queue_sc.Tests.Calls.{unique}
use distributed_job_queue_sc.Tests.Cron.{steps, march}

parse_field-Listed_example :
    (has (0 ∷ 15 ∷ 30 ∷ 45 ∷ 7 ∷ 8 ∷ 9 ∷ []) 45 ≡ true)
    ↔ ((0 ≤ 45) × (45 ≤ 59) × Listed (split_from b',' "" "*/15, 7-9") 0 59 45)
parse_field-Listed_example = parse_field-Listed "*/15, 7-9" 0 59 steps 45

next_cron_run-NextRun_example :
    NextRun utc "0 0 1 * *" 1709251170500 (next_cron_run utc "0 0 1 * *" 1709251170500)
next_cron_run-NextRun_example = next_cron_run-NextRun utc "0 0 1 * *" 1709251170500

next_cron_run-later_example :
    (1709251170500 < 1709251200000)
    × (1709251200000 % 60000 ≡ 0)
    × (1709251200000 ≤ 1709251170500 + max_checks * 60000)
next_cron_run-later_example =
    next_cron_run-later utc "0 0 1 * *" 1709251170500 utc-KeepsOffset march

abbrev pub hourly : Schedule
hourly = record {
  id = "sched-1";
  name = "Hourly report";
  queue = "email";
  type = "generic.report";
  payload = obj end;
  schedule_kind = interval;
  cron_expr = none;
  interval_ms = 3600000;
  enabled = true;
  priority = pos 0;
  max_attempts = 3;
  timeout_ms = none;
  required_capabilities = [];
  retry_policy = none;
  next_run_at = 90000;
  last_run_at = none;
  created_at = 1;
  updated_at = 1;
}

-- A cron schedule that was created with a first run and no expression.
abbrev pub unreadable : Schedule
unreadable = record hourly {
  id = "sched-2";
  schedule_kind = cron;
  cron_expr = some "undefined";
  next_run_at = 80000;
}

abbrev pub planned : Store
planned = record store { schedules = hourly ∷ unreadable ∷ [] }

-- One schedule that is due and one that is not.
abbrev timetable : Store
timetable = record store {
  schedules = hourly ∷ record hourly { id = "sched-3"; next_run_at = 900000000 } ∷ [];
}

dispatch_due_schedules-Fired_example :
    Ends
      (dispatch_due_schedules "scheduler-1" (int (pos 25)))
      timetable
      (λ ds t.
        Fired timetable (selected (int (pos 25)) timetable) ds t
        × Rows
            (Took utc
              (now timetable)
              (selected (int (pos 25)) timetable)
              (selected (int (pos 25)) timetable))
            timetable.schedules
            t.schedules)
      (λ t.
        Rows
          (Took utc (now timetable) [] (selected (int (pos 25)) timetable))
          timetable.schedules
          t.schedules)
dispatch_due_schedules-Fired_example =
    dispatch_due_schedules-Fired "scheduler-1" (int (pos 25)) timetable ((refl, tt), (tt, tt))
      unique

unreadable_first :
    due_schedules (now planned) (clamp_nat (int (pos 25)) 1 100) planned.schedules
    ≡ unreadable ∷ hourly ∷ []
unfolding due_schedules clamp_nat where_rows sort_by
unreadable_first = refl

undefined_fails : parse_cron_expression "undefined" ≡ err five_fields
unfolding parse_cron_expression
undefined_fails = refl

dispatch_due_schedules-Throws_example :
    Throws
      (dispatch_due_schedules "scheduler-1" (int (pos 25)))
      planned
      five_fields
      (λ t. (t.schedules ≡ planned.schedules) × (t.jobs ≡ planned.jobs))
dispatch_due_schedules-Throws_example =
    dispatch_due_schedules-Throws "scheduler-1" (int (pos 25)) planned unreadable (hourly ∷ [])
      unreadable_first refl undefined_fails

abbrev pub nightly : ScheduleInput
nightly = record {
  id = some "sched-9";
  name = "Nightly";
  queue = "email";
  type = "generic.report";
  payload = obj end;
  schedule_kind = "";
  cron_expr = some "0 2 * * *";
  cron = none;
  interval_ms = none;
  enabled = none;
  priority = none;
  max_attempts = none;
  next_run_at = none;
  timeout_ms = none;
  required_capabilities = absent;
  retry_policy = none;
  allow_invalid_payload = false;
}
