-- ===== src/Schedules/Created.antt =====
-- `createSchedule` (src/core/store.mjs): the row that it adds.
use distributed_job_queue_sc.Prelude.{
  true, ℕ, ◌≤◌, String, false, ◌≡◌, List, [], ◌∷◌, ◌++◌, Option, none, some, any, or_else, str_eq,
}
use distributed_job_queue_sc.Dates.{TimeZone}
use distributed_job_queue_sc.Prelude.Int.{negsuc, pos}
use distributed_job_queue_sc.Input.{
  normalize_retry_policy, optional_int, clamp_int, int, clamp_nat, bool_int,
}
use distributed_job_queue_sc.Text.{normalize_id_list, trim, or_text}
use distributed_job_queue_sc.Json.{Json, bool}
use distributed_job_queue_sc.Model.{Store, Schedule, ScheduleKind, interval, cron}
use distributed_job_queue_sc.Exec.{Exec, ok}
use distributed_job_queue_sc.Cron.Search.{next_cron_run}
use distributed_job_queue_sc.Input.Bounds
use distributed_job_queue_sc.Schedules.{
  normalize_id_list, normalize_name, ScheduleInput, read_kind, cron_text, stored_cron, get_schedule,
}
use distributed_job_queue_sc.Schedules.Frame.{schedules_of}

-- The first run of a new schedule.
abbrev pub FirstRun : TimeZone → ScheduleKind → String → Option ℕ → (at next : ℕ) → Type 0
FirstRun zone kind text (some t) at next = next ≡ t
FirstRun zone interval text none at next = next ≡ at
FirstRun zone cron text none at next = next_cron_run zone text at ≡ ok next

pub record Created (input : ScheduleInput) (s : Store) (c : Schedule) (t : Store) : Type 0 where
  pub added : t.schedules ≡ s.schedules ++ c ∷ []
  pub fresh : get_schedule c.id s.schedules ≡ none
  pub kind : c.schedule_kind ≡ read_kind input
  pub expression : c.cron_expr ≡ stored_cron (read_kind input) (cron_text input)
  pub first :
      FirstRun s.world.zone
        (read_kind input)
        (cron_text input)
        input.next_run_at
        c.created_at
        c.next_run_at
  pub type : c.type ≡ trim (or_text input.type "generic.scheduled")
  pub name : c.name ≡ trim (or_text input.name (or_text input.type "Recurring job"))
  pub queue : c.queue ≡ normalize_name input.queue
  pub priority :
      c.priority ≡ clamp_int (or_else input.priority (int (pos 0))) (negsuc 999) (pos 1000)
  pub max_attempts : c.max_attempts ≡ clamp_nat (or_else input.max_attempts (int (pos 3))) 1 50
  pub timeout_ms : c.timeout_ms ≡ optional_int input.timeout_ms 1 86400000
  pub capabilities : c.required_capabilities ≡ normalize_id_list input.required_capabilities
  pub retry_policy : c.retry_policy ≡ normalize_retry_policy input.retry_policy
  pub not_run : c.last_run_at ≡ none
  pub enabled : c.enabled ≡ bool_int (or_else input.enabled (bool true))
  pub every :
      c.interval_ms ≡ clamp_nat (or_else input.interval_ms (int (pos 60000))) 1000 31536000000
  pub interval_low : 1000 ≤ c.interval_ms
  pub interval_high : c.interval_ms ≤ 31536000000

abbrev Same : Store → List Schedule × TimeZone → Type 0
Same s plan = plan ≡ schedules_of s

-- What the INSERT does.
abbrev Inserted : Store → Schedule → List Schedule × TimeZone → Type 0
Inserted s row (rows, zone) =
    (rows ≡ s.schedules ++ row ∷ []) × (any (λ c. str_eq c.id row.id) s.schedules ≡ false)
