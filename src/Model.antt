-- ===== src/Model.antt =====
-- The rows of the database (`migrate` and the `map…` functions of src/core/store.mjs), and the store.
-- Times are milliseconds since 1970; a JSON column is the value that its text stands for; a
-- nullable column is an `Option`.
use distributed_job_queue_sc.Prelude.{ℕ, String, Bool, true, false, List, Option}
use distributed_job_queue_sc.Prelude.Int.{ℤ}
use distributed_job_queue_sc.Json.{Json}
use distributed_job_queue_sc.Input.{RetryPolicy}
use distributed_job_queue_sc.Dates.{TimeZone}
use distributed_job_queue_sc.Guidance.{FailureHint}

-- `failed` is named by `requeueJob` alone; no statement writes it.
pub data Status : Type 0 where
  queued scheduled waiting_dependencies running completed cancelled dead_letter failed : Status

pub record Queue : Type 0 where
  pub id : String
  pub name : String
  pub concurrency : ℕ
  pub max_backlog : ℕ
  pub rate_limit_count : Option ℕ
  pub rate_limit_window_ms : Option ℕ
  pub retry_policy : Option RetryPolicy
  pub enabled : Bool
  pub created_at : ℕ
  pub updated_at : ℕ

pub record Job : Type 0 where
  pub id : String
  pub queue : String
  pub type : String
  pub payload : Json
  pub status : Status
  pub priority : ℤ
  pub attempts : ℕ
  pub max_attempts : ℕ
  pub run_at : ℕ
  pub lease_owner : Option String
  pub lease_expires_at : Option ℕ
  pub source_schedule_id : Option String
  pub idempotency_key : Option String
  pub last_error : Option String
  pub output : Option Json
  pub depends_on : List String
  pub workflow_id : Option String
  pub blocked_reason : Option String
  pub schema_errors : List String
  pub timeout_ms : Option ℕ
  pub required_capabilities : List String
  pub retry_policy : Option RetryPolicy
  pub failure_hint : Option FailureHint
  pub created_at : ℕ
  pub updated_at : ℕ
  pub started_at : Option ℕ
  pub completed_at : Option ℕ
  pub cancelled_at : Option ℕ
  pub dead_lettered_at : Option ℕ

pub data ScheduleKind : Type 0 where
  interval cron : ScheduleKind

pub record Schedule : Type 0 where
  pub id : String
  pub name : String
  pub queue : String
  pub type : String
  pub payload : Json
  pub schedule_kind : ScheduleKind
  pub cron_expr : Option String
  pub interval_ms : ℕ
  pub enabled : Bool
  pub priority : ℤ
  pub max_attempts : ℕ
  pub timeout_ms : Option ℕ
  pub required_capabilities : List String
  pub retry_policy : Option RetryPolicy
  pub next_run_at : ℕ
  pub last_run_at : Option ℕ
  pub created_at : ℕ
  pub updated_at : ℕ

pub data WorkerStatus : Type 0 where
  online draining offline : WorkerStatus

pub record Worker : Type 0 where
  pub id : String
  pub queues : List String
  pub capabilities : List String
  pub concurrency : ℕ
  pub status : WorkerStatus
  pub active_jobs : ℕ
  pub processed : ℕ
  pub failed : ℕ
  pub started_at : ℕ
  pub heartbeat_at : ℕ
  pub updated_at : ℕ

pub data Scope : Type 0 where
  by_type by_queue : Scope

pub record RateLimit : Type 0 where
  pub id : String
  pub scope : Scope
  pub target : String
  pub limit_count : ℕ
  pub window_ms : ℕ
  pub enabled : Bool
  pub created_at : ℕ
  pub updated_at : ℕ

-- The `type` column of an event, one constructor for each text that the store writes.
pub data EventType : Type 0 where
  queue_resumed queue_paused rate_limit_upserted job_idempotency_hit job_enqueued
        job_dependencies_registered job_claimed job_rate_limited job_completed
        job_dependencies_released job_retry_scheduled job_dead_lettered job_cancelled
        job_dependency_cancelled job_requeued dead_letter_bulk_replayed workflow_created
        schedule_created schedule_resumed schedule_paused schedule_dispatched job_lease_released
        job_lease_recovered job_timeout_recovered job_started snapshot_imported demo_seeded
        maintenance_vacuumed maintenance_events_pruned maintenance_jobs_archived :
      EventType

-- An event without its `metadata`, which nothing reads back.
pub record Event : Type 0 where
  pub id : String
  pub job_id : Option String
  pub schedule_id : Option String
  pub worker_id : Option String
  pub type : EventType
  pub message : String
  pub created_at : ℕ

pub record Archived : Type 0 where
  pub id : String
  pub job : Job
  pub archived_at : ℕ

-- What the runtime answers: the n-th reading of the clock, the n-th random id, the n-th draw below
-- a bound, `JSON.parse` and `JSON.stringify`, the time zone of the process, and `toISOString`. One
-- counter serves for the readings.
pub record World : Type 0 where
  pub clock : ℕ → ℕ
  pub uuid : ℕ → String
  pub random : ℕ → ℕ → ℕ
  pub json_parse : String → Option Json
  pub stringify : Json → String
  pub zone : TimeZone
  pub iso : ℕ → String
  pub reads : ℕ

pub record Store : Type 0 where
  pub world : World
  pub queues : List Queue
  pub rate_limits : List RateLimit
  pub jobs : List Job
  pub schedules : List Schedule
  pub workers : List Worker
  pub events : List Event
  pub job_archive : List Archived

-- Tests on the status column.
abbrev pub is_running : Status → Bool
is_running running = true
is_running _ = false

abbrev pub is_completed : Status → Bool
is_completed completed = true
is_completed _ = false

abbrev pub is_dead_letter : Status → Bool
is_dead_letter dead_letter = true
is_dead_letter _ = false

abbrev pub is_waiting : Status → Bool
is_waiting waiting_dependencies = true
is_waiting _ = false

-- status IN ('queued', 'scheduled')
abbrev pub is_dispatchable : Status → Bool
is_dispatchable queued = true
is_dispatchable scheduled = true
is_dispatchable _ = false

-- status IN ('queued', 'scheduled', 'waiting_dependencies')
abbrev pub is_pending : Status → Bool
is_pending queued = true
is_pending scheduled = true
is_pending waiting_dependencies = true
is_pending _ = false

-- `ACTIVE_STATUSES`
abbrev pub is_active : Status → Bool
is_active queued = true
is_active scheduled = true
is_active waiting_dependencies = true
is_active running = true
is_active _ = false

-- `TERMINAL_STATUSES`
abbrev pub is_terminal : Status → Bool
is_terminal completed = true
is_terminal cancelled = true
is_terminal dead_letter = true
is_terminal _ = false

abbrev pub is_failed : Status → Bool
is_failed failed = true
is_failed _ = false
