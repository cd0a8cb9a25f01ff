-- ===== src/Demo.antt =====
-- The inputs that the store makes itself: `seedDefaults`, `seedDemoScenario`; and
-- `vacuumDatabase` (src/core/store.mjs).
pub mod Failures
pub mod Moves
use distributed_job_queue_sc.Prelude.{
  ℕ, suc, zero, ◌-◌, String, Bool, true, false, List, [], ◌∷◌, ◌++◌, Option, none, some, str_eq,
  concat, map, if◌then◌else◌,
}
use distributed_job_queue_sc.Prelude.Int.{ℤ, pos, sub_ℕ}
use distributed_job_queue_sc.Text.{absent, items, show, or_text}
use distributed_job_queue_sc.Json.{Json, null, bool, num, str, obj, Fields, end, field}
use distributed_job_queue_sc.Input.{Parsed, int, RetryInput}
use distributed_job_queue_sc.Model.{Job, Schedule, demo_seeded, maintenance_vacuumed}
use distributed_job_queue_sc.Exec.{Exec, pure, ◌>>=◌, ◌>>◌, create_id, add_event}
use distributed_job_queue_sc.Queues.{QueueInput, queue_named, upsert_queue}
use distributed_job_queue_sc.RateLimits.{RateLimitInput, upsert_rate_limit}
use distributed_job_queue_sc.Schedules.{ScheduleInput, create_schedule}
use distributed_job_queue_sc.Jobs.Enqueue.{JobInput, enqueue_job}
use distributed_job_queue_sc.Jobs.Workflow.{Definition, Workflow, create_workflow}

abbrev whole : ℕ → Option Parsed
whole n = some (int (pos n))

abbrev queue_sized : String → (concurrency max_backlog : ℕ) → QueueInput
queue_sized name concurrency max_backlog = record (queue_named name) {
  concurrency = whole concurrency;
  max_backlog = whole max_backlog;
}

-- `seedDefaults()`.
unfoldable pub seed_defaults : Exec (Unit {0})
seed_defaults = do
  upsert_queue (queue_sized "critical" 2 1000)
  upsert_queue (queue_sized "default" 4 5000)
  upsert_queue (queue_sized "bulk" 2 10000)
  pure tt

abbrev policy : String → (base max_delay jitter : ℕ) → Option RetryInput
policy strategy base max_delay jitter = some record {
  strategy = some strategy;
  base_ms = whole base;
  max_delay_ms = whole max_delay;
  jitter_ms = whole jitter;
}

-- A request with the fields that these scenarios set.
abbrev request : (queue type capability : String) → Fields → JobInput
request queue type capability payload = record {
  id = none;
  queue = queue;
  type = type;
  payload = obj payload;
  priority = none;
  max_attempts = none;
  run_at = none;
  depends_on = absent;
  idempotency_key = none;
  workflow_id = none;
  source_schedule_id = none;
  timeout_ms = none;
  required_capabilities = items (capability ∷ []);
  retry_policy = none;
  allow_invalid_payload = false;
}

abbrev text : String → String → Fields → Fields
text k v = field k (str v)

abbrev number : String → ℕ → Fields → Fields
number k n = field k (num (pos n))

abbrev demo_key : String → String → Option String
demo_key marker name = some (concat (marker ∷ ":" ∷ name ∷ []))

abbrev webhook_limit : ℕ → RateLimitInput
webhook_limit n = record {
  scope = "type";
  target = "webhook.deliver";
  limit_count = whole n;
  window_ms = whole 60000;
  enabled = none;
}

unfoldable pub demo_queues : Exec (Unit {0})
demo_queues = do
  upsert_queue (record (queue_sized "critical" 2 1000) {
    rate_limit_count = whole 20;
    rate_limit_window_ms = whole 60000;
    retry_policy = policy "exponential" 1500 30000 500;
  })
  upsert_queue
      (record (queue_sized "default" 4 5000) { retry_policy = policy "fixed" 1000 5000 250 })
  upsert_queue (queue_sized "bulk" 2 10000)
  upsert_rate_limit (webhook_limit 8)
  pure tt

unfoldable pub demo_jobs : String → Exec (List Job)
demo_jobs marker = do
  incident ←
      enqueue_job
        (record (request "critical" "webhook.deliver" "webhook"
          (text "endpoint" "https://example.com/incident" (number "durationMs" 300 end))) {
            priority = whole 10;
            timeout_ms = whole 5000;
            idempotency_key = demo_key marker "incident-webhook";
          })
  retryable ←
      enqueue_job
        (record (request "default" "webhook.deliver" "webhook" (
          text "endpoint" "https://example.com/retry"
            (number "failUntilAttempt" 1 (number "durationMs" 200 end)))) {
              priority = whole 7;
              max_attempts = whole 3;
              idempotency_key = demo_key marker "retryable-webhook";
            })
  email ←
      enqueue_job
        (record (request "default" "email.digest" "email" (
          text "recipient" "ops@example.com"
            (text "template" "daily-ops" (number "durationMs" 250 end)))) {
              priority = whole 2;
              idempotency_key = demo_key marker "daily-email";
            })
  enqueue_job
      (record (request "default" "email.digest" "email"
        (text "recipient" "ops@example.com" (number "durationMs" 250 end))) {
          required_capabilities = absent;
          idempotency_key = demo_key marker "daily-email";
        })
  pure (incident ∷ retryable ∷ email ∷ [])

abbrev heartbeat_schedule : ScheduleInput
heartbeat_schedule = record {
  id = none;
  name = "Demo cron heartbeat";
  queue = "critical";
  type = "webhook.deliver";
  payload = obj (text "endpoint" "https://example.com/heartbeat" (number "durationMs" 200 end));
  schedule_kind = "";
  cron_expr = some "*/5 * * * *";
  cron = none;
  interval_ms = none;
  enabled = none;
  priority = none;
  max_attempts = none;
  next_run_at = none;
  timeout_ms = none;
  required_capabilities = items ("webhook" ∷ []);
  retry_policy = none;
  allow_invalid_payload = false;
}

abbrev depending : String → JobInput → JobInput
depending key input = record input { depends_on = items (key ∷ []) }

abbrev demo_definitions : List Definition
demo_definitions =
    record {
      key = "extract";
      job =
          request "bulk" "report.generate" "report"
            (text "reportId" "demo-extract" (number "rows" 500 (number "durationMs" 250 end)));
    }
    ∷ record {
      key = "warm";
      job = depending "extract" (
          request "default" "cache.warm" "cache"
            (text "keyPattern" "demo:report:*" (number "durationMs" 200 end)));
    }
    ∷ record {
      key = "notify";
      job = depending "warm" (
          request "critical" "webhook.deliver" "webhook"
            (text "endpoint" "https://example.com/report-ready" (number "durationMs" 200 end)));
    }
    ∷ []

pub record Demo : Type 0 where
  pub marker : String
  pub jobs : List Job
  pub schedule : Schedule
  pub workflow : Workflow

-- `seedDemoScenario()`.
unfoldable pub seed_demo_scenario : Exec Demo
seed_demo_scenario = do
  marker ← create_id "demo" "scenario"
  demo_queues
  jobs ← demo_jobs marker
  schedule ← create_schedule heartbeat_schedule
  workflow ← create_workflow "Demo reporting DAG" demo_definitions
  add_event demo_seeded none none none "Demo scenario seeded."
  pure (record { marker = marker; jobs = jobs; schedule = schedule; workflow = workflow })

-- `vacuumDatabase()`: VACUUM changes no row. The sizes of the file are arguments.
unfoldable pub vacuum_database : (before_bytes after_bytes : ℕ) → Exec ℕ
vacuum_database before_bytes after_bytes = do
  add_event maintenance_vacuumed none none none "Database vacuum completed."
  pure (before_bytes - after_bytes)
