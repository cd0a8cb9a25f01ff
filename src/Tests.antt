-- ===== src/Tests.antt =====
-- A small store: a queue, a completed job, a job that runs, a job that waits for it, a job on its last
-- attempt, and a job that waits for that one.
pub mod Cron
pub mod Plans
pub mod Processes
pub mod Server
pub mod Calls
pub mod Replays
pub mod Requests
use distributed_job_queue_sc.Prelude.{
  ℕ, ◌+◌, ◌-◌, String, true, false, List, [], ◌∷◌, Option, none, some,
}
use distributed_job_queue_sc.Prelude.Int.{pos}
use distributed_job_queue_sc.Dates.{utc}
use distributed_job_queue_sc.Json.{Json, null, obj, end}
use distributed_job_queue_sc.Text.{items, absent}
use distributed_job_queue_sc.Model.{
  Status, queued, scheduled, waiting_dependencies, running, completed, Job, Queue, World, Store,
}
use distributed_job_queue_sc.Jobs.Enqueue.{JobInput}
use distributed_job_queue_sc.Jobs.Claim.{ClaimInput}

abbrev pub world : World
world = record {
  clock = λ n. 100000 + n;
  uuid = λ n. "0a1b2c3d";
  random = λ k n. n - 1;
  json_parse = λ text. none;
  stringify = λ v. "{}";
  zone = utc;
  iso = λ t. "2024-03-01T00:00:00.000Z";
  reads = 0;
}

abbrev pub email : Queue
email = record {
  id = "email";
  name = "email";
  concurrency = 2;
  max_backlog = 10;
  rate_limit_count = none;
  rate_limit_window_ms = none;
  retry_policy = none;
  enabled = true;
  created_at = 1;
  updated_at = 1;
}

abbrev job : (id : String) (status : Status) (attempts : ℕ) (depends_on : List String) → Job
job id status attempts depends_on = record {
  id = id;
  queue = "email";
  type = "generic.job";
  payload = obj end;
  status = status;
  priority = pos 0;
  attempts = attempts;
  max_attempts = 3;
  run_at = 10;
  lease_owner = none;
  lease_expires_at = none;
  source_schedule_id = none;
  idempotency_key = none;
  last_error = none;
  output = none;
  depends_on = depends_on;
  workflow_id = none;
  blocked_reason = none;
  schema_errors = [];
  timeout_ms = none;
  required_capabilities = [];
  retry_policy = none;
  failure_hint = none;
  created_at = 10;
  updated_at = 10;
  started_at = none;
  completed_at = none;
  cancelled_at = none;
  dead_lettered_at = none;
}

abbrev leased : (id : String) (attempts : ℕ) → Job
leased id attempts = record (job id running attempts []) {
  lease_owner = some "w1";
  lease_expires_at = some 200000;
  started_at = some 20;
}

abbrev pub done_job : Job
done_job = record (job "job-0" completed 1 []) {
  output = some (obj end);
  completed_at = some 30;
  started_at = some 20;
}

abbrev pub first_try : Job
first_try = leased "job-1" 1

abbrev pub waiting_job : Job
waiting_job = job "job-2" waiting_dependencies 0 ("job-0" ∷ "job-1" ∷ [])

abbrev pub last_try : Job
last_try = leased "job-3" 3

abbrev pub dependent : Job
dependent = job "job-4" waiting_dependencies 0 ("job-3" ∷ [])

abbrev pub jobs : List Job
jobs = done_job ∷ first_try ∷ waiting_job ∷ last_try ∷ dependent ∷ []

abbrev pub store : Store
store = record {
  world = world;
  queues = email ∷ [];
  rate_limits = [];
  jobs = jobs;
  schedules = [];
  workers = [];
  events = [];
  job_archive = [];
}

abbrev pub request : JobInput
request = record {
  id = some "job-5";
  queue = "Email";
  type = "generic.job";
  payload = obj end;
  priority = none;
  max_attempts = none;
  run_at = none;
  depends_on = items ("job-1" ∷ []);
  idempotency_key = some "once";
  workflow_id = none;
  source_schedule_id = none;
  timeout_ms = none;
  required_capabilities = absent;
  retry_policy = none;
  allow_invalid_payload = false;
}

abbrev pub claim_request : ClaimInput
claim_request = record {
  worker_id = "w2";
  queues = "email" ∷ [];
  capabilities = absent;
  limit = 5;
  lease_ms = 30000;
  aging_interval_ms = 60000;
}
