-- ===== src/Server.antt =====
-- The HTTP API: the routes of `createApp`, `routeParts`, `sendError`, `contentType`
-- (src/server/server.mjs). Writing the bytes of a response, the event stream and the files of the
-- dashboard are left out; the state that a change broadcasts is the one that it answers.
pub mod Routes
pub mod Serve
pub mod Answers
pub mod Safety
use distributed_job_queue_sc.Prelude.{
  ℕ, String, Bool, true, false, ◌&&◌, List, [], ◌∷◌, Option, none, some, str_eq, if◌then◌else◌,
}
use distributed_job_queue_sc.Text.{split_from, is_empty, lower}
use distributed_job_queue_sc.Json.{Json}
use distributed_job_queue_sc.Input.{Parsed}
use distributed_job_queue_sc.Model.{Job, Queue, RateLimit, Schedule, Event}
use distributed_job_queue_sc.Exec.{
  Error, not_found, failure, type_error, unique_constraint, out_of_fuel,
}
use distributed_job_queue_sc.Queues.{QueueInput}
use distributed_job_queue_sc.RateLimits.{RateLimitInput}
use distributed_job_queue_sc.Schedules.{ScheduleInput}
use distributed_job_queue_sc.Schedules.Dispatch.{Dispatched}
use distributed_job_queue_sc.Jobs.Enqueue.{JobInput}
use distributed_job_queue_sc.Jobs.Workflow.{Definition, Workflow}
use distributed_job_queue_sc.Autoscaler.{Options, Recommendation}
use distributed_job_queue_sc.Queries.{JobFilter, IdempotencyStats}
use distributed_job_queue_sc.Queries.Metrics.{Metrics}
use distributed_job_queue_sc.Queries.Series.{Bucket, Pool, State}
use distributed_job_queue_sc.Snapshots.{Snapshot}
use distributed_job_queue_sc.Demo.{Demo}

pub data Method : Type 0 where
  get_method post_method other_method : Method

-- The search parameters, as the queries read them.
pub record Query : Type 0 where
  pub autoscale : Options
  pub bucket_ms : ℕ
  pub series_limit : ℕ
  pub filter : JobFilter

-- One JSON body, as each method of the store reads its fields.
pub record Body : Type 0 where
  pub job : JobInput
  pub queue : QueueInput
  pub rate_limit : RateLimitInput
  pub schedule : ScheduleInput
  pub enabled : Json
  pub run_at : Option ℕ
  pub replay_queue : String
  pub replay_type : String
  pub replay_limit : Parsed
  pub max_attempts : Option Parsed
  pub name : String
  pub definitions : List Definition
  pub scenario : String
  pub snapshot : Snapshot
  pub mode : String
  pub older_than_days : Parsed
  pub keep_last : Parsed
  pub archive_limit : Parsed

-- `content` is `none` for a body that is not JSON.
pub record Request : Type 0 where
  pub method : Method
  pub pathname : String
  pub query : Query
  pub content : Option Body

-- What the process supplies: `decodeURIComponent` (`none` is its URIError), the order of
-- `localeCompare`, whether a path names a file of the dashboard, and the sizes of the database file
-- before and after a VACUUM.
pub record Platform : Type 0 where
  pub decode : String → Option String
  pub locale_before : String → String → Bool
  pub finds_file : String → Bool
  pub bytes_before : ℕ
  pub bytes_after : ℕ

-- `list.filter(Boolean)` of texts.
unfoldable pub not_blank : List String → List String
unfolding is_empty
not_blank [] = []
not_blank (s ∷ ss) = let rest = not_blank ss in if is_empty s then rest else s ∷ rest

unfoldable pub decode_each : (String → Option String) → List String → Option (List String)
decode_each decode [] = some []
decode_each decode (s ∷ ss) = elim (decode s) [
  | none ↦ none
  | some t ↦ elim (decode_each decode ss) [ none ↦ none | some ts ↦ some (t ∷ ts) ]
]

-- `routeParts(pathname)`.
unfoldable pub route_parts : (String → Option String) → String → Option (List String)
unfolding decode_each not_blank split_from
route_parts decode pathname = decode_each decode (not_blank (split_from b'/' "" pathname))

-- What a response carries.
pub data Payload : Type 0 where
  health : Payload
  openapi : Payload
  prometheus : Metrics → Payload
  stream : State → Payload
  state : State → Payload
  metrics : Metrics → Payload
  recommendation : Recommendation → Payload
  series : List Bucket → Payload
  worker_pools : List Pool → Payload
  idempotency : IdempotencyStats → Payload
  jobs : List Job → Payload
  rate_limits : List RateLimit → Payload
  events : List Event → Payload
  snapshot : Snapshot → Payload
  changed_rate_limit : RateLimit → State → Payload
  changed_queue : Queue → State → Payload
  changed_job : Job → State → Payload
  changed_jobs : List Job → State → Payload
  changed_workflow : Workflow → State → Payload
  changed_schedule : Schedule → State → Payload
  changed_dispatched : List Dispatched → State → Payload
  changed_demo : Demo → State → Payload
  changed_counts : ℕ × ℕ → State → Payload
  changed_bytes : ℕ → State → Payload
  static_file : String → Payload
  no_route : Payload
  failed_with : Error → Payload
  bad_syntax : Payload
  bad_uri : Payload

pub record Response : Type 0 where
  pub status : ℕ
  pub payload : Payload

-- `sendError(res, error)`: a NotFoundError carries the status code 404.
unfoldable pub error_status : Error → ℕ
error_status (not_found message) = 404
error_status (failure message) = 500
error_status type_error = 500
error_status unique_constraint = 500
error_status out_of_fuel = 500

-- `contentType(filePath)`, from the extension of the path.
unfoldable pub content_type : String → String
unfolding lower
content_type extension =
    let e = lower extension in
    if str_eq e ".html"
    then "text/html; charset=utf-8"
    else if str_eq e ".css"
    then "text/css; charset=utf-8"
    else if str_eq e ".js"
    then "text/javascript; charset=utf-8"
    else if str_eq e ".json"
    then "application/json; charset=utf-8"
    else if str_eq e ".svg"
    then "image/svg+xml"
    else "application/octet-stream"
