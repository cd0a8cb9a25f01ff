-- ===== src/Queries.antt =====
-- The reads of the store that list rows: `listJobs`, `listEvents`, `listJobEvents`,
-- `getIdempotencyStats` (src/core/store.mjs).
pub mod Metrics
pub mod Series
pub mod Sorting
pub mod Listed
pub mod Candidates
pub mod Counts
use Prim.Native.Char.{code}
use distributed_job_queue_sc.Prelude.{
  ℕ, zero, suc, String, Bool, true, false, ◌&&◌, ◌||◌, List, [], ◌∷◌, Option, none, some, ltb, ◌==◌,
  str_eq, is_text, is_some, where_rows, count_rows, sort_by, take, concat, if◌then◌else◌,
}
use distributed_job_queue_sc.Text.{normalize_name, trim, lower, is_empty, is_truthy}
use distributed_job_queue_sc.Json.{Json}
use distributed_job_queue_sc.Input.{Parsed, clamp_nat}
use distributed_job_queue_sc.Model.{
  Store, Job, Event, EventType, Status, queued, scheduled, waiting_dependencies, running, completed,
  cancelled, dead_letter, failed, job_idempotency_hit,
}

-- The text of the status column.
abbrev pub status_text : Status → String
status_text queued = "queued"
status_text scheduled = "scheduled"
status_text waiting_dependencies = "waiting_dependencies"
status_text running = "running"
status_text completed = "completed"
status_text cancelled = "cancelled"
status_text dead_letter = "dead_letter"
status_text failed = "failed"

-- Some end of the text passes a test.
unfoldable pub any_end : (String → Bool) → String → Bool
any_end test String.[] = test String.[]
any_end test (String.◌∷◌ c s) = test (String.◌∷◌ c s) || any_end test s

-- `text LIKE pattern`, on lower-case texts: % stands for any text, _ for one character.
unfoldable pub like : String → String → Bool
unfolding is_empty any_end
like String.[] text = is_empty text
like (String.◌∷◌ p ps) String.[] = code p == b'%' && like ps String.[]
like (String.◌∷◌ p ps) (String.◌∷◌ c s) =
    if code p == b'%'
    then any_end (like ps) (String.◌∷◌ c s)
    else (code p == b'_' || code p == code c) && like ps s

unfoldable pub like_column : String → Option String → Bool
unfolding like lower
like_column pattern none = false
like_column pattern (some text) = like (lower pattern) (lower text)

-- The parameters of `listJobs`; a missing filter is `none`.
pub record JobFilter : Type 0 where
  pub status : Option String
  pub queue : Option String
  pub type : Option String
  pub worker_id : Option String
  pub workflow_id : Option String
  pub q : Option String
  pub limit : Parsed

-- A clause of the WHERE: it is there only if the parameter is true.
unfoldable pub passes : Option String → (String → Bool) → Bool
unfolding is_empty
passes none test = true
passes (some value) test = if is_empty value then true else test value

unfoldable pub mentions : (Json → String) → Job → String → Bool
unfolding like_column trim
mentions stringify j value =
    let pattern = concat ("%" ∷ trim value ∷ "%" ∷ []) in
    like_column pattern (some j.id)
    || like_column pattern (some j.type)
    || like_column pattern j.idempotency_key
    || like_column pattern (some (stringify j.payload))
    || like_column pattern j.last_error
    || like_column pattern j.workflow_id

unfoldable pub job_passes : JobFilter → (Json → String) → Job → Bool
unfolding passes mentions
job_passes f stringify j =
    passes f.status (str_eq (status_text j.status))
    && passes f.queue (λ q. str_eq j.queue (normalize_name q))
    && passes f.type (str_eq j.type)
    && passes f.worker_id (is_text j.lease_owner)
    && passes f.workflow_id (is_text j.workflow_id)
    && passes f.q (mentions stringify j)

abbrev pub newer : Job → Job → Bool
newer a b = ltb b.created_at a.created_at

-- `listJobs({ … })`.
unfoldable pub list_jobs : JobFilter → Store → List Job
unfolding job_passes clamp_nat
list_jobs f s =
    take (clamp_nat f.limit 1 500)
      (sort_by newer (where_rows (job_passes f s.world.stringify) s.jobs))

abbrev newer_event : Event → Event → Bool
newer_event a b = ltb b.created_at a.created_at

-- `listEvents({ limit })`.
unfoldable pub list_events : Parsed → Store → List Event
unfolding clamp_nat
list_events limit s = take (clamp_nat limit 1 500) (sort_by newer_event s.events)

-- `listJobEvents(jobId, { limit })`.
unfoldable pub list_job_events : String → Parsed → Store → List Event
unfolding clamp_nat
list_job_events id limit s = take (clamp_nat limit 1 500) (
    sort_by (λ a b. ltb a.created_at b.created_at) (where_rows (λ e. is_text e.job_id id) s.events))

abbrev is_hit : Event → Bool
is_hit e = elim e.type [ job_idempotency_hit ↦ true | _ ↦ false ]

pub record IdempotencyStats : Type 0 where
  pub saved_duplicate_submissions : ℕ
  pub tracked_idempotency_keys : ℕ
  pub recent_hits : List Event

-- `getIdempotencyStats()`.
unfoldable pub get_idempotency_stats : Store → IdempotencyStats
get_idempotency_stats s = record {
  saved_duplicate_submissions = count_rows is_hit s.events;
  tracked_idempotency_keys = count_rows (λ j. is_some j.idempotency_key) s.jobs;
  recent_hits = take 10 (sort_by newer_event (where_rows is_hit s.events));
}
