-- ===== src/Jobs/Enqueue.antt =====
-- `enqueueJob` (src/core/store.mjs).
use distributed_job_queue_sc.Prelude.{
  ℕ, String, Bool, true, false, ◌||◌, List, [], ◌∷◌, ◌++◌, Option, none, some, concat, any, length,
  ltb, leb, or_else, is_text, find, str_eq, if◌then◌else◌,
}
use distributed_job_queue_sc.Prelude.Int.{pos, negsuc}
use distributed_job_queue_sc.Text.{
  normalize_name, normalize_id_list, IdList, or_text, trim, show, empty_to_null, is_truthy,
}
use distributed_job_queue_sc.Json.{Json, null, str, obj, end, field}
use distributed_job_queue_sc.Schemas.{validate_payload}
use distributed_job_queue_sc.Input.{
  Parsed, int, clamp_int, clamp_nat, optional_int, RetryInput, normalize_retry_policy,
}
use distributed_job_queue_sc.Model.{
  Job, Store, Status, queued, scheduled, waiting_dependencies, job_idempotency_hit, job_enqueued,
  job_dependencies_registered,
}
use distributed_job_queue_sc.Exec.{
  Exec, ok, failure, type_error, unique_constraint, pure, raise, gets, ◌>>=◌, ◌>>◌, now_iso,
  create_id, add_event,
}
use distributed_job_queue_sc.Queues.{ensure_queue, find_queue}
use distributed_job_queue_sc.Jobs.{find_job, is_job_completed, count_active_jobs}

-- A request; the two spellings of a field (`dependsOn`, `depends_on`) are one here, a missing text
-- field is "" or `none`, and `run_at` is a valid date.
pub record JobInput : Type 0 where
  pub id : Option String
  pub queue : String
  pub type : String
  pub payload : Json
  pub priority : Option Parsed
  pub max_attempts : Option Parsed
  pub run_at : Option ℕ
  pub depends_on : IdList
  pub idempotency_key : Option String
  pub workflow_id : Option String
  pub source_schedule_id : Option String
  pub timeout_ms : Option Parsed
  pub required_capabilities : IdList
  pub retry_policy : Option RetryInput
  pub allow_invalid_payload : Bool

-- `parseJson(value, fallback)` of a text that is not empty.
abbrev pub parse_or : (String → Option Json) → String → Json → Json
parse_or parse s fallback = or_else (parse s) fallback

-- `normalizePayload(value)`.
unfoldable pub normalize_payload : (String → Option Json) → Json → Json
normalize_payload parse null = obj end
normalize_payload parse (str s) =
    if str_eq s "" then obj end else parse_or parse s (obj (field "value" (str s) end))
normalize_payload parse v = v

-- The ids of `depends_on` that are not completed.
unfoldable pub waiting_on : Store → List String → List String
unfolding is_job_completed
waiting_on s [] = []
waiting_on s (id ∷ ids) =
    let rest = waiting_on s ids in if is_job_completed s id then rest else id ∷ rest

unfoldable pub initial_status : List String → ℕ → ℕ → Status
initial_status [] run_at at = if ltb at run_at then scheduled else queued
initial_status (id ∷ ids) run_at at = waiting_dependencies

abbrev pub waiting_reason : List String → Option String
waiting_reason [] = none
waiting_reason ids = some (concat ("Waiting on " ∷ show (length ids) ∷ " dependencies." ∷ []))

abbrev pub join_spaced : List String → String
join_spaced [] = ""
join_spaced (e ∷ []) = e
join_spaced (e ∷ es) = concat (e ∷ " " ∷ join_spaced es ∷ [])

abbrev pub null_if_empty : Option String → Option String
null_if_empty none = none
null_if_empty (some s) = if str_eq s "" then none else some s

-- `throw` unless the payload is valid or the request allows an invalid one; the stored errors.
unfoldable pub check_payload : Bool → Option (List String) → Exec (List String)
check_payload allow none = raise type_error
check_payload allow (some []) = pure []
check_payload allow (some errors) =
    if allow
    then pure errors
    else raise (failure (concat ("Payload validation failed: " ∷ join_spaced errors ∷ [])))

-- The given id, if it is a text that is not empty, or a new one.
unfoldable pub given_or_new : Option String → Exec String → Exec String
unfolding is_truthy
given_or_new none fresh = fresh
given_or_new (some id) fresh = if str_eq id "" then fresh else pure id

abbrev pub same_key : Option String → Option String → Bool
same_key none k = false
same_key (some a) k = is_text k a

-- A row with the same primary key or the same idempotency key; NULL keys are distinct.
unfoldable pub conflicts : Job → Job → Bool
conflicts new old = str_eq old.id new.id || same_key old.idempotency_key new.idempotency_key

-- INSERT INTO jobs: whether the row was inserted, or refused by a UNIQUE constraint.
unfoldable pub insert_job : Job → Exec Bool
unfolding conflicts
insert_job new s =
    if any (conflicts new) s.jobs
    then (ok false, s)
    else (ok true, record s { jobs = s.jobs ++ new ∷ [] })

unfoldable pub reuse_job : String → Option Job → Exec Job
reuse_job key none = raise type_error
reuse_job key (some existing) = do
  add_event job_idempotency_hit (some existing.id) none none
      (concat ("Duplicate enqueue skipped for idempotency key " ∷ key ∷ "." ∷ []))
  pure existing

-- The handler of the refused insert. The row is looked up by the key as the request gives it; with
-- no such row, reading its id is a TypeError.
unfoldable pub duplicate_job : Option String → Exec Job
duplicate_job none = raise unique_constraint
duplicate_job (some key) = do
  found ← gets (λ s. find (λ j. is_text j.idempotency_key key) s.jobs)
  if is_truthy (some key) then reuse_job key found else raise unique_constraint

-- The row that `enqueueJob` inserts.
unfoldable pub new_job :
    JobInput
    → (id queue : String) (payload : Json) (depends_on waiting errors : List String)
    → (run_at at : ℕ) → Job
unfolding initial_status clamp_int clamp_nat optional_int empty_to_null trim or_text
    normalize_id_list normalize_retry_policy
new_job input id queue payload depends_on waiting errors run_at at = record {
  id = id;
  queue = queue;
  type = trim (or_text input.type "generic.job");
  payload = payload;
  status = initial_status waiting run_at at;
  priority = clamp_int (or_else input.priority (int (pos 0))) (negsuc 999) (pos 1000);
  attempts = 0;
  max_attempts = clamp_nat (or_else input.max_attempts (int (pos 3))) 1 50;
  run_at = run_at;
  lease_owner = none;
  lease_expires_at = none;
  source_schedule_id = null_if_empty input.source_schedule_id;
  idempotency_key = empty_to_null input.idempotency_key;
  last_error = none;
  output = none;
  depends_on = depends_on;
  workflow_id = empty_to_null input.workflow_id;
  blocked_reason = waiting_reason waiting;
  schema_errors = errors;
  timeout_ms = optional_int input.timeout_ms 1 86400000;
  required_capabilities = normalize_id_list input.required_capabilities;
  retry_policy = normalize_retry_policy input.retry_policy;
  failure_hint = none;
  created_at = at;
  updated_at = at;
  started_at = none;
  completed_at = none;
  cancelled_at = none;
  dead_lettered_at = none;
}

abbrev pub backlog_full : String → ℕ → String
backlog_full queue most =
    concat ("Queue \"" ∷ queue ∷ "\" is at max backlog " ∷ show most ∷ "." ∷ [])

unfoldable pub announce_dependencies : String → List String → Exec (Unit {0})
announce_dependencies id [] = pure tt
announce_dependencies id ids =
    add_event job_dependencies_registered (some id) none none
      (concat ("Job waits on " ∷ show (length ids) ∷ " dependencies." ∷ []))

-- What follows a successful insert: the row is read back, and its events are written.
unfoldable pub announce_job : JobInput → String → List String → Exec Job
announce_job input id depends_on = do
  job ← find_job id
  add_event job_enqueued (some id) input.source_schedule_id none
      (concat ("Job " ∷ job.type ∷ " enqueued on " ∷ job.queue ∷ "." ∷ []))
  announce_dependencies id depends_on
  pure job

-- `enqueueJob(input)`.
unfoldable pub enqueue_job : JobInput → Exec Job
enqueue_job input = do
  at ← now_iso
  let queue = normalize_name input.queue
  ensure_queue queue
  queue_row ← find_queue queue
  backlog ← gets (λ s. count_active_jobs s queue)
  (if leb queue_row.max_backlog backlog
      then raise (failure (backlog_full queue queue_row.max_backlog))
      else pure tt)
  let run_at = or_else input.run_at at
  let depends_on = normalize_id_list input.depends_on
  waiting ← gets (λ s. waiting_on s depends_on)
  parse ← gets (λ s. s.world.json_parse)
  let payload = normalize_payload parse input.payload
  errors ←
      check_payload input.allow_invalid_payload
        (validate_payload (trim (or_text input.type "generic.job")) payload)
  id ←
      given_or_new input.id (create_id "job" (concat (queue ∷ "-" ∷ or_text input.type "job" ∷ [])))
  inserted ← insert_job (new_job input id queue payload depends_on waiting errors run_at at)
  if inserted then announce_job input id depends_on else duplicate_job input.idempotency_key
