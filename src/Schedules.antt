-- ===== src/Schedules.antt =====
-- Schedules: `createSchedule`, `findSchedule`, `listSchedules`, `toggleSchedule`, `runScheduleNow`
-- (src/core/store.mjs).
pub mod Dispatch
pub mod Frame
pub mod Runs
pub mod Due
pub mod Batch
pub mod Present
pub mod Fired
pub mod Blocked
pub mod Created
use distributed_job_queue_sc.Prelude.{
  ℕ, zero, suc, ◌+◌, String, Bool, true, false, ◌||◌, List, [], ◌∷◌, ◌++◌, Option, none, some, ltb,
  str_eq, or_else, is_some, find, any, update_rows, sort_by, concat, if◌then◌else◌,
}
use distributed_job_queue_sc.Prelude.Int.{pos, negsuc}
use distributed_job_queue_sc.Text.{
  IdList, items, normalize_name, normalize_id_list, or_text, trim, is_truthy, show,
}
use Prim.Native.String.{String as Text}
use distributed_job_queue_sc.Json.{
  Json, null, bool, num, not_finite, str, arr, obj, Items, nil, cons, Fields, end, field, is_true,
  set_field,
}
use distributed_job_queue_sc.Schemas.{validate_payload}
use distributed_job_queue_sc.Input.{
  Parsed, int, clamp_int, clamp_nat, optional_int, bool_int, RetryInput, normalize_retry_policy,
  as_input,
}
use distributed_job_queue_sc.Model.{
  Job, Schedule, ScheduleKind, interval, cron, Store, schedule_created, schedule_resumed,
  schedule_paused,
}
use distributed_job_queue_sc.Exec.{
  Exec, Result, ok, err, or_raise, unique_constraint, pure, raise, gets, ◌>>=◌, ◌>>◌, now_iso,
  create_id, add_event,
}
use distributed_job_queue_sc.Cron.Search.{next_cron_run}
use distributed_job_queue_sc.Queues.{ensure_queue, as_parsed}
use distributed_job_queue_sc.Jobs.Enqueue.{
  JobInput, normalize_payload, check_payload, given_or_new, enqueue_job,
}

-- A request. A missing text field is "" or `none`; `next_run_at` is a valid date.
pub record ScheduleInput : Type 0 where
  pub id : Option String
  pub name : String
  pub queue : String
  pub type : String
  pub payload : Json
  pub schedule_kind : String
  pub cron_expr : Option String
  pub cron : Option String
  pub interval_ms : Option Parsed
  pub enabled : Option Json
  pub priority : Option Parsed
  pub max_attempts : Option Parsed
  pub next_run_at : Option ℕ
  pub timeout_ms : Option Parsed
  pub required_capabilities : IdList
  pub retry_policy : Option RetryInput
  pub allow_invalid_payload : Bool

-- `input.cronExpr || input.cron || input.scheduleKind === "cron" ? "cron" : "interval"`.
unfoldable pub read_kind : ScheduleInput → ScheduleKind
unfolding is_truthy
read_kind input =
    if is_truthy input.cron_expr || is_truthy input.cron || str_eq input.schedule_kind "cron"
    then cron
    else interval

-- `String(input.cronExpr || input.cron).trim()`; `String(undefined)` is a text.
unfoldable pub cron_text : ScheduleInput → String
unfolding is_truthy trim
cron_text input = trim (
    if is_truthy input.cron_expr
    then or_else input.cron_expr ""
    else or_else input.cron "undefined")

unfoldable pub stored_cron : ScheduleKind → String → Option String
stored_cron interval text = none
stored_cron cron text = some text

-- A result of pure code, at the store that is there.
unfoldable pub from_result : {A : Type 0} → Result A → Exec A
from_result r s = (r, s)

-- `nextCronRun(expression, new Date(at))`.
unfoldable pub next_cron : String → ℕ → Exec ℕ
next_cron expression at = do
  zone ← gets (λ s. s.world.zone)
  from_result (next_cron_run zone expression at)

unfoldable pub first_run : ScheduleKind → String → (given : Option ℕ) → ℕ → Exec ℕ
unfolding pure next_cron
first_run kind text (some t) at = pure t
first_run interval text none at = pure at
first_run cron text none at = next_cron text at

-- The row that `createSchedule` inserts.
unfoldable pub new_schedule :
    ScheduleInput → (id queue : String) → Json → (next_run_at at : ℕ) → Schedule
unfolding or_text trim read_kind cron_text stored_cron clamp_nat clamp_int bool_int optional_int
    normalize_id_list normalize_retry_policy
new_schedule input id queue payload next_run_at at = record {
  id = id;
  name = trim (or_text input.name (or_text input.type "Recurring job"));
  queue = queue;
  type = trim (or_text input.type "generic.scheduled");
  payload = payload;
  schedule_kind = read_kind input;
  cron_expr = stored_cron (read_kind input) (cron_text input);
  interval_ms = clamp_nat (or_else input.interval_ms (int (pos 60000))) 1000 31536000000;
  enabled = bool_int (or_else input.enabled (bool true));
  priority = clamp_int (or_else input.priority (int (pos 0))) (negsuc 999) (pos 1000);
  max_attempts = clamp_nat (or_else input.max_attempts (int (pos 3))) 1 50;
  timeout_ms = optional_int input.timeout_ms 1 86400000;
  required_capabilities = normalize_id_list input.required_capabilities;
  retry_policy = normalize_retry_policy input.retry_policy;
  next_run_at = next_run_at;
  last_run_at = none;
  created_at = at;
  updated_at = at;
}

-- INSERT INTO schedules; `id` is the primary key.
unfoldable pub insert_schedule : Schedule → Exec (Unit {0})
unfolding raise
insert_schedule row s =
    if any (λ c. str_eq c.id row.id) s.schedules
    then raise unique_constraint s
    else (ok tt, record s { schedules = s.schedules ++ row ∷ [] })

-- SELECT * FROM schedules WHERE id = ?
unfoldable pub get_schedule : String → List Schedule → Option Schedule
get_schedule id = find (λ c. str_eq c.id id)

abbrev pub schedule_missing : String → String
schedule_missing id = concat ("Schedule not found: " ∷ id ∷ [])

-- `findSchedule(scheduleId)`.
unfoldable pub find_schedule : String → Exec Schedule
find_schedule id = do
  row ← gets (λ s. get_schedule id s.schedules)
  or_raise (schedule_missing id) row

-- From the INSERT to the end.
unfoldable pub inserting : Schedule → Exec Schedule
inserting row = do
  insert_schedule row
  schedule ← find_schedule row.id
  add_event schedule_created none (some row.id) none
      (concat ("Schedule " ∷ schedule.name ∷ " created." ∷ []))
  pure schedule

-- `createSchedule(input)`.
unfoldable pub create_schedule : ScheduleInput → Exec Schedule
create_schedule input = do
  at ← now_iso
  let queue = normalize_name input.queue
  ensure_queue queue
  id ← given_or_new input.id (create_id "sched" (or_text input.name (or_text input.type queue)))
  parse ← gets (λ s. s.world.json_parse)
  let payload = normalize_payload parse input.payload
  check_payload input.allow_invalid_payload
      (validate_payload (trim (or_text input.type "generic.scheduled")) payload)
  next_run_at ← first_run (read_kind input) (cron_text input) input.next_run_at at
  inserting (new_schedule input id queue payload next_run_at at)

-- `listSchedules()`.
unfoldable pub list_schedules : Store → List Schedule
list_schedules s = sort_by (λ a b. ltb b.created_at a.created_at) s.schedules

-- UPDATE schedules SET enabled = ?, updated_at = ? WHERE id = ? RETURNING *
unfoldable pub enable_schedule : String → Bool → ℕ → Exec (Option Schedule)
unfolding get_schedule
enable_schedule id enabled at s =
    let updated = record s {
      schedules =
          update_rows (λ c. str_eq c.id id) (λ c. record c { enabled = enabled; updated_at = at })
            s.schedules;
    } in
    (ok (get_schedule id updated.schedules), updated)

-- `toggleSchedule(scheduleId, enabled)`.
unfoldable pub toggle_schedule : String → Json → Exec Schedule
toggle_schedule id enabled = do
  at ← now_iso
  found ← enable_schedule id (bool_int enabled) at
  row ← or_raise (schedule_missing id) found
  add_event (if is_true enabled then schedule_resumed else schedule_paused) none (some id) none
      (if is_true enabled then "Schedule resumed." else "Schedule paused.")
  pure row

-- `{ ...value }`: the characters of a text and the items of an array are fields too.
abbrev text_fields : ℕ → Text → Fields
text_fields n Text.[] = end
text_fields n (Text.◌∷◌ c s) = field (show n) (str (Text.◌∷◌ c Text.[])) (text_fields (suc n) s)

abbrev item_fields : ℕ → Items → Fields
item_fields n nil = end
item_fields n (cons v vs) = field (show n) v (item_fields (suc n) vs)

unfoldable pub spread : Json → Fields
unfolding show
spread (obj fs) = fs
spread (arr vs) = item_fields 0 vs
spread (str s) = text_fields 0 s
spread v = end

-- The payload of a scheduled job: two fields are set after the schedule's own.
unfoldable pub with_fields : Json → (k : String) → Json → (j : String) → Json → Json
unfolding spread set_field
with_fields payload k v j w = obj (set_field j w (set_field k v (spread payload)))

-- The request that a schedule makes for one run.
unfoldable pub scheduled_job : Schedule → Json → JobInput
scheduled_job c payload = record {
  id = none;
  queue = c.queue;
  type = c.type;
  payload = payload;
  priority = some (int c.priority);
  max_attempts = some (int (pos c.max_attempts));
  run_at = none;
  depends_on = items [];
  idempotency_key = none;
  workflow_id = none;
  source_schedule_id = some c.id;
  timeout_ms = as_parsed c.timeout_ms;
  required_capabilities = items c.required_capabilities;
  retry_policy = elim c.retry_policy [ none ↦ none | some p ↦ some (as_input p) ];
  allow_invalid_payload = false;
}

-- `runScheduleNow(scheduleId)`.
unfoldable pub run_schedule_now : String → Exec Job
run_schedule_now id = do
  c ← find_schedule id
  enqueue_job
      (scheduled_job c (with_fields c.payload "scheduledBy" (str c.id) "runReason" (str "manual")))
