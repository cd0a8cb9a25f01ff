-- ===== src/RateLimits.antt =====
-- Dispatch rate limits: `upsertRateLimit`, `checkDispatchRateLimit`, `getDispatchCount`
-- (src/core/store.mjs).
pub mod Verdict
pub mod Limits
use distributed_job_queue_sc.Prelude.{
  ℕ, zero, suc, ◌+◌, ◌-◌, ◌/◌, String, Bool, true, false, ◌&&◌, ◌||◌, List, [], ◌∷◌, ◌++◌, Option,
  none, some, str_eq, ltb, leb, or_else, is_some, find, where_rows, count_rows, update_rows,
  sort_by, concat, map, length, foldl, if◌then◌else◌,
}
use distributed_job_queue_sc.Prelude.Int.{pos}
use distributed_job_queue_sc.Text.{
  normalize_name, trim, lower, show, or_text, is_empty, text_before,
}
use distributed_job_queue_sc.Json.{Json, bool}
use distributed_job_queue_sc.Input.{Parsed, int, clamp_nat, bool_int}
use distributed_job_queue_sc.Model.{
  Job, Queue, Store, RateLimit, Scope, by_type, by_queue, Event, EventType, job_claimed,
  rate_limit_upserted,
}
use distributed_job_queue_sc.Exec.{
  Exec, ok, failure, or_type_error, pure, raise, gets, ◌>>=◌, ◌>>◌, now_iso, create_id, add_event,
}
use distributed_job_queue_sc.Queues.{get_queue}
use distributed_job_queue_sc.Jobs.{get_job}

abbrev pub scope_text : Scope → String
scope_text by_type = "type"
scope_text by_queue = "queue"

abbrev pub is_scope : Scope → Scope → Bool
is_scope by_type by_type = true
is_scope by_queue by_queue = true
is_scope a b = false

pub record RateLimitInput : Type 0 where
  pub scope : String
  pub target : String
  pub limit_count : Option Parsed
  pub window_ms : Option Parsed
  pub enabled : Option Json

-- `String(input.scope || "type").trim().toLowerCase()`, or an error.
unfoldable pub read_scope : String → Exec Scope
unfolding or_text trim lower
read_scope s =
    let scope = lower (trim (or_text s "type")) in
    if str_eq scope "type"
    then pure by_type
    else if str_eq scope "queue"
    then pure by_queue
    else raise (failure "Rate limit scope must be type or queue.")

unfoldable pub read_target : Scope → String → String
unfolding normalize_name trim
read_target by_queue t = normalize_name t
read_target by_type t = trim t

abbrev pub same_limit : Scope → String → RateLimit → Bool
same_limit scope target r = is_scope r.scope scope && str_eq r.target target

-- INSERT INTO rate_limits … ON CONFLICT(scope, target) DO UPDATE; the row as it then stands.
unfoldable pub put_rate_limit : RateLimit → Exec (Option RateLimit)
put_rate_limit row s =
    let here = same_limit row.scope row.target in
    let limits =
      if is_some (find here s.rate_limits)
      then update_rows here (λ r. record row { id = r.id; created_at = r.created_at }) s.rate_limits
      else s.rate_limits ++ row ∷ [] in
    (ok (find here limits), record s { rate_limits = limits })

-- `upsertRateLimit(input)`.
unfoldable pub upsert_rate_limit : RateLimitInput → Exec RateLimit
upsert_rate_limit input = do
  at ← now_iso
  scope ← read_scope input.scope
  let target = read_target scope input.target
  (if is_empty target then raise (failure "Rate limit target is required.") else pure tt)
  id ← create_id "rl" (concat (scope_text scope ∷ "-" ∷ target ∷ []))
  found ← put_rate_limit (record {
    id = id;
    scope = scope;
    target = target;
    limit_count = clamp_nat (or_else input.limit_count (int (pos 60))) 1 1000000;
    window_ms = clamp_nat (or_else input.window_ms (int (pos 60000))) 1000 86400000;
    enabled = bool_int (or_else input.enabled (bool true));
    created_at = at;
    updated_at = at;
  })
  row ← or_type_error found
  add_event rate_limit_upserted none none none
      (concat ("Rate limit set for " ∷ scope_text scope ∷ ":" ∷ target ∷ "." ∷ []))
  pure row

-- `listRateLimits()`: by scope ("queue" before "type"), then by target.
unfoldable pub limit_before : RateLimit → RateLimit → Bool
unfolding text_before
limit_before a b =
    text_before (scope_text a.scope) (scope_text b.scope)
    || (is_scope a.scope b.scope && text_before a.target b.target)

unfoldable pub list_rate_limits : Exec (List RateLimit)
unfolding limit_before
list_rate_limits = gets (λ s. sort_by limit_before s.rate_limits)

-- A limit that applies to a job.
pub record Check : Type 0 where
  pub scope : Scope
  pub target : String
  pub limit_count : ℕ
  pub window_ms : ℕ

pub record Denial : Type 0 where
  pub retry_at : ℕ
  pub check : Check
  pub reason : String

abbrev pub is_claim_event : EventType → Bool
is_claim_event job_claimed = true
is_claim_event _ = false

abbrev pub counts_for : Scope → String → Job → Bool
counts_for by_queue target j = str_eq j.queue target
counts_for by_type target j = str_eq j.type target

-- The join of an event with its job.
unfoldable pub event_counts : List Job → Scope → String → Option String → Bool
unfolding get_job
event_counts jobs scope target none = false
event_counts jobs scope target (some id) = elim (get_job id jobs) [
  | none ↦ false
  | some j ↦ counts_for scope target j
]

-- The claim events of a limit's window.
unfoldable pub in_window : List Job → Scope → String → ℕ → Event → Bool
unfolding event_counts
in_window jobs scope target start e =
    is_claim_event e.type && leb start e.created_at && event_counts jobs scope target e.job_id

abbrev pub earlier : ℕ → Option ℕ → ℕ
earlier t none = t
earlier t (some u) = if ltb u t then u else t

unfoldable pub oldest : List Event → Option ℕ
oldest [] = none
oldest (e ∷ es) = some (earlier e.created_at (oldest es))

-- `getDispatchCount(scope, target, windowStart)`: how many, and the oldest.
unfoldable pub get_dispatch_count : Store → Scope → String → ℕ → ℕ × Option ℕ
unfolding in_window oldest
get_dispatch_count s scope target start =
    let hits = where_rows (in_window s.jobs scope target start) s.events in
    (length hits, oldest hits)

abbrev pub own_check : String → Option ℕ → Option ℕ → List Check
own_check target (some (suc n)) (some (suc w)) =
    record { scope = by_queue; target = target; limit_count = suc n; window_ms = suc w } ∷ []
own_check target n w = []

-- The queue's own limit, where both columns are set and not 0.
unfoldable pub queue_check : Option Queue → String → List Check
queue_check none target = []
queue_check (some q) target = own_check target q.rate_limit_count q.rate_limit_window_ms

unfoldable pub applies_to : Job → RateLimit → Bool
applies_to j r = r.enabled && (same_limit by_type j.type r || same_limit by_queue j.queue r)

abbrev pub as_check : RateLimit → Check
as_check r = record {
  scope = r.scope;
  target = r.target;
  limit_count = r.limit_count;
  window_ms = r.window_ms;
}

-- The list `checks` of `checkDispatchRateLimit`.
unfoldable pub checks_for : Store → Job → List Check
unfolding queue_check applies_to get_queue
checks_for s j =
    queue_check (get_queue j.queue s.queues) j.queue
    ++ map as_check (where_rows (applies_to j) s.rate_limits)

abbrev pub limit_reason : Check → String
limit_reason c = concat (
    "Rate limited by "
    ∷ scope_text c.scope
    ∷ ":"
    ∷ c.target
    ∷ " at "
    ∷ show c.limit_count
    ∷ "/"
    ∷ show ((c.window_ms + 500) / 1000)
    ∷ "s."
    ∷ [])

abbrev pub retry_later : ℕ → Option Denial → Bool
retry_later t none = true
retry_later t (some d) = ltb d.retry_at t

-- One round of the loop over the checks.
unfoldable pub apply_check : Store → ℕ → Option Denial → Check → Option Denial
unfolding get_dispatch_count
apply_check s at denial c =
    let stats = get_dispatch_count s c.scope c.target (at - c.window_ms) in
    let retry_at = or_else stats.1 at + c.window_ms in
    if leb c.limit_count stats.0 && retry_later retry_at denial
    then some (record { retry_at = retry_at; check = c; reason = limit_reason c })
    else denial

-- `checkDispatchRateLimit(jobRow, at)`: the denial that lasts longest, `none` if dispatch is allowed.
unfoldable pub check_dispatch_rate_limit : Store → Job → ℕ → Option Denial
unfolding apply_check checks_for
check_dispatch_rate_limit s j at = foldl (apply_check s at) none (checks_for s j)
