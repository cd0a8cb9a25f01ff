-- ===== src/Cron/Search.antt =====
-- Cron expressions: `parseCronExpression`, `matchesCron` and `nextCronRun` (src/core/cron.mjs). An
-- instant is in milliseconds.
use Prim.Native.Char.{code}
use distributed_job_queue_sc.Prelude.{
  ℕ, zero, suc, ◌+◌, String, Bool, true, false, ◌&&◌, List, [], ◌∷◌, Option, none, some, concat,
  if◌then◌else◌,
}
use distributed_job_queue_sc.Text.{is_space, trim}
use distributed_job_queue_sc.Dates.{Calendar, TimeZone}
use distributed_job_queue_sc.Exec.{Result, ok, err, Error, failure}
use distributed_job_queue_sc.Cron.{has, parse_field, ◌>>=◌}

-- `text.split(/\s+/)`; the flag says that the character just before was white space.
unfoldable pub split_spaces : Bool → String → String → List String
unfolding is_space
split_spaces in_run cur String.[] = cur ∷ []
split_spaces in_run cur (String.◌∷◌ c s) =
    let skipped = split_spaces true cur s in
    let closed = cur ∷ split_spaces true String.[] s in
    let longer = split_spaces false (concat (cur ∷ String.◌∷◌ c String.[] ∷ [])) s in
    if is_space (code c) then (if in_run then skipped else closed) else longer

-- The five sets.
pub record CronFields : Type 0 where
  pub minutes : List ℕ
  pub hours : List ℕ
  pub dates : List ℕ
  pub months : List ℕ
  pub weekdays : List ℕ

abbrev pub five_fields : Error
five_fields = failure "Cron expression must contain 5 fields: minute hour day month weekday."

unfoldable pub parse_parts : List String → Result CronFields
unfolding parse_field ◌>>=◌
parse_parts (minute ∷ hour ∷ day ∷ month ∷ weekday ∷ []) = do
  minutes ← parse_field minute 0 59
  hours ← parse_field hour 0 23
  dates ← parse_field day 1 31
  months ← parse_field month 1 12
  weekdays ← parse_field weekday 0 6
  ok (record {
    minutes = minutes;
    hours = hours;
    dates = dates;
    months = months;
    weekdays = weekdays;
  })
parse_parts parts = err five_fields

-- `parseCronExpression(expression)`; a missing expression is "".
unfoldable pub parse_cron_expression : String → Result CronFields
unfolding parse_parts split_spaces trim
parse_cron_expression expression = parse_parts (split_spaces false "" (trim expression))

-- `matchesCron(date, fields)`.
unfoldable pub matches_cron : Calendar → CronFields → Bool
unfolding has
matches_cron c f =
    has f.minutes c.minutes
    && has f.hours c.hours
    && has f.dates c.date
    && has f.months (c.month + 1)
    && has f.weekdays c.day

-- The loop over the minutes, with the checks that are left.
unfoldable pub search_run : TimeZone → CronFields → (checks cursor : ℕ) → Option ℕ
unfolding matches_cron
search_run zone f zero cursor = none
search_run zone f (suc n) cursor =
    let rest = search_run zone f n (zone.next_minute cursor) in
    if matches_cron (zone.calendar cursor) f then some cursor else rest

-- 366 * 24 * 60
unfoldable pub max_checks : ℕ
max_checks = 527040

unfoldable pub run_or_fail : String → Option ℕ → Result ℕ
run_or_fail expression none =
    err (failure (concat ("No cron run found within one year for \"" ∷ expression ∷ "\"." ∷ [])))
run_or_fail expression (some t) = ok t

-- `nextCronRun(expression, from)`.
unfoldable pub next_cron_run : TimeZone → String → ℕ → Result ℕ
unfolding ◌>>=◌
next_cron_run zone expression from = do
  f ← parse_cron_expression expression
  let first = zone.next_minute (zone.whole_minute from)
  run_or_fail expression (search_run zone f max_checks first)
