-- ===== src/Tests/Cron.antt =====
-- Cron expressions and dates on concrete inputs.
use distributed_job_queue_sc.Prelude.{ℕ, ◌≡◌, refl, [], ◌∷◌}
use distributed_job_queue_sc.Dates.{utc, Calendar}
use distributed_job_queue_sc.Exec.{ok, err, failure}
use distributed_job_queue_sc.Cron.{parse_field}
use distributed_job_queue_sc.Cron.Search.{
  parse_cron_expression, next_cron_run, search_run, max_checks, run_or_fail, five_fields,
}

pub steps : parse_field "*/15, 7-9" 0 59 ≡ ok (0 ∷ 15 ∷ 30 ∷ 45 ∷ 7 ∷ 8 ∷ 9 ∷ [])
unfolding parse_field
steps = refl

bad_step : parse_field "*/0" 0 59 ≡ err (failure "Invalid cron step \"*/0\".")
unfolding parse_field
bad_step = refl

too_high : parse_field "24" 0 23 ≡ err (failure "Invalid cron field \"24\".")
unfolding parse_field
too_high = refl

blank : parse_field "," 0 23 ≡ err (failure "Cron field cannot be empty.")
unfolding parse_field
blank = refl

-- 2024-02-29T23:59:30.500Z, a Thursday.
leap_day : ℕ
leap_day = 1709251170500

calendar : Calendar
unfolding utc leap_day
calendar = utc.calendar leap_day

-- The first minute of March follows.
pub march : next_cron_run utc "0 0 1 * *" 1709251170500 ≡ ok 1709251200000
unfolding next_cron_run parse_cron_expression search_run run_or_fail utc max_checks
march = refl

never_parsed : next_cron_run utc "undefined" 0 ≡ err five_fields
unfolding next_cron_run parse_cron_expression
never_parsed = refl
