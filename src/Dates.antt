-- ===== src/Dates.antt =====
-- What src/core/cron.mjs uses of the language's `Date`: its getters and setters in a time zone, and
-- UTC as one zone.
use distributed_job_queue_sc.Prelude.{ℕ, ◌+◌, ◌-◌, ◌*◌, ◌/◌, ◌%◌, ltb, if◌then◌else◌}

-- What the getters answer: getMinutes, getHours, getDate, getMonth and getDay.
pub record Calendar : Type 0 where
  pub minutes : ℕ
  pub hours : ℕ
  pub date : ℕ
  pub month : ℕ
  pub day : ℕ

-- The time zone of the process: the getters, `setSeconds(0, 0)`, and
-- `setMinutes(getMinutes() + 1)`.
pub record TimeZone : Type 0 where
  pub calendar : ℕ → Calendar
  pub whole_minute : ℕ → ℕ
  pub next_minute : ℕ → ℕ

-- The Gregorian day of a year that begins in March, from the day of the 400-year cycle.
abbrev year_of_cycle : ℕ → ℕ
year_of_cycle d = (d - d / 1460 + d / 36524 - d / 146096) / 365

abbrev day_of_year : ℕ → ℕ
day_of_year d = d + year_of_cycle d / 100 - (365 * year_of_cycle d + year_of_cycle d / 4)

abbrev month_from_march : ℕ → ℕ
month_from_march d = (5 * day_of_year d + 2) / 153

-- The date and the month, counted from 0, of a day since 1970.
unfoldable pub date_of_day : ℕ → ℕ
date_of_day n =
    let d = (n + 719468) % 146097 in day_of_year d + 1 - (153 * month_from_march d + 2) / 5

unfoldable pub month_of_day : ℕ → ℕ
month_of_day n =
    let m = month_from_march ((n + 719468) % 146097) in if ltb m 10 then m + 2 else m - 10

unfoldable pub utc : TimeZone
unfolding date_of_day month_of_day
utc = record {
  calendar = λ t. record {
    minutes = t / 60000 % 60;
    hours = t / 3600000 % 24;
    date = date_of_day (t / 86400000);
    month = month_of_day (t / 86400000);
    day = (t / 86400000 + 4) % 7;
  };
  whole_minute = λ t. t - t % 60000;
  next_minute = λ t. t + 60000;
}
