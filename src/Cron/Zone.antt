-- ===== src/Cron/Zone.antt =====
-- The search of `nextCronRun` in a time zone that keeps its offset.
use native.Mathlib.Omega.{arith}
use distributed_job_queue_sc.Prelude.{ℕ, zero, suc, ◌+◌, ◌-◌, ◌*◌, ◌%◌, ◌≤◌, ◌<◌, String, ◌≡◌, refl}
use distributed_job_queue_sc.Dates.{TimeZone, utc}
use distributed_job_queue_sc.Exec.{Result, ok, err}
use distributed_job_queue_sc.Cron.Search.{max_checks, next_cron_run}
use distributed_job_queue_sc.Cron.Next.{minutes_after, first_minute, NextRun, next_cron_run-NextRun}

-- The setters, where the clock is never put forward or back: UTC, and zones with no summer time.
pub record KeepsOffset (zone : TimeZone) : Type 0 where
  pub whole : (t : ℕ) → zone.whole_minute t ≡ t - t % 60000
  pub next : (t : ℕ) → zone.next_minute t ≡ t + 60000

pub utc-KeepsOffset : KeepsOffset utc
unfolding utc
utc-KeepsOffset = record { whole = λ t. refl; next = λ t. refl }

minutes_after-KeepsOffset :
    (zone : TimeZone) → KeepsOffset zone → (n t : ℕ) → minutes_after zone n t ≡ t + n * 60000
minutes_after-KeepsOffset zone k zero t = omega arith
minutes_after-KeepsOffset zone k (suc n) t =
    omega (arith, minutes_after-KeepsOffset zone k n (zone.next_minute t), k.next t)

run-later :
    (zone : TimeZone) (expression : String) (from : ℕ) (r : Result ℕ) {t : ℕ}
    → KeepsOffset zone
    → NextRun zone expression from r
    → r ≡ ok t
    → (from < t) × (t % 60000 ≡ 0) × (t ≤ from + max_checks * 60000)
run-later zone expression from (err e) k h eq = absurd cc
run-later zone expression from (ok u) {t} k (f, p, (n, lt, at, y, m)) eq =
    let same : u ≡ t = cc in
    let first : first_minute zone from ≡ from - from % 60000 + 60000 =
      omega (arith, k.next (zone.whole_minute from), k.whole from) in
    let found : t ≡ from - from % 60000 + 60000 + n * 60000 =
      omega (arith, minutes_after-KeepsOffset zone k n (first_minute zone from)) in
    (omega arith, omega arith, omega arith)

-- In a time zone that keeps its offset, the next run of a cron expression is a whole minute, strictly
-- after the instant that it is asked for and at most 527040 minutes after it.
pub next_cron_run-later :
    (zone : TimeZone) (expression : String) (from : ℕ) {t : ℕ}
    → KeepsOffset zone
    → next_cron_run zone expression from ≡ ok t
    → (from < t) × (t % 60000 ≡ 0) × (t ≤ from + max_checks * 60000)
next_cron_run-later zone expression from k e =
    run-later zone expression from (next_cron_run zone expression from) k
      (next_cron_run-NextRun zone expression from) e
