-- ===== src/Cron/Next.antt =====
-- Which instant `nextCronRun` returns.
use native.Mathlib.Omega.{arith}
use distributed_job_queue_sc.Prelude.{
  ℕ, zero, suc, ◌<◌, String, true, false, ◌≡◌, ◌⊎◌, inl, inr, refl, Option, none, some, Bool-cases,
}
use distributed_job_queue_sc.Dates.{TimeZone}
use distributed_job_queue_sc.Exec.{Result, ok, err}
use distributed_job_queue_sc.Cron.Search.{
  CronFields, matches_cron, search_run, max_checks, run_or_fail, next_cron_run,
  parse_cron_expression,
}
use distributed_job_queue_sc.Cron.Range.{Result-cases}

module _ (zone : TimeZone) where
  -- The cursor after `n` further minutes.
  abbrev pub minutes_after : ℕ → ℕ → ℕ
  minutes_after zero t = t
  minutes_after (suc n) t = minutes_after n (zone.next_minute t)

  -- The minutes before the n-th do not match.
  abbrev pub MissesBefore : CronFields → ℕ → ℕ → Type 0
  MissesBefore f n t = (i : ℕ) → i < n → matches_cron (zone.calendar (minutes_after i t)) f ≡ false

  -- The first match among `checks` minutes.
  abbrev pub IsFirstMatch : CronFields → (checks t found : ℕ) → Type 0
  IsFirstMatch f checks t found =
      (n : ℕ) × (n < checks)
      × (found ≡ minutes_after n t)
      × (matches_cron (zone.calendar found) f ≡ true)
      × MissesBefore f n t

  MissesBefore-suc :
      (f : CronFields) (n t : ℕ)
      → matches_cron (zone.calendar t) f ≡ false
      → MissesBefore f n (zone.next_minute t)
      → MissesBefore f (suc n) t
  MissesBefore-suc f n t h m zero lt = h
  MissesBefore-suc f n t h m (suc i) lt = m i (omega arith)

  -- The outcome of the search: the first match, or no match at all.
  abbrev pub Searched : CronFields → (checks t : ℕ) → Option ℕ → Type 0
  Searched f checks t none = MissesBefore f checks t
  Searched f checks t (some found) = IsFirstMatch f checks t found

  Searched-suc :
      (f : CronFields) (checks t : ℕ) (o : Option ℕ)
      → matches_cron (zone.calendar t) f ≡ false
      → Searched f checks (zone.next_minute t) o
      → Searched f (suc checks) t o
  Searched-suc f checks t none h m = MissesBefore-suc f checks t h m
  Searched-suc f checks t (some found) h (n, lt, e, y, m) =
      (suc n, omega arith, e, y, MissesBefore-suc f n t h m)

  search_run-Searched :
      (f : CronFields) (checks t : ℕ) → Searched f checks t (search_run zone f checks t)
  unfolding search_run
  search_run-Searched f zero t = λ i lt. absurd (omega arith)
  search_run-Searched f (suc checks) t = elim (Bool-cases (matches_cron (zone.calendar t) f)) [
    | inl hit ↦ rw hit (zero, omega arith, refl, hit, λ i lt. absurd (omega arith))
    | inr miss ↦
        rw miss (Searched-suc f checks t _ miss (search_run-Searched f checks (zone.next_minute t)))
  ]

  -- The cursor at the first check.
  abbrev pub first_minute : ℕ → ℕ
  first_minute from = zone.next_minute (zone.whole_minute from)

  abbrev pub NextRun : String → ℕ → Result ℕ → Type 0
  NextRun expression from (ok t) =
      (f : CronFields) × (parse_cron_expression expression ≡ ok f)
      × IsFirstMatch f max_checks (first_minute from) t
  NextRun expression from (err e) =
      (parse_cron_expression expression ≡ err e)
      ⊎ ((f : CronFields) × (parse_cron_expression expression ≡ ok f)
          × MissesBefore f max_checks (first_minute from))

  run_or_fail-NextRun :
      (expression : String) (from : ℕ) (f : CronFields) (o : Option ℕ)
      → parse_cron_expression expression ≡ ok f
      → Searched f max_checks (first_minute from) o
      → NextRun expression from (run_or_fail expression o)
  unfolding run_or_fail
  run_or_fail-NextRun expression from f none p m = inr (f, p, m)
  run_or_fail-NextRun expression from f (some t) p m = (f, p, m)

  -- The next run of a cron expression: the result is the first whole minute after `from`, among the
  -- 527040 minutes of 366 days, whose calendar fields all lie in the sets of the expression; the
  -- search throws exactly when the expression does not parse or none of those minutes matches.
  pub next_cron_run-NextRun :
      (expression : String) (from : ℕ)
      → NextRun expression from (next_cron_run zone expression from)
  unfolding next_cron_run
  next_cron_run-NextRun expression from = elim (Result-cases (parse_cron_expression expression)) [
    | inl (f, e) ↦ rw e (
        run_or_fail-NextRun expression from f _ e
          (search_run-Searched f max_checks (first_minute from)))
    | inr (x, e) ↦ rw e (inl e)
  ]
