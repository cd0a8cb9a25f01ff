-- ===== src/Schedules/Blocked.antt =====
-- A due schedule whose cron expression does not parse (`dispatchDueSchedules`, `nextCronRun`).
use distributed_job_queue_sc.Prelude.{ℕ, String, ◌≡◌, refl, List, ◌∷◌, or_else}
use distributed_job_queue_sc.Input.{Parsed, clamp_nat}
use distributed_job_queue_sc.Model.{Store, Schedule, ScheduleKind, cron}
use distributed_job_queue_sc.Exec.{err, Error, ◌>>=◌, now_iso}
use distributed_job_queue_sc.Exec.Outcome.{Throws, first-Throws}
use distributed_job_queue_sc.Cron
use distributed_job_queue_sc.Cron.Search.{parse_cron_expression, next_cron_run}
use distributed_job_queue_sc.Schedules.{next_cron, from_result}
use distributed_job_queue_sc.Schedules.Dispatch.{
  due_schedules, run_of_kind, following_run, dispatch_one, dispatch_each, dispatch_due_schedules,
}
use distributed_job_queue_sc.Schedules.Batch.{now}

next_cron_run-err :
    (s : Store) (expression : String) (at : ℕ) {e : Error}
    → parse_cron_expression expression ≡ err e
    → next_cron_run s.world.zone expression at ≡ err e
unfolding next_cron_run Cron.◌>>=◌
next_cron_run-err s expression at p = rw p refl

next_cron-Throws :
    (expression : String) (at : ℕ) (s : Store) {e : Error}
    → parse_cron_expression expression ≡ err e
    → Throws (next_cron expression at) s e (λ t. t ≡ s)
unfolding next_cron from_result ◌>>=◌
next_cron-Throws expression at s p = record {
  throws = next_cron_run-err s expression at p;
  post = refl;
}

run_of_kind-Throws :
    (k : ScheduleKind) (c : Schedule) (at : ℕ) (s : Store) {e : Error}
    → k ≡ cron
    → parse_cron_expression (or_else c.cron_expr "") ≡ err e
    → Throws (run_of_kind k c at) s e (λ t. t ≡ s)
unfolding run_of_kind
run_of_kind-Throws ScheduleKind.interval c at s k p = absurd (cc)
run_of_kind-Throws cron c at s k p = next_cron-Throws (or_else c.cron_expr "") at s p

dispatch_each-Throws :
    (scheduler : String) (at : ℕ) (c : Schedule) (cs : List Schedule) (s : Store) {e : Error}
    → c.schedule_kind ≡ cron
    → parse_cron_expression (or_else c.cron_expr "") ≡ err e
    → Throws (dispatch_each scheduler at (c ∷ cs)) s e (λ t. t ≡ s)
unfolding dispatch_each dispatch_one following_run
dispatch_each-Throws scheduler at c cs s k p =
    first-Throws _ _ s (first-Throws _ _ s (run_of_kind-Throws c.schedule_kind c at s k p))

-- While the first of the due schedules is a cron schedule whose expression does not parse, each
-- dispatch throws the error of the parser and changes no schedule and no job: that schedule stays due,
-- and no schedule after it is dispatched.
pub dispatch_due_schedules-Throws :
    (scheduler : String) (limit : Parsed) (s : Store) (c : Schedule) (cs : List Schedule)
    {e : Error}
    → due_schedules (now s) (clamp_nat limit 1 100) s.schedules ≡ c ∷ cs
    → c.schedule_kind ≡ cron
    → parse_cron_expression (or_else c.cron_expr "") ≡ err e
    → Throws
        (dispatch_due_schedules scheduler limit)
        s
        e
        (λ t. (t.schedules ≡ s.schedules) × (t.jobs ≡ s.jobs))
unfolding dispatch_due_schedules now_iso ◌>>=◌
dispatch_due_schedules-Throws scheduler limit s c cs due k p =
    let t = (now_iso s).1 in
    let h = dispatch_each-Throws scheduler (now s) c cs t k p in
    record { throws = rw due h.throws; post = rw due (rw h.post (refl, refl)) }
