-- ===== src/Steps/Schedules.antt =====
-- The methods on schedules as sequences of allowed writes (src/core/store.mjs).
use distributed_job_queue_sc.Prelude.{
  ℕ, String, Bool, List, [], ◌∷◌, Option, none, some, ◌≡◌, refl, arith,
}
use distributed_job_queue_sc.Json.{Json}
use distributed_job_queue_sc.Input.{Parsed}
use distributed_job_queue_sc.Model.{Store, Schedule, ScheduleKind, interval, cron}
use distributed_job_queue_sc.Exec.{Result, raise}
use distributed_job_queue_sc.Jobs.Enqueue.{JobInput, new_job}
use distributed_job_queue_sc.Schedules.{
  ScheduleInput, from_result, next_cron, first_run, insert_schedule, find_schedule, inserting,
  create_schedule, enable_schedule, toggle_schedule, run_schedule_now,
}
use distributed_job_queue_sc.Schedules.Dispatch.{
  run_of_kind, following_run, take_run, enqueue_run, dispatch_one, dispatch_each,
  dispatch_due_schedules,
}
use distributed_job_queue_sc.Steps.{Write, add, configure}
use distributed_job_queue_sc.Steps.Moves.{
  Moves, IsQuiet, moves_rules, quiet_rules, quiet_methods, quiet-Moves, bind-Moves, then-Moves,
}
use distributed_job_queue_sc.Steps.Requests.{ensure_queue-Moves, enqueue_job-Moves}
use distributed_job_queue_sc.Outcomes.Insert.{check_payload-IsQuiet, given_or_new-IsQuiet}

from_result-IsQuiet : {A : Type 0} (r : Result A) → IsQuiet (from_result r)
unfolding from_result
from_result-IsQuiet r = record { jobs = λ s. refl; queues = λ s. refl }

next_cron-IsQuiet : (expression : String) (at : ℕ) → IsQuiet (next_cron expression at)
unfolding next_cron
next_cron-IsQuiet expression at = search (quiet_rules, from_result-IsQuiet)

first_run-IsQuiet :
    (kind : ScheduleKind) (text : String) (given : Option ℕ) (at : ℕ)
    → IsQuiet (first_run kind text given at)
unfolding first_run
first_run-IsQuiet kind text (some t) at = search quiet_rules
first_run-IsQuiet interval text none at = search quiet_rules
first_run-IsQuiet cron text none at = next_cron-IsQuiet text at

insert_schedule-IsQuiet : (row : Schedule) → IsQuiet (insert_schedule row)
unfolding insert_schedule raise
insert_schedule-IsQuiet row = record { jobs = λ s. jobs s; queues = λ s. queues s }
  where
    jobs : (s : Store) → (insert_schedule row s).1.jobs ≡ s.jobs
    jobs s = ground arith

    queues : (s : Store) → (insert_schedule row s).1.queues ≡ s.queues
    queues s = ground arith

find_schedule-IsQuiet : (id : String) → IsQuiet (find_schedule id)
unfolding find_schedule
find_schedule-IsQuiet id = search quiet_rules

inserting-IsQuiet : (row : Schedule) → IsQuiet (inserting row)
unfolding inserting
inserting-IsQuiet row = search (quiet_methods, insert_schedule-IsQuiet, find_schedule-IsQuiet)

enable_schedule-IsQuiet :
    (id : String) (enabled : Bool) (at : ℕ) → IsQuiet (enable_schedule id enabled at)
unfolding enable_schedule
enable_schedule-IsQuiet id enabled at = record { jobs = λ s. refl; queues = λ s. refl }

toggle_schedule-IsQuiet : (id : String) (enabled : Json) → IsQuiet (toggle_schedule id enabled)
unfolding toggle_schedule
toggle_schedule-IsQuiet id enabled = search (quiet_methods, enable_schedule-IsQuiet)

run_of_kind-IsQuiet : (k : ScheduleKind) (c : Schedule) (at : ℕ) → IsQuiet (run_of_kind k c at)
unfolding run_of_kind
run_of_kind-IsQuiet interval c at = search quiet_rules
run_of_kind-IsQuiet cron c at = next_cron-IsQuiet _ at

following_run-IsQuiet : (c : Schedule) (at : ℕ) → IsQuiet (following_run c at)
unfolding following_run
following_run-IsQuiet c at = run_of_kind-IsQuiet c.schedule_kind c at

take_run-IsQuiet : (c : Schedule) (at next : ℕ) → IsQuiet (take_run c at next)
unfolding take_run
take_run-IsQuiet c at next = record { jobs = λ s. refl; queues = λ s. refl }

module _ {A : Write → Type 0} (may_configure : A configure) where
  pub create_schedule-Moves : (input : ScheduleInput) → Moves A (create_schedule input)
  unfolding create_schedule
  create_schedule-Moves input = bind-Moves _ _ (search moves_rules) λ at.
      then-Moves _ _ (ensure_queue-Moves may_configure _) (
        quiet-Moves _ (
          search (
            quiet_methods, given_or_new-IsQuiet, check_payload-IsQuiet, first_run-IsQuiet,
            inserting-IsQuiet,
          )))

  pub toggle_schedule-Moves : (id : String) (enabled : Json) → Moves A (toggle_schedule id enabled)
  toggle_schedule-Moves id enabled = quiet-Moves _ (toggle_schedule-IsQuiet id enabled)

  module _
      (may_add : (input : JobInput) (id queue : String) (payload : Json)
          (depends_on waiting errors : List String) (run_at at : ℕ)
        → A (add (new_job input id queue payload depends_on waiting errors run_at at))) where
    pub run_schedule_now-Moves : (id : String) → Moves A (run_schedule_now id)
    unfolding run_schedule_now
    run_schedule_now-Moves id =
        bind-Moves _ _ (quiet-Moves _ (find_schedule-IsQuiet id))
          λ c. enqueue_job-Moves may_configure may_add _

    enqueue_run-Moves :
        (scheduler : String) (at : ℕ) (c : Schedule) (o : Option Schedule)
        → Moves A (enqueue_run scheduler at c o)
    unfolding enqueue_run
    enqueue_run-Moves scheduler at c none = search moves_rules
    enqueue_run-Moves scheduler at c (some d) = bind-Moves _ _ (search moves_rules) λ iso.
        bind-Moves _ _ (enqueue_job-Moves may_configure may_add _)
          λ job. then-Moves _ _ (search moves_rules) (search moves_rules)

    dispatch_each-Moves :
        (scheduler : String) (at : ℕ) (cs : List Schedule) → Moves A (dispatch_each scheduler at cs)
    unfolding dispatch_each dispatch_one
    dispatch_each-Moves scheduler at [] = search moves_rules
    dispatch_each-Moves scheduler at (c ∷ cs) =
        bind-Moves _ _
          (bind-Moves _ _ (quiet-Moves _ (following_run-IsQuiet c at)) λ next.
            bind-Moves _ _ (quiet-Moves _ (take_run-IsQuiet c at next))
              (enqueue_run-Moves scheduler at c))
          λ this. bind-Moves _ _ (dispatch_each-Moves scheduler at cs) λ rest. search moves_rules

    pub dispatch_due_schedules-Moves :
        (scheduler : String) (limit : Parsed) → Moves A (dispatch_due_schedules scheduler limit)
    unfolding dispatch_due_schedules
    dispatch_due_schedules-Moves scheduler limit =
        bind-Moves _ _ (search moves_rules)
          λ at. bind-Moves _ _ (search moves_rules) (dispatch_each-Moves scheduler at)
