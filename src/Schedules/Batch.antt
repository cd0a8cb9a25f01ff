-- ===== src/Schedules/Batch.antt =====
-- A dispatch as a whole: `dispatchDueSchedules` (src/core/store.mjs).
use distributed_job_queue_sc.Prelude.{
  ◌++◌, str_eq, false, ℕ, String, or_else, ◌≡◌, refl, sym, ◌∙◌, subst, List, [], ◌∷◌, Option, none,
  some, All,
}
use distributed_job_queue_sc.Dates.{TimeZone}
use distributed_job_queue_sc.Input.{Parsed, clamp_nat}
use distributed_job_queue_sc.Model.{Store, Schedule, ScheduleKind, interval, cron}
use distributed_job_queue_sc.Exec.{Exec, Result, ok, err, ◌>>=◌, now_iso}
use distributed_job_queue_sc.Exec.Outcome.{Ends, bind-Ends, weaken-Ends, pure-Gives, Gives-Ends}
use distributed_job_queue_sc.Exec.Frame.{Keeps}
use distributed_job_queue_sc.Cron.Search.{next_cron_run}
use distributed_job_queue_sc.Schedules.{next_cron, from_result}
use distributed_job_queue_sc.Schedules.Dispatch.{
  due_schedules, run_of_kind, following_run, take_run, enqueue_run, Dispatched, dispatch_one,
  dispatch_each, dispatch_due_schedules,
}
use distributed_job_queue_sc.Schedules.Frame.{
  Keeps-Ends, schedules_of, frame_rules, enqueue_job-Keeps,
}
use distributed_job_queue_sc.Schedules.Runs.{
  FollowsAs, Rows, DistinctIds, Took, Picks, IsDue, Rows-refl, update_rows-Rows, Rows-trans,
  Picks-All, Took-weaken, Covers, cons-Covers, nil-Covers,
}
use distributed_job_queue_sc.Schedules.Due.{due_schedules-Selected}

enqueue_run-Keeps :
    (scheduler : String) (at : ℕ) (c : Schedule) (o : Option Schedule)
    → Keeps schedules_of (enqueue_run scheduler at c o)
unfolding enqueue_run
enqueue_run-Keeps scheduler at c none = search frame_rules
enqueue_run-Keeps scheduler at c (some d) = search (frame_rules, enqueue_job-Keeps)

from_result-Ends :
    {A : Type 0} (r : Result A) (s : Store)
    → Ends (from_result r) s (λ a t. (r ≡ ok a) × (t ≡ s)) (λ t. t ≡ s)
unfolding from_result
from_result-Ends (ok a) s = record { verdict = (refl, refl) }
from_result-Ends (err e) s = record { verdict = refl }

pub next_cron-Ends :
    (expression : String) (at : ℕ) (s : Store)
    → Ends
        (next_cron expression at)
        s
        (λ next t. (next_cron_run s.world.zone expression at ≡ ok next) × (t ≡ s))
        (λ t. t ≡ s)
unfolding next_cron ◌>>=◌
next_cron-Ends expression at s = record {
  verdict = (from_result-Ends (next_cron_run s.world.zone expression at) s).verdict;
}

pub run_of_kind-Ends :
    (k : ScheduleKind) (c : Schedule) (at : ℕ) (s : Store)
    → Ends
        (run_of_kind k c at)
        s
        (λ next t. FollowsAs s.world.zone k c at next × (t ≡ s))
        (λ t. t ≡ s)
unfolding run_of_kind
run_of_kind-Ends interval c at s = Gives-Ends _ s (pure-Gives _ s (refl, refl))
run_of_kind-Ends cron c at s = next_cron-Ends (or_else c.cron_expr "") at s

-- How the plan differs from `s` after the batch `cs`: the rows of `must` have run.
abbrev pub Planned : Store → ℕ → (must cs : List Schedule) → List Schedule × TimeZone → Type 0
Planned s at must cs (rows, zone) =
    Rows (Took s.world.zone at must cs) s.schedules rows × (zone ≡ s.world.zone)

-- A part of a method that leads from `t` on as `Planned` says, seen from `s`.
abbrev pub PlansEnds : {A : Type 0} → Exec A → (t s : Store) → ℕ → (cs : List Schedule) → Type 0
PlansEnds m t s at cs =
    Ends m t (λ _ u. Planned s at cs cs (schedules_of u)) (λ u. Planned s at [] cs (schedules_of u))

forget :
    (s : Store) (at : ℕ) (must : List Schedule) (c : Schedule) (cs : List Schedule) (t : Store)
    → Planned s at must (c ∷ []) (schedules_of t)
    → Planned s at [] (c ∷ cs) (schedules_of t)
forget s at must c cs t (h, e) =
    (Took-weaken s.world.zone at c must cs s.schedules t.schedules h, e)

take_run-Planned :
    (at next : ℕ) (c : Schedule) (s : Store)
    → IsDue at c
    → FollowsAs s.world.zone c.schedule_kind c at next
    → Picks s.schedules c
    → PlansEnds (take_run c at next) s s at (c ∷ [])
unfolding take_run
take_run-Planned at next c s d f p = record {
  verdict = (update_rows-Rows s.world.zone at next c s.schedules d f p, refl);
}

-- What follows the UPDATE leaves the plan.
enqueue_run-Planned :
    (scheduler : String) (at : ℕ) (c : Schedule) (o : Option Schedule) (s t : Store)
    → Planned s at (c ∷ []) (c ∷ []) (schedules_of t)
    → PlansEnds (enqueue_run scheduler at c o) t s at (c ∷ [])
enqueue_run-Planned scheduler at c o s t h =
    weaken-Ends _ t
      (Keeps-Ends (Planned s at (c ∷ []) (c ∷ [])) _ t (enqueue_run-Keeps scheduler at c o) h)
      (λ _ u k. k) (λ u k. forget s at (c ∷ []) c [] u k)

pub dispatch_one-Planned :
    (scheduler : String) (at : ℕ) (c : Schedule) (s : Store)
    → IsDue at c
    → Picks s.schedules c
    → PlansEnds (dispatch_one scheduler at c) s s at (c ∷ [])
unfolding dispatch_one following_run
dispatch_one-Planned scheduler at c s d p =
    let begun : Planned s at [] (c ∷ []) (schedules_of s) =
      (Rows-refl s.world.zone at (c ∷ []) s.schedules, refl) in
    bind-Ends _ _ s
      (weaken-Ends _ s (run_of_kind-Ends c.schedule_kind c at s) (λ next t h. h)
        (λ t e. subst (λ (u : Store). Planned s at [] (c ∷ []) (schedules_of u)) (sym e) begun))
      λ next t (f, e).
        subst (λ u. PlansEnds (rest next) u s at (c ∷ [])) (sym e)
          (bind-Ends _ _ s (take_run-Planned at next c s d f p)
            λ updated u h. enqueue_run-Planned scheduler at c updated s u h)
  where
    rest : ℕ → Exec (List Dispatched)
    rest next = take_run c at next >>= enqueue_run scheduler at c

Planned-trans :
    (s t : Store) (at : ℕ) (c : Schedule) (cs first second whole : List Schedule)
    (plan : List Schedule × TimeZone)
    → All (λ d. str_eq d.id c.id ≡ false) cs
    → Covers first second whole
    → Planned s at first (c ∷ []) (schedules_of t)
    → Planned t at second cs plan
    → Planned s at whole (c ∷ cs) plan
Planned-trans s t at c cs first second whole (rows, zone) a both (h, e) (k, f) = (
  Rows-trans s.world.zone at c cs first second whole s.schedules t.schedules rows a both h
      (subst (λ z. Rows (Took z at second cs) t.schedules rows) e k),
  f ∙ e,
)

dispatch_each-Planned :
    (scheduler : String) (at : ℕ) (cs : List Schedule) (s : Store)
    → DistinctIds cs
    → All (IsDue at) cs
    → All (Picks s.schedules) cs
    → PlansEnds (dispatch_each scheduler at cs) s s at cs
unfolding dispatch_each
dispatch_each-Planned scheduler at [] s a d p =
    Keeps-Ends (Planned s at [] []) _ s (search frame_rules)
      (Rows-refl s.world.zone at [] s.schedules, refl)
dispatch_each-Planned scheduler at (c ∷ cs) s (a, apart) (d, ds) (p, ps) =
    bind-Ends _ _ s
      (weaken-Ends _ s (dispatch_one-Planned scheduler at c s d p) (λ _ t h. h)
        (λ t h. forget s at [] c cs t h))
      λ this t (h, e).
        bind-Ends _ _ t
          (weaken-Ends _ t
            (dispatch_each-Planned scheduler at cs t apart ds
              (Picks-All s.world.zone at c (c ∷ []) cs s.schedules t.schedules a h ps))
            (λ _ u k.
              Planned-trans s t at c cs (c ∷ []) cs (c ∷ cs) (schedules_of u) a (cons-Covers c cs)
                (h, e) k)
            (λ u k.
              Planned-trans s t at c cs (c ∷ []) [] [] (schedules_of u) a (nil-Covers (c ∷ []) [])
                (h, e) k))
          λ others u k. Gives-Ends _ u (pure-Gives (this ++ others) u k)

-- The instant that a method reads first.
abbrev pub now : Store → ℕ
now s = s.world.clock s.world.reads

-- The schedules that a dispatch selects.
abbrev pub selected : Parsed → Store → List Schedule
selected limit s = due_schedules (now s) (clamp_nat limit 1 100) s.schedules

-- Dispatching the due schedules, in a table with distinct ids: if it returns, each schedule that it
-- selected has run once and every other is as it was; if it throws part-way, each is as it was or was
-- selected and has run once. A schedule that has run was enabled and due; only its
-- last run (now), its next run and its update time have changed; the next run of an interval schedule is
-- one interval after the old one, and that of a cron schedule is what its expression gives from now on.
pub dispatch_due_schedules-Rows :
    (scheduler : String) (limit : Parsed) (s : Store)
    → DistinctIds s.schedules
    → Ends
        (dispatch_due_schedules scheduler limit)
        s
        (λ _ t.
          Rows
            (Took s.world.zone (now s) (selected limit s) (selected limit s))
            s.schedules
            t.schedules)
        (λ t. Rows (Took s.world.zone (now s) [] (selected limit s)) s.schedules t.schedules)
unfolding dispatch_due_schedules now_iso ◌>>=◌
dispatch_due_schedules-Rows scheduler limit s d =
    let t = (now_iso s).1 in
    let picked = due_schedules-Selected (now s) (clamp_nat limit 1 100) s.schedules d in
    record {
      verdict =
          (weaken-Ends _ t
            (dispatch_each-Planned scheduler (now s) (selected limit s) t picked.distinct picked.due
              picked.picks)
            (λ _ u h. h.0) (λ u h. h.0)).verdict;
    }
