-- ===== src/Schedules/Fired.antt =====
-- The jobs that a dispatch adds: `dispatchDueSchedules` (src/core/store.mjs).
use distributed_job_queue_sc.Prelude.{
  ◌++◌, ℕ, String, ◌≡◌, refl, sym, ap, ◌∙◌, subst, List, [], ◌∷◌, none, some, All, inl, inr,
}
use mathlib.Core.List.{append-nil, append_assoc}
use distributed_job_queue_sc.Json.{Json}
use distributed_job_queue_sc.Text.{or_text, trim, normalize_name}
use distributed_job_queue_sc.Input.{Parsed, clamp_nat}
use distributed_job_queue_sc.Model.{Store, Schedule, Job}
use distributed_job_queue_sc.Exec.{Exec, Result, ok, err, ◌>>=◌, now_iso}
use distributed_job_queue_sc.Exec.Outcome.{
  Ends, Judge, bind-Ends, then-Ends, weaken-Ends, pure-Gives, gets-Gives, add_event-Gives,
  Gives-Ends,
}
use distributed_job_queue_sc.Jobs.Enqueue.{null_if_empty, enqueue_job}
use distributed_job_queue_sc.Steps.Unique.{UniqueIds, append-UniqueIds}
use distributed_job_queue_sc.Outcomes.Insert.{Added, Enqueued}
use distributed_job_queue_sc.Outcomes.Enqueue.{enqueue_job-Enqueued}
use distributed_job_queue_sc.Schedules.{scheduled_job}
use distributed_job_queue_sc.Schedules.Dispatch.{
  following_run, take_run, enqueue_run, Dispatched, dispatch_one, dispatch_each,
  dispatch_due_schedules,
}
use distributed_job_queue_sc.Schedules.Runs.{
  Rows, DistinctIds, Took, Picks, IsDue, Picks-All, set_run,
}
use distributed_job_queue_sc.Schedules.Due.{due_schedules-Selected}
use distributed_job_queue_sc.Schedules.Present.{Has, due_schedules-Has, Has-All}
use distributed_job_queue_sc.Schedules.Batch.{
  run_of_kind-Ends, dispatch_one-Planned, now, selected, dispatch_due_schedules-Rows,
}

-- A run of `c`: the row that the UPDATE returned, and a job of its type and queue, due at once.
abbrev pub Fires : Schedule → Dispatched → Type 0
Fires c d =
    (d.schedule.id ≡ c.id)
    × (d.job.type ≡ trim (or_text c.type "generic.job"))
    × (d.job.queue ≡ normalize_name c.queue)
    × (d.job.source_schedule_id ≡ null_if_empty (some c.id))
    × (d.job.attempts ≡ 0)
    × (d.job.run_at ≡ d.job.created_at)

-- One run for each schedule, in the same order.
abbrev pub EachFires : List Schedule → List Dispatched → Type 0
EachFires [] [] = Unit
EachFires [] (d ∷ ds) = ⊥
EachFires (c ∷ cs) [] = ⊥
EachFires (c ∷ cs) (d ∷ ds) = Fires c d × EachFires cs ds

abbrev pub jobs_of : List Dispatched → List Job
jobs_of [] = []
jobs_of (d ∷ ds) = d.job ∷ jobs_of ds

-- The jobs of the runs are the only change to the jobs.
pub record Fired (s : Store) (cs : List Schedule) (ds : List Dispatched) (t : Store) : Type 0 where
  pub each : EachFires cs ds
  pub jobs : t.jobs ≡ s.jobs ++ jobs_of ds

abbrev FiredUnique : Store → List Schedule → List Dispatched → Store → Type 0
FiredUnique s cs ds t = Fired s cs ds t × UniqueIds t.jobs

module _ {B : Type 0} where
  and-Ends :
      (m : Exec B) (s : Store) {P Q : B → Store → Type 0} {E F : Store → Type 0}
      → Ends m s P E
      → Ends m s Q F
      → Ends m s (λ b t. P b t × Q b t) F
  and-Ends m s {P = P} {Q = Q} {E = E} {F = F} g h = record {
    verdict = judge (m s).0 g.verdict h.verdict;
  }
    where
      judge :
          (r : Result B)
          → Judge (λ b. P b (m s).1) (E (m s).1) r
          → Judge (λ b. Q b (m s).1) (F (m s).1) r
          → Judge (λ b. P b (m s).1 × Q b (m s).1) (F (m s).1) r
      judge (ok b) p q = (p, q)
      judge (err e) p q = q

-- The enqueue of a schedule has no key, so it adds a job.
enqueue-Adds :
    (c : Schedule) (payload : Json) (s : Store)
    → UniqueIds s.jobs
    → Ends (enqueue_job (scheduled_job c payload)) s (Added (scheduled_job c payload) s) (λ _. Unit)
enqueue-Adds c payload s u =
    weaken-Ends _ s (enqueue_job-Enqueued (scheduled_job c payload) s u) added (λ t e. tt)
  where
    no_key : (scheduled_job c payload).idempotency_key ≡ none
    no_key = unfold scheduled_job in refl

    added :
        (row : Job) (t : Store)
        → Enqueued (scheduled_job c payload) s row t
        → Added (scheduled_job c payload) s row t
    added row t (inl a) = a
    added row t (inr r) = absurd (cc (no_key, r.asked))

Added-Fired :
    (c updated : Schedule) (payload : Json) (s t : Store) (row : Job)
    → updated.id ≡ c.id
    → UniqueIds s.jobs
    → Added (scheduled_job c payload) s row t
    → FiredUnique s (c ∷ []) (record { schedule = updated; job = row } ∷ []) t
unfolding scheduled_job
Added-Fired c updated payload s t row e u a = (
  record {
    each = ((e, a.asks.type, a.queue, a.asks.source_schedule_id, a.attempts, a.run_at), tt);
    jobs = a.jobs;
  },
  subst UniqueIds (sym a.jobs) (append-UniqueIds row s.jobs a.alone u),
)

Fired-jobs :
    (r s t : Store) (cs : List Schedule) (ds : List Dispatched)
    → r.jobs ≡ s.jobs
    → FiredUnique r cs ds t
    → FiredUnique s cs ds t
Fired-jobs r s t cs ds e (f, u) =
    (record { each = f.each; jobs = f.jobs ∙ ap (λ js. js ++ jobs_of ds) e }, u)

same_jobs-Fired :
    (s t v : Store) (cs : List Schedule) (ds : List Dispatched)
    → v.jobs ≡ t.jobs
    → FiredUnique s cs ds t
    → FiredUnique s cs ds v
same_jobs-Fired s t v cs ds e (f, u) =
    (record { each = f.each; jobs = e ∙ f.jobs }, subst UniqueIds (sym e) u)

enqueue_run-Fired :
    (scheduler : String) (at : ℕ) (c updated : Schedule) (s : Store)
    → updated.id ≡ c.id
    → UniqueIds s.jobs
    → Ends (enqueue_run scheduler at c (some updated)) s (FiredUnique s (c ∷ [])) (λ _. Unit)
unfolding enqueue_run
enqueue_run-Fired scheduler at c updated s e u =
    bind-Ends _ _ s (Gives-Ends _ s (gets-Gives (λ s. s.world.iso) s)) λ iso t (_, same).
      bind-Ends _ _ t (enqueue-Adds c _ t (subst UniqueIds (sym same) u)) λ row v added.
        then-Ends _ _ v (Gives-Ends _ v (add_event-Gives _ _ _ _ _ v)) λ _ w same_w.
          Gives-Ends _ w (
            pure-Gives _ w (
              same_jobs-Fired s v w (c ∷ []) _ same_w (
                Fired-jobs t s v (c ∷ []) _ same
                  (Added-Fired c updated _ t v row e (subst UniqueIds (sym same) u) added))))

take_run-Takes :
    (at next : ℕ) (c : Schedule) (s : Store)
    → Has s.schedules c
    → Ends
        (take_run c at next)
        s
        (λ o t.
          ((updated : Schedule) × (o ≡ some updated) × (updated.id ≡ c.id)) × (t.jobs ≡ s.jobs))
        (λ _. Unit)
unfolding take_run
take_run-Takes at next c s h = record { verdict = ((set_run at next c, rw h refl, refl), refl) }

dispatch_one-Fired :
    (scheduler : String) (at : ℕ) (c : Schedule) (s : Store)
    → Has s.schedules c
    → UniqueIds s.jobs
    → Ends (dispatch_one scheduler at c) s (FiredUnique s (c ∷ [])) (λ _. Unit)
unfolding dispatch_one following_run
dispatch_one-Fired scheduler at c s h u =
    bind-Ends _ _ s
      (weaken-Ends _ s (run_of_kind-Ends c.schedule_kind c at s) (λ next t h. h) (λ t e. tt))
      λ next t (_, e).
        let jobs : t.jobs ≡ s.jobs = ap (λ (x : Store). x.jobs) e in
        bind-Ends _ _ t
          (take_run-Takes at next c t (subst (λ (x : Store). Has x.schedules c) (sym e) h))
          λ o v ((updated, is_some, id), same).
            subst (λ x. Ends (enqueue_run scheduler at c x) v (FiredUnique s (c ∷ [])) (λ _. Unit))
              (sym is_some)
              (weaken-Ends _ v
                (enqueue_run-Fired scheduler at c updated v id
                  (subst UniqueIds (sym (same ∙ jobs)) u))
                (λ ds w f. Fired-jobs v s w (c ∷ []) ds (same ∙ jobs) f) (λ w e. tt))

Fired-append :
    (c : Schedule) (cs : List Schedule) (this others : List Dispatched) (s t v : Store)
    → Fired s (c ∷ []) this t
    → Fired t cs others v
    → Fired s (c ∷ cs) (this ++ others) v
Fired-append c cs [] others s t v f g = elim f.each [ ]
Fired-append c cs (d ∷ []) others s t v f g = record {
  each = (f.each.0, g.each);
  jobs =
      g.jobs
      ∙ ap (λ js. js ++ jobs_of others) f.jobs
      ∙ append_assoc s.jobs (d.job ∷ []) (jobs_of others);
}
Fired-append c cs (d ∷ e ∷ ds) others s t v f g = elim f.each.1 [ ]

dispatch_each-Fired :
    (scheduler : String) (at : ℕ) (cs : List Schedule) (s : Store)
    → DistinctIds cs
    → All (IsDue at) cs
    → All (Picks s.schedules) cs
    → All (Has s.schedules) cs
    → UniqueIds s.jobs
    → Ends (dispatch_each scheduler at cs) s (Fired s cs) (λ _. Unit)
unfolding dispatch_each
dispatch_each-Fired scheduler at [] s a d p h u =
    Gives-Ends _ s (pure-Gives _ s record { each = tt; jobs = sym (append-nil s.jobs) })
dispatch_each-Fired scheduler at (c ∷ cs) s (a, apart) (d, ds) (p, ps) (h, hs) u =
    bind-Ends _ _ s
      (weaken-Ends _ s
        (and-Ends _ s (dispatch_one-Fired scheduler at c s h u)
          (dispatch_one-Planned scheduler at c s d p))
        (λ _ t q. q) (λ t _. tt))
      λ this t ((fired, unique), (rows, zone)).
        bind-Ends _ _ t
          (dispatch_each-Fired scheduler at cs t apart ds
            (Picks-All s.world.zone at c (c ∷ []) cs s.schedules t.schedules a rows ps)
            (Has-All s.world.zone at c (c ∷ []) cs s.schedules t.schedules a rows hs) unique)
          λ others v rest.
            Gives-Ends _ v
              (pure-Gives (this ++ others) v (Fired-append c cs this others s t v fired rest))

dispatch_jobs-Fired :
    (scheduler : String) (limit : Parsed) (s : Store)
    → DistinctIds s.schedules
    → UniqueIds s.jobs
    → Ends (dispatch_due_schedules scheduler limit) s (Fired s (selected limit s)) (λ _. Unit)
unfolding dispatch_due_schedules now_iso ◌>>=◌
dispatch_jobs-Fired scheduler limit s d u =
    let t = (now_iso s).1 in
    let picked = due_schedules-Selected (now s) (clamp_nat limit 1 100) s.schedules d in
    record {
      verdict =
          (weaken-Ends _ t {R = Fired s (selected limit s)} {F = λ _. Unit}
            (dispatch_each-Fired scheduler (now s) (selected limit s) t picked.distinct picked.due
              picked.picks (due_schedules-Has (now s) (clamp_nat limit 1 100) s.schedules d) u)
            (λ ds v f. record { each = f.each; jobs = f.jobs }) (λ v e. tt)).verdict;
    }

-- Dispatching the due schedules, where the ids of the schedules and those of the jobs are distinct: if it
-- returns, each schedule that it selected has run once and every other is as it was; the runs returned are
-- those of the selected schedules, one for each, in their order; and the only change to the jobs is that
-- the jobs of these runs are added, each with the schedule's type, queue and id, with no attempt and due when
-- it was created. If it throws part-way, each schedule is as it was or was selected and has run once. A
-- schedule that has run was enabled and due; only its last run (now), its next run and its update time have
-- changed; the next run of an interval schedule is one interval after the old one, and that of a cron
-- schedule is what its expression gives from now on.
pub dispatch_due_schedules-Fired :
    (scheduler : String) (limit : Parsed) (s : Store)
    → DistinctIds s.schedules
    → UniqueIds s.jobs
    → Ends
        (dispatch_due_schedules scheduler limit)
        s
        (λ ds t.
          Fired s (selected limit s) ds t
          × Rows
              (Took s.world.zone (now s) (selected limit s) (selected limit s))
              s.schedules
              t.schedules)
        (λ t. Rows (Took s.world.zone (now s) [] (selected limit s)) s.schedules t.schedules)
dispatch_due_schedules-Fired scheduler limit s d u =
    and-Ends _ s (dispatch_jobs-Fired scheduler limit s d u)
      (dispatch_due_schedules-Rows scheduler limit s d)
