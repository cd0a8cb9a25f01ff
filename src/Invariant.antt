-- ===== src/Invariant.antt =====
-- The invariant of a row of the jobs table, across one write of the store.
use distributed_job_queue_sc.Prelude.{
  ℕ, String, Bool, true, false, ◌≡◌, refl, ◌≤◌, List, [], ◌∷◌, some, arith, All, All-append,
  All-update_rows, is_some, Bool-cases, inl, inr, str_eq, subst, find,
}
use distributed_job_queue_sc.Json.{Json}
use distributed_job_queue_sc.Model.{
  Job, Store, Status, cancelled, is_running, is_completed, is_dead_letter, is_failed, is_pending,
}
use distributed_job_queue_sc.Jobs.{
  Change, claim, defer, renew, complete, release, fail, cancel, cancel_dependent, requeue,
  allow_attempts, expire_lease, time_out, where_row, set_row, get_job, replace_job, holds_lease,
}
use distributed_job_queue_sc.Jobs.Enqueue.{JobInput, new_job, initial_status}
use distributed_job_queue_sc.Jobs.Finish.{give_up_lease}
use distributed_job_queue_sc.Steps.{
  Write, add, Ready, Step, same, update, insert, drop_leases, set_queues, Reach, Reach_ind,
}

abbrev pub is_cancelled : Status → Bool
is_cancelled cancelled = true
is_cancelled _ = false

-- A job holds a lease exactly while it runs, and each end of its life has its own time stamp.
pub record WellFormed (j : Job) : Type 0 where
  pub owner : is_some j.lease_owner ≡ is_running j.status
  pub expiry : is_some j.lease_expires_at ≡ is_running j.status
  pub completed : is_some j.completed_at ≡ is_completed j.status
  pub output : is_some j.output ≡ is_completed j.status
  pub cancelled : is_some j.cancelled_at ≡ is_cancelled j.status
  pub dead : is_some j.dead_lettered_at ≡ is_dead_letter j.status
  pub started : is_running j.status ≡ true → is_some j.started_at ≡ true
  pub tried : is_running j.status ≡ true → 1 ≤ j.attempts
  pub not_failed : is_failed j.status ≡ false

set_row-WellFormed :
    (s : Store) (c : Change) (j : Job)
    → where_row s c j ≡ true
    → Ready c j
    → WellFormed j
    → WellFormed (set_row c j)
unfolding set_row where_row
set_row-WellFormed s (claim worker until at) j w r v = ground arith
set_row-WellFormed s (defer t reason at) j w r v = ground arith
set_row-WellFormed s (renew worker until at) j w r v = ground arith
set_row-WellFormed s (complete worker output at) j w r v = ground arith
set_row-WellFormed s (release later at) j w r v = ground arith
set_row-WellFormed s (fail retry error t hint at) j w r v = ground arith
set_row-WellFormed s (cancel at) j w r v = ground arith
set_row-WellFormed s (cancel_dependent reason at) j w r v = ground arith
set_row-WellFormed s (requeue later t at) j w r v = ground arith
set_row-WellFormed s (allow_attempts n) j w r v = ground arith
set_row-WellFormed s (expire_lease retry error hint at) j w r v = ground arith
set_row-WellFormed s (time_out retry error t hint at) j w r v = ground arith

give_up_lease-WellFormed :
    (worker reason : String) (at : ℕ) (j : Job)
    → holds_lease j worker ≡ true
    → WellFormed j
    → WellFormed (give_up_lease reason at j)
unfolding give_up_lease
give_up_lease-WellFormed worker reason at j h v = ground arith

initial_status-pending :
    (ids : List String) (t at : ℕ) → is_pending (initial_status ids t at) ≡ true
unfolding initial_status
initial_status-pending [] t at = ground arith
initial_status-pending (id ∷ ids) t at = refl

pub new_job-WellFormed :
    (input : JobInput) (id queue : String) (payload : Json)
    (depends_on waiting errors : List String) (run_at at : ℕ)
    → WellFormed (new_job input id queue payload depends_on waiting errors run_at at)
unfolding new_job
new_job-WellFormed input id queue payload depends_on waiting errors run_at at =
    ground (arith, initial_status-pending waiting run_at at)

replace_job-All :
    (P : Job → Type 0) (id : String) (new : Job) (js : List Job)
    → P new
    → All P js
    → All P (replace_job id new js)
unfolding replace_job
replace_job-All P id new [] n h = tt
replace_job-All P id new (j ∷ js) n (p, h) = elim (Bool-cases (str_eq j.id id)) [
  | inl e ↦ rw e (n, h)
  | inr e ↦ rw e (p, replace_job-All P id new js n h)
]

pub get_job-All :
    (P : Job → Type 0) (id : String) (js : List Job) {j : Job}
    → get_job id js ≡ some j
    → All P js
    → P j
unfolding get_job find
get_job-All P id [] e h = absurd (cc)
get_job-All P id (x ∷ js) {j} e (p, h) = elim (Bool-cases (str_eq x.id id)) [
  | inl hit ↦ (let same : x ≡ j = ground arith in subst P same p)
  | inr miss ↦ get_job-All P id js (rw miss at e) h
]

-- Only well-formed rows are inserted.
abbrev pub Sound : Write → Type 0
Sound (add j) = WellFormed j
Sound w = Unit

Step-WellFormed : {s t : Store} → Step Sound s t → All WellFormed s.jobs → All WellFormed t.jobs
Step-WellFormed (same e q) v = rw e v
Step-WellFormed {s} (update c id j a g w r e q) v = rw e (
    replace_job-All WellFormed id (set_row c j) s.jobs
      (set_row-WellFormed s c j w r (get_job-All WellFormed id s.jobs g v)) v)
Step-WellFormed {s} (insert j a f e q) v = rw e (All-append WellFormed s.jobs (j ∷ []) v (a, tt))
Step-WellFormed {s} (drop_leases worker reason at a e q) v =
    rw e (All-update_rows WellFormed _ _ s.jobs (give_up_lease-WellFormed worker reason at) v)
Step-WellFormed (set_queues a e) v = rw e v

pub Reach-WellFormed :
    {s t : Store} → Reach Sound s t → All WellFormed s.jobs → All WellFormed t.jobs
Reach-WellFormed =
    Reach_ind (λ s t. All WellFormed s.jobs → All WellFormed t.jobs) (λ s v. v)
      (λ s t u r st v. Step-WellFormed st (r v))
