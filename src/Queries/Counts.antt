-- ===== src/Queries/Counts.antt =====
-- The counts of `getMetrics` (src/core/store.mjs).
use distributed_job_queue_sc.Prelude.{
  ℕ, ◌+◌, Bool, true, false, ◌&&◌, ◌≡◌, refl, List, [], ◌∷◌, length, map, count_rows, where_rows,
  str_eq, ◌==◌, Bool-cases, inl, inr, if◌then◌else◌, arith,
}
use distributed_job_queue_sc.Model.{
  Job, Queue, Status, queued, scheduled, waiting_dependencies, running, completed, cancelled,
  dead_letter, failed, is_running,
}
use distributed_job_queue_sc.Jobs.{count_running}
use distributed_job_queue_sc.Autoscaler.{sum}
use distributed_job_queue_sc.Queries.{status_text}
use distributed_job_queue_sc.Queries.Metrics.{all_statuses, count_status, groups, queue_metrics}

sum-groups :
    (sts : List Status) (jobs : List Job)
    → sum (map (λ (g : Status × ℕ). g.1) (groups sts jobs))
      ≡ sum (map (λ st. count_status st jobs) sts)
unfolding sum groups
sum-groups [] jobs = refl
sum-groups (st ∷ sts) jobs = elim (Bool-cases (count_status st jobs == 0)) [
  | inl none_there ↦ rw none_there (ground (arith, sum-groups sts jobs))
  | inr some_there ↦ rw some_there (omega (arith, sum-groups sts jobs))
]

-- A status is one of all.
one_status :
    (st : Status)
    → sum (map (λ x. if str_eq (status_text st) (status_text x) then 1 else 0) all_statuses) ≡ 1
unfolding sum
one_status queued = refl
one_status scheduled = refl
one_status waiting_dependencies = refl
one_status running = refl
one_status completed = refl
one_status cancelled = refl
one_status dead_letter = refl
one_status failed = refl

sum-cons :
    (j : Job) (js : List Job) (sts : List Status)
    → sum (map (λ st. count_status st (j ∷ js)) sts)
      ≡ sum (map (λ x. if str_eq (status_text j.status) (status_text x) then 1 else 0) sts)
        + sum (map (λ st. count_status st js) sts)
unfolding sum count_status count_rows
sum-cons j js [] = refl
sum-cons j js (st ∷ sts) = omega (arith, sum-cons j js sts)

sum_none : (sts : List Status) → sum (map (λ st. count_status st []) sts) ≡ 0
unfolding sum count_status count_rows
sum_none [] = refl
sum_none (st ∷ sts) = omega (arith, sum_none sts)

sum-statuses : (jobs : List Job) → sum (map (λ st. count_status st jobs) all_statuses) ≡ length jobs
sum-statuses [] = sum_none all_statuses
sum-statuses (j ∷ js) =
    omega (arith, sum-cons j js all_statuses, one_status j.status, sum-statuses js)

count-where :
    (p q : Job → Bool) (r : Job → Bool) (jobs : List Job)
    → ((j : Job) → p j ≡ true → q j ≡ r j)
    → ((j : Job) → p j ≡ false → r j ≡ false)
    → count_rows q (where_rows p jobs) ≡ count_rows r jobs
unfolding count_rows where_rows
count-where p q r [] inside outside = refl
count-where p q r (j ∷ js) inside outside = elim (Bool-cases (p j)) [
  | inl e ↦ rw (e, inside j e) (omega (arith, count-where p q r js inside outside))
  | inr e ↦ rw (e, outside j e) (omega (arith, count-where p q r js inside outside))
]

running_text : (st : Status) → str_eq (status_text st) (status_text running) ≡ is_running st
running_text queued = refl
running_text scheduled = refl
running_text waiting_dependencies = refl
running_text running = refl
running_text completed = refl
running_text cancelled = refl
running_text dead_letter = refl
running_text failed = refl

-- In the metrics, the numbers of jobs by status add up to the number of jobs; and the number of running
-- jobs of a queue is the number that a claim compares with the queue's concurrency.
pub metrics_counts :
    (jobs : List Job) (q : Queue)
    → (sum (map (λ (g : Status × ℕ). g.1) (groups all_statuses jobs)) ≡ length jobs)
      × ((queue_metrics jobs q).stats.running ≡ count_running q.name jobs)
unfolding queue_metrics count_status count_running
metrics_counts jobs q = (
  omega (arith, sum-groups all_statuses jobs, sum-statuses jobs),
  count-where (λ j. str_eq j.queue q.name)
      (λ j. str_eq (status_text j.status) (status_text running))
      (λ j. str_eq j.queue q.name && is_running j.status) jobs (λ j e. rw e (running_text j.status))
      (λ j e. rw e refl),
)
