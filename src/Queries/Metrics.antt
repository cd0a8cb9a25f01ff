-- ===== src/Queries/Metrics.antt =====
-- `getMetrics`, `getAutoscaleRecommendation` (src/core/store.mjs).
use distributed_job_queue_sc.Prelude.{
  ℕ, suc, ◌-◌, String, Bool, true, List, [], ◌∷◌, Option, none, some, ltb, str_eq, where_rows,
  count_rows, sort_by, map, if◌then◌else◌, ◌==◌,
}
use distributed_job_queue_sc.Prelude.Int.{ℤ, pos, sub_ℕ, ◌+ℤ◌}
use distributed_job_queue_sc.Text.{text_before}
use distributed_job_queue_sc.Model.{
  Job, Queue, Worker, Schedule, RateLimit, Status, queued, scheduled, waiting_dependencies, running,
  completed, cancelled, dead_letter, failed, is_pending,
}
use distributed_job_queue_sc.Exec.{Exec, pure, gets, ◌>>=◌, now_iso}
use distributed_job_queue_sc.Workers.{list_workers}
use distributed_job_queue_sc.RateLimits.{list_rate_limits}
use distributed_job_queue_sc.Schedules.{list_schedules}
use distributed_job_queue_sc.Autoscaler.{QueueStats, Options, Recommendation, recommend_autoscale}
use distributed_job_queue_sc.Queries.{status_text}

abbrev pub all_statuses : List Status
all_statuses =
    queued ∷ scheduled ∷ waiting_dependencies ∷ running ∷ completed ∷ cancelled ∷ dead_letter
    ∷ failed ∷ []

-- COUNT(*) of one group.
unfoldable pub count_status : Status → List Job → ℕ
count_status st = count_rows (λ j. str_eq (status_text j.status) (status_text st))

-- SELECT status, COUNT(*) … GROUP BY status: the groups that are not empty.
unfoldable pub groups : List Status → List Job → List (Status × ℕ)
unfolding count_status
groups [] jobs = []
groups (st ∷ sts) jobs =
    let rest = groups sts jobs in
    if count_status st jobs == 0 then rest else (st, count_status st jobs) ∷ rest

pub record QueueMetrics : Type 0 where
  pub name : String
  pub concurrency : ℕ
  pub max_backlog : ℕ
  pub enabled : Bool
  pub total : ℕ
  pub stats : QueueStats
  pub completed : ℕ

-- The row of one queue, from the jobs that join it.
unfoldable pub queue_metrics : List Job → Queue → QueueMetrics
unfolding count_status
queue_metrics jobs q =
    let own = where_rows (λ j. str_eq j.queue q.name) jobs in
    record {
      name = q.name;
      concurrency = q.concurrency;
      max_backlog = q.max_backlog;
      enabled = q.enabled;
      total = count_rows (λ _. true) own;
      stats = record {
        queued = count_status queued own;
        scheduled = count_status scheduled own;
        running = count_status running own;
        dead_letter = count_status dead_letter own;
      };
      completed = count_status completed own;
    }

-- An average as a fraction, before it is rounded to two places; no row gives 0.
pub record Average : Type 0 where
  pub summed : ℤ
  pub count : ℕ

-- AVG(a - created_at) over the completed jobs; a NULL is left out.
unfoldable pub average_since : (Job → Option ℕ) → List Job → Average
average_since at [] = record { summed = pos 0; count = 0 }
average_since at (j ∷ js) =
    let rest = average_since at js in
    elim j.completed_at [
      | none ↦ rest
      | some done ↦ elim (at j) [
        | none ↦ rest
        | some t ↦ record { summed = sub_ℕ t j.created_at +ℤ rest.summed; count = suc rest.count }
      ]
    ]

-- MIN(created_at) over the pending jobs.
unfoldable pub oldest_pending : List Job → Option ℕ
oldest_pending [] = none
oldest_pending (j ∷ js) =
    let rest = oldest_pending js in
    if is_pending j.status
    then elim rest [
      | none ↦ some j.created_at
      | some t ↦ if ltb t j.created_at then some t else some j.created_at
    ]
    else rest

-- The clock is read only if there is a pending job; the age is not negative.
unfoldable pub pending_age : Option ℕ → Exec ℕ
pending_age none = pure 0
pending_age (some t) = do at ← now_iso; pure (at - t)

pub record Metrics : Type 0 where
  pub generated_at : ℕ
  pub jobs_by_status : List (Status × ℕ)
  pub queues : List QueueMetrics
  pub average_end_to_end : Average
  pub average_queue_wait : Average
  pub oldest_pending_age_ms : ℕ
  pub workers : List Worker
  pub schedules : List Schedule
  pub rate_limits : List RateLimit

-- `getMetrics()`.
unfoldable pub get_metrics : Exec Metrics
get_metrics = do
  jobs ← gets (λ s. s.jobs)
  queues ← gets (λ s. sort_by (λ (a b : Queue). text_before a.name b.name) s.queues)
  age ← pending_age (oldest_pending jobs)
  at ← now_iso
  workers ← list_workers
  schedules ← gets list_schedules
  limits ← list_rate_limits
  pure (record {
    generated_at = at;
    jobs_by_status = groups all_statuses jobs;
    queues = map (queue_metrics jobs) queues;
    average_end_to_end = average_since (λ j. j.completed_at) jobs;
    average_queue_wait = average_since (λ j. j.started_at) jobs;
    oldest_pending_age_ms = age;
    workers = workers;
    schedules = schedules;
    rate_limits = limits;
  })

-- `getAutoscaleRecommendation(options)`.
unfoldable pub get_autoscale_recommendation : Options → Exec Recommendation
get_autoscale_recommendation options = do
  metrics ← get_metrics
  workers ← list_workers
  at ← now_iso
  pure (
      recommend_autoscale (map (λ (q : QueueMetrics). q.stats) metrics.queues)
        metrics.oldest_pending_age_ms workers options at)
