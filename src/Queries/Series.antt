-- ===== src/Queries/Series.antt =====
-- `getThroughputSeries`, `getWorkerPools` and `getState` (src/core/store.mjs).
use distributed_job_queue_sc.Prelude.{
  ℕ, suc, ◌+◌, ◌*◌, ◌/◌, String, Bool, ◌||◌, List, [], ◌∷◌, none, ltb, ◌==◌, str_eq, or_else,
  is_some, length, take, where_rows, sort_by, concat, if◌then◌else◌,
}
use distributed_job_queue_sc.Prelude.Int.{pos}
use distributed_job_queue_sc.Input.{int, clamp_nat}
use distributed_job_queue_sc.Model.{
  Store, Job, Queue, Worker, Schedule, RateLimit, Event, is_completed, is_dead_letter,
}
use distributed_job_queue_sc.Exec.{Exec, pure, gets, ◌>>=◌}
use distributed_job_queue_sc.Queues.{list_queues}
use distributed_job_queue_sc.Workers.{list_workers}
use distributed_job_queue_sc.RateLimits.{list_rate_limits}
use distributed_job_queue_sc.Schedules.{list_schedules}
use distributed_job_queue_sc.Autoscaler.{is_online, Options, Recommendation}
use distributed_job_queue_sc.Queries.{
  JobFilter, list_jobs, list_events, IdempotencyStats, get_idempotency_stats,
}
use distributed_job_queue_sc.Queries.Metrics.{Metrics, get_metrics, get_autoscale_recommendation}

pub record Bucket : Type 0 where
  pub start : ℕ
  pub completed : ℕ
  pub dead_letter : ℕ

-- COALESCE(completed_at, dead_lettered_at, created_at)
unfoldable pub finished_at : Job → ℕ
finished_at j = or_else j.completed_at (or_else j.dead_lettered_at j.created_at)

unfoldable pub count_job : Job → Bucket → Bucket
count_job j b = record b {
  completed = (if is_completed j.status then 1 else 0) + b.completed;
  dead_letter = (if is_dead_letter j.status then 1 else 0) + b.dead_letter;
}

-- The bucket of the map, or a new one at its end.
unfoldable pub bump_bucket : ℕ → Job → List Bucket → List Bucket
unfolding count_job
bump_bucket start j [] = count_job j (record { start = start; completed = 0; dead_letter = 0 }) ∷ []
bump_bucket start j (b ∷ bs) =
    if b.start == start then count_job j b ∷ bs else b ∷ bump_bucket start j bs

unfoldable pub fill_buckets : ℕ → List Job → List Bucket → List Bucket
unfolding bump_bucket finished_at
fill_buckets bucket_ms [] bs = bs
fill_buckets bucket_ms (j ∷ js) bs =
    fill_buckets bucket_ms js (bump_bucket (finished_at j / bucket_ms * bucket_ms) j bs)

abbrev has_ended : Job → Bool
has_ended j = is_some j.completed_at || is_some j.dead_lettered_at

-- `list.slice(-n)`.
unfoldable pub last_items : {A : Type 0} → ℕ → List A → List A
last_items n [] = []
last_items n (x ∷ xs) =
    let rest = last_items n xs in if ltb n (suc (length xs)) then rest else x ∷ xs

-- `getThroughputSeries({ bucketMs, limit })`, for buckets of at least one millisecond.
unfoldable pub get_throughput_series : (bucket_ms limit : ℕ) → Store → List Bucket
unfolding fill_buckets last_items clamp_nat finished_at
get_throughput_series bucket_ms limit s =
    let rows =
      take (clamp_nat (int (pos (limit * 100))) 1 5000)
        (sort_by (λ a b. ltb (finished_at b) (finished_at a)) (where_rows has_ended s.jobs)) in
    last_items (clamp_nat (int (pos limit)) 1 100)
      (sort_by (λ a b. ltb a.start b.start) (fill_buckets bucket_ms rows []))

pub record Pool : Type 0 where
  pub queue : String
  pub capability : String
  pub workers : ℕ
  pub online_workers : ℕ
  pub capacity : ℕ
  pub active_jobs : ℕ
  pub processed : ℕ
  pub failed : ℕ

abbrev pub pool_key : String → String → String
pool_key queue capability = concat (queue ∷ ":" ∷ capability ∷ [])

unfoldable pub count_worker : Worker → Pool → Pool
count_worker w p = record p {
  workers = p.workers + 1;
  online_workers = p.online_workers + (if is_online w.status then 1 else 0);
  capacity = p.capacity + w.concurrency;
  active_jobs = p.active_jobs + w.active_jobs;
  processed = p.processed + w.processed;
  failed = p.failed + w.failed;
}

unfoldable pub bump_pool : Worker → (queue capability : String) → List Pool → List Pool
unfolding count_worker
bump_pool w queue capability [] =
    count_worker w (record {
      queue = queue;
      capability = capability;
      workers = 0;
      online_workers = 0;
      capacity = 0;
      active_jobs = 0;
      processed = 0;
      failed = 0;
    })
    ∷ []
bump_pool w queue capability (p ∷ ps) =
    if str_eq (pool_key p.queue p.capability) (pool_key queue capability)
    then count_worker w p ∷ ps
    else p ∷ bump_pool w queue capability ps

unfoldable pub bump_capabilities : Worker → String → List String → List Pool → List Pool
unfolding bump_pool
bump_capabilities w queue [] ps = ps
bump_capabilities w queue (c ∷ cs) ps = bump_capabilities w queue cs (bump_pool w queue c ps)

abbrev or_any : List String → List String
or_any [] = "any" ∷ []
or_any cs = cs

unfoldable pub bump_queues : Worker → List String → List Pool → List Pool
unfolding bump_capabilities
bump_queues w [] ps = ps
bump_queues w (q ∷ qs) ps = bump_queues w qs (bump_capabilities w q (or_any w.capabilities) ps)

unfoldable pub fill_pools : List Worker → List Pool → List Pool
unfolding bump_queues
fill_pools [] ps = ps
fill_pools (w ∷ ws) ps = fill_pools ws (bump_queues w w.queues ps)

-- `getWorkerPools()`; the order of `localeCompare` is an argument.
unfoldable pub get_worker_pools : (String → String → Bool) → List Worker → List Pool
unfolding fill_pools
get_worker_pools before workers =
    sort_by (λ a b. before (pool_key a.queue a.capability) (pool_key b.queue b.capability))
      (fill_pools workers [])

pub record State : Type 0 where
  pub queues : List Queue
  pub jobs : List Job
  pub schedules : List Schedule
  pub workers : List Worker
  pub metrics : Metrics
  pub rate_limits : List RateLimit
  pub autoscale : Recommendation
  pub throughput : List Bucket
  pub worker_pools : List Pool
  pub idempotency : IdempotencyStats
  pub events : List Event

abbrev no_filter : JobFilter
no_filter = record {
  status = none;
  queue = none;
  type = none;
  worker_id = none;
  workflow_id = none;
  q = none;
  limit = int (pos 250);
}

abbrev default_options : Options
default_options = record {
  min_workers = none;
  max_workers = none;
  target_jobs_per_worker = none;
  target_queue_age_ms = none;
}

-- `getState()`.
unfoldable pub get_state : (String → String → Bool) → Exec State
get_state before = do
  queues ← list_queues
  jobs ← gets (list_jobs no_filter)
  schedules ← gets list_schedules
  workers ← list_workers
  metrics ← get_metrics
  limits ← list_rate_limits
  autoscale ← get_autoscale_recommendation default_options
  throughput ← gets (get_throughput_series 60000 20)
  idempotency ← gets get_idempotency_stats
  events ← gets (list_events (int (pos 50)))
  pure (record {
    queues = queues;
    jobs = jobs;
    schedules = schedules;
    workers = workers;
    metrics = metrics;
    rate_limits = limits;
    autoscale = autoscale;
    throughput = throughput;
    worker_pools = get_worker_pools before workers;
    idempotency = idempotency;
    events = events;
  })
