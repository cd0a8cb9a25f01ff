-- ===== src/Autoscaler/Laws.antt =====
-- The recommendation of `recommendAutoscale` (src/core/autoscaler.mjs).
use native.Mathlib.Omega.{arith}
use native.Mathlib.Nat.{mul-le-mul_right}
use distributed_job_queue_sc.Prelude.{
  length, where_rows, [], ◌∷◌, refl, ap, ℕ, zero, suc, ◌+◌, ◌-◌, ◌*◌, ◌≤◌, ◌<◌, ◌≡◌, refl, List,
  ◌⊎◌, inl, inr, Bool-cases, ltb, if◌then◌else◌, map, or_else, ◌&&◌,
}
use distributed_job_queue_sc.Prelude.Int.{pos, pos_part, neg_part, sub_ℕ}
use distributed_job_queue_sc.Input.{Parsed, nan, int}
use distributed_job_queue_sc.Model.{Worker, WorkerStatus, online, draining, offline}
use distributed_job_queue_sc.Autoscaler.{
  QueueStats, Options, scale_up, scale_down, steady, Recommendation, clamp, ceil_div,
  wanted_workers, sum, action_for, is_active_worker, recommend_autoscale,
}

clamp-bounds : (v : Parsed) (lo hi : ℕ) → lo ≤ hi → (lo ≤ clamp v lo hi) × (clamp v lo hi ≤ hi)
unfolding clamp
clamp-bounds nan lo hi h = (omega arith, omega arith)
clamp-bounds (int n) lo hi h = ground arith

clamp-covers :
    (n lo hi : ℕ) → lo ≤ hi → (n ≤ clamp (int (pos n)) lo hi) ⊎ (clamp (int (pos n)) lo hi ≡ hi)
unfolding clamp
clamp-covers n lo hi h = ground arith

ceil_div-covers : (n d : ℕ) → 1 ≤ d → n ≤ ceil_div n d * d
unfolding ceil_div
ceil_div-covers n zero h = absurd (omega arith)
ceil_div-covers n (suc d) h = omega arith

ceil_div-tight : (n d : ℕ) → 1 ≤ d → ceil_div n d * d < n + d
unfolding ceil_div
ceil_div-tight n zero h = absurd (omega arith)
ceil_div-tight n (suc d) h = omega arith

clamp-least : (n lo hi : ℕ) → (clamp (int (pos n)) lo hi ≡ lo) ⊎ (clamp (int (pos n)) lo hi ≤ n)
unfolding clamp
clamp-least n lo hi = ground arith

no-fewer :
    (load pending age target extra : ℕ)
    → load ≤ (
        if ltb 0 pending && ltb (if ltb target age then load + extra else load) 1
        then 1
        else (if ltb target age then load + extra else load))
no-fewer load pending age target extra = ground arith

wanted-covers :
    (pending running age jobs target : ℕ)
    → 1 ≤ jobs
    → pending + running ≤ wanted_workers pending running age jobs target * jobs
unfolding wanted_workers
wanted-covers pending running age jobs target h = omega (
  arith,
  ceil_div-covers (pending + running) jobs h,
  mul-le-mul_right jobs
      (no-fewer (ceil_div (pending + running) jobs) pending age target (ceil_div age target - 1)),
)

-- Without an old job, no worker too many is wanted.
wanted-tight :
    (pending running age jobs target : ℕ)
    → 1 ≤ jobs
    → (target < age)
      ⊎ (wanted_workers pending running age jobs target * jobs < pending + running + jobs)
unfolding wanted_workers
wanted-tight pending running age jobs target h = elim (Bool-cases (ltb target age)) [
  | inl old ↦ inl (ground arith)
  | inr young ↦ inr (
      rw young (elim (Bool-cases (ltb 0 pending && ltb (ceil_div (pending + running) jobs) 1)) [
        | inl few ↦
            (let some_pending : 0 < pending = ground arith in rw few (omega (arith, some_pending)))
        | inr enough ↦ rw enough (ceil_div-tight (pending + running) jobs h)
      ]))
]

clamped-tight :
    (wanted low high load jobs age target : ℕ)
    → (target < age) ⊎ (wanted * jobs < load + jobs)
    → (clamp (int (pos wanted)) low high ≡ low)
      ⊎ ((target < age) ⊎ (clamp (int (pos wanted)) low high * jobs < load + jobs))
clamped-tight wanted low high load jobs age target (inl old) = inr (inl old)
clamped-tight wanted low high load jobs age target (inr tight) =
    elim (clamp-least wanted low high) [
      | inl e ↦ inl e
      | inr l ↦ inr (inr (omega (arith, mul-le-mul_right jobs l)))
    ]

-- The workers that are not offline.
abbrev pub count_active : List Worker → ℕ
count_active [] = 0
count_active (w ∷ ws) = elim w.status [
  | online ↦ suc (count_active ws)
  | draining ↦ suc (count_active ws)
  | offline ↦ count_active ws
]

count_active-where :
    (ws : List Worker) → length (where_rows (λ w. is_active_worker w.status) ws) ≡ count_active ws
unfolding where_rows
count_active-where [] = refl
count_active-where (w ∷ ws) = by_status w.status refl (count_active-where ws)
  where
    by_status :
        (t : WorkerStatus)
        → w.status ≡ t
        → length (where_rows (λ w. is_active_worker w.status) ws) ≡ count_active ws
        → length (where_rows (λ w. is_active_worker w.status) (w ∷ ws)) ≡ count_active (w ∷ ws)
    by_status online e h = rw e (ap suc h)
    by_status draining e h = rw e (ap suc h)
    by_status offline e h = rw e h

-- A recommendation that holds together, for the metrics, the workers and the options.
pub record Coherent (stats : List QueueStats) (age : ℕ) (workers : List Worker) (options : Options)
    (r : Recommendation) : Type 0 where
  pub current : r.current_workers ≡ count_active workers
  pub pending : r.pending_jobs ≡ sum (map (λ q. q.queued + q.scheduled) stats)
  pub running : r.running_jobs ≡ sum (map (λ q. q.running) stats)
  pub oldest_age : r.oldest_pending_age_ms ≡ age
  pub lowest : r.min_workers ≡ clamp (or_else options.min_workers (int (pos 1))) 0 100
  pub highest : r.max_workers ≡ clamp (or_else options.max_workers (int (pos 8))) r.min_workers 100
  pub target :
      r.target_jobs_per_worker ≡ clamp (or_else options.target_jobs_per_worker (int (pos 8))) 1 1000
  pub target_age :
      r.target_queue_age_ms
      ≡ clamp (or_else options.target_queue_age_ms (int (pos 30000))) 1000 86400000
  pub at_least : r.min_workers ≤ r.desired_workers
  pub at_most : r.desired_workers ≤ r.max_workers
  pub covers :
      (r.pending_jobs + r.running_jobs ≤ r.desired_workers * r.target_jobs_per_worker)
      ⊎ (r.desired_workers ≡ r.max_workers)
  pub needed :
      (r.desired_workers ≡ r.min_workers)
      ⊎ ((r.target_queue_age_ms < r.oldest_pending_age_ms)
          ⊎ (r.desired_workers * r.target_jobs_per_worker
              < r.pending_jobs + r.running_jobs + r.target_jobs_per_worker))
  pub move :
      ((r.action ≡ scale_up) × (r.current_workers < r.desired_workers))
      ⊎ (((r.action ≡ scale_down) × (r.desired_workers < r.current_workers))
          ⊎ ((r.action ≡ steady) × (r.desired_workers ≡ r.current_workers)))
  pub change : pos_part r.delta + r.current_workers ≡ neg_part r.delta + r.desired_workers

action-move :
    (d c : ℕ)
    → ((action_for d c ≡ scale_up) × (c < d))
      ⊎ (((action_for d c ≡ scale_down) × (d < c)) ⊎ ((action_for d c ≡ steady) × (d ≡ c)))
unfolding action_for
action-move d c = elim (Bool-cases (ltb c d)) [
  | inl e ↦ inl (rw e refl, ground arith)
  | inr e ↦ elim (Bool-cases (ltb d c)) [
    | inl f ↦ inr (inl (rw (e, f) refl, ground arith))
    | inr f ↦ inr (inr (rw (e, f) refl, ground arith))
  ]
]

delta-change : (d c : ℕ) → pos_part (sub_ℕ d c) + c ≡ neg_part (sub_ℕ d c) + d
delta-change d c = ground arith

-- For any metrics, workers and options: the active workers are those that are not offline, the pending and
-- running jobs are the totals of the queues, the limits and targets are the options, in range; the number of
-- workers wanted is between the two limits; it is enough for the pending and running jobs at the target
-- number of jobs per worker, unless it is the upper limit; it is the least such number, unless it is the
-- lower limit or the oldest pending job is older than the target age; the action is to scale up, to scale down or to do nothing as more, fewer or as many workers are wanted
-- than are active; and the difference is theirs.
pub recommend_autoscale-Coherent :
    (stats : List QueueStats) (age : ℕ) (workers : List Worker) (options : Options) (at : ℕ)
    → Coherent stats age workers options (recommend_autoscale stats age workers options at)
unfolding recommend_autoscale
recommend_autoscale-Coherent stats age workers options at =
    let low = clamp-bounds (or_else options.min_workers (int (pos 1))) 0 100 (omega arith) in
    let min_workers = clamp (or_else options.min_workers (int (pos 1))) 0 100 in
    let high = clamp-bounds (or_else options.max_workers (int (pos 8))) min_workers 100 low.1 in
    let max_workers = clamp (or_else options.max_workers (int (pos 8))) min_workers 100 in
    let jobs = clamp (or_else options.target_jobs_per_worker (int (pos 8))) 1 1000 in
    let some_jobs =
      clamp-bounds (or_else options.target_jobs_per_worker (int (pos 8))) 1 1000 (omega arith) in
    let target = clamp (or_else options.target_queue_age_ms (int (pos 30000))) 1000 86400000 in
    let pending = sum (map (λ q. q.queued + q.scheduled) stats) in
    let running = sum (map (λ q. q.running) stats) in
    let wanted = wanted_workers pending running age jobs target in
    let desired = clamp (int (pos wanted)) min_workers max_workers in
    let inside = clamp-bounds (int (pos wanted)) min_workers max_workers high.0 in
    record {
      current = count_active-where workers;
      pending = refl;
      running = refl;
      oldest_age = refl;
      lowest = refl;
      highest = refl;
      target = refl;
      target_age = refl;
      at_least = inside.0;
      at_most = inside.1;
      covers = elim (clamp-covers wanted min_workers max_workers high.0) [
        | inl e ↦ inl (
            omega (
              arith,
              wanted-covers pending running age jobs target some_jobs.0,
              mul-le-mul_right jobs e,
            ))
        | inr e ↦ inr e
      ];
      needed =
          clamped-tight wanted min_workers max_workers (pending + running) jobs age target
            (wanted-tight pending running age jobs target some_jobs.0);
      move = action-move desired _;
      change = delta-change desired _;
    }
