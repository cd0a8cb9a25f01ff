-- ===== src/Autoscaler.antt =====
-- `recommendAutoscale` (src/core/autoscaler.mjs).
pub mod Laws
use distributed_job_queue_sc.Prelude.{
  ℕ, zero, suc, ◌+◌, ◌-◌, ◌/◌, String, Bool, true, false, ◌&&◌, List, [], ◌∷◌, ◌++◌, Option, none,
  some, ltb, or_else, where_rows, length, map, foldl, concat, if◌then◌else◌,
}
use distributed_job_queue_sc.Prelude.Int.{ℤ, pos, pos_part, sub_ℕ}
use distributed_job_queue_sc.Text.{show}
use distributed_job_queue_sc.Input.{Parsed, nan, int, min_ℤ, max_ℤ}
use distributed_job_queue_sc.Model.{Worker, WorkerStatus, online, draining, offline}

-- What the recommendation reads of the metrics.
pub record QueueStats : Type 0 where
  pub queued : ℕ
  pub scheduled : ℕ
  pub running : ℕ
  pub dead_letter : ℕ

pub record Options : Type 0 where
  pub min_workers : Option Parsed
  pub max_workers : Option Parsed
  pub target_jobs_per_worker : Option Parsed
  pub target_queue_age_ms : Option Parsed

pub data Action : Type 0 where
  scale_up scale_down steady : Action

pub record Recommendation : Type 0 where
  pub action : Action
  pub current_workers : ℕ
  pub desired_workers : ℕ
  pub delta : ℤ
  pub pending_jobs : ℕ
  pub running_jobs : ℕ
  pub oldest_pending_age_ms : ℕ
  pub target_jobs_per_worker : ℕ
  pub target_queue_age_ms : ℕ
  pub min_workers : ℕ
  pub max_workers : ℕ
  pub reasons : List String
  pub generated_at : ℕ

-- `clamp(value, min, max)`.
unfoldable pub clamp : Parsed → ℕ → ℕ → ℕ
unfolding min_ℤ max_ℤ
clamp nan lo hi = lo
clamp (int n) lo hi = pos_part (max_ℤ (pos lo) (min_ℤ (pos hi) n))

unfoldable pub sum : List ℕ → ℕ
sum [] = 0
sum (n ∷ ns) = n + sum ns

-- `Math.ceil(n / d)`.
unfoldable pub ceil_div : ℕ → ℕ → ℕ
ceil_div n zero = 0
ceil_div n (suc d) = (n + d) / suc d

abbrev pub is_online : WorkerStatus → Bool
is_online online = true
is_online _ = false

abbrev pub is_active_worker : WorkerStatus → Bool
is_active_worker offline = false
is_active_worker _ = true

-- The number wanted before it is clamped: by load, more when the oldest job is too old, and at least one
-- while a job is pending.
unfoldable pub wanted_workers : (pending running age target_jobs target_age : ℕ) → ℕ
unfolding ceil_div
wanted_workers pending running age target_jobs target_age =
    let by_load = ceil_div (pending + running) target_jobs in
    let by_age = if ltb target_age age then by_load + (ceil_div age target_age - 1) else by_load in
    if ltb 0 pending && ltb by_age 1 then 1 else by_age

unfoldable pub action_for : ℕ → ℕ → Action
action_for desired current =
    if ltb current desired then scale_up else if ltb desired current then scale_down else steady

unfoldable pub reasons_for : (pending running up active age dead : ℕ) → List String
reasons_for pending running up active age dead =
    concat (show pending ∷ " pending jobs and " ∷ show running ∷ " running jobs." ∷ [])
      ∷ concat (show up ∷ " online workers, " ∷ show active ∷ " active worker records." ∷ [])
      ∷ (if ltb 0 age
          then concat ("Oldest pending job age is " ∷ show age ∷ "ms." ∷ []) ∷ []
          else [])
    ++ (if ltb 0 dead
        then concat (
            show dead
            ∷ " jobs are in dead letter; autoscaling will not replay them automatically."
            ∷ [])
          ∷ []
        else [])

-- `recommendAutoscale({ metrics, workers, options })`, with the clock's reading.
unfoldable pub recommend_autoscale :
    List QueueStats → ℕ → List Worker → Options → ℕ → Recommendation
recommend_autoscale stats age workers options at =
    let min_workers = clamp (or_else options.min_workers (int (pos 1))) 0 100 in
    let max_workers = clamp (or_else options.max_workers (int (pos 8))) min_workers 100 in
    let target_jobs = clamp (or_else options.target_jobs_per_worker (int (pos 8))) 1 1000 in
    let target_age = clamp (or_else options.target_queue_age_ms (int (pos 30000))) 1000 86400000 in
    let pending = sum (map (λ q. q.queued + q.scheduled) stats) in
    let running = sum (map (λ q. q.running) stats) in
    let dead = sum (map (λ q. q.dead_letter) stats) in
    let current = length (where_rows (λ w. is_active_worker w.status) workers) in
    let desired =
      clamp (int (pos (wanted_workers pending running age target_jobs target_age))) min_workers
        max_workers in
    record {
      action = action_for desired current;
      current_workers = current;
      desired_workers = desired;
      delta = sub_ℕ desired current;
      pending_jobs = pending;
      running_jobs = running;
      oldest_pending_age_ms = age;
      target_jobs_per_worker = target_jobs;
      target_queue_age_ms = target_age;
      min_workers = min_workers;
      max_workers = max_workers;
      reasons =
          reasons_for pending running (length (where_rows (λ w. is_online w.status) workers))
            current age dead;
      generated_at = at;
    }
