-- ===== src/Api/Writes.antt =====
-- The writes that calls may make, and the calls that are no method on jobs.
use native.Mathlib.Omega.{arith}
use distributed_job_queue_sc.Prelude.{ℕ, String, false, ◌≡◌, refl, List, [], ◌∷◌, ◌++◌}
use distributed_job_queue_sc.Json.{Json}
use distributed_job_queue_sc.Model.{Job, Store, Worker, RateLimit}
use distributed_job_queue_sc.Workers.{
  Heartbeat, heartbeat_worker, mark_worker_draining, mark_worker_offline, put_worker, find_worker,
}
use distributed_job_queue_sc.RateLimits.{
  RateLimitInput, upsert_rate_limit, put_rate_limit, read_scope,
}
use distributed_job_queue_sc.Jobs.{Change}
use distributed_job_queue_sc.Jobs.Enqueue.{JobInput, new_job}
use distributed_job_queue_sc.Jobs.Workflow.{Definition, add_alias, create_each, create_workflow}
use distributed_job_queue_sc.Steps.{Write, row, add, give_up, configure}
use distributed_job_queue_sc.Steps.Moves.{
  Moves, IsQuiet, moves_rules, quiet_rules, bind-Moves, then-Moves,
}
use distributed_job_queue_sc.Steps.Requests.{enqueue_job-Moves}
use distributed_job_queue_sc.Api.{is_replay_change}

put_worker-IsQuiet : (w : Worker) → IsQuiet (put_worker w)
unfolding put_worker
put_worker-IsQuiet w = record { jobs = λ s. jobs s; queues = λ s. queues s }
  where
    jobs : (s : Store) → (put_worker w s).1.jobs ≡ s.jobs
    jobs s = ground arith

    queues : (s : Store) → (put_worker w s).1.queues ≡ s.queues
    queues s = ground arith

read_scope-IsQuiet : (t : String) → IsQuiet (read_scope t)
unfolding read_scope
read_scope-IsQuiet t = search quiet_rules

put_rate_limit-IsQuiet : (r : RateLimit) → IsQuiet (put_rate_limit r)
unfolding put_rate_limit
put_rate_limit-IsQuiet r = record { jobs = λ s. refl; queues = λ s. refl }

-- The writes that every call but a replay may make.
pub record Allows (A : Write → Type 0) : Type 0 where
  pub rows : (c : Change) (id : String) → is_replay_change c ≡ false → A (row c id)
  pub gives : (worker : String) → A (give_up worker)
  pub configures : A configure
  pub adds :
      (input : JobInput) (id queue : String) (payload : Json)
      (depends_on waiting errors : List String) (run_at at : ℕ)
      → A (add (new_job input id queue payload depends_on waiting errors run_at at))

module _ {A : Write → Type 0} (may : Allows A) where
  pub upsert_rate_limit-Moves : (input : RateLimitInput) → Moves A (upsert_rate_limit input)
  unfolding upsert_rate_limit
  upsert_rate_limit-Moves input = bind-Moves _ _ (search moves_rules) λ at.
      bind-Moves _ _ (search (moves_rules, read_scope-IsQuiet)) λ scope.
        then-Moves _ _ (search moves_rules) (
          bind-Moves _ _ (search moves_rules) λ id.
            bind-Moves _ _ (search (moves_rules, put_rate_limit-IsQuiet))
              λ found. search moves_rules)

  pub heartbeat_worker-Moves : (h : Heartbeat) → Moves A (heartbeat_worker h)
  unfolding heartbeat_worker find_worker
  heartbeat_worker-Moves h = search (moves_rules, put_worker-IsQuiet)

  pub draining-Moves : (worker : String) → Moves A (mark_worker_draining worker)
  unfolding mark_worker_draining
  draining-Moves worker = search moves_rules

  create_each-Moves :
      (workflow_id : String) (aliases : List (String × String)) (created : List Job)
      (ds : List Definition)
      → Moves A (create_each workflow_id aliases created ds)
  unfolding create_each
  create_each-Moves workflow_id aliases created [] = search moves_rules
  create_each-Moves workflow_id aliases created (d ∷ ds) =
      bind-Moves _ _ (enqueue_job-Moves may.configures may.adds _) λ job.
        create_each-Moves workflow_id (add_alias d.key job.id aliases) (created ++ job ∷ []) ds

  pub create_workflow-Moves :
      (name : String) (ds : List Definition) → Moves A (create_workflow name ds)
  unfolding create_workflow
  create_workflow-Moves name [] = search moves_rules
  create_workflow-Moves name (d ∷ ds) = bind-Moves _ _ (search moves_rules) λ id.
      bind-Moves _ _ (create_each-Moves id [] [] (d ∷ ds))
        λ created. then-Moves _ _ (search moves_rules) (search moves_rules)

  pub offline-Moves : (worker : String) → Moves A (mark_worker_offline worker)
  unfolding mark_worker_offline
  offline-Moves worker = search moves_rules
