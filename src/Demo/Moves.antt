-- ===== src/Demo/Moves.antt =====
-- The scenarios as sequences of calls of the store.
use distributed_job_queue_sc.Prelude.{ℕ, zero, suc, String}
use distributed_job_queue_sc.Steps.{Write}
use distributed_job_queue_sc.Steps.Moves.{Moves, moves_rules, bind-Moves, then-Moves, if-Moves}
use distributed_job_queue_sc.Steps.Requests.{enqueue_job-Moves, upsert_queue-Moves}
use distributed_job_queue_sc.Steps.Schedules.{create_schedule-Moves}
use distributed_job_queue_sc.Api.Writes.{Allows, upsert_rate_limit-Moves, create_workflow-Moves}
use distributed_job_queue_sc.Jobs.Enqueue.{JobInput, enqueue_job}
use distributed_job_queue_sc.Queues.{QueueInput, upsert_queue}
use distributed_job_queue_sc.Demo.{
  seed_defaults, demo_queues, demo_jobs, seed_demo_scenario, vacuum_database,
}
use distributed_job_queue_sc.Demo.Failures.{
  inject_timeout, inject_permanent, burst_from, inject_burst, inject_dependency, inject_retryable,
  inject_failure_scenario,
}

module _ {A : Write → Type 0} (may : Allows A) where
  queue-Moves : (input : QueueInput) → Moves A (upsert_queue input)
  queue-Moves input = upsert_queue-Moves may.configures input

  job-Moves : (input : JobInput) → Moves A (enqueue_job input)
  job-Moves input = enqueue_job-Moves may.configures may.adds input

  pub seed_defaults-Moves : Moves A seed_defaults
  unfolding seed_defaults
  seed_defaults-Moves =
      then-Moves _ _ (queue-Moves _)
        (then-Moves _ _ (queue-Moves _) (then-Moves _ _ (queue-Moves _) (search moves_rules)))

  demo_queues-Moves : Moves A demo_queues
  unfolding demo_queues
  demo_queues-Moves = then-Moves _ _ (queue-Moves _) (
      then-Moves _ _ (queue-Moves _) (
        then-Moves _ _ (queue-Moves _)
          (then-Moves _ _ (upsert_rate_limit-Moves may _) (search moves_rules))))

  demo_jobs-Moves : (marker : String) → Moves A (demo_jobs marker)
  unfolding demo_jobs
  demo_jobs-Moves marker = bind-Moves _ _ (job-Moves _) λ a.
      bind-Moves _ _ (job-Moves _)
        λ b. bind-Moves _ _ (job-Moves _) λ c. then-Moves _ _ (job-Moves _) (search moves_rules)

  pub seed_demo_scenario-Moves : Moves A seed_demo_scenario
  unfolding seed_demo_scenario
  seed_demo_scenario-Moves = bind-Moves _ _ (search moves_rules) λ marker.
      then-Moves _ _ demo_queues-Moves (
        bind-Moves _ _ (demo_jobs-Moves marker) λ jobs.
          bind-Moves _ _ (create_schedule-Moves may.configures _) λ c.
            bind-Moves _ _ (create_workflow-Moves may _ _)
              λ w. then-Moves _ _ (search moves_rules) (search moves_rules))

  burst_from-Moves : (left index : ℕ) → Moves A (burst_from left index)
  unfolding burst_from
  burst_from-Moves zero index = search moves_rules
  burst_from-Moves (suc left) index =
      bind-Moves _ _ (job-Moves _)
        λ job. bind-Moves _ _ (burst_from-Moves left (suc index)) λ rest. search moves_rules

  pub inject_failure_scenario-Moves : (kind : String) → Moves A (inject_failure_scenario kind)
  unfolding inject_failure_scenario inject_timeout inject_permanent inject_burst inject_dependency
      inject_retryable
  inject_failure_scenario-Moves kind = if-Moves _ inject_timeout _ one (
      if-Moves _ inject_permanent _ two (
        if-Moves _ inject_burst _ burst
          (if-Moves _ inject_dependency inject_retryable dependency three)))
    where
      one : Moves A inject_timeout
      one = bind-Moves _ _ (job-Moves _) λ job. search moves_rules

      two : Moves A inject_permanent
      two = bind-Moves _ _ (job-Moves _) λ job. search moves_rules

      burst : Moves A inject_burst
      burst = then-Moves _ _ (upsert_rate_limit-Moves may _) (burst_from-Moves 5 0)

      dependency : Moves A inject_dependency
      dependency = bind-Moves _ _ (create_workflow-Moves may _ _) λ w. search moves_rules

      three : Moves A inject_retryable
      three = bind-Moves _ _ (job-Moves _) λ job. search moves_rules

  pub vacuum_database-Moves : (before after : ℕ) → Moves A (vacuum_database before after)
  unfolding vacuum_database
  vacuum_database-Moves before after = search moves_rules
