-- ===== src/Api/Performs.antt =====
-- Each call as a sequence of the writes that it may make.
use distributed_job_queue_sc.Prelude.{ℕ, String, true, ◌≡◌, refl, List, [], ◌∷◌, All}
use distributed_job_queue_sc.Model.{Store}
use distributed_job_queue_sc.Jobs.{
  Change, claim, defer, renew, complete, release, fail, cancel, cancel_dependent, requeue,
  allow_attempts, expire_lease, time_out,
}
use distributed_job_queue_sc.Steps.{Write, row, Reach, here, Reach-trans}
use distributed_job_queue_sc.Steps.Unique.{UniqueIds, Reach-UniqueIds}
use distributed_job_queue_sc.Steps.Moves.{Moves, IsQuiet, moves_rules}
use distributed_job_queue_sc.Steps.Methods.{cancel_job-Moves, renew_lease-Moves, complete_job-Moves}
use distributed_job_queue_sc.Steps.Failures.{fail_job-Moves}
use distributed_job_queue_sc.Steps.Dispatch.{claim_jobs-Moves}
use distributed_job_queue_sc.Steps.Requests.{
  requeue_job-Moves, requeue_dead_letters-Moves, release_worker_leases-Moves, upsert_queue-Moves,
  toggle_queue-Moves, enqueue_job-Moves,
}
use distributed_job_queue_sc.Steps.Schedules.{
  create_schedule-Moves, toggle_schedule-Moves, run_schedule_now-Moves,
  dispatch_due_schedules-Moves,
}
use distributed_job_queue_sc.Api.{
  Call, perform, perform_all, is_replay, enqueue_call, claim_call, workflow_call, renew_call,
  complete_call, fail_call, cancel_call, requeue_call, replay_call, release_call, queue_call,
  toggle_call, limit_call, heartbeat_call, draining_call, offline_call, schedule_call, pause_call,
  run_call, dispatch_call,
}
use distributed_job_queue_sc.Input.{Parsed}
use distributed_job_queue_sc.Maintenance.{prune_events, delete_events}
use distributed_job_queue_sc.Steps.Failures.{recover_stale_leases-Moves}
use distributed_job_queue_sc.Steps.Dispatch.{recover_timed_out_jobs-Moves}
use distributed_job_queue_sc.Demo.Moves.{
  seed_demo_scenario-Moves, inject_failure_scenario-Moves, vacuum_database-Moves,
}
use distributed_job_queue_sc.Api.{
  stale_call, timed_out_call, prune_call, demo_call, inject_call, vacuum_call,
}
use distributed_job_queue_sc.Api.Writes.{
  Allows, upsert_rate_limit-Moves, heartbeat_worker-Moves, draining-Moves, create_workflow-Moves,
  offline-Moves,
}

delete_events-IsQuiet : (cutoff keep : ℕ) → IsQuiet (delete_events cutoff keep)
unfolding delete_events
delete_events-IsQuiet cutoff keep = record { jobs = λ s. refl; queues = λ s. refl }

pub prune_events-Moves :
    {A : Write → Type 0} (days keep : Parsed) → Moves A (prune_events days keep)
unfolding prune_events
prune_events-Moves days keep = search (moves_rules, delete_events-IsQuiet)

module _ {A : Write → Type 0} (may : Allows A) where
  pub perform-Reach :
      (c : Call) (s : Store)
      → (is_replay c ≡ true → (x : Change) (id : String) → A (row x id))
      → UniqueIds s.jobs
      → Reach A s (perform c s)
  unfolding perform
  perform-Reach (enqueue_call input) s p u =
      (enqueue_job-Moves may.configures may.adds input).at s u tt
  perform-Reach (workflow_call name ds) s p u = (create_workflow-Moves may name ds).at s u tt
  perform-Reach (claim_call input) s p u =
      (claim_jobs-Moves (λ reason at id. may.rows (cancel_dependent reason at) id refl)
          (λ retry error t hint at id. may.rows (time_out retry error t hint at) id refl)
          (λ retry error hint at id. may.rows (expire_lease retry error hint at) id refl)
          (λ later at id. may.rows (release later at) id refl)
          (λ t reason at id. may.rows (defer t reason at) id refl)
          (λ worker until at id. may.rows (claim worker until at) id refl) input).at
        s u tt
  perform-Reach (renew_call id worker lease_ms) s p u =
      (renew_lease-Moves (λ w until at k. may.rows (renew w until at) k refl) id worker lease_ms).at
        s u tt
  perform-Reach (complete_call id worker output) s p u =
      (complete_job-Moves (λ later at k. may.rows (release later at) k refl)
          (λ w o at k. may.rows (complete w o at) k refl) id worker output).at
        s u tt
  perform-Reach (fail_call id worker error base) s p u =
      (fail_job-Moves (λ reason at k. may.rows (cancel_dependent reason at) k refl)
          (λ retry e t hint at k. may.rows (fail retry e t hint at) k refl) id worker error base).at
        s u tt
  perform-Reach (cancel_call id) s p u =
      (cancel_job-Moves (λ reason at k. may.rows (cancel_dependent reason at) k refl)
          (λ at k. may.rows (cancel at) k refl) id).at
        s u tt
  perform-Reach (requeue_call id run_at) s p u =
      (requeue_job-Moves (λ later t at k. p refl (requeue later t at) k) id run_at).at s u tt
  perform-Reach (replay_call queue type limit most) s p u =
      (requeue_dead_letters-Moves (λ later t at k. p refl (requeue later t at) k)
          (λ n k. p refl (allow_attempts n) k) queue type limit most).at
        s u tt
  perform-Reach (release_call worker reason) s p u =
      (release_worker_leases-Moves worker reason (may.gives worker)).at s u tt
  perform-Reach (queue_call input) s p u = (upsert_queue-Moves may.configures input).at s u tt
  perform-Reach (toggle_call name enabled) s p u =
      (toggle_queue-Moves may.configures name enabled).at s u tt
  perform-Reach (limit_call input) s p u = (upsert_rate_limit-Moves may input).at s u tt
  perform-Reach (heartbeat_call h) s p u = (heartbeat_worker-Moves may h).at s u tt
  perform-Reach (draining_call worker) s p u = (draining-Moves may worker).at s u tt
  perform-Reach (offline_call worker) s p u = (offline-Moves may worker).at s u tt
  perform-Reach (schedule_call input) s p u = (create_schedule-Moves may.configures input).at s u tt
  perform-Reach (pause_call schedule enabled) s p u =
      (toggle_schedule-Moves may.configures schedule enabled).at s u tt
  perform-Reach (run_call schedule) s p u =
      (run_schedule_now-Moves may.configures may.adds schedule).at s u tt
  perform-Reach (dispatch_call scheduler limit) s p u =
      (dispatch_due_schedules-Moves may.configures may.adds scheduler limit).at s u tt
  perform-Reach (stale_call now) s p u =
      (recover_stale_leases-Moves (λ reason at id. may.rows (cancel_dependent reason at) id refl)
          (λ retry error hint at id. may.rows (expire_lease retry error hint at) id refl) now).at
        s u tt
  perform-Reach (timed_out_call now) s p u =
      (recover_timed_out_jobs-Moves (λ reason at id. may.rows (cancel_dependent reason at) id refl)
          (λ retry error t hint at id. may.rows (time_out retry error t hint at) id refl) now).at
        s u tt
  perform-Reach (prune_call days keep) s p u = (prune_events-Moves days keep).at s u tt
  perform-Reach demo_call s p u = (seed_demo_scenario-Moves may).at s u tt
  perform-Reach (inject_call scenario) s p u =
      (inject_failure_scenario-Moves may scenario).at s u tt
  perform-Reach (vacuum_call b a) s p u = (vacuum_database-Moves may b a).at s u tt

  pub perform_all-Reach :
      (cs : List Call) (s : Store)
      → All (λ c. is_replay c ≡ true → (x : Change) (id : String) → A (row x id)) cs
      → UniqueIds s.jobs
      → Reach A s (perform_all cs s)
  unfolding perform_all
  perform_all-Reach [] s p u = here
  perform_all-Reach (c ∷ cs) s (p, ps) u =
      let first = perform-Reach c s p u in
      Reach-trans first (perform_all-Reach cs (perform c s) ps (Reach-UniqueIds first u))
