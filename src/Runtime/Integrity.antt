-- ===== src/Runtime/Integrity.antt =====
-- The jobs table under a worker, a scheduler and other callers.
use distributed_job_queue_sc.Prelude.{String, leb, length, List, [], ◌∷◌, All}
use distributed_job_queue_sc.Model.{Store, Job}
use distributed_job_queue_sc.Exec.{pure}
use distributed_job_queue_sc.Steps.{Reach, here, Reach-trans}
use distributed_job_queue_sc.Steps.Unique.{UniqueIds, Reach-UniqueIds}
use distributed_job_queue_sc.Steps.Moves.{Moves, moves_rules, bind-Moves, then-Moves, if-Moves}
use distributed_job_queue_sc.Invariant.{WellFormed, Sound, Reach-WellFormed}
use distributed_job_queue_sc.Api.{
  Call, perform, claim_call, renew_call, complete_call, fail_call, release_call, dispatch_call,
}
use distributed_job_queue_sc.Api.Writes.{heartbeat_worker-Moves, draining-Moves, offline-Moves}
use distributed_job_queue_sc.Api.Performs.{perform-Reach}
use distributed_job_queue_sc.Api.Integrity.{Sound-Allows}
use distributed_job_queue_sc.Jobs.Claim.{ClaimInput, claim_jobs}
use distributed_job_queue_sc.Jobs.Finish.{release_worker_leases}
use distributed_job_queue_sc.Runtime.{
  JobWorker, Outcome, output, failed, beat, claim_of, announce_start, tick, settle, renew,
  begin_stop, release_rest, end_stop, scheduler_tick,
}
use distributed_job_queue_sc.Runtime.Process.{
  ProcessStep, starts, ticks, renews, settles, stops, ends, schedules, calls, Runs, begins, goes,
}

-- A call, as a sequence of writes.
call-Reach : (c : Call) (s : Store) → UniqueIds s.jobs → Reach Sound s (perform c s)
call-Reach c s u = perform-Reach Sound-Allows c s (λ e x id. tt) u

beat-Moves : (w : JobWorker) → Moves Sound (beat w)
unfolding beat
beat-Moves w = heartbeat_worker-Moves Sound-Allows _

claim-Moves : (input : ClaimInput) → Moves Sound (claim_jobs input)
unfolding perform
claim-Moves input = record { at = λ s u p. call-Reach (claim_call input) s u }

announce_start-Moves : (worker : String) (js : List Job) → Moves Sound (announce_start worker js)
unfolding announce_start
announce_start-Moves worker [] = search moves_rules
announce_start-Moves worker (j ∷ js) =
    then-Moves _ _ (search moves_rules)
      (bind-Moves _ _ (announce_start-Moves worker js) λ rest. search moves_rules)

tick-Moves : (w : JobWorker) → Moves Sound (tick w)
unfolding tick
tick-Moves w = then-Moves _ _ (beat-Moves w) (
    if-Moves (leb w.concurrency (length w.active)) (pure []) _ (search moves_rules)
      (bind-Moves _ _ (claim-Moves (claim_of w)) (announce_start-Moves w.worker_id)))

settle-Moves : (w : JobWorker) (id : String) (o : Outcome) → Moves Sound (settle w id o)
unfolding settle perform
settle-Moves w id (output value) = record {
  at = λ s u p. call-Reach (complete_call id w.worker_id value) s u;
}
settle-Moves w id (failed error) = record {
  at = λ s u p. call-Reach (fail_call id w.worker_id error w.backoff_base_ms) s u;
}

renew-Moves : (w : JobWorker) (id : String) → Moves Sound (renew w id)
unfolding renew perform
renew-Moves w id = record { at = λ s u p. call-Reach (renew_call id w.worker_id w.lease_ms) s u }

begin_stop-Moves : (w : JobWorker) → Moves Sound (begin_stop w)
unfolding begin_stop
begin_stop-Moves w = draining-Moves Sound-Allows w.worker_id

release-Moves : (worker reason : String) → Moves Sound (release_worker_leases worker reason)
unfolding perform
release-Moves worker reason = record { at = λ s u p. call-Reach (release_call worker reason) s u }

release_rest-Moves : (worker : String) (js : List Job) → Moves Sound (release_rest worker js)
unfolding release_rest
release_rest-Moves worker [] = search moves_rules
release_rest-Moves worker (j ∷ js) = release-Moves worker _

end_stop-Moves : (w : JobWorker) → Moves Sound (end_stop w)
unfolding end_stop
end_stop-Moves w =
    then-Moves _ _ (release_rest-Moves w.worker_id w.active)
      (offline-Moves Sound-Allows w.worker_id)

step-Reach : {p q : JobWorker × Store} → ProcessStep p q → UniqueIds p.1.jobs → Reach Sound p.1 q.1
unfolding scheduler_tick perform
step-Reach (starts w s) u = (beat-Moves w).at s u tt
step-Reach (ticks w s r) u = (tick-Moves w).at s u tt
step-Reach (renews w s before j after m) u = (renew-Moves w j.id).at s u tt
step-Reach (settles w s before j after c o m x) u = (settle-Moves w j.id o).at s u tt
step-Reach (stops w s) u = (begin_stop-Moves w).at s u tt
step-Reach (ends w s r) u = (end_stop-Moves w).at s u tt
step-Reach (schedules w s c) u = call-Reach (dispatch_call c.scheduler_id _) s u
step-Reach (calls w s c) u = call-Reach c s u

Runs-Reach : {p q : JobWorker × Store} → Runs p q → UniqueIds p.1.jobs → Reach Sound p.1 q.1
Runs-Reach begins u = here
Runs-Reach (goes r st) u =
    let first = Runs-Reach r u in Reach-trans first (step-Reach st (Reach-UniqueIds first u))

-- In every interleaving of a worker's starts, ticks, lease renewals, ends of tasks and stops with ticks of
-- a scheduler and calls of other processes that are no imports and no archivings, the job ids of the store stay distinct and its jobs
-- well-formed, where they were so at first.
pub Runs-WellFormed :
    {p q : JobWorker × Store}
    → Runs p q
    → UniqueIds p.1.jobs
    → All WellFormed p.1.jobs
    → UniqueIds q.1.jobs × All WellFormed q.1.jobs
Runs-WellFormed r u v =
    let path = Runs-Reach r u in (Reach-UniqueIds path u, Reach-WellFormed path v)
