-- ===== src/Steps/Dispatch.antt =====
-- Time-outs and claims as sequences of allowed writes.
use distributed_job_queue_sc.Prelude.{
  ℕ, String, Bool, List, [], ◌∷◌, ◌++◌, Option, none, some, length, leb,
}
use distributed_job_queue_sc.Guidance.{FailureHint}
use distributed_job_queue_sc.Model.{Job}
use distributed_job_queue_sc.Exec.{Exec, gets, pure, ◌>>=◌}
use distributed_job_queue_sc.Jobs.{claim, defer, cancel_dependent, release, expire_lease, time_out}
use distributed_job_queue_sc.Jobs.Recover.{
  timed_out_one, recover_timed_out, recover_each_timed_out, recover_timed_out_jobs,
}
use distributed_job_queue_sc.Jobs.Claim.{
  ClaimInput, deferred_one, defer_rate_limited_job, claimed_one, try_claim, claim_candidate,
  claim_each, claim_from, has_required_capabilities, claim_jobs,
}
use distributed_job_queue_sc.RateLimits.{Denial, check_dispatch_rate_limit}
use distributed_job_queue_sc.Steps.{Write, row}
use distributed_job_queue_sc.Steps.Moves.{
  Moves, update_job-MovesFrom, moves_rules, bind-Moves, then-Moves, unless-Moves, if-Moves,
}
use distributed_job_queue_sc.Steps.Methods.{
  cancel_dependents-Moves, release_ready_dependencies-Moves,
}
use distributed_job_queue_sc.Steps.Failures.{recover_stale_leases-Moves}

module _ {A : Write → Type 0}
    (may_cancel : (reason : String) (at : ℕ) (id : String)
      → A (row (cancel_dependent reason at) id))
    (may_time_out : (retry : Bool) (error : String) (run_at : ℕ) (hint : FailureHint) (at : ℕ)
        (id : String)
      → A (row (time_out retry error run_at hint at) id)) where
  timed_out_one-Moves :
      (now delay : ℕ) (error : String) (j : Job) (o : Option Job)
      → Moves A (timed_out_one now delay error j o)
  unfolding timed_out_one
  timed_out_one-Moves now delay error j none = search moves_rules
  timed_out_one-Moves now delay error j (some r) = then-Moves _ _ (search moves_rules) (
      then-Moves _ _ (unless-Moves _ _ (cancel_dependents-Moves may_cancel j.id _))
        (search moves_rules))

  recover_timed_out-Moves : (now : ℕ) (j : Job) → Moves A (recover_timed_out now j)
  unfolding recover_timed_out
  recover_timed_out-Moves now j = bind-Moves _ _ (search moves_rules) λ policy.
      bind-Moves _ _ (search moves_rules) λ delay. bind-Moves _ _ (search moves_rules) λ hint.
        bind-Moves _ _
          (update_job-MovesFrom _ j.id (may_time_out _ _ _ hint now j.id) (λ js k p e. tt))
          (timed_out_one-Moves now delay _ j)

  recover_each_timed_out-Moves : (now : ℕ) (js : List Job) → Moves A (recover_each_timed_out now js)
  unfolding recover_each_timed_out
  recover_each_timed_out-Moves now [] = search moves_rules
  recover_each_timed_out-Moves now (j ∷ js) =
      bind-Moves _ _ (recover_timed_out-Moves now j)
        λ this. bind-Moves _ _ (recover_each_timed_out-Moves now js) λ rest. search moves_rules

  pub recover_timed_out_jobs-Moves : (now : ℕ) → Moves A (recover_timed_out_jobs now)
  unfolding recover_timed_out_jobs
  recover_timed_out_jobs-Moves now =
      bind-Moves _ _ (search moves_rules) (recover_each_timed_out-Moves now)

  module _
      (may_expire : (retry : Bool) (error : String) (hint : FailureHint) (at : ℕ) (id : String)
        → A (row (expire_lease retry error hint at) id))
      (may_release : (later : Bool) (at : ℕ) (id : String) → A (row (release later at) id))
      (may_defer : (retry_at : ℕ) (reason : String) (at : ℕ) (id : String)
        → A (row (defer retry_at reason at) id))
      (may_claim : (worker : String) (until at : ℕ) (id : String)
        → A (row (claim worker until at) id)) where
    deferred_one-Moves : (id : String) (d : Denial) (o : Option Job) → Moves A (deferred_one id d o)
    unfolding deferred_one
    deferred_one-Moves id d none = search moves_rules
    deferred_one-Moves id d (some j) = search moves_rules

    defer-Moves : (id : String) (d : Denial) → Moves A (defer_rate_limited_job id d)
    unfolding defer_rate_limited_job
    defer-Moves id d = bind-Moves _ _ (search moves_rules) λ at.
        bind-Moves _ _ (update_job-MovesFrom _ id (may_defer _ _ at id) (λ js k p e. tt))
          (deferred_one-Moves id d)

    claimed_one-Moves : (worker : String) (o : Option Job) → Moves A (claimed_one worker o)
    unfolding claimed_one
    claimed_one-Moves worker none = search moves_rules
    claimed_one-Moves worker (some j) = search moves_rules

    try_claim-Moves :
        (worker : String) (at until : ℕ) (c : Job) (o : Option Denial)
        → Moves A (try_claim worker at until c o)
    unfolding try_claim
    try_claim-Moves worker at until c (some d) =
        then-Moves _ _ (defer-Moves c.id d) (search moves_rules)
    try_claim-Moves worker at until c none =
        bind-Moves _ _
          (update_job-MovesFrom _ c.id (may_claim worker until at c.id) (λ js k p e. tt))
          (claimed_one-Moves worker)

    claim_candidate-Moves :
        (worker : String) (capabilities : List String) (at until : ℕ) (c : Job)
        → Moves A (claim_candidate worker capabilities at until c)
    unfolding claim_candidate
    claim_candidate-Moves worker capabilities at until c =
        if-Moves (has_required_capabilities c.required_capabilities capabilities)
          (gets (λ s. check_dispatch_rate_limit s c at) >>= try_claim worker at until c) (pure [])
          (bind-Moves _ _ (search moves_rules) (try_claim-Moves worker at until c))
          (search moves_rules)

    claim_each-Moves :
        (body : Job → Exec (List Job)) (most : ℕ) (claimed cs : List Job)
        → ((c : Job) → Moves A (body c))
        → Moves A (claim_each body most claimed cs)
    unfolding claim_each
    claim_each-Moves body most claimed [] h = search moves_rules
    claim_each-Moves body most claimed (c ∷ cs) h =
        if-Moves (leb most (length claimed)) _ _ (search moves_rules)
          (bind-Moves _ _ (h c) λ this. claim_each-Moves body most (claimed ++ this) cs h)

    claim_from-Moves :
        (input : ClaimInput) (queues : List String) (at : ℕ) → Moves A (claim_from input queues at)
    unfolding claim_from
    claim_from-Moves input [] at = search moves_rules
    claim_from-Moves input (q ∷ qs) at =
        bind-Moves _ _ (search moves_rules)
          λ rows. claim_each-Moves _ _ [] rows (claim_candidate-Moves input.worker_id _ at _)

    pub claim_jobs-Moves : (input : ClaimInput) → Moves A (claim_jobs input)
    unfolding claim_jobs
    claim_jobs-Moves input = bind-Moves _ _ (search moves_rules) λ at.
        then-Moves _ _ (recover_stale_leases-Moves may_cancel may_expire at) (
          then-Moves _ _ (recover_timed_out_jobs-Moves at) (
            then-Moves _ _ (release_ready_dependencies-Moves may_release at none)
              (claim_from-Moves input _ at)))
