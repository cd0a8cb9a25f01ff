-- ===== src/Steps/Methods.antt =====
-- The methods that write jobs, as sequences of allowed writes.
use distributed_job_queue_sc.Prelude.{
  ℕ, zero, suc, String, Bool, List, [], ◌∷◌, Option, none, some, includes, length,
}
use distributed_job_queue_sc.Json.{Json}
use distributed_job_queue_sc.Model.{Job}
use distributed_job_queue_sc.Exec.{Exec}
use distributed_job_queue_sc.Jobs.{renew, complete, release, cancel, cancel_dependent, update_job}
use distributed_job_queue_sc.Jobs.Cancel.{
  cancel_each, cancelled_one, cancel_dependent_jobs, cancel_dependents, cancel_job, orphan_reason,
}
use distributed_job_queue_sc.Jobs.Finish.{
  renew_lease, release_one, released_one, release_each, release_ready_dependencies, complete_job,
}
use distributed_job_queue_sc.Steps.{Write, row}
use distributed_job_queue_sc.Steps.Moves.{
  Moves, update_job-MovesFrom, moves_rules, bind-Moves, then-Moves, if-Moves,
}

module _ {A : Write → Type 0} where
  -- The changes whose WHERE clause says all that is needed.
  module _
      (may : (reason : String) (at : ℕ) (id : String)
        → A (row (cancel_dependent reason at) id)) where
    cancel_dependent-Moves :
        (reason : String) (at : ℕ) (id : String)
        → Moves A (update_job (cancel_dependent reason at) id)
    cancel_dependent-Moves reason at id =
        update_job-MovesFrom _ id (may reason at id) (λ js j p e. tt)

    cancelled_one-Moves :
        (descend : String → String → Exec (List Job)) (parent reason : String)
        (rest : Exec (List Job)) (o : Option Job)
        → ((id why : String) → Moves A (descend id why))
        → Moves A rest
        → Moves A (cancelled_one descend parent reason rest o)
    unfolding cancelled_one
    cancelled_one-Moves descend parent reason rest none d r = r
    cancelled_one-Moves descend parent reason rest (some j) d r =
        then-Moves _ _ (search moves_rules) (
          bind-Moves _ _ (d j.id (orphan_reason j.id parent))
            (λ _. bind-Moves _ _ r (λ _. search moves_rules)))

    cancel_each-Moves :
        (descend : String → String → Exec (List Job)) (parent reason : String) (at : ℕ)
        (cs : List Job)
        → ((id why : String) → Moves A (descend id why))
        → Moves A (cancel_each descend parent reason at cs)
    unfolding cancel_each
    cancel_each-Moves descend parent reason at [] d = search moves_rules
    cancel_each-Moves descend parent reason at (c ∷ cs) d =
        let rest = cancel_each-Moves descend parent reason at cs d in
        if-Moves (includes parent c.depends_on) _ _
          (bind-Moves _ _ (cancel_dependent-Moves reason at c.id)
            (λ o. cancelled_one-Moves descend parent reason _ o d rest))
          rest

    cancel_dependent_jobs-Moves :
        (fuel : ℕ) (parent reason : String) → Moves A (cancel_dependent_jobs fuel parent reason)
    unfolding cancel_dependent_jobs
    cancel_dependent_jobs-Moves zero parent reason = search moves_rules
    cancel_dependent_jobs-Moves (suc fuel) parent reason =
        search (moves_rules, cancel_each-Moves, cancel_dependent_jobs-Moves fuel)

    pub cancel_dependents-Moves :
        (parent reason : String) → Moves A (cancel_dependents parent reason)
    unfolding cancel_dependents
    cancel_dependents-Moves parent reason = record {
      at = λ s u p. (cancel_dependent_jobs-Moves (suc (length s.jobs)) parent reason).at s u tt;
    }

    pub cancel_job-Moves :
        ((at : ℕ) (id : String) → A (row (cancel at) id)) → (id : String) → Moves A (cancel_job id)
    unfolding cancel_job
    cancel_job-Moves can id = bind-Moves _ _ (search moves_rules) λ at.
        bind-Moves _ _ (update_job-MovesFrom _ id (can at id) (λ js j p e. tt)) λ found.
          bind-Moves _ _ (search moves_rules) λ j.
            then-Moves _ _ (search moves_rules)
              (then-Moves _ _ (cancel_dependents-Moves id _) (search moves_rules))

  pub renew_lease-Moves :
      ((worker : String) (until at : ℕ) (id : String) → A (row (renew worker until at) id))
      → (id worker : String) (lease_ms : ℕ) → Moves A (renew_lease id worker lease_ms)
  unfolding renew_lease
  renew_lease-Moves may id worker lease_ms = bind-Moves _ _ (search moves_rules) λ at.
      bind-Moves _ _ (update_job-MovesFrom _ id (may worker _ at id) (λ js j p e. tt))
        λ found. search moves_rules

  module _ (may : (later : Bool) (at : ℕ) (id : String) → A (row (release later at) id)) where
    released_one-Moves :
        (finished : Option String) (o : Option Job) → Moves A (released_one finished o)
    unfolding released_one
    released_one-Moves finished none = search moves_rules
    released_one-Moves finished (some j) = search moves_rules

    release_one-Moves :
        (now : ℕ) (finished : Option String) (j : Job) → Moves A (release_one now finished j)
    unfolding release_one
    release_one-Moves now finished j = bind-Moves _ _ (search moves_rules) λ ready.
        if-Moves ready _ _
          (bind-Moves _ _ (update_job-MovesFrom _ j.id (may _ now j.id) (λ js j p e. tt))
            (released_one-Moves finished))
          (search moves_rules)

    release_each-Moves :
        (now : ℕ) (finished : Option String) (js : List Job)
        → Moves A (release_each now finished js)
    unfolding release_each
    release_each-Moves now finished [] = search moves_rules
    release_each-Moves now finished (j ∷ js) =
        bind-Moves _ _ (release_one-Moves now finished j)
          λ this. bind-Moves _ _ (release_each-Moves now finished js) λ rest. search moves_rules

    pub release_ready_dependencies-Moves :
        (now : ℕ) (finished : Option String) → Moves A (release_ready_dependencies now finished)
    unfolding release_ready_dependencies
    release_ready_dependencies-Moves now finished =
        bind-Moves _ _ (search moves_rules) (release_each-Moves now finished)

    pub complete_job-Moves :
        ((worker : String) (output : Json) (at : ℕ) (id : String)
          → A (row (complete worker output at) id))
        → (id worker : String) (output : Json) → Moves A (complete_job id worker output)
    unfolding complete_job
    complete_job-Moves can id worker output = bind-Moves _ _ (search moves_rules) λ at.
        bind-Moves _ _ (update_job-MovesFrom _ id (can worker _ at id) (λ js j p e. tt)) λ found.
          bind-Moves _ _ (search moves_rules) λ j. then-Moves _ _ (search moves_rules) (
            then-Moves _ _ (search moves_rules)
              (then-Moves _ _ (release_ready_dependencies-Moves at (some id)) (search moves_rules)))
