-- ===== src/Outcomes/Failure.antt =====
-- `failJob` (src/core/store.mjs): the retry, the dead letter, and the missing lease.
use distributed_job_queue_sc.Prelude.{
  Option-cases, inl, inr, ◌&&◌, is_text, ℕ, ◌+◌, String, Bool, true, false, ◌≡◌, refl, sym, ◌∙◌, [],
  none, some, if◌then◌else◌, ap, subst, ltb,
}
use distributed_job_queue_sc.Text.{or_text}
use distributed_job_queue_sc.Input.{RetryPolicy, policy_in_use}
use distributed_job_queue_sc.Guidance.{FailureHint}
use distributed_job_queue_sc.Model.{Job, Store, scheduled, dead_letter, is_pending, is_running}
use distributed_job_queue_sc.Exec.{not_found, unless}
use distributed_job_queue_sc.Exec.Outcome.{
  Gives, Throws, pure-Gives, weaken-Gives, bind-Gives, then-Gives, add_event-Gives, first-Throws,
  bind-Throws, or_raise-Throws,
}
use distributed_job_queue_sc.Jobs.{fail, where_row, set_row, get_job, lease_missing, retry_status}
use distributed_job_queue_sc.Jobs.Cancel.{cancel_dependents}
use distributed_job_queue_sc.Jobs.Finish.{held_job, resolve_retry_policy, fail_held, fail_job}
use distributed_job_queue_sc.Cascade.Sweep.{Closed}
use distributed_job_queue_sc.Cascade.Closure.{cancel_dependents-closes}
use distributed_job_queue_sc.Outcomes.Update.{
  update_job-written, or_type_error-Gives, increment_worker-Gives,
}
use distributed_job_queue_sc.Outcomes.Finish.{held_job-some}
use distributed_job_queue_sc.Outcomes.Delays.{
  Fair, effective_policy, DelayWithin, now_iso-Still, gets-Still, held_job-jobs, retry_delay-Gives,
  guidance-Gives, effective_policy-queues, or_raise-Still,
}

fail-row :
    (s : Store) (retry : Bool) (error : String) (run_at : ℕ) (hint : FailureHint) (at : ℕ) (j : Job)
    → (where_row s (fail retry error run_at hint at) j ≡ true)
      × ((set_row (fail retry error run_at hint at) j).status ≡ retry_status retry)
      × ((set_row (fail retry error run_at hint at) j).last_error ≡ some error)
      × ((set_row (fail retry error run_at hint at) j).lease_owner ≡ none)
      × ((set_row (fail retry error run_at hint at) j).attempts ≡ j.attempts)
      × ((set_row (fail retry error run_at hint at) j).run_at ≡ run_at)
      × ((set_row (fail retry error run_at hint at) j).updated_at ≡ at)
unfolding where_row set_row
fail-row s retry error run_at hint at j = (refl, refl, refl, refl, refl, refl, refl)

-- In either branch, nothing after the UPDATE touches the row.
closing-Gives :
    (retry : Bool) (id reason : String) (s : Store)
    → Gives (unless retry (cancel_dependents id reason)) s (λ rows t.
      ((a : Job)
        → get_job id s.jobs ≡ some a
        → a.status ≡ retry_status retry
        → get_job id t.jobs ≡ some a)
      × (retry ≡ false → Closed id t.jobs))
unfolding unless
closing-Gives true id reason s = pure-Gives [] s ((λ a f e. f), λ e. absurd (cc (e)))
closing-Gives false id reason s =
    weaken-Gives _ s (cancel_dependents-closes id reason s) λ rows t (closed, others, swept).
      ((λ a f e. swept.kept id a f (ap is_pending e)), λ e. closed)

-- How the row of a failed attempt reads.
abbrev pub Failed : RetryPolicy → Job → Bool → String → Job → Type 0
Failed policy j retry error row =
    (row.status ≡ retry_status retry)
    × (row.last_error ≡ some (or_text error "Job failed"))
    × (row.lease_owner ≡ none)
    × (row.attempts ≡ j.attempts)
    × (retry ≡ true
        → (delay : ℕ) × (row.run_at ≡ row.updated_at + delay) × DelayWithin policy j.attempts delay)
    × (retry ≡ false → row.run_at ≡ j.run_at)

fail_held-Gives :
    (id worker error : String) (base at : ℕ) (s : Store) (j : Job)
    → Fair s
    → get_job id s.jobs ≡ some j
    → Gives (fail_held id worker error base at j) s (λ row t.
      Failed (effective_policy s j base) j (ltb j.attempts j.max_attempts) error row
      × (get_job id t.jobs ≡ some row)
      × (ltb j.attempts j.max_attempts ≡ false → Closed id t.jobs))
unfolding fail_held effective_policy
fail_held-Gives id worker error base at s j fair found =
    let retry = ltb j.attempts j.max_attempts in
    bind-Gives _ _ s (gets-Still (λ s. resolve_retry_policy s j base) s)
      λ policy t (chosen, (same_t, queues_t, fair_t)).
        bind-Gives _ _ t (retry_delay-Gives policy j.attempts t (fair_t fair))
          λ delay u (within, same_u).
            bind-Gives _ _ u (guidance-Gives (or_text error "Job failed") j u) λ hint v same_v.
              let run_at = if retry then at + delay else j.run_at in
              let change = fail retry (or_text error "Job failed") run_at hint at in
              let new = set_row change j in
              let (cond, status, last_error, owner, tries, runs, updated) =
                fail-row v retry (or_text error "Job failed") run_at hint at j in
              bind-Gives _ _ v
                (update_job-written change id v j
                  (ap (get_job id) (same_v ∙ same_u ∙ same_t) ∙ found) cond)
                λ o w (got, wrote, is_row).
                  then-Gives _ _ w (increment_worker-Gives worker _ _ _ w) λ _ x same_x.
                    bind-Gives _ _ x (or_type_error-Gives o new x got) λ row y (row_is, same_y).
                      then-Gives _ _ y (add_event-Gives _ _ _ _ _ y) λ _ z same_z.
                        then-Gives _ _ z (closing-Gives retry id _ z) λ rows last (stays, closed).
                          let shown : Failed (effective_policy s j base) j retry error new = (
                            status,
                            last_error,
                            owner,
                            tries,
                            (λ e. (
                              delay,
                              runs
                                  ∙ ap (λ b. if b then at + delay else j.run_at) e
                                  ∙ ap (λ t. t + delay) (sym updated),
                              subst (λ p. DelayWithin (policy_in_use p) j.attempts delay) chosen
                                  within,
                            )),
                            (λ e. runs ∙ ap (λ b. if b then at + delay else j.run_at) e),
                          ) in
                          pure-Gives row last (
                            subst (Failed (effective_policy s j base) j retry error) (sym row_is)
                                shown,
                            stays new (ap (get_job id) (same_z ∙ same_y ∙ same_x) ∙ is_row) status
                                ∙ ap some (sym row_is),
                            closed,
                          )

-- Both branches, from the held lease.
fail_job-fails :
    (id worker error : String) (base : ℕ) (s : Store) (j : Job)
    → Fair s
    → held_job id worker s ≡ some j
    → Gives (fail_job id worker error base) s (λ row t.
      Failed (effective_policy s j base) j (ltb j.attempts j.max_attempts) error row
      × (get_job id t.jobs ≡ some row)
      × (ltb j.attempts j.max_attempts ≡ false → Closed id t.jobs))
unfolding fail_job
fail_job-fails id worker error base s j fair held =
    bind-Gives _ _ s (now_iso-Still s) λ at t (same_t, queues_t, fair_t).
      bind-Gives _ _ t (gets-Still (held_job id worker) t)
        λ o u (picked, (same_u, queues_u, fair_u)).
          let in_t = held_job-jobs id worker s t same_t in
          bind-Gives _ _ u (or_raise-Still _ o j u (picked ∙ in_t ∙ held))
            λ current v (is_j, (same_v, queues_v, fair_v)).
              let same_jobs = same_v ∙ same_u ∙ same_t in
              let policy = effective_policy-queues s v j base (queues_v ∙ queues_u ∙ queues_t) in
              subst
                (λ current. Gives (fail_held id worker error base at current) v (λ row t.
                  Failed (effective_policy s j base) j (ltb j.attempts j.max_attempts) error row
                  × (get_job id t.jobs ≡ some row)
                  × (ltb j.attempts j.max_attempts ≡ false → Closed id t.jobs)))
                (sym is_j)
                (subst
                  (λ p. Gives (fail_held id worker error base at j) v (λ row t.
                    Failed p j (ltb j.attempts j.max_attempts) error row
                    × (get_job id t.jobs ≡ some row)
                    × (ltb j.attempts j.max_attempts ≡ false → Closed id t.jobs)))
                  policy
                  (fail_held-Gives id worker error base at v j (fair_v (fair_u (fair_t fair)))
                    (ap (get_job id) same_jobs ∙ (held_job-some id worker s j held).0)))

-- A worker that holds the lease of a running job with attempts left reports a failure, random draws below
-- n being below n: the call returns the job, which is then scheduled and the row of its id, has no lease
-- owner, as many attempts as before and the error recorded (`Job failed` for an empty one). It runs again
-- after a delay that is at most the longest delay of the policy in force (the job's, its queue's or the
-- default), and at least the lesser of that longest delay and the policy's base delay for the attempt.
pub fail_job-retries :
    (id worker error : String) (base : ℕ) (s : Store) (j : Job)
    → Fair s
    → held_job id worker s ≡ some j
    → ltb j.attempts j.max_attempts ≡ true
    → Gives (fail_job id worker error base) s (λ row t.
      (row.status ≡ scheduled)
      × (row.last_error ≡ some (or_text error "Job failed"))
      × (row.lease_owner ≡ none)
      × (row.attempts ≡ j.attempts)
      × (get_job id t.jobs ≡ some row)
      × ((delay : ℕ) × (row.run_at ≡ row.updated_at + delay)
          × DelayWithin (effective_policy s j base) j.attempts delay))
fail_job-retries id worker error base s j fair held retry =
    weaken-Gives _ s (fail_job-fails id worker error base s j fair held)
      λ row t ((status, last_error, owner, tries, delayed, stays), is_row, closed).
        (status ∙ ap retry_status retry, last_error, owner, tries, is_row, delayed retry)

-- With no attempt left: the call returns the job, which is then a dead letter and the row of its id, has no
-- lease owner, as many attempts as before, the error recorded and its run time unchanged; and no job that
-- is queued, scheduled or waiting depends on it.
pub fail_job-dead_letters :
    (id worker error : String) (base : ℕ) (s : Store) (j : Job)
    → Fair s
    → held_job id worker s ≡ some j
    → ltb j.attempts j.max_attempts ≡ false
    → Gives (fail_job id worker error base) s (λ row t.
      (row.status ≡ dead_letter)
      × (row.last_error ≡ some (or_text error "Job failed"))
      × (row.lease_owner ≡ none)
      × (row.attempts ≡ j.attempts)
      × (row.run_at ≡ j.run_at)
      × (get_job id t.jobs ≡ some row)
      × Closed id t.jobs)
fail_job-dead_letters id worker error base s j fair held last_try =
    weaken-Gives _ s (fail_job-fails id worker error base s j fair held)
      λ row t ((status, last_error, owner, tries, delayed, stays), is_row, closed). (
        status ∙ ap retry_status last_try,
        last_error,
        owner,
        tries,
        stays last_try,
        is_row,
        closed last_try,
      )

held_job-refused :
    (id worker : String) (s : Store)
    → ((j : Job)
        → get_job id s.jobs ≡ some j
        → (is_text j.lease_owner worker && is_running j.status) ≡ false)
    → held_job id worker s ≡ none
held_job-refused id worker s refused = elim (Option-cases (held_job id worker s)) [
  | inl e ↦ e
  | inr (j, e) ↦
      (let (found, holds) = held_job-some id worker s j e in absurd (cc (holds, refused j found)))
]

-- Where the row of the id, if there is one, does not run or is not leased to the worker: the call throws
-- that the lease was not found, and no job is changed.
pub fail_job-lease_missing :
    (id worker error : String) (base : ℕ) (s : Store)
    → ((j : Job)
        → get_job id s.jobs ≡ some j
        → (is_text j.lease_owner worker && is_running j.status) ≡ false)
    → Throws (fail_job id worker error base) s (not_found (lease_missing id)) (λ t. t.jobs ≡ s.jobs)
unfolding fail_job
fail_job-lease_missing id worker error base s refused =
    bind-Throws _ _ s (now_iso-Still s) λ at t (same_t, queues_t, fair_t).
      bind-Throws _ _ t (gets-Still (held_job id worker) t)
        λ o u (picked, (same_u, queues_u, fair_u)). first-Throws _ _ u (
          or_raise-Throws _ o u
            (picked ∙ held_job-jobs id worker s t same_t ∙ held_job-refused id worker s refused)
            (same_u ∙ same_t))
