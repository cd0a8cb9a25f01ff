-- ===== src/Outcomes/Finish.antt =====
-- `completeJob` and `cancelJob` (src/core/store.mjs): with the lease held or the job pending, and
-- without.
use distributed_job_queue_sc.Outcomes.Freed.{NoneReady}
use native.Mathlib.Omega.{arith}
use distributed_job_queue_sc.Prelude.{
  ℕ, String, true, false, ◌≡◌, refl, sym, ◌∙◌, Option, none, some, ap,
}
use distributed_job_queue_sc.Json.{Json}
use distributed_job_queue_sc.Model.{Job, Store, completed, cancelled, is_waiting, is_pending}
use distributed_job_queue_sc.Exec.{not_found, failure}
use distributed_job_queue_sc.Exec.Outcome.{
  Gives, Throws, pure-Gives, bind-Gives, then-Gives, add_event-Gives, now_iso-Gives, first-Throws,
  bind-Throws, or_raise-Throws, or_fail-Throws,
}
use distributed_job_queue_sc.Jobs.{
  Change, complete, cancel, where_row, set_row, get_job, holds_lease, lease_missing,
}
use distributed_job_queue_sc.Jobs.Cancel.{cancel_job, not_cancellable}
use distributed_job_queue_sc.Jobs.Finish.{held_job, output_or_empty, complete_job}
use distributed_job_queue_sc.Cascade.Sweep.{Closed}
use distributed_job_queue_sc.Cascade.Closure.{cancel_dependents-closes}
use distributed_job_queue_sc.Outcomes.Update.{
  Updated, missing, refused, written, update_job-Gives, update_job-written, or_raise-Gives,
  or_fail-Gives, increment_worker-Gives,
}
use distributed_job_queue_sc.Outcomes.Release.{release_ready_dependencies-Freed}

-- The row of a held lease.
pub held_job-some :
    (id worker : String) (s : Store) (j : Job)
    → held_job id worker s ≡ some j
    → (get_job id s.jobs ≡ some j) × (holds_lease j worker ≡ true)
unfolding held_job
held_job-some id worker s j e = ground arith

held_job-none :
    (id worker : String) (s : Store) (j : Job)
    → held_job id worker s ≡ none
    → get_job id s.jobs ≡ some j
    → holds_lease j worker ≡ false
unfolding held_job
held_job-none id worker s j e g = ground arith

-- Where the job is not there, or does not meet the conditions, nothing is written.
pub Updated-none :
    (c : Change) (id : String) (s : Store) (o : Option Job) (t : Store)
    → ((j : Job) → get_job id s.jobs ≡ some j → where_row s c j ≡ false)
    → Updated c id s o t
    → (o ≡ none) × (t.jobs ≡ s.jobs)
Updated-none c id s none t not_met (missing g e) = (refl, e)
Updated-none c id s none t not_met (refused j g w e) = (refl, e)
Updated-none c id s (some k) t not_met (written j g w e) = absurd (cc (w, not_met j g))

complete-row :
    (s : Store) (worker : String) (output : Json) (at : ℕ) (j : Job)
    → (where_row s (complete worker output at) j ≡ holds_lease j worker)
      × ((set_row (complete worker output at) j).status ≡ completed)
      × ((set_row (complete worker output at) j).output ≡ some output)
      × ((set_row (complete worker output at) j).lease_owner ≡ none)
      × ((set_row (complete worker output at) j).attempts ≡ j.attempts)
unfolding where_row set_row
complete-row s worker output at j = (refl, refl, refl, refl, refl)

-- A worker that holds the lease of a running job completes it: the call returns the job, which is then
-- completed with the output given (an empty object for null), has no lease owner and as many attempts as
-- before, and is the row of its id; and no job is left that waits only for completed jobs.
pub complete_job-completes :
    (id worker : String) (output : Json) (s : Store) (j : Job)
    → held_job id worker s ≡ some j
    → Gives (complete_job id worker output) s (λ row t.
      (row.status ≡ completed)
      × (row.output ≡ some (output_or_empty output))
      × (row.lease_owner ≡ none)
      × (row.attempts ≡ j.attempts)
      × (get_job id t.jobs ≡ some row)
      × NoneReady t)
unfolding complete_job
complete_job-completes id worker output s j held =
    let (found, holds) = held_job-some id worker s j held in
    bind-Gives _ _ s (now_iso-Gives s) λ at t same.
      let (cond, status, out, owner, tries) = complete-row t worker (output_or_empty output) at j in
      let new = set_row (complete worker (output_or_empty output) at) j in
      bind-Gives _ _ t
        (update_job-written (complete worker (output_or_empty output) at) id t j
          (ap (get_job id) same ∙ found) (cond ∙ holds))
        λ o u (got, wrote, is_row).
          bind-Gives _ _ u (or_raise-Gives _ o new u got) λ row v (row_is, same_v).
            then-Gives _ _ v (increment_worker-Gives worker _ _ _ v) λ _ w same_w.
              then-Gives _ _ w (add_event-Gives _ _ _ _ _ w) λ _ x same_x.
                then-Gives _ _ x (release_ready_dependencies-Freed at (some id) x)
                  λ rows y (none_ready, freed).
                    let stays =
                      freed.rest id new (ap (get_job id) (same_x ∙ same_w ∙ same_v) ∙ is_row)
                        (ap (λ status. is_waiting status) status) in
                    pure-Gives row y (
                      ap (λ (r : Job). r.status) row_is ∙ status,
                      ap (λ (r : Job). r.output) row_is ∙ out,
                      ap (λ (r : Job). r.lease_owner) row_is ∙ owner,
                      ap (λ (r : Job). r.attempts) row_is ∙ tries,
                      stays ∙ ap some (sym row_is),
                      none_ready,
                    )

-- A worker that does not hold the lease of the job, or a job that does not run: the call throws that the
-- lease was not found, and no job is changed.
pub complete_job-lease_missing :
    (id worker : String) (output : Json) (s : Store)
    → held_job id worker s ≡ none
    → Throws (complete_job id worker output) s (not_found (lease_missing id)) (λ t. t.jobs ≡ s.jobs)
unfolding complete_job
complete_job-lease_missing id worker output s none_held =
    bind-Throws _ _ s (now_iso-Gives s) λ at t same.
      bind-Throws _ _ t (update_job-Gives (complete worker (output_or_empty output) at) id t)
        λ o u h.
          let (nothing, same_u) =
            Updated-none (complete worker (output_or_empty output) at) id t o u
              (λ j g.
                (complete-row t worker (output_or_empty output) at j).0
                ∙ held_job-none id worker s j none_held (ap (get_job id) (sym same) ∙ g))
              h in
          first-Throws _ _ u (or_raise-Throws _ o u nothing (same_u ∙ same))

cancel-row :
    (s : Store) (at : ℕ) (j : Job)
    → (where_row s (cancel at) j ≡ is_pending j.status)
      × ((set_row (cancel at) j).status ≡ cancelled)
unfolding where_row set_row
cancel-row s at j = (refl, refl)

-- A job that is queued, scheduled or waiting is cancelled: the call returns the job, which is then
-- cancelled and the row of its id, and no job that is queued, scheduled or waiting depends on it.
pub cancel_job-cancels :
    (id : String) (s : Store) (j : Job)
    → get_job id s.jobs ≡ some j
    → is_pending j.status ≡ true
    → Gives
        (cancel_job id)
        s
        (λ row t. (row.status ≡ cancelled) × (get_job id t.jobs ≡ some row) × Closed id t.jobs)
unfolding cancel_job
cancel_job-cancels id s j found p = bind-Gives _ _ s (now_iso-Gives s) λ at t same.
    let (cond, status) = cancel-row t at j in
    bind-Gives _ _ t
      (update_job-written (cancel at) id t j (ap (get_job id) same ∙ found) (cond ∙ p))
      λ o u (got, wrote, is_row).
        bind-Gives _ _ u (or_fail-Gives _ o (set_row (cancel at) j) u got) λ row v (row_is, same_v).
          then-Gives _ _ v (add_event-Gives _ _ _ _ _ v) λ _ w same_w.
            then-Gives _ _ w (cancel_dependents-closes id _ w) λ rows x (closed, others, swept).
              pure-Gives row x (
                ap (λ (r : Job). r.status) row_is ∙ status,
                swept.kept id (set_row (cancel at) j) (ap (get_job id) (same_w ∙ same_v) ∙ is_row)
                      (ap (λ status. is_pending status) status)
                    ∙ ap some (sym row_is),
                closed,
              )

-- Any other job, or no job, is not: the call throws, and no job is changed.
pub cancel_job-not_cancellable :
    (id : String) (s : Store)
    → ((j : Job) → get_job id s.jobs ≡ some j → is_pending j.status ≡ false)
    → Throws (cancel_job id) s (failure not_cancellable) (λ t. t.jobs ≡ s.jobs)
unfolding cancel_job
cancel_job-not_cancellable id s not_pending = bind-Throws _ _ s (now_iso-Gives s) λ at t same.
    bind-Throws _ _ t (update_job-Gives (cancel at) id t) λ o u h.
      let (nothing, same_u) =
        Updated-none (cancel at) id t o u
          (λ j g. (cancel-row t at j).0 ∙ not_pending j (ap (get_job id) (sym same) ∙ g)) h in
      first-Throws _ _ u (or_fail-Throws _ o u nothing (same_u ∙ same))
