-- ===== src/Outcomes/Requeue.antt =====
-- `requeueJob` and `renewLease` (src/core/store.mjs): with the job as they need it, and otherwise.
use native.Mathlib.Omega.{arith}
use distributed_job_queue_sc.Prelude.{
  ℕ, ◌+◌, String, Bool, true, false, ◌||◌, ◌≡◌, refl, sym, ◌∙◌, Option, none, some, if◌then◌else◌,
  ap, subst, ltb,
}
use distributed_job_queue_sc.Model.{Job, Store, is_terminal, is_failed, is_dispatchable}
use distributed_job_queue_sc.Exec.{failure, pure, raise}
use distributed_job_queue_sc.Exec.Outcome.{
  Gives, Throws, SameJobs, pure-Gives, gets-Gives, weaken-Gives, bind-Gives, then-Gives,
  add_event-Gives, now_iso-Gives, bind-Throws, then_first-Throws,
}
use distributed_job_queue_sc.Jobs.{
  requeue, renew, where_row, set_row, get_job, find_job, holds_lease,
}
use distributed_job_queue_sc.Jobs.Finish.{renew_lease, held_job}
use distributed_job_queue_sc.Jobs.Requeue.{run_at_or_now, requeue_job, not_requeueable}
use distributed_job_queue_sc.Outcomes.Update.{
  update_job-written, or_raise-Gives, or_type_error-Gives,
}
use distributed_job_queue_sc.Outcomes.Finish.{held_job-some}

-- A job as `requeueJob` leaves it: due to run again, with no trace of its earlier life.
pub record Fresh (row : Job) : Type 0 where
  pub status : is_dispatchable row.status ≡ true
  pub attempts : row.attempts ≡ 0
  pub lease_owner : row.lease_owner ≡ none
  pub lease_expires_at : row.lease_expires_at ≡ none
  pub last_error : row.last_error ≡ none
  pub output : row.output ≡ none
  pub blocked_reason : row.blocked_reason ≡ none
  pub failure_hint : row.failure_hint ≡ none
  pub started_at : row.started_at ≡ none
  pub completed_at : row.completed_at ≡ none
  pub cancelled_at : row.cancelled_at ≡ none
  pub dead_lettered_at : row.dead_lettered_at ≡ none

requeue-row :
    (s : Store) (later : Bool) (run_at at : ℕ) (j : Job)
    → (where_row s (requeue later run_at at) j ≡ true)
      × ((set_row (requeue later run_at at) j).run_at ≡ run_at)
      × Fresh (set_row (requeue later run_at at) j)
unfolding where_row set_row
requeue-row s later run_at at j = (
  refl,
  refl,
  record {
    status = ground arith;
    attempts = refl;
    lease_owner = refl;
    lease_expires_at = refl;
    last_error = refl;
    output = refl;
    blocked_reason = refl;
    failure_hint = refl;
    started_at = refl;
    completed_at = refl;
    cancelled_at = refl;
    dead_lettered_at = refl;
  },
)

run_at_or_now-Gives :
    (t : Option ℕ) (s : Store)
    → Gives (run_at_or_now t) s (λ n u. ((m : ℕ) → t ≡ some m → n ≡ m) × (u.jobs ≡ s.jobs))
unfolding run_at_or_now
run_at_or_now-Gives none s =
    weaken-Gives _ s (now_iso-Gives s) λ n u e. ((λ m f. absurd (cc (f))), e)
run_at_or_now-Gives (some t) s = pure-Gives t s ((λ m f. cc (f)), refl)

guard-Gives :
    (test : Bool) (message : String) (s : Store)
    → test ≡ true
    → Gives (if test then pure tt else raise (failure message)) s (SameJobs s)
guard-Gives true message s e = pure-Gives tt s refl
guard-Gives false message s e = absurd (cc (e))

guard-Throws :
    (test : Bool) (message : String) (s t : Store)
    → test ≡ false
    → t.jobs ≡ s.jobs
    → Throws
        (if test then pure tt else raise (failure message))
        t
        (failure message)
        (λ u. u.jobs ≡ s.jobs)
unfolding raise
guard-Throws true message s t e same = absurd (cc (e))
guard-Throws false message s t e same = record { throws = refl; post = same }

find_job-Gives :
    (id : String) (s : Store) (j : Job)
    → get_job id s.jobs ≡ some j
    → Gives (find_job id) s (λ x t. (x ≡ j) × (t.jobs ≡ s.jobs))
unfolding find_job
find_job-Gives id s j found =
    bind-Gives _ _ s (gets-Gives (λ s. get_job id s.jobs) s) λ o t (picked, still).
      weaken-Gives _ t (or_raise-Gives _ o j t (picked ∙ found))
        λ x u (is_j, same_u). (is_j, same_u ∙ still)

abbrev requeueable : Job → Bool
requeueable j = is_terminal j.status || is_failed j.status

-- A job that was completed, cancelled or dead-lettered is requeued at a time that is given: the call returns
-- the job, which is then the row of its id, runs at that time, is queued or scheduled, and has no attempt, no
-- lease, no error, no output, no reason to be blocked and no time stamp of its earlier life.
pub requeue_job-Fresh :
    (id : String) (run_at : ℕ) (s : Store) (j : Job)
    → get_job id s.jobs ≡ some j
    → is_terminal j.status ≡ true
    → Gives
        (requeue_job id (some run_at))
        s
        (λ row t. Fresh row × (row.run_at ≡ run_at) × (get_job id t.jobs ≡ some row))
unfolding requeue_job
requeue_job-Fresh id run_at s j found ended =
    bind-Gives _ _ s (run_at_or_now-Gives (some run_at) s) λ when t (given, same_t).
      bind-Gives _ _ t (now_iso-Gives t) λ at u same_u.
        bind-Gives _ _ u (find_job-Gives id u j (ap (get_job id) (same_u ∙ same_t) ∙ found))
          λ current v (is_j, same_v).
            let allowed : requeueable current ≡ true =
              ap requeueable is_j ∙ ap (λ b. b || is_failed j.status) ended in
            then-Gives _ _ v (guard-Gives (requeueable current) not_requeueable v allowed)
              λ _ w same_w. bind-Gives _ _ w (now_iso-Gives w) λ now x same_x.
                let change = requeue (ltb now when) when at in
                let (cond, runs, fresh) = requeue-row x (ltb now when) when at j in
                bind-Gives _ _ x
                  (update_job-written change id x j
                    (ap (get_job id) (same_x ∙ same_w ∙ same_v ∙ same_u ∙ same_t) ∙ found) cond)
                  λ o y (got, wrote, is_row).
                    bind-Gives _ _ y (or_type_error-Gives o (set_row change j) y got)
                      λ row z (row_is, same_z).
                        then-Gives _ _ z (add_event-Gives _ _ _ _ _ z) λ _ last same_last.
                          pure-Gives row last (
                            subst Fresh (sym row_is) fresh,
                            ap (λ (r : Job). r.run_at) row_is ∙ runs ∙ given run_at refl,
                            ap (get_job id) (same_last ∙ same_z) ∙ is_row ∙ ap some (sym row_is),
                          )

-- A job that has not ended is not requeued: the call throws, and no job is changed.
pub requeue_job-not_requeueable :
    (id : String) (asked : Option ℕ) (s : Store) (j : Job)
    → get_job id s.jobs ≡ some j
    → (is_terminal j.status || is_failed j.status) ≡ false
    → Throws (requeue_job id asked) s (failure not_requeueable) (λ t. t.jobs ≡ s.jobs)
unfolding requeue_job
requeue_job-not_requeueable id asked s j found running_on =
    bind-Throws _ _ s (run_at_or_now-Gives asked s) λ when t (given, same_t).
      bind-Throws _ _ t (now_iso-Gives t) λ at u same_u.
        bind-Throws _ _ u (find_job-Gives id u j (ap (get_job id) (same_u ∙ same_t) ∙ found))
          λ current v (is_j, same_v). then_first-Throws _ _ v (
            guard-Throws (requeueable current) not_requeueable s v
              (ap requeueable is_j ∙ running_on) (same_v ∙ same_u ∙ same_t))

renew-row :
    (s : Store) (worker : String) (until at : ℕ) (j : Job)
    → (where_row s (renew worker until at) j ≡ holds_lease j worker)
      × (set_row (renew worker until at) j
          ≡ record j { lease_expires_at = some until; updated_at = at })
unfolding where_row set_row
renew-row s worker until at j = (refl, refl)

-- The holder of the lease of a running job renews it: the call returns the job with the lease running for the
-- time asked from now and nothing else changed, and it is the row of its id.
pub renew_lease-renews :
    (id worker : String) (lease_ms : ℕ) (s : Store) (j : Job)
    → held_job id worker s ≡ some j
    → Gives (renew_lease id worker lease_ms) s (λ row t.
      (row ≡ record j {
        lease_expires_at = some (row.updated_at + lease_ms);
        updated_at = row.updated_at;
      })
      × (get_job id t.jobs ≡ some row))
unfolding renew_lease
renew_lease-renews id worker lease_ms s j held =
    let (found, holds) = held_job-some id worker s j held in
    bind-Gives _ _ s (now_iso-Gives s) λ at t same.
      let (cond, new) = renew-row t worker (at + lease_ms) at j in
      bind-Gives _ _ t
        (update_job-written (renew worker (at + lease_ms) at) id t j (ap (get_job id) same ∙ found)
          (cond ∙ holds))
        λ o u (got, wrote, is_row).
          weaken-Gives _ u (or_raise-Gives _ o (set_row (renew worker (at + lease_ms) at) j) u got)
            λ row v (row_is, same_v). (
              (let whole = row_is ∙ new in
                  let at_is : row.updated_at ≡ at = ap (λ (r : Job). r.updated_at) whole in
                  whole
                  ∙ ap (λ n. record j { lease_expires_at = some (n + lease_ms); updated_at = n })
                      (sym at_is)),
              ap (get_job id) same_v ∙ is_row ∙ ap some (sym row_is),
            )
