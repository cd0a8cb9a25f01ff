-- ===== src/Tests/Calls.antt =====
-- The theorems on calls of the store, at the sample store.
use distributed_job_queue_sc.Queues.{get_queue}
use distributed_job_queue_sc.Outcomes.Freed.{Kept, NoneReady, Freed}
use distributed_job_queue_sc.Outcomes.Delays.{Fair, DelayWithin, effective_policy}
use distributed_job_queue_sc.Outcomes.Kept.{Claimed}
use native.Mathlib.Omega.{arith}
use distributed_job_queue_sc.Prelude.{
  true, is_text, ◌&&◌, ℕ, ◌+◌, ◌≤◌, false, ◌≡◌, refl, [], ◌∷◌, none, some, All, length, ◌↔◌, eq_iff,
  find, subst, count_rows,
}
use distributed_job_queue_sc.Prelude.Int.{pos}
use distributed_job_queue_sc.Json.{null}
use distributed_job_queue_sc.Text.{or_text}
use distributed_job_queue_sc.Input.{int, clamp_nat}
use distributed_job_queue_sc.Model.{
  Store, by_type, is_running, Job, scheduled, completed, cancelled, dead_letter, is_pending,
}
use distributed_job_queue_sc.Exec.{not_found, failure}
use distributed_job_queue_sc.Exec.Outcome.{Gives, Throws}
use distributed_job_queue_sc.Jobs.{get_job, count_running, lease_missing}
use distributed_job_queue_sc.Jobs.Cancel.{cancel_dependents, cancel_job, not_cancellable}
use distributed_job_queue_sc.Jobs.Finish.{
  complete_job, fail_job, held_job, output_or_empty, release_ready_dependencies,
}
use distributed_job_queue_sc.Jobs.Claim.{claim_jobs}
use distributed_job_queue_sc.RateLimits.{check_dispatch_rate_limit}
use distributed_job_queue_sc.RateLimits.Limits.{QueueLimit, Obeys, check_dispatch_rate_limit_iff}
use distributed_job_queue_sc.Steps.Unique.{UniqueIds}
use distributed_job_queue_sc.Invariant.{WellFormed}
use distributed_job_queue_sc.Api.{claim_call, complete_call, requeue_call, perform_all}
use distributed_job_queue_sc.Api.Integrity.{perform_all-WellFormed}
use distributed_job_queue_sc.Api.Capacity.{capacity, claim_jobs-capacity}
use distributed_job_queue_sc.Cascade.Sweep.{Closed, Swept}
use distributed_job_queue_sc.Cascade.Closure.{cancel_dependents-closes}
use distributed_job_queue_sc.Outcomes.Release.{release_ready_dependencies-NoneReady}
use distributed_job_queue_sc.Outcomes.Finish.{
  complete_job-completes, complete_job-lease_missing, cancel_job-cancels,
  cancel_job-not_cancellable,
}
use distributed_job_queue_sc.Outcomes.Failure.{
  fail_job-retries, fail_job-dead_letters, fail_job-lease_missing,
}
use distributed_job_queue_sc.Maintenance.{archive_terminal_jobs}
use distributed_job_queue_sc.Maintenance.Archive.{Preserved, archive_terminal_jobs-Preserved}
use distributed_job_queue_sc.Outcomes.Claim.{claim_jobs-Claimed}
use distributed_job_queue_sc.Tests.{store, jobs, first_try, waiting_job, last_try, claim_request}

pub unique : UniqueIds jobs
unique = (
  (
    (λ p. cc ((eq_iff "job-1" "job-0").1 p)),
    (
      (λ p. cc ((eq_iff "job-2" "job-0").1 p)),
      ((λ p. cc ((eq_iff "job-3" "job-0").1 p)), ((λ p. cc ((eq_iff "job-4" "job-0").1 p)), tt)),
    ),
  ),
  (
    (
      (λ p. cc ((eq_iff "job-2" "job-1").1 p)),
      ((λ p. cc ((eq_iff "job-3" "job-1").1 p)), ((λ p. cc ((eq_iff "job-4" "job-1").1 p)), tt)),
    ),
    (
      ((λ p. cc ((eq_iff "job-3" "job-2").1 p)), ((λ p. cc ((eq_iff "job-4" "job-2").1 p)), tt)),
      (((λ p. cc ((eq_iff "job-4" "job-3").1 p)), tt), (tt, tt)),
    ),
  ),
)

pub sample-WellFormed : All WellFormed jobs
sample-WellFormed =
    (ground arith, (ground arith, (ground arith, (ground arith, (ground arith, tt)))))

fair : Fair store
fair k n h = omega arith

holds_first : held_job "job-1" "w1" store ≡ some first_try
unfolding held_job find
holds_first = refl

holds_last : held_job "job-3" "w1" store ≡ some last_try
unfolding held_job find
holds_last = refl

held_by_other : held_job "job-1" "w2" store ≡ none
unfolding held_job find
held_by_other = refl

found_first : get_job "job-1" jobs ≡ some first_try
unfolding get_job find
found_first = refl

found_waiting : get_job "job-2" jobs ≡ some waiting_job
unfolding get_job find
found_waiting = refl

first_running : (j : Job) → get_job "job-1" jobs ≡ some j → is_pending j.status ≡ false
first_running j e =
    let same : first_try ≡ j = cc (found_first, e) in
    subst (λ (x : Job). is_pending x.status ≡ false) same refl

perform_all-WellFormed_example :
    let t =
      perform_all
        (claim_call claim_request
          ∷ complete_call "job-1" "w1" null
          ∷ requeue_call "job-0" none
          ∷ [])
        store in
    UniqueIds t.jobs × All WellFormed t.jobs
perform_all-WellFormed_example =
    perform_all-WellFormed
      (claim_call claim_request ∷ complete_call "job-1" "w1" null ∷ requeue_call "job-0" none ∷ [])
      store unique sample-WellFormed

email_capacity : capacity "email" store ≤ 2
unfolding capacity find
email_capacity = omega arith

email_running : count_running "email" jobs ≤ 2
unfolding count_running count_rows
email_running = omega arith

claim_jobs-capacity_example : count_running "email" (claim_jobs claim_request store).1.jobs ≤ 2
claim_jobs-capacity_example =
    claim_jobs-capacity claim_request store "email" 2 unique email_capacity email_running

cancel_dependents-closes_example :
    Gives
      (cancel_dependents "job-3" "gone")
      store
      (λ rows t. Closed "job-3" t.jobs × All (λ r. Closed r.id t.jobs) rows × Swept jobs t.jobs)
cancel_dependents-closes_example = cancel_dependents-closes "job-3" "gone" store

release_ready_dependencies-NoneReady_example :
    Gives
      (release_ready_dependencies 100 none)
      store
      (λ rows t. NoneReady t × Kept store t × Freed store t)
release_ready_dependencies-NoneReady_example =
    release_ready_dependencies-NoneReady 100 none store unique

claim_jobs-Claimed_example :
    Gives
      (claim_jobs claim_request)
      store
      (λ rows t. All (Claimed "w2" 30000 t) rows × (length rows ≤ clamp_nat (int (pos 5)) 1 100))
claim_jobs-Claimed_example = claim_jobs-Claimed claim_request store

complete_job-completes_example : Gives (complete_job "job-1" "w1" null) store (λ row t.
    (row.status ≡ completed)
    × (row.output ≡ some (output_or_empty null))
    × (row.lease_owner ≡ none)
    × (row.attempts ≡ 1)
    × (get_job "job-1" t.jobs ≡ some row)
    × NoneReady t)
complete_job-completes_example =
    complete_job-completes "job-1" "w1" null store first_try holds_first

complete_job-lease_missing_example :
    Throws
      (complete_job "job-1" "w2" null)
      store
      (not_found (lease_missing "job-1"))
      (λ t. t.jobs ≡ jobs)
complete_job-lease_missing_example =
    complete_job-lease_missing "job-1" "w2" null store held_by_other

cancel_job-cancels_example : Gives (cancel_job "job-2") store (λ row t.
    (row.status ≡ cancelled) × (get_job "job-2" t.jobs ≡ some row) × Closed "job-2" t.jobs)
cancel_job-cancels_example = cancel_job-cancels "job-2" store waiting_job found_waiting refl

cancel_job-not_cancellable_example :
    Throws (cancel_job "job-1") store (failure not_cancellable) (λ t. t.jobs ≡ jobs)
cancel_job-not_cancellable_example = cancel_job-not_cancellable "job-1" store first_running

fail_job-retries_example : Gives (fail_job "job-1" "w1" "boom" 2000) store (λ row t.
    (row.status ≡ scheduled)
    × (row.last_error ≡ some (or_text "boom" "Job failed"))
    × (row.lease_owner ≡ none)
    × (row.attempts ≡ 1)
    × (get_job "job-1" t.jobs ≡ some row)
    × ((delay : ℕ) × (row.run_at ≡ row.updated_at + delay)
        × DelayWithin (effective_policy store first_try 2000) 1 delay))
fail_job-retries_example =
    fail_job-retries "job-1" "w1" "boom" 2000 store first_try fair holds_first refl

fail_job-dead_letters_example : Gives (fail_job "job-3" "w1" "boom" 2000) store (λ row t.
    (row.status ≡ dead_letter)
    × (row.last_error ≡ some (or_text "boom" "Job failed"))
    × (row.lease_owner ≡ none)
    × (row.attempts ≡ 3)
    × (row.run_at ≡ 10)
    × (get_job "job-3" t.jobs ≡ some row)
    × Closed "job-3" t.jobs)
fail_job-dead_letters_example =
    fail_job-dead_letters "job-3" "w1" "boom" 2000 store last_try fair holds_last refl

first_is_of_other :
    (j : Job)
    → get_job "job-1" jobs ≡ some j
    → (is_text j.lease_owner "w2" && is_running j.status) ≡ false
first_is_of_other j e =
    let same : first_try ≡ j = cc (found_first, e) in
    subst (λ (x : Job). (is_text x.lease_owner "w2" && is_running x.status) ≡ false) same refl

fail_job-lease_missing_example :
    Throws
      (fail_job "job-1" "w2" "boom" 2000)
      store
      (not_found (lease_missing "job-1"))
      (λ t. t.jobs ≡ jobs)
fail_job-lease_missing_example =
    fail_job-lease_missing "job-1" "w2" "boom" 2000 store first_is_of_other

-- One claim a minute of jobs of the type.
abbrev limited : Store
limited = record store {
  rate_limits =
      record {
        id = "rl-1";
        scope = by_type;
        target = first_try.type;
        limit_count = 1;
        window_ms = 60000;
        enabled = true;
        created_at = 1;
        updated_at = 1;
      }
      ∷ [];
}

check_dispatch_rate_limit_iff_example : (check_dispatch_rate_limit limited first_try 100 ≡ none) ↔ (
    QueueLimit limited "email" 100 (get_queue "email" limited.queues)
    × All (Obeys limited first_try 100) limited.rate_limits)
check_dispatch_rate_limit_iff_example = check_dispatch_rate_limit_iff limited first_try 100

archive_terminal_jobs-Preserved_example :
    Gives (archive_terminal_jobs (int (pos 0)) (int (pos 10))) store (λ _ t. Preserved store t)
archive_terminal_jobs-Preserved_example =
    archive_terminal_jobs-Preserved (int (pos 0)) (int (pos 10)) store unique
