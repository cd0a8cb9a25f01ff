-- ===== src/Api/Capacity.antt =====
-- The concurrency limit of a queue (`claimJobs`, src/core/store.mjs).
use native.Mathlib.Omega.{arith}
use distributed_job_queue_sc.Prelude.{
  ℕ, ◌+◌, ◌≤◌, String, true, false, ◌&&◌, ◌≡◌, refl, ◌∙◌, none, some, subst, str_eq, eq_iff,
  Bool-cases, Option-cases, inl, inr, ◌⊎◌, sym,
}
use distributed_job_queue_sc.Model.{Job, Store, is_running}
use distributed_job_queue_sc.Queues.{get_queue}
use distributed_job_queue_sc.Jobs.{
  Change, claim, defer, renew, complete, release, fail, cancel, cancel_dependent, requeue,
  allow_attempts, expire_lease, time_out, where_row, set_row, count_running, has_room, holds_lease,
}
use distributed_job_queue_sc.Jobs.Finish.{give_up_lease}
use distributed_job_queue_sc.Jobs.Claim.{ClaimInput, claim_jobs}
use distributed_job_queue_sc.Steps.{
  Write, row, give_up, Ready, Step, same, update, insert, drop_leases, set_queues, Reach_ind,
}
use distributed_job_queue_sc.Steps.Unique.{UniqueIds}
use distributed_job_queue_sc.Steps.Count.{
  one_if, one_if-le, count_rows-replace_job, count_rows-update_rows,
}
use distributed_job_queue_sc.Steps.Dispatch.{claim_jobs-Moves}

-- The limit of the queue that is there; a queue that is not there runs nothing.
unfoldable pub capacity : String → Store → ℕ
unfolding get_queue
capacity queue s = elim (get_queue queue s.queues) [ none ↦ 0 | some q ↦ q.concurrency ]

-- Updates of rows and given-up leases: no new job, no change to the queues.
abbrev RowsOnly : Write → Type 0
RowsOnly (row c id) = Unit
RowsOnly (give_up worker) = Unit
RowsOnly w = ⊥

-- No bound that covers the limit is passed.
abbrev Within : Store → Store → Type 0
Within s t =
    (t.queues ≡ s.queues)
    × ((queue : String) (n : ℕ)
        → capacity queue s ≤ n
        → count_running queue s.jobs ≤ n
        → count_running queue t.jobs ≤ n)

claim_room :
    (s : Store) (worker : String) (until at : ℕ) (j : Job)
    → where_row s (claim worker until at) j ≡ true
    → count_running j.queue s.jobs + 1 ≤ capacity j.queue s
unfolding where_row has_room capacity
claim_room s worker until at j w = elim (Option-cases (get_queue j.queue s.queues)) [
  | inl e ↦ ground arith
  | inr (q, e) ↦ ground arith
]

-- A counted row after a write was counted before, unless the write is a claim.
one_more :
    (s : Store) (c : Change) (j : Job) (queue : String)
    → where_row s c j ≡ true
    → Ready c j
    → one_if (str_eq (set_row c j).queue queue && is_running (set_row c j).status)
        ≤ one_if (str_eq j.queue queue && is_running j.status)
      ⊎ (count_running queue s.jobs + 1 ≤ capacity queue s)
unfolding set_row where_row
one_more s (claim worker until at) j queue w r = elim (Bool-cases (str_eq j.queue queue)) [
  | inl e ↦ inr (
      subst (λ k. count_running k s.jobs + 1 ≤ capacity k s) ((eq_iff j.queue queue).0 e)
        (claim_room s worker until at j w))
  | inr e ↦ inl (rw e (omega arith))
]
one_more s (defer t reason at) j queue w r = inl (ground arith)
one_more s (renew worker until at) j queue w r = inl (ground arith)
one_more s (complete worker output at) j queue w r = inl (ground arith)
one_more s (release later at) j queue w r = inl (ground arith)
one_more s (fail retry error t hint at) j queue w r = inl (ground arith)
one_more s (cancel at) j queue w r = inl (ground arith)
one_more s (cancel_dependent reason at) j queue w r = inl (ground arith)
one_more s (requeue later t at) j queue w r = inl (ground arith)
one_more s (allow_attempts n) j queue w r = inl (omega arith)
one_more s (expire_lease retry error hint at) j queue w r = inl (ground arith)
one_more s (time_out retry error t hint at) j queue w r = inl (ground arith)

given_up-idle :
    (reason : String) (at : ℕ) (queue : String) (j : Job)
    → (str_eq (give_up_lease reason at j).queue queue
        && is_running (give_up_lease reason at j).status)
      ≡ false
unfolding give_up_lease
given_up-idle reason at queue j = ground arith

Step-Within : (s t : Store) → Step RowsOnly s t → Within s t
unfolding count_running
Step-Within s t (same e q) = (q, λ queue n c k. rw e k)
Step-Within s t (set_queues a e) = absurd a
Step-Within s t (insert j a f e q) = absurd a
Step-Within s t (drop_leases worker reason at a e q) = (
  q,
  λ queue n c k. rw e (
      omega (
        arith,
        count_rows-update_rows (λ j. str_eq j.queue queue && is_running j.status)
            (λ j. holds_lease j worker) (give_up_lease reason at) s.jobs
            (λ j h. given_up-idle reason at queue j),
      )),
)
Step-Within s t (update c id j a g w r e q) = (
  q,
  λ queue n cap k. rw e (
      let count =
        count_rows-replace_job (λ j. str_eq j.queue queue && is_running j.status) id (set_row c j)
          s.jobs j g in
      elim (one_more s c j queue w r) [
        | inl less ↦ omega (arith, count, less)
        | inr room ↦ omega (
          arith,
          count,
          room,
          cap,
          one_if-le (str_eq (set_row c j).queue queue && is_running (set_row c j).status),
        )
      ]),
)

Within-trans : (s t u : Store) → Within s t → Within t u → Within s u
unfolding capacity
Within-trans s t u (p, h) (q, k) = (
  q ∙ p,
  λ queue n c e.
      k queue n
        (subst (λ qs. elim (get_queue queue qs) [ none ↦ 0 | some x ↦ x.concurrency ] ≤ n) (sym p)
          c)
        (h queue n c e),
)

-- A claim of jobs, from a store whose job ids are distinct, never raises the number of running jobs of a
-- queue above the queue's concurrency, for each queue and whatever limit, lease or capabilities the
-- worker asks with: where the number was within the concurrency, it is afterwards, and where it was above
-- (the limit was lowered since), it has not grown. A queue that does not exist counts as concurrency 0.
pub claim_jobs-capacity :
    (input : ClaimInput) (s : Store) (queue : String) (bound : ℕ)
    → UniqueIds s.jobs
    → capacity queue s ≤ bound
    → count_running queue s.jobs ≤ bound
    → count_running queue (claim_jobs input s).1.jobs ≤ bound
claim_jobs-capacity input s queue bound u c h =
    (Reach_ind Within (λ s. (refl, λ queue n c k. k))
        (λ s t u p st. Within-trans s t u p (Step-Within t u st))
        ((claim_jobs-Moves {A = RowsOnly} (λ reason at id. tt) (λ retry error t hint at id. tt)
            (λ retry error hint at id. tt) (λ later at id. tt) (λ t reason at id. tt)
            (λ worker until at id. tt) input).at
          s u tt)).1
      queue bound c h
