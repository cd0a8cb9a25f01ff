-- ===== src/Outcomes/Claim.antt =====
-- The jobs that `claimJobs` returns (src/core/store.mjs).
use native.Mathlib.Omega.{arith}
use distributed_job_queue_sc.Prelude.{
  ℕ, ◌+◌, ◌≤◌, ◌<◌, String, ◌≡◌, refl, sym, ◌∙◌, List, [], ◌∷◌, ◌++◌, Option, none, some, ap, subst,
  All, All-append, length, length-append, leb, map,
}
use distributed_job_queue_sc.Prelude.Int.{pos}
use distributed_job_queue_sc.Text.{normalize_name}
use distributed_job_queue_sc.Input.{int, clamp_nat}
use distributed_job_queue_sc.Model.{Job, Store}
use distributed_job_queue_sc.Exec.Outcome.{
  Gives, pure-Gives, gets-Gives, if-Gives, weaken-Gives, bind-Gives, then-Gives, add_event-Gives,
  now_iso-Gives,
}
use distributed_job_queue_sc.RateLimits.{Denial, check_dispatch_rate_limit}
use distributed_job_queue_sc.Jobs.{claim, set_row, get_job}
use distributed_job_queue_sc.Jobs.Claim.{
  ClaimInput, has_required_capabilities, claimed_one, try_claim, claim_candidate, claim_each,
  candidates, claim_from, claim_jobs,
}
use distributed_job_queue_sc.Steps.Unique.{set_row-id, get_job-id}
use distributed_job_queue_sc.Steps.Lookup.{get_job-replace_self}
use distributed_job_queue_sc.Outcomes.Update.{Updated, missing, refused, written, update_job-Gives}
use distributed_job_queue_sc.Outcomes.Release.{release_ready_dependencies-Freed}
use distributed_job_queue_sc.Outcomes.Recover.{
  recover_stale_leases-Stays, recover_timed_out_jobs-Stays,
}
use distributed_job_queue_sc.Outcomes.Kept.{
  Kept, Kept-same, Kept-written, Claimed, AllClaimed-Kept, claim-row, claim-dispatchable,
  defer-Kept,
}

-- What a round of the loop, or the loop, leaves.
abbrev Round : String → ℕ → Store → List Job → Store → Type 0
Round worker lease_ms s rows t = Kept s t × All (Claimed worker lease_ms t) rows

module _ (worker : String) (lease_ms at : ℕ) where
  claimed_one-Gives :
      (id : String) (s : Store) (o : Option Job) (t : Store)
      → Updated (claim worker (at + lease_ms) at) id s o t
      → Gives
          (claimed_one worker o)
          t
          (λ rows u. Round worker lease_ms s rows u × (length rows ≤ 1))
  unfolding claimed_one
  claimed_one-Gives id s none t (missing g e) = pure-Gives [] t ((Kept-same s t e, tt), omega arith)
  claimed_one-Gives id s none t (refused j g x e) =
      pure-Gives [] t ((Kept-same s t e, tt), omega arith)
  claimed_one-Gives id s (some _) t (written j g w e) =
      let change = claim worker (at + lease_ms) at in
      let new = set_row change j in
      let own_id = set_row-id change j ∙ get_job-id id s.jobs g in
      let in_t = ap (get_job id) e ∙ get_job-replace_self id new s.jobs g own_id in
      let kept =
        Kept-written change id s t j g (claim-dispatchable s worker (at + lease_ms) at j w) e in
      then-Gives _ _ t (add_event-Gives _ _ _ _ _ t) λ _ u same_u. pure-Gives (new ∷ []) u (
        (
          (λ k a f d. Kept-same t u same_u k a (kept k a f d) d),
          (
            claim-row s u worker lease_ms at j w (
                ap (get_job new.id) same_u
                ∙ subst (λ k. get_job k t.jobs ≡ some new) (sym own_id) in_t),
            tt,
          ),
        ),
        omega arith,
      )

  try_claim-Gives :
      (c : Job) (o : Option Denial) (s : Store)
      → Gives
          (try_claim worker at (at + lease_ms) c o)
          s
          (λ rows t. Round worker lease_ms s rows t × (length rows ≤ 1))
  unfolding try_claim
  try_claim-Gives c (some d) s =
      then-Gives _ _ s (defer-Kept c.id d s) λ _ t k. pure-Gives [] t ((k, tt), omega arith)
  try_claim-Gives c none s =
      bind-Gives _ _ s (update_job-Gives (claim worker (at + lease_ms) at) c.id s)
        (claimed_one-Gives c.id s)

  claim_candidate-Gives :
      (capabilities : List String) (c : Job) (s : Store)
      → Gives
          (claim_candidate worker capabilities at (at + lease_ms) c)
          s
          (λ rows t. Round worker lease_ms s rows t × (length rows ≤ 1))
  unfolding claim_candidate
  claim_candidate-Gives capabilities c s =
      if-Gives (has_required_capabilities c.required_capabilities capabilities) _ _ s
        (λ _.
          bind-Gives _ _ s (gets-Gives (λ s. check_dispatch_rate_limit s c at) s)
            λ o t (picked, still). weaken-Gives _ t (try_claim-Gives c o t) λ rows u ((k, h), few).
              (((λ i a f d. k i a (Kept-same s t still i a f d) d), h), few))
        (λ _. pure-Gives [] s ((Kept-same s s refl, tt), omega arith))

  claim_each-Gives :
      (capabilities : List String) (most : ℕ) (claimed cs : List Job) (s : Store)
      → All (Claimed worker lease_ms s) claimed
      → length claimed ≤ most
      → Gives
          (claim_each (claim_candidate worker capabilities at (at + lease_ms)) most claimed cs)
          s
          (λ rows t. All (Claimed worker lease_ms t) rows × (length rows ≤ most))
  unfolding claim_each
  claim_each-Gives capabilities most claimed [] s h few = pure-Gives claimed s (h, few)
  claim_each-Gives capabilities most claimed (c ∷ cs) s h few =
      if-Gives (leb most (length claimed)) _ _ s (λ _. pure-Gives claimed s (h, few))
        (λ below.
          bind-Gives _ _ s (claim_candidate-Gives capabilities c s) λ this t ((k, new), one).
            claim_each-Gives capabilities most (claimed ++ this) cs t
              (All-append (Claimed worker lease_ms t) claimed this
                (AllClaimed-Kept worker lease_ms s t claimed k h) new)
              (let room : length claimed < most = ground arith in
                rw (length-append claimed this) (omega arith)))

claim_from-Gives :
    (input : ClaimInput) (queues : List String) (at : ℕ) (s : Store)
    → Gives (claim_from input queues at) s (λ rows t.
      All (Claimed input.worker_id input.lease_ms t) rows
      × (length rows ≤ clamp_nat (int (pos input.limit)) 1 100))
unfolding claim_from
claim_from-Gives input [] at s = pure-Gives [] s (tt, omega arith)
claim_from-Gives input (q ∷ qs) at s =
    bind-Gives _ _ s (gets-Gives (candidates input (q ∷ qs) at) s)
      λ rows t h. claim_each-Gives input.worker_id input.lease_ms at _ _ [] rows t tt (omega arith)

-- A claim returns, whatever the store holds, with at most as many jobs as the limit that was asked (read as
-- a number from 1 to 100). Each returned job is the row of its id, is running, is leased to the worker for
-- the lease time from the moment it was claimed, was due then, and has at least one attempt.
pub claim_jobs-Claimed :
    (input : ClaimInput) (s : Store)
    → Gives (claim_jobs input) s (λ rows t.
      All (Claimed input.worker_id input.lease_ms t) rows
      × (length rows ≤ clamp_nat (int (pos input.limit)) 1 100))
unfolding claim_jobs
claim_jobs-Claimed input s = bind-Gives _ _ s (now_iso-Gives s) λ at t e.
    then-Gives _ _ t (recover_stale_leases-Stays at t) λ _ u f.
      then-Gives _ _ u (recover_timed_out_jobs-Stays at u) λ _ v g.
        then-Gives _ _ v (release_ready_dependencies-Freed at none v)
          λ _ w h. claim_from-Gives input (map normalize_name input.queues) at w
