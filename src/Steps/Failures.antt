-- ===== src/Steps/Failures.antt =====
-- `failJob` and `recoverStaleLeases` (src/core/store.mjs) as sequences of allowed writes. Both update by the id
-- alone, so the running row that they read before is carried along.
use distributed_job_queue_sc.Prelude.{
  ℕ, String, Bool, true, ◌≡◌, refl, sym, ◌≢◌, ◌∙◌, ap, List, [], ◌∷◌, some, arith, All, where_rows,
  subst, &&-true,
}
use distributed_job_queue_sc.Guidance.{FailureHint}
use distributed_job_queue_sc.Model.{Job, Store, is_running}
use distributed_job_queue_sc.Jobs.{
  fail, cancel_dependent, expire_lease, set_row, where_row, get_job,
}
use distributed_job_queue_sc.Jobs.Finish.{fail_held, fail_job, held_job}
use distributed_job_queue_sc.Jobs.Recover.{
  is_stale, recover_stale, recover_each_stale, recover_stale_leases,
}
use distributed_job_queue_sc.Steps.{
  Write, row, Step, same, update, insert, drop_leases, set_queues, Reach, Reach_ind,
}
use distributed_job_queue_sc.Steps.Unique.{Fresh, UniqueIds, get_job-id, set_row-id}
use distributed_job_queue_sc.Steps.Lookup.{
  Found, get_job-replace_ne, where_rows-Found, where_rows-test, where_rows-UniqueIds,
}
use distributed_job_queue_sc.Steps.Moves.{
  Moves, MovesFrom, update_job-MovesFrom, moves_rules, quiet_methods, bind-Moves, then-Moves,
  unless-Moves, after_quiet-Moves, weaken-Moves, gets_then-Moves, or_raise_then-Moves,
  bind_post-Moves,
}
use distributed_job_queue_sc.Steps.Methods.{cancel_dependents-Moves}

-- The job of this id, if it is there, is running.
abbrev pub RunningAt : String → List Job → Type 0
RunningAt id js = (j : Job) → get_job id js ≡ some j → is_running j.status ≡ true

held_job-some :
    (id worker : String) (s : Store) {j : Job}
    → held_job id worker s ≡ some j
    → (get_job id s.jobs ≡ some j) × (is_running j.status ≡ true)
unfolding held_job
held_job-some id worker s e = ground arith

module _ {A : Write → Type 0}
    (may_cancel : (reason : String) (at : ℕ) (id : String)
      → A (row (cancel_dependent reason at) id)) where
  fail_held-Moves :
      (may : (retry : Bool) (error : String) (run_at : ℕ) (hint : FailureHint) (at : ℕ)
          (id : String)
        → A (row (fail retry error run_at hint at) id))
      → (id worker error : String) (base at : ℕ) (current : Job)
      → MovesFrom A (RunningAt id) (fail_held id worker error base at current)
  unfolding fail_held
  fail_held-Moves may id worker error base at current =
      after_quiet-Moves _ _ (search quiet_methods) λ policy.
        after_quiet-Moves _ _ (search quiet_methods) λ backoff.
          after_quiet-Moves _ _ (search quiet_methods) λ hint.
            bind-Moves _ _ (update_job-MovesFrom _ id (may _ _ _ hint at id) (λ js j p e. p j e))
              λ found. then-Moves _ _ (search moves_rules) (
                bind-Moves _ _ (search moves_rules) λ j. then-Moves _ _ (search moves_rules) (
                  then-Moves _ _ (unless-Moves _ _ (cancel_dependents-Moves may_cancel id _))
                    (search moves_rules)))

  pub fail_job-Moves :
      (may : (retry : Bool) (error : String) (run_at : ℕ) (hint : FailureHint) (at : ℕ)
          (id : String)
        → A (row (fail retry error run_at hint at) id))
      → (id worker error : String) (base : ℕ) → Moves A (fail_job id worker error base)
  unfolding fail_job
  fail_job-Moves may id worker error base = after_quiet-Moves _ _ (search quiet_methods) λ at.
      gets_then-Moves _ _ λ s u p. or_raise_then-Moves _ _ _ λ j held.
        weaken-Moves _ (fail_held-Moves may id worker error base at j) (running_in s j held)
    where
      running_in :
          (s : Store) (j : Job)
          → held_job id worker s ≡ some j
          → (js : List Job) → js ≡ s.jobs
          → RunningAt id js
      running_in s j held js e k f =
          let (found, runs) = held_job-some id worker s held in
          let same_job : j ≡ k = cc (found, f, ap (get_job id) e) in
          subst (λ (x : Job). is_running x.status ≡ true) same_job runs

-- Writes that end the attempt of one job and cancel jobs that had not started.
abbrev Only : String → Write → Type 0
Only id (row (expire_lease retry error hint at) k) = k ≡ id
Only id (row (cancel_dependent reason at) k) = Unit
Only id w = ⊥

cancel_dependent-pending :
    (s : Store) (reason : String) (at : ℕ) (j : Job)
    → where_row s (cancel_dependent reason at) j ≡ true
    → is_running j.status ≡ true
    → ⊥
unfolding where_row
cancel_dependent-pending s reason at j w r = ground arith

-- Such writes leave every other running job running.
Step-RunningAt :
    {id k : String} {s t : Store}
    → Step (Only id) s t
    → k ≢ id
    → RunningAt k s.jobs
    → RunningAt k t.jobs
Step-RunningAt (same e q) n r = rw e r
Step-RunningAt {id} {k} {s} (update (expire_lease retry error hint at) m j a g w y e q) n r =
    rw e λ x f. r x (
      sym (
        get_job-replace_ne k m (set_row (expire_lease retry error hint at) j) s.jobs
          (set_row-id (expire_lease retry error hint at) j ∙ get_job-id m s.jobs g)
          (λ p. n (p ∙ a)))
      ∙ f)
Step-RunningAt {id} {k} {s} (update (cancel_dependent reason at) m j a g w y e q) n r = rw e λ x f.
    r x (
      sym (
        get_job-replace_ne k m (set_row (cancel_dependent reason at) j) s.jobs
          (set_row-id (cancel_dependent reason at) j ∙ get_job-id m s.jobs g)
          (λ p. cancel_dependent-pending s reason at j w (r j (rw p g))))
      ∙ f)
Step-RunningAt (update c m j a g w y e q) n r = absurd a
Step-RunningAt (insert j a f e q) n r = absurd a
Step-RunningAt (drop_leases worker reason at a e q) n r = absurd a
Step-RunningAt (set_queues a e) n r = absurd a

module _ {A : Write → Type 0}
    (may_cancel : (reason : String) (at : ℕ) (id : String)
      → A (row (cancel_dependent reason at) id)) where
  recover_stale-Moves :
      (now : ℕ) (j : Job)
      → ((retry : Bool) (error : String) (hint : FailureHint) (at : ℕ)
          → A (row (expire_lease retry error hint at) j.id))
      → MovesFrom A (RunningAt j.id) (recover_stale now j)
  unfolding recover_stale
  recover_stale-Moves now j may = after_quiet-Moves _ _ (search quiet_methods) λ hint.
      bind-Moves _ _ (update_job-MovesFrom _ j.id (may _ _ hint now) (λ js k p e. p k e)) λ found.
        then-Moves _ _ (search moves_rules) (
          then-Moves _ _ (unless-Moves _ _ (cancel_dependents-Moves may_cancel j.id _))
            (search moves_rules))

-- What the loop over the stale jobs needs: the ones that are left are still running.
abbrev AllRunning : List Job → List Job → Type 0
AllRunning rows js = All (λ r. RunningAt r.id js) rows

spare_rest :
    (id : String) (rows : List Job) {s t : Store}
    → Reach (Only id) s t
    → Fresh id rows
    → AllRunning rows s.jobs
    → AllRunning rows t.jobs
spare_rest id [] r f h = tt
spare_rest id (x ∷ rows) r (n, f) (p, h) = (
  Reach_ind (λ s t. RunningAt x.id s.jobs → RunningAt x.id t.jobs) (λ s q. q)
      (λ s t u q st g. Step-RunningAt st n (q g)) r p,
  spare_rest id rows r f h,
)

is_stale-AllRunning :
    (now : ℕ) (js rows : List Job)
    → All (Found js) rows
    → All (λ j. is_stale now j ≡ true) rows
    → AllRunning rows js
unfolding is_stale
is_stale-AllRunning now js [] f h = tt
is_stale-AllRunning now js (x ∷ rows) (e, f) (p, h) = (
  λ k g.
      let same_job : x ≡ k = cc (e, g) in
      subst (λ (j : Job). is_running j.status ≡ true) same_job (&&-true _ _ p).0,
  is_stale-AllRunning now js rows f h,
)

module _ {A : Write → Type 0}
    (may_cancel : (reason : String) (at : ℕ) (id : String)
      → A (row (cancel_dependent reason at) id))
    (may : (retry : Bool) (error : String) (hint : FailureHint) (at : ℕ) (id : String)
      → A (row (expire_lease retry error hint at) id)) where
  recover_each_stale-Moves :
      (now : ℕ) (rows : List Job)
      → UniqueIds rows
      → MovesFrom A (AllRunning rows) (recover_each_stale now rows)
  unfolding recover_each_stale
  recover_each_stale-Moves now [] u = search moves_rules
  recover_each_stale-Moves now (j ∷ rows) (f, u) =
      bind_post-Moves {Q = AllRunning rows} _ _
        (weaken-Moves _
          (recover_stale-Moves may_cancel now j
            (λ retry error hint at. may retry error hint at j.id))
          (λ js h. h.0))
        (λ s us h.
          spare_rest j.id rows
            ((recover_stale-Moves {A = Only j.id} (λ reason at id. tt) now j
                (λ retry error hint at. refl)).at
              s us h.0)
            f h.1)
        λ this. bind-Moves _ _ (recover_each_stale-Moves now rows u) λ rest. search moves_rules

  pub recover_stale_leases-Moves : (now : ℕ) → Moves A (recover_stale_leases now)
  unfolding recover_stale_leases
  recover_stale_leases-Moves now = gets_then-Moves _ _ λ s u p.
      weaken-Moves _
        (recover_each_stale-Moves now (where_rows (is_stale now) s.jobs)
          (where_rows-UniqueIds (is_stale now) s.jobs u))
        (λ js e. rw e (
          is_stale-AllRunning now s.jobs _ (where_rows-Found (is_stale now) s.jobs u)
            (where_rows-test (is_stale now) s.jobs)))
