-- ===== src/Outcomes/Recover.antt =====
-- `recoverStaleLeases` and `recoverTimedOutJobs` (src/core/store.mjs).
use native.Mathlib.Omega.{arith}
use distributed_job_queue_sc.Prelude.{
  ℕ, String, Bool, true, false, ◌≡◌, refl, sym, ◌∙◌, List, [], ◌∷◌, Option, none, some, Bool-cases,
  inl, inr, ap, subst, is_some, All, where_rows, find, eq_refl,
}
use distributed_job_queue_sc.Model.{Job, Store}
use distributed_job_queue_sc.Guidance.{FailureHint}
use distributed_job_queue_sc.Input.{RetryPolicy}
use distributed_job_queue_sc.Exec.{Exec, unless, pure, random_below, ◌>>=◌}
use distributed_job_queue_sc.Exec.Outcome.{
  Gives, SameJobs, pure-Gives, gets-Gives, if-Gives, weaken-Gives, bind-Gives, then-Gives,
  add_event-Gives, now_iso-Gives,
}
use distributed_job_queue_sc.Jobs.{Change, expire_lease, time_out, where_row, get_job}
use distributed_job_queue_sc.Jobs.Cancel.{cancel_dependents}
use distributed_job_queue_sc.Jobs.Finish.{guidance, retry_delay}
use distributed_job_queue_sc.Jobs.Recover.{
  can_retry, is_stale, recover_stale, recover_each_stale, recover_stale_leases, timed_out_one,
  recover_timed_out, recover_each_timed_out, recover_timed_out_jobs,
}
use distributed_job_queue_sc.Cascade.Sweep.{Present, replace_job-Present}
use distributed_job_queue_sc.Cascade.Closure.{cancel_dependents-closes}
use distributed_job_queue_sc.Outcomes.Update.{
  Updated, missing, refused, written, update_job-Gives, or_type_error-Gives,
}

-- No job is gone.
abbrev pub Stays : {B : Type 0} → Store → B → Store → Type 0
Stays s b t = (k : String) → Present k s.jobs → Present k t.jobs

module _ {B : Type 0} where
  pub SameJobs-Stays : (m : Exec B) (s : Store) → Gives m s (SameJobs s) → Gives m s (Stays s)
  SameJobs-Stays m s g = weaken-Gives m s g λ b t e k p. ap (λ js. is_some (get_job k js)) e ∙ p

unless-Stays :
    (retry : Bool) (id reason : String) (s : Store)
    → Gives (unless retry (cancel_dependents id reason)) s (Stays s)
unfolding unless
unless-Stays true id reason s = pure-Gives [] s (λ k p. p)
unless-Stays false id reason s =
    weaken-Gives _ s (cancel_dependents-closes id reason s)
      λ rows t (closed, others, swept). swept.there

guidance-Stays : (error : String) (j : Job) (s : Store) → Gives (guidance error j) s (Stays s)
unfolding guidance
guidance-Stays error j s =
    SameJobs-Stays _ s (bind-Gives _ _ s (now_iso-Gives s) λ at t e. pure-Gives _ t e)

retry_delay-Stays :
    (p : RetryPolicy) (attempts : ℕ) (s : Store) → Gives (retry_delay p attempts) s (Stays s)
unfolding retry_delay random_below pure ◌>>=◌
retry_delay-Stays p attempts s = record { value = _; returns = refl; post = λ k p. p }

Updated-Stays :
    (c : Change) (id : String) (s : Store) (o : Option Job) (t : Store)
    → Updated c id s o t
    → Stays s o t
Updated-Stays c id s none t (missing g e) k p = ap (λ js. is_some (get_job k js)) e ∙ p
Updated-Stays c id s none t (refused j g w e) k p = ap (λ js. is_some (get_job k js)) e ∙ p
Updated-Stays c id s (some _) t (written j g w e) k p =
    ap (λ js. is_some (get_job k js)) e ∙ replace_job-Present c id s.jobs j k g p

expire-row :
    (s : Store) (retry : Bool) (error : String) (hint : FailureHint) (at : ℕ) (j : Job)
    → where_row s (expire_lease retry error hint at) j ≡ true
unfolding where_row
expire-row s retry error hint at j = refl

-- The UPDATE of a stale job finds the job.
expired-some :
    (retry : Bool) (error : String) (hint : FailureHint) (at : ℕ) (id : String) (s : Store)
    (o : Option Job) (t : Store)
    → Present id s.jobs
    → Updated (expire_lease retry error hint at) id s o t
    → (row : Job) × (o ≡ some row)
expired-some retry error hint at id s none t p (missing g e) = absurd (cc (p, ap is_some g))
expired-some retry error hint at id s none t p (refused j g w e) =
    absurd (cc (w, expire-row s retry error hint at j))
expired-some retry error hint at id s (some x) t p u = (x, refl)

recover_stale-Gives :
    (now : ℕ) (j : Job) (s : Store) → Present j.id s.jobs → Gives (recover_stale now j) s (Stays s)
unfolding recover_stale
recover_stale-Gives now j s p = bind-Gives _ _ s (guidance-Stays _ j s) λ hint t to_t.
    bind-Gives _ _ t (update_job-Gives (expire_lease (can_retry j) _ hint now) j.id t) λ o u h.
      let to_u = Updated-Stays (expire_lease (can_retry j) _ hint now) j.id t o u h in
      let (row, got) = expired-some (can_retry j) _ hint now j.id t o u (to_t j.id p) h in
      then-Gives _ _ u (SameJobs-Stays _ u (add_event-Gives _ _ _ _ _ u)) λ _ v to_v.
        then-Gives _ _ v (unless-Stays (can_retry j) j.id _ v) λ _ w to_w.
          weaken-Gives _ w (or_type_error-Gives o row w got) λ x y (is_row, same_y) k q.
            ap (λ js. is_some (get_job k js)) same_y ∙ to_w k (to_v k (to_u k (to_t k q)))

abbrev AllPresent : List Job → List Job → Type 0
AllPresent rows js = All (λ r. Present r.id js) rows

AllPresent-Stays :
    (rows : List Job) (js ks : List Job)
    → ((k : String) → Present k js → Present k ks)
    → AllPresent rows js
    → AllPresent rows ks
AllPresent-Stays [] js ks f h = tt
AllPresent-Stays (r ∷ rows) js ks f (p, h) = (f r.id p, AllPresent-Stays rows js ks f h)

recover_each_stale-Gives :
    (now : ℕ) (rows : List Job) (s : Store)
    → AllPresent rows s.jobs
    → Gives (recover_each_stale now rows) s (Stays s)
unfolding recover_each_stale
recover_each_stale-Gives now [] s h = pure-Gives [] s (λ k p. p)
recover_each_stale-Gives now (j ∷ rows) s (p, h) =
    bind-Gives _ _ s (recover_stale-Gives now j s p) λ this t to_t.
      bind-Gives _ _ t
        (recover_each_stale-Gives now rows t (AllPresent-Stays rows s.jobs t.jobs to_t h))
        λ others u to_u. pure-Gives _ u (λ k q. to_u k (to_t k q))

Present-cons : (x : Job) (js : List Job) (k : String) → Present k js → Present k (x ∷ js)
unfolding get_job find
Present-cons x js k p = ground arith

Present-head : (x : Job) (js : List Job) → Present x.id (x ∷ js)
unfolding get_job find
Present-head x js = rw (eq_refl x.id) refl

where_rows-Present : (test : Job → Bool) (js : List Job) → AllPresent (where_rows test js) js
unfolding where_rows
where_rows-Present test [] = tt
where_rows-Present test (x ∷ js) =
    let rest =
      AllPresent-Stays (where_rows test js) js (x ∷ js) (Present-cons x js)
        (where_rows-Present test js) in
    elim (Bool-cases (test x)) [ inl e ↦ rw e (Present-head x js, rest) | inr e ↦ rw e rest ]

-- `recoverStaleLeases` returns, and every job is still there.
pub recover_stale_leases-Stays :
    (now : ℕ) (s : Store) → Gives (recover_stale_leases now) s (Stays s)
unfolding recover_stale_leases
recover_stale_leases-Stays now s =
    bind-Gives _ _ s (gets-Gives (λ s. where_rows (is_stale now) s.jobs) s)
      λ rows t (picked, still).
        weaken-Gives _ t
          (recover_each_stale-Gives now rows t (
            subst (λ rows. AllPresent rows t.jobs) (sym picked)
              (subst (λ js. AllPresent (where_rows (is_stale now) s.jobs) js) (sym still)
                (where_rows-Present (is_stale now) s.jobs))))
          λ _ u to_u k p. to_u k (ap (λ js. is_some (get_job k js)) still ∙ p)

timed_out_one-Stays :
    (now delay : ℕ) (error : String) (j : Job) (o : Option Job) (s : Store)
    → Gives (timed_out_one now delay error j o) s (Stays s)
unfolding timed_out_one
timed_out_one-Stays now delay error j none s = pure-Gives [] s (λ k p. p)
timed_out_one-Stays now delay error j (some row) s =
    then-Gives _ _ s (SameJobs-Stays _ s (add_event-Gives _ _ _ _ _ s)) λ _ t to_t.
      then-Gives _ _ t (unless-Stays (can_retry j) j.id _ t)
        λ _ u to_u. pure-Gives _ u (λ k p. to_u k (to_t k p))

recover_timed_out-Stays :
    (now : ℕ) (j : Job) (s : Store) → Gives (recover_timed_out now j) s (Stays s)
unfolding recover_timed_out
recover_timed_out-Stays now j s =
    bind-Gives _ _ s (SameJobs-Stays _ s (weaken-Gives _ s (gets-Gives _ s) λ b t h. h.1))
      λ policy t to_t.
        bind-Gives _ _ t
          (if-Gives (can_retry j) _ _ t (λ _. retry_delay-Stays policy j.attempts t)
            (λ _. pure-Gives 0 t (λ k p. p)))
          λ delay u to_u. bind-Gives _ _ u (guidance-Stays _ j u) λ hint v to_v.
            bind-Gives _ _ v (update_job-Gives (time_out (can_retry j) _ _ hint now) j.id v)
              λ o w h. weaken-Gives _ w (timed_out_one-Stays now delay _ j o w) λ rows x to_x k p.
                to_x k (
                  Updated-Stays (time_out (can_retry j) _ _ hint now) j.id v o w h k
                    (to_v k (to_u k (to_t k p))))

recover_each_timed_out-Stays :
    (now : ℕ) (rows : List Job) (s : Store) → Gives (recover_each_timed_out now rows) s (Stays s)
unfolding recover_each_timed_out
recover_each_timed_out-Stays now [] s = pure-Gives [] s (λ k p. p)
recover_each_timed_out-Stays now (j ∷ rows) s =
    bind-Gives _ _ s (recover_timed_out-Stays now j s) λ this t to_t.
      bind-Gives _ _ t (recover_each_timed_out-Stays now rows t)
        λ others u to_u. pure-Gives _ u (λ k p. to_u k (to_t k p))

pub recover_timed_out_jobs-Stays :
    (now : ℕ) (s : Store) → Gives (recover_timed_out_jobs now) s (Stays s)
unfolding recover_timed_out_jobs
recover_timed_out_jobs-Stays now s =
    bind-Gives _ _ s (SameJobs-Stays _ s (weaken-Gives _ s (gets-Gives _ s) λ b t h. h.1))
      λ rows t to_t.
        weaken-Gives _ t (recover_each_timed_out-Stays now rows t) λ _ u to_u k p. to_u k (to_t k p)
