-- ===== src/Cascade/Closure.antt =====
-- The recursion of `cancelDependentJobs` (src/core/store.mjs), with its fuel.
use native.Mathlib.Omega.{arith}
use distributed_job_queue_sc.Prelude.{
  ℕ, zero, suc, ◌≤◌, ◌<◌, String, Bool, true, ◌≡◌, refl, sym, ◌∙◌, List, [], ◌∷◌, Option, none,
  some, ap, subst, includes, count_rows, length, str_eq, Bool-cases, inl, inr, All, All-append,
  sort_by, insert_by, where_rows, find, ltb,
}
use distributed_job_queue_sc.Model.{Job, Store, is_pending}
use distributed_job_queue_sc.Exec.{Exec}
use distributed_job_queue_sc.Exec.Outcome.{
  Gives, pure-Gives, gets-Gives, weaken-Gives, if-Gives, bind-Gives, then-Gives, now_iso-Gives,
  add_event-Gives,
}
use distributed_job_queue_sc.Jobs.{get_job, by_created}
use distributed_job_queue_sc.Jobs.Cancel.{
  cancel_each, cancelled_one, cancel_dependent_jobs, cancel_dependents,
}
use distributed_job_queue_sc.Steps.Unique.{get_job-id}
use distributed_job_queue_sc.Cascade.Sweep.{
  pending, Closed, Idle, Swept, Swept-same, Swept-trans, Closed-Swept, Idle-Swept, Cancelled, idle,
  hit, cancel_one-Gives,
}

-- The run has swept, and nothing waits for a job that it returned.
abbrev pub Cleared : Store → List Job → Store → Type 0
Cleared s rows t = Swept s.jobs t.jobs × All (λ r. Closed r.id t.jobs) rows

All-Closed-Swept :
    (rows js ks : List Job)
    → Swept js ks
    → All (λ r. Closed r.id js) rows
    → All (λ r. Closed r.id ks) rows
All-Closed-Swept [] js ks w h = tt
All-Closed-Swept (r ∷ rows) js ks w (c, h) =
    (Closed-Swept r.id js ks w c, All-Closed-Swept rows js ks w h)

-- What a call for the dependents of one job promises, with this much fuel.
abbrev Clears : ℕ → (String → String → Exec (List Job)) → Type 0
Clears fuel m =
    (parent reason : String) (s : Store)
    → pending s.jobs < fuel
    → Gives (m parent reason) s (λ rows t. Cleared s rows t × Closed parent t.jobs)

-- The candidates that name the parent no longer wait.
abbrev Served : String → List Job → List Job → Type 0
Served parent cs ks = All (λ c. includes parent c.depends_on ≡ true → Idle c.id ks) cs

module _ (fuel : ℕ) (descend : String → String → Exec (List Job)) (clears : Clears fuel descend)
    (parent reason : String) (at : ℕ) where
  -- After the UPDATE of a candidate that was hit, its dependents and the rest.
  hit-Gives :
      (rest : Exec (List Job)) (j : Job) (s t : Store) {P : Store → Type 0}
      → Swept s.jobs t.jobs
      → pending t.jobs < pending s.jobs
      → pending s.jobs ≤ fuel
      → ((u : Store) → pending u.jobs ≤ fuel → Gives rest u (λ rows v. Cleared u rows v × P v))
      → Gives
          (cancelled_one descend parent reason rest (some j))
          t
          (λ rows v. Cleared s rows v × P v × Swept t.jobs v.jobs)
  unfolding cancelled_one
  hit-Gives rest j s t sw less bound k = then-Gives _ _ t (add_event-Gives _ _ _ _ _ t) λ _ u same.
      let to_u : Swept t.jobs u.jobs = Swept-same t.jobs u.jobs same in
      bind-Gives _ _ u (clears j.id _ u (omega (arith, to_u.fewer)))
        λ below v ((sw_v, closed), closed_j).
          bind-Gives _ _ v (k v (omega (arith, to_u.fewer, sw_v.fewer)))
            λ others w ((sw_w, closed_w), p).
              let from_t =
                Swept-trans t.jobs v.jobs w.jobs (Swept-trans t.jobs u.jobs v.jobs to_u sw_v)
                  sw_w in
              pure-Gives _ w (
                (
                  Swept-trans s.jobs t.jobs w.jobs sw from_t,
                  (
                    Closed-Swept j.id v.jobs w.jobs sw_w closed_j,
                    All-append (λ r. Closed r.id w.jobs) below others
                        (All-Closed-Swept below v.jobs w.jobs sw_w closed) closed_w,
                  ),
                ),
                p,
                from_t,
              )

  -- After the UPDATE of a candidate that names the parent.
  after_one-Gives :
      (rest : Exec (List Job)) (c : Job) (cs : List Job) (s : Store) (o : Option Job) (t : Store)
      → pending s.jobs ≤ fuel
      → ((u : Store)
          → pending u.jobs ≤ fuel
          → Gives rest u (λ rows v. Cleared u rows v × Served parent cs v.jobs))
      → Cancelled c.id s o t
      → Gives
          (cancelled_one descend parent reason rest o)
          t
          (λ rows v. Cleared s rows v × Served parent (c ∷ cs) v.jobs)
  unfolding cancelled_one
  after_one-Gives rest c cs s none t bound k (idle done same) =
      let sw = Swept-same s.jobs t.jobs same in
      weaken-Gives _ t (k t (omega (arith, sw.fewer))) λ rows v ((sw_v, closed), served).
        let whole = Swept-trans s.jobs t.jobs v.jobs sw sw_v in
        ((whole, closed), ((λ p. Idle-Swept c.id s.jobs v.jobs whole done), served))
  after_one-Gives rest c cs s (some j) t bound k (hit _ e sw less done) =
      weaken-Gives _ t (hit-Gives rest j s t {P = λ v. Served parent cs v.jobs} sw less bound k)
        λ rows v (cleared, served, from_t).
          (cleared, ((λ p. Idle-Swept c.id t.jobs v.jobs from_t done), served))

  cancel_each-Gives :
      (cs : List Job) (s : Store)
      → pending s.jobs ≤ fuel
      → Gives
          (cancel_each descend parent reason at cs)
          s
          (λ rows t. Cleared s rows t × Served parent cs t.jobs)
  unfolding cancel_each
  cancel_each-Gives [] s bound = pure-Gives [] s ((Swept-same s.jobs s.jobs refl, tt), tt)
  cancel_each-Gives (c ∷ cs) s bound =
      if-Gives (includes parent c.depends_on) _ _ s
        (λ e.
          bind-Gives _ _ s (cancel_one-Gives reason at c.id s)
            λ o t q. after_one-Gives _ c cs s o t bound (cancel_each-Gives cs) q)
        (λ e.
          weaken-Gives _ s (cancel_each-Gives cs s bound)
            λ rows t (cleared, served). (cleared, ((λ p. absurd (cc (e, p))), served)))

-- The candidates are all the jobs that have yet to start.
module _ (P : Job → Type 0) where
  insert_by-All :
      (before : Job → Job → Bool) (x : Job) (js : List Job)
      → All P (insert_by before x js)
      → P x × All P js
  unfolding insert_by
  insert_by-All before x [] h = h
  insert_by-All before x (y ∷ js) h = elim (Bool-cases (before y x)) [
    | inl e ↦
        (let (p, rest) = rw e at h in
          let (q, others) = insert_by-All before x js rest in (q, (p, others)))
    | inr e ↦ rw e at h
  ]

  pub sort_by-All :
      (before : Job → Job → Bool) (js : List Job) → All P (sort_by before js) → All P js
  unfolding sort_by
  sort_by-All before [] h = tt
  sort_by-All before (x ∷ js) h =
      let (p, rest) = insert_by-All before x (sort_by before js) h in
      (p, sort_by-All before js rest)

  pub where_rows-All_get :
      (test : Job → Bool) (js : List Job) (k : String) (j : Job)
      → All P (where_rows test js)
      → get_job k js ≡ some j
      → test j ≡ true
      → P j
  unfolding where_rows get_job find
  where_rows-All_get test [] k j h f t = absurd (cc (f))
  where_rows-All_get test (x ∷ js) k j h f t = elim (Bool-cases (str_eq x.id k)) [
    | inl e ↦ (let same : x ≡ j = ground arith in subst P same (rw (ap test same ∙ t) at h).0)
    | inr e ↦ elim (Bool-cases (test x)) [
      | inl p ↦ where_rows-All_get test js k j (rw p at h).1 (rw e at f) t
      | inr p ↦ where_rows-All_get test js k j (rw p at h) (rw e at f) t
    ]
  ]

Served-Closed :
    (parent : String) (s t : Store)
    → Swept s.jobs t.jobs
    → Served parent (by_created (λ j. is_pending j.status) s) t.jobs
    → Closed parent t.jobs
unfolding by_created
Served-Closed parent s t sw served k b f p =
    let (a, g, (d, h)) = sw.back k b f in
    elim (Bool-cases (includes parent b.depends_on)) [
      | inr e ↦ e
      | inl e ↦
          (let stopped =
              where_rows-All_get (λ c. includes parent c.depends_on ≡ true → Idle c.id t.jobs)
                (λ j. is_pending j.status) s.jobs k a
                (sort_by-All (λ c. includes parent c.depends_on ≡ true → Idle c.id t.jobs)
                  (λ a b. ltb a.created_at b.created_at)
                  (where_rows (λ j. is_pending j.status) s.jobs) served)
                g (h p) (sym (ap (includes parent) d) ∙ e) in
            let same_id : a.id ≡ k = get_job-id k s.jobs g in
            absurd (cc (p, stopped b (ap (λ i. get_job i t.jobs) same_id ∙ f))))
    ]

cancel_dependent_jobs-Clears : (fuel : ℕ) → Clears fuel (cancel_dependent_jobs fuel)
unfolding cancel_dependent_jobs
cancel_dependent_jobs-Clears zero parent reason s bound = absurd (omega arith)
cancel_dependent_jobs-Clears (suc fuel) parent reason s bound =
    bind-Gives _ _ s (now_iso-Gives s) λ at t same.
      bind-Gives _ _ t (gets-Gives (by_created (λ j. is_pending j.status)) t)
        λ cs u (picked, still).
          let to_u = Swept-same s.jobs u.jobs (still ∙ same) in
          weaken-Gives _ u
            (cancel_each-Gives fuel (cancel_dependent_jobs fuel) (cancel_dependent_jobs-Clears fuel)
              parent reason at cs u (omega (arith, to_u.fewer)))
            λ rows v ((sw, closed), served).
              let to_v = Swept-trans t.jobs u.jobs v.jobs (Swept-same t.jobs u.jobs still) sw in
              (
                (Swept-trans s.jobs u.jobs v.jobs to_u sw, closed),
                Served-Closed parent t v to_v (subst (λ cs. Served parent cs v.jobs) picked served),
              )

pending-le-length : (js : List Job) → pending js ≤ length js
unfolding pending count_rows
pending-le-length [] = omega arith
pending-le-length (j ∷ js) = elim (Bool-cases (is_pending j.status)) [
  | inl e ↦ rw e (omega (arith, pending-le-length js))
  | inr e ↦ rw e (omega (arith, pending-le-length js))
]

-- `cancelDependentJobs` returns, whatever the store holds, cycles of dependencies included. Afterwards no
-- job that is queued, scheduled or waiting names the parent in its dependencies, nor any job that the call
-- cancelled; every row of the table was there before with the same dependencies, and none has become
-- queued, scheduled or waiting.
pub cancel_dependents-closes :
    (parent reason : String) (s : Store)
    → Gives
        (cancel_dependents parent reason)
        s
        (λ rows t. Closed parent t.jobs × All (λ r. Closed r.id t.jobs) rows × Swept s.jobs t.jobs)
unfolding cancel_dependents
cancel_dependents-closes parent reason s =
    let g =
      cancel_dependent_jobs-Clears (suc (length s.jobs)) parent reason s
        (omega (arith, pending-le-length s.jobs)) in
    record { value = g.value; returns = g.returns; post = (g.post.1, g.post.0.1, g.post.0.0) }
