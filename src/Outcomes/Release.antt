-- ===== src/Outcomes/Release.antt =====
-- `releaseReadyDependencies` (src/core/store.mjs).
use distributed_job_queue_sc.Prelude.{
  All-sort_by, All-where_rows, eq_iff, eq_refl, arith, find, ℕ, String, true, false, ◌≡◌, refl, sym,
  ◌∙◌, List, [], ◌∷◌, Option, none, some, Bool-cases, inl, inr, ap, subst, all, All, where_rows,
  ltb,
}
use distributed_job_queue_sc.Model.{Job, Store, is_waiting}
use distributed_job_queue_sc.Exec.Outcome.{
  Gives, pure-Gives, gets-Gives, if-Gives, weaken-Gives, bind-Gives, then-Gives, add_event-Gives,
}
use distributed_job_queue_sc.Jobs.{
  replace_job, set_row, release, get_job, is_job_completed, by_created,
}
use distributed_job_queue_sc.Jobs.Finish.{
  released_one, release_one, release_each, release_ready_dependencies,
}
use distributed_job_queue_sc.Steps.Unique.{Fresh, UniqueIds, get_job-id}
use distributed_job_queue_sc.Cascade.Closure.{sort_by-All, where_rows-All_get}
use distributed_job_queue_sc.Outcomes.Update.{Updated, missing, refused, written, update_job-Gives}
use distributed_job_queue_sc.Outcomes.Freed.{
  NotWaiting, NoneReady, Freed, Freed-same, Freed-trans, all-ext, NotWaiting-Freed, released-row,
  Kept, Own, Kept-same, Kept-trans, Own-Freed, written-Kept, written-Freed,
}

-- The candidates whose dependencies are completed no longer wait.
abbrev Served : List Job → Store → Type 0
Served cs t = All (λ c. all (is_job_completed t) c.depends_on ≡ true → NotWaiting c.id t.jobs) cs

-- One round of the loop.
release_one-Gives :
    (now : ℕ) (finished : Option String) (c : Job) (s : Store)
    → Gives (release_one now finished c) s (λ rows t.
      Freed s t
      × (all (is_job_completed t) c.depends_on ≡ true → NotWaiting c.id t.jobs)
      × (Own c s → Kept s t))
unfolding release_one released_one
release_one-Gives now finished c s = bind-Gives _ _ s (gets-Gives _ s) λ ready t (is_ready, still).
    let to_t = Freed-same s t still in
    if-Gives ready _ _ t
      (λ yes_ready.
        bind-Gives _ _ t (update_job-Gives _ c.id t)
          (after t to_t still (sym is_ready ∙ yes_ready)))
      (λ not_ready. pure-Gives _ t (
        to_t,
        (λ p. absurd (
            cc (
              p,
              not_ready,
              is_ready,
              all-ext (is_job_completed t) (is_job_completed s) c.depends_on to_t.same_done,
            ))),
        λ own. Kept-same s t still,
      ))
  where
    after :
        (t : Store)
        → Freed s t
        → t.jobs ≡ s.jobs
        → all (is_job_completed s) c.depends_on ≡ true
        → (o : Option Job) (u : Store) → Updated (release (ltb now c.run_at) now) c.id t o u
        → Gives (released_one finished o) u (λ rows v.
          Freed s v
          × (all (is_job_completed v) c.depends_on ≡ true → NotWaiting c.id v.jobs)
          × (Own c s → Kept s v))
    after t f still done none u (missing g e) = pure-Gives [] u (
      Freed-trans s t u f (Freed-same t u e),
      (λ p b h. absurd (cc (g, ap (get_job c.id) (sym e) ∙ h))),
      λ own. Kept-same s u (e ∙ still),
    )
    after t f still done none u (refused j g w e) = pure-Gives [] u (
      Freed-trans s t u f (Freed-same t u e),
      (λ p b h.
          let same_job : j ≡ b = cc (g, ap (get_job c.id) (sym e) ∙ h) in
          subst (λ (x : Job). is_waiting x.status ≡ false) same_job
            (sym (released-row t (ltb now c.run_at) now j).0 ∙ w)),
      λ own. Kept-same s u (e ∙ still),
    )
    after t f still done (some x) u (written j g w e) =
        let waits = sym (released-row t (ltb now c.run_at) now j).0 ∙ w in
        let in_s = ap (get_job c.id) (sym still) ∙ g in
        let (freed, idle) = written-Freed t u (ltb now c.run_at) now c.id j g waits e in
        then-Gives _ _ u (add_event-Gives _ _ _ _ _ u) λ _ v d.
          let to_v = Freed-same u v d in
          pure-Gives _ v (
            Freed-trans s t v f (Freed-trans t u v freed to_v),
            (λ p. NotWaiting-Freed c.id u v to_v idle),
            λ own.
                written-Kept s v (ltb now c.run_at) now c j in_s (own j in_s waits) done (
                  d ∙ e ∙ ap (replace_job c.id (set_row (release (ltb now c.run_at) now) j)) still),
          )

All-Own :
    (s t : Store) → Freed s t → (cs : List Job) → All (λ c. Own c s) cs → All (λ c. Own c t) cs
All-Own s t f [] h = tt
All-Own s t f (c ∷ cs) (own, h) = (Own-Freed c s t f own, All-Own s t f cs h)

release_each-Gives :
    (now : ℕ) (finished : Option String) (cs : List Job) (s : Store)
    → Gives
        (release_each now finished cs)
        s
        (λ rows t. Freed s t × Served cs t × (All (λ c. Own c s) cs → Kept s t))
unfolding release_each
release_each-Gives now finished [] s =
    pure-Gives [] s (Freed-same s s refl, tt, λ h. Kept-same s s refl)
release_each-Gives now finished (c ∷ cs) s =
    bind-Gives _ _ s (release_one-Gives now finished c s) λ this t (f, settled, kept).
      bind-Gives _ _ t (release_each-Gives now finished cs t) λ others u (g, served, rest).
        pure-Gives _ u (
          Freed-trans s t u f g,
          (
            (λ p. NotWaiting-Freed c.id t u g (
                settled (
                  sym (all-ext (is_job_completed u) (is_job_completed t) c.depends_on g.same_done)
                  ∙ p))),
            served,
          ),
          λ (own, owns). Kept-trans s t u f (kept own) (rest (All-Own s t f cs owns)),
        )

Served-NoneReady :
    (s t : Store) → Freed s t → Served (by_created (λ j. is_waiting j.status) s) t → NoneReady t
unfolding by_created
Served-NoneReady s t f served k b g w = elim (Bool-cases (all (is_job_completed t) b.depends_on)) [
  | inr e ↦ e
  | inl e ↦
      (let in_s = f.back k b g w in
        let stopped =
          where_rows-All_get
            (λ c. all (is_job_completed t) c.depends_on ≡ true → NotWaiting c.id t.jobs)
            (λ j. is_waiting j.status) s.jobs k b
            (sort_by-All
              (λ c. all (is_job_completed t) c.depends_on ≡ true → NotWaiting c.id t.jobs)
              (λ a b. ltb a.created_at b.created_at) (where_rows (λ j. is_waiting j.status) s.jobs)
              served)
            in_s w e in
        absurd (cc (w, stopped b (ap (λ i. get_job i t.jobs) (get_job-id k s.jobs in_s) ∙ g))))
]

-- With distinct ids, a row is the one that is found by its id.
apart-own :
    (js : List Job) (x : Job)
    → Fresh x.id js
    → All (λ (c : Job). get_job c.id js ≡ some c) js
    → (cs : List Job) → Fresh x.id cs
    → All (λ (c : Job). get_job c.id js ≡ some c) cs
    → All (λ (c : Job). get_job c.id (x ∷ js) ≡ some c) cs
unfolding get_job find
apart-own js x f h [] g own = tt
apart-own js x f h (c ∷ cs) (n, g) (e, own) =
    (ground (arith, eq_iff x.id c.id), apart-own js x f h cs g own)

found_by_id : (js : List Job) → UniqueIds js → All (λ (c : Job). get_job c.id js ≡ some c) js
found_by_id [] u = tt
found_by_id (x ∷ js) (f, u) =
    (self x js, apart-own js x f (found_by_id js u) js f (found_by_id js u))
  where
    self : (x : Job) (js : List Job) → get_job x.id (x ∷ js) ≡ some x
    self x js = unfold get_job find in rw (eq_refl x.id) refl

to-Own :
    (s : Store) (cs : List Job)
    → All (λ c. (get_job c.id s.jobs ≡ some c) × (is_waiting c.status ≡ true)) cs
    → All (λ c. Own c s) cs
to-Own s [] h = tt
to-Own s (c ∷ cs) ((e, w), h) = ((λ j f v. cc (e, f)), to-Own s cs h)

release_ready_dependencies-Gives :
    (now : ℕ) (finished : Option String) (s : Store)
    → Gives
        (release_ready_dependencies now finished)
        s
        (λ rows t. NoneReady t × Freed s t × (UniqueIds s.jobs → Kept s t))
unfolding release_ready_dependencies by_created
release_ready_dependencies-Gives now finished s =
    bind-Gives _ _ s (gets-Gives (by_created (λ j. is_waiting j.status)) s) λ cs t (picked, still).
      weaken-Gives _ t (release_each-Gives now finished cs t) λ rows u (f, served, kept).
        let whole = Freed-trans s t u (Freed-same s t still) f in
        (
          Served-NoneReady s u whole (subst (λ cs. Served cs u) picked served),
          whole,
          λ unique. Kept-trans s t u (Freed-same s t still) (Kept-same s t still) (
              kept (
                All-Own s t (Freed-same s t still) cs (
                  to-Own s cs (
                    subst (All (λ c. (get_job c.id s.jobs ≡ some c) × (is_waiting c.status ≡ true)))
                      (sym picked)
                      (All-sort_by _ (λ a b. ltb a.created_at b.created_at) _
                        (All-where_rows _ (λ j. is_waiting j.status) s.jobs
                          (found_by_id s.jobs unique))))))),
        )

pub release_ready_dependencies-Freed :
    (now : ℕ) (finished : Option String) (s : Store)
    → Gives (release_ready_dependencies now finished) s (λ rows t. NoneReady t × Freed s t)
release_ready_dependencies-Freed now finished s =
    weaken-Gives _ s (release_ready_dependencies-Gives now finished s) λ rows t (n, f, k). (n, f)

-- `releaseReadyDependencies` returns, in a store with distinct ids. Afterwards every job that still waits for
-- dependencies has one that is not completed; a job that waited for one that is not completed is as it was,
-- and still waits; a job that waits then is as it was, a job that did not wait before is as it was, and the
-- same jobs are completed.
pub release_ready_dependencies-NoneReady :
    (now : ℕ) (finished : Option String) (s : Store)
    → UniqueIds s.jobs
    → Gives
        (release_ready_dependencies now finished)
        s
        (λ rows t. NoneReady t × Kept s t × Freed s t)
release_ready_dependencies-NoneReady now finished s u =
    weaken-Gives _ s (release_ready_dependencies-Gives now finished s)
      λ rows t (n, f, k). (n, k u, f)
