-- ===== src/Cascade/Sweep.antt =====
-- What a run of cancellations does to the jobs, and what one UPDATE of them does.
use native.Mathlib.Omega.{arith}
use distributed_job_queue_sc.Prelude.{
  ℕ, ◌≤◌, ◌<◌, String, true, false, ◌≡◌, refl, sym, ◌∙◌, List, Option, none, some, ap, subst,
  includes, is_some, count_rows, str_eq, eq_iff, Bool-cases, inl, inr,
}
use distributed_job_queue_sc.Model.{Job, Store, is_pending}
use distributed_job_queue_sc.Exec.Outcome.{Gives}
use distributed_job_queue_sc.Jobs.{
  Change, cancel_dependent, where_row, set_row, get_job, replace_job, update_job, try_change,
}
use distributed_job_queue_sc.Steps.Unique.{set_row-id, get_job-id}
use distributed_job_queue_sc.Steps.Lookup.{get_job-replace_self, get_job-replace_ne}
use distributed_job_queue_sc.Steps.Count.{count_rows-replace_job}

-- How many jobs have not started.
unfoldable pub pending : List Job → ℕ
pending = count_rows (λ j. is_pending j.status)

-- No job that has not started waits for this id.
abbrev pub Closed : String → List Job → Type 0
Closed id js =
    (k : String) (j : Job)
    → get_job k js ≡ some j
    → is_pending j.status ≡ true
    → includes id j.depends_on ≡ false

-- The job of this id, if it is there, is not one that has yet to start.
abbrev pub Idle : String → List Job → Type 0
Idle id js = (j : Job) → get_job id js ≡ some j → is_pending j.status ≡ false

-- A row, and the row it was.
abbrev pub From : Job → Job → Type 0
From a b = (b.depends_on ≡ a.depends_on) × (is_pending b.status ≡ true → is_pending a.status ≡ true)

-- There is a job of this id.
abbrev pub Present : String → List Job → Type 0
Present k js = is_some (get_job k js) ≡ true

-- Every row was there before, with the same dependencies, no job has become one that has yet to
-- start, no job is gone, and the rows of the other jobs are as they were.
pub record Swept (js ks : List Job) : Type 0 where
  pub back :
      (k : String) (b : Job)
      → get_job k ks ≡ some b
      → (a : Job) × (get_job k js ≡ some a) × (From a b)
  pub kept :
      (k : String) (a : Job)
      → get_job k js ≡ some a
      → is_pending a.status ≡ false
      → get_job k ks ≡ some a
  pub there : (k : String) → Present k js → Present k ks
  pub fewer : pending ks ≤ pending js

pub Swept-same : (js ks : List Job) → ks ≡ js → Swept js ks
Swept-same js ks e = record {
  back = λ k b f. (b, ap (get_job k) (sym e) ∙ f, (refl, (λ p. p)));
  kept = λ k a f w. ap (get_job k) e ∙ f;
  there = λ k p. ap (λ js. is_some (get_job k js)) e ∙ p;
  fewer = rw e (omega arith);
}

pub Swept-trans : (js ks ls : List Job) → Swept js ks → Swept ks ls → Swept js ls
Swept-trans js ks ls p q = record {
  back = λ k c f.
      let (b, g, (d, h)) = q.back k c f in
      let (a, g', (d', h')) = p.back k b g in (a, g', (d ∙ d', (λ e. h' (h e))));
  kept = λ k a f w. q.kept k a (p.kept k a f w) w;
  there = λ k h. q.there k (p.there k h);
  fewer = omega (arith, p.fewer, q.fewer);
}

pub Closed-Swept : (id : String) (js ks : List Job) → Swept js ks → Closed id js → Closed id ks
Closed-Swept id js ks w c k b f p =
    let (a, g, (d, h)) = w.back k b f in ap (includes id) d ∙ c k a g (h p)

pub Idle-Swept : (id : String) (js ks : List Job) → Swept js ks → Idle id js → Idle id ks
Idle-Swept id js ks w c b f = elim (Bool-cases (is_pending b.status)) [
  | inl p ↦ (let (a, g, (d, h)) = w.back id b f in absurd (cc (h p, c a g)))
  | inr p ↦ p
]

-- The UPDATE of one candidate, in each of its cases.
pub data Cancelled (id : String) (s : Store) : Option Job → Store → Type 0 where
  idle : {t : Store} → Idle id s.jobs → t.jobs ≡ s.jobs → Cancelled id s none t
  hit :
      {t : Store} (j : Job)
      → j.id ≡ id
      → Swept s.jobs t.jobs
      → pending t.jobs < pending s.jobs
      → Idle id t.jobs
      → Cancelled id s (some j) t

pub replace_job-Present :
    (c : Change) (id : String) (js : List Job) (j : Job) (k : String)
    → get_job id js ≡ some j
    → Present k js
    → Present k (replace_job id (set_row c j) js)
replace_job-Present c id js j k g h =
    let same_id = set_row-id c j ∙ get_job-id id js g in
    elim (Bool-cases (str_eq k id)) [
      | inl e ↦
          (let k_is_id : k ≡ id = (eq_iff k id).0 e in
            ap (λ k. is_some (get_job k (replace_job id (set_row c j) js))) k_is_id
            ∙ ap is_some (get_job-replace_self id (set_row c j) js g same_id))
      | inr e ↦
          ap is_some
            (get_job-replace_ne k id (set_row c j) js same_id (λ q. cc (e, (eq_iff k id).1 q)))
          ∙ h
    ]

module _ (reason : String) (at : ℕ) where
  cancelled-row :
      (s : Store) (j : Job) → where_row s (cancel_dependent reason at) j ≡ is_pending j.status
  unfolding where_row
  cancelled-row s j = refl

  cancelled-status :
      (j : Job)
      → (is_pending (set_row (cancel_dependent reason at) j).status ≡ false)
        × ((set_row (cancel_dependent reason at) j).depends_on ≡ j.depends_on)
  unfolding set_row
  cancelled-status j = (refl, refl)

  replace-Swept :
      (id : String) (js : List Job) (j : Job)
      → get_job id js ≡ some j
      → is_pending j.status ≡ true
      → Swept js (replace_job id (set_row (cancel_dependent reason at) j) js)
        × (pending (replace_job id (set_row (cancel_dependent reason at) j) js) < pending js)
        × Idle id (replace_job id (set_row (cancel_dependent reason at) j) js)
  unfolding pending
  replace-Swept id js j g p =
      let new = set_row (cancel_dependent reason at) j in
      let same_id = set_row-id (cancel_dependent reason at) j ∙ get_job-id id js g in
      let self = get_job-replace_self id new js g same_id in
      let (ended, deps) = cancelled-status j in
      let count = count_rows-replace_job (λ j. is_pending j.status) id new js j g in
      (
        record {
          back = λ k b f. elim (Bool-cases (str_eq k id)) [
            | inl e ↦
                (let k_is_id : k ≡ id = (eq_iff k id).0 e in
                  let b_is_new : b ≡ new = cc (self, f, k_is_id) in
                  (
                    j,
                    ap (λ k. get_job k js) k_is_id ∙ g,
                    (ap (λ (x : Job). x.depends_on) b_is_new ∙ deps, (λ q. p)),
                  ))
            | inr e ↦ (
              b,
              sym (get_job-replace_ne k id new js same_id (λ q. cc (e, (eq_iff k id).1 q))) ∙ f,
              (refl, (λ q. q)),
            )
          ];
          kept = λ k a f w. elim (Bool-cases (str_eq k id)) [
            | inl e ↦
                (let k_is_id : k ≡ id = (eq_iff k id).0 e in
                  let a_is_j : a ≡ j = cc (f, g, k_is_id) in
                  absurd (cc (w, p, ap (λ (x : Job). is_pending x.status) a_is_j)))
            | inr e ↦ get_job-replace_ne k id new js same_id (λ q. cc (e, (eq_iff k id).1 q)) ∙ f
          ];
          there = λ k h. replace_job-Present (cancel_dependent reason at) id js j k g h;
          fewer = omega (arith, rw (p, ended) at count);
        },
        omega (arith, rw (p, ended) at count),
        (λ b f.
            let b_is_new : new ≡ b = cc (self, f) in
            subst (λ (x : Job). is_pending x.status ≡ false) b_is_new ended),
      )

  pub cancel_one-Gives :
      (id : String) (s : Store)
      → Gives (update_job (cancel_dependent reason at) id) s (Cancelled id s)
  unfolding update_job try_change
  cancel_one-Gives id s =
      let g = go (get_job id s.jobs) refl in
      record { value = g.value; returns = g.returns; post = g.post }
    where
      go :
          (o : Option Job)
          → get_job id s.jobs ≡ o
          → Gives (λ s. try_change (cancel_dependent reason at) id o s) s (Cancelled id s)
      go none e = record {
        value = none;
        returns = refl;
        post = idle (λ j f. absurd (cc (e, f))) refl;
      }
      go (some j) e = elim (Bool-cases (is_pending j.status)) [
        | inl p ↦
            (let (swept, less, done) = replace-Swept id s.jobs j e p in
              record {
                value = some (set_row (cancel_dependent reason at) j);
                returns = rw (cancelled-row s j, p) refl;
                post =
                    rw (cancelled-row s j, p)
                      (hit (set_row (cancel_dependent reason at) j)
                        (set_row-id (cancel_dependent reason at) j ∙ get_job-id id s.jobs e) swept
                        less done);
              })
        | inr p ↦ record {
          value = none;
          returns = rw (cancelled-row s j, p) refl;
          post =
              rw (cancelled-row s j, p)
                (idle
                  (λ k f.
                    let same : j ≡ k = cc (e, f) in
                    subst (λ (x : Job). is_pending x.status ≡ false) same p)
                  refl);
        }
      ]
