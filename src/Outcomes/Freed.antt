-- ===== src/Outcomes/Freed.antt =====
-- What a release of one waiting job does to the jobs (src/core/store.mjs).
use native.Mathlib.Omega.{arith}
use distributed_job_queue_sc.Prelude.{
  ℕ, String, Bool, true, false, ◌≡◌, refl, sym, ◌∙◌, List, [], ◌∷◌, Option, none, some, Bool-cases,
  inl, inr, ap, subst, str_eq, eq_iff, all,
}
use distributed_job_queue_sc.Model.{Job, Store, is_waiting, is_completed}
use distributed_job_queue_sc.Jobs.{
  release, where_row, set_row, get_job, replace_job, is_job_completed,
}
use distributed_job_queue_sc.Steps.Unique.{set_row-id, get_job-id}
use distributed_job_queue_sc.Steps.Lookup.{get_job-replace_self, get_job-replace_ne}
use distributed_job_queue_sc.Outcomes.Update.{get_job_after}

abbrev pub NotWaiting : String → List Job → Type 0
NotWaiting id js = (j : Job) → get_job id js ≡ some j → is_waiting j.status ≡ false

-- Every waiting job has a dependency that is not completed.
abbrev pub NoneReady : Store → Type 0
NoneReady t =
    (k : String) (j : Job)
    → get_job k t.jobs ≡ some j
    → is_waiting j.status ≡ true
    → all (is_job_completed t) j.depends_on ≡ false

-- Only waiting jobs have changed, none has begun to wait, and the same jobs are completed.
pub record Freed (s t : Store) : Type 0 where
  pub back :
      (k : String) (b : Job)
      → get_job k t.jobs ≡ some b
      → is_waiting b.status ≡ true
      → get_job k s.jobs ≡ some b
  pub rest :
      (k : String) (a : Job)
      → get_job k s.jobs ≡ some a
      → is_waiting a.status ≡ false
      → get_job k t.jobs ≡ some a
  pub same_done : (id : String) → is_job_completed t id ≡ is_job_completed s id

pub Freed-same : (s t : Store) → t.jobs ≡ s.jobs → Freed s t
unfolding is_job_completed
Freed-same s t e = record {
  back = λ k b f w. ap (get_job k) (sym e) ∙ f;
  rest = λ k a f w. ap (get_job k) e ∙ f;
  same_done = λ id. rw e refl;
}

pub Freed-trans : (s t u : Store) → Freed s t → Freed t u → Freed s u
Freed-trans s t u p q = record {
  back = λ k b f w. p.back k b (q.back k b f w) w;
  rest = λ k a f w. q.rest k a (p.rest k a f w) w;
  same_done = λ id. q.same_done id ∙ p.same_done id;
}

pub all-ext :
    (f g : String → Bool) (ids : List String)
    → ((id : String) → f id ≡ g id)
    → all f ids ≡ all g ids
unfolding all
all-ext f g [] e = refl
all-ext f g (x ∷ ids) e = rw (e x, all-ext f g ids e) refl

pub NotWaiting-Freed :
    (id : String) (s t : Store) → Freed s t → NotWaiting id s.jobs → NotWaiting id t.jobs
NotWaiting-Freed id s t w n b f = elim (Bool-cases (is_waiting b.status)) [
  | inl p ↦ absurd (cc (p, n b (w.back id b f p)))
  | inr p ↦ p
]

pub released-row :
    (s : Store) (later : Bool) (at : ℕ) (j : Job)
    → (where_row s (release later at) j ≡ is_waiting j.status)
      × (is_waiting (set_row (release later at) j).status ≡ false)
      × (is_completed (set_row (release later at) j).status ≡ false)
unfolding where_row set_row
released-row s true at j = (refl, refl, refl)
released-row s false at j = (refl, refl, refl)

pub waiting-not_completed : (j : Job) → is_waiting j.status ≡ true → is_completed j.status ≡ false
waiting-not_completed j w = ground arith

abbrev pub done_row : Option Job → Bool
done_row none = false
done_row (some j) = is_completed j.status

pub is_job_completed-row :
    (s : Store) (id : String) → is_job_completed s id ≡ done_row (get_job id s.jobs)
unfolding is_job_completed
is_job_completed-row s id = same_test (get_job id s.jobs)
  where
    same_test :
        (o : Option Job) → (elim o [ none ↦ false | some j ↦ is_completed j.status ]) ≡ done_row o
    same_test none = refl
    same_test (some j) = refl

pub done-of_rows :
    (s t : Store) (id : String)
    → done_row (get_job id t.jobs) ≡ done_row (get_job id s.jobs)
    → is_job_completed t id ≡ is_job_completed s id
done-of_rows s t id e = is_job_completed-row t id ∙ e ∙ sym (is_job_completed-row s id)

-- A waiting job with a dependency that is not completed is as it was.
abbrev pub Kept : (s t : Store) → Type 0
Kept s t =
    (k : String) (a : Job)
    → get_job k s.jobs ≡ some a
    → is_waiting a.status ≡ true
    → all (is_job_completed s) a.depends_on ≡ false
    → get_job k t.jobs ≡ some a

-- The row with the id of `c`, if it waits, is `c`.
abbrev pub Own : Job → Store → Type 0
Own c s = (j : Job) → get_job c.id s.jobs ≡ some j → is_waiting j.status ≡ true → j ≡ c

pub Kept-same : (s t : Store) → t.jobs ≡ s.jobs → Kept s t
Kept-same s t e k a f w n = ap (get_job k) e ∙ f

pub Kept-trans : (s t u : Store) → Freed s t → Kept s t → Kept t u → Kept s u
Kept-trans s t u freed p q k a f w n =
    q k a (p k a f w n) w
      (all-ext (is_job_completed t) (is_job_completed s) a.depends_on freed.same_done ∙ n)

pub Own-Freed : (c : Job) (s t : Store) → Freed s t → Own c s → Own c t
Own-Freed c s t freed own j f w = own j (freed.back c.id j f w) w

pub written-Kept :
    (s t : Store) (later : Bool) (at : ℕ) (c j : Job)
    → get_job c.id s.jobs ≡ some j
    → j ≡ c
    → all (is_job_completed s) c.depends_on ≡ true
    → t.jobs ≡ replace_job c.id (set_row (release later at) j) s.jobs
    → Kept s t
written-Kept s t later at c j g own ready e k a f w n = elim (Bool-cases (str_eq k c.id)) [
  | inl hit ↦
      (let k_is : k ≡ c.id = (eq_iff k c.id).0 hit in
        let a_is : a ≡ c = cc (f, g, k_is, own) in
        absurd (cc (ready, n, ap (λ (x : Job). all (is_job_completed s) x.depends_on) a_is)))
  | inr miss ↦
      ap (get_job k) e
      ∙ get_job-replace_ne k c.id (set_row (release later at) j) s.jobs
          (set_row-id (release later at) j ∙ get_job-id c.id s.jobs g)
          (λ q. cc (miss, (eq_iff k c.id).1 q))
      ∙ f
]

pub written-Freed :
    (s t : Store) (later : Bool) (at : ℕ) (id : String) (j : Job)
    → get_job id s.jobs ≡ some j
    → is_waiting j.status ≡ true
    → t.jobs ≡ replace_job id (set_row (release later at) j) s.jobs
    → Freed s t × NotWaiting id t.jobs
unfolding is_job_completed
written-Freed s t later at id j g w e =
    let new = set_row (release later at) j in
    let same_id = set_row-id (release later at) j ∙ get_job-id id s.jobs g in
    let self = ap (get_job id) e ∙ get_job-replace_self id new s.jobs g same_id in
    let (row, idle, open_) = released-row s later at j in
    (
      record {
        back = λ k b f p.
            elim (get_job_after (release later at) id s.jobs j k b g (ap (get_job k) (sym e) ∙ f)) [
              | inl (k_is, b_is) ↦ absurd (cc (p, idle, ap (λ (x : Job). is_waiting x.status) b_is))
              | inr h ↦ h
            ];
        rest = λ k a f p. elim (Bool-cases (str_eq k id)) [
          | inl hit ↦
              (let k_is : k ≡ id = (eq_iff k id).0 hit in
                let a_is : a ≡ j = cc (f, g, k_is) in
                absurd (cc (p, w, ap (λ (x : Job). is_waiting x.status) a_is)))
          | inr miss ↦
              ap (get_job k) e
              ∙ get_job-replace_ne k id new s.jobs same_id (λ q. cc (miss, (eq_iff k id).1 q))
              ∙ f
        ];
        same_done = λ k. done-of_rows s t k (elim (Bool-cases (str_eq k id)) [
          | inl hit ↦
              (let k_is : k ≡ id = (eq_iff k id).0 hit in
                ap (λ k. done_row (get_job k t.jobs)) k_is
                ∙ ap done_row self
                ∙ open_
                ∙ sym (
                    ap (λ k. done_row (get_job k s.jobs)) k_is
                    ∙ ap done_row g
                    ∙ waiting-not_completed j w))
          | inr miss ↦ ap done_row (
              ap (get_job k) e
              ∙ get_job-replace_ne k id new s.jobs same_id (λ q. cc (miss, (eq_iff k id).1 q)))
        ]);
      },
      λ b f.
          (let b_is : new ≡ b = cc (self, f) in
            subst (λ (x : Job). is_waiting x.status ≡ false) b_is idle),
    )
