-- ===== src/Steps/Unique.antt =====
-- Ids stay unique, and what a lookup by id finds after each kind of write.
use distributed_job_queue_sc.Prelude.{
  ℕ, String, Bool, false, ◌≡◌, refl, sym, ◌≢◌, List, [], ◌∷◌, ◌++◌, some, arith, any, find,
  update_rows, str_eq, eq_iff, if◌then◌else◌, subst, Bool-cases, inl, inr, ◌∙◌,
}
use distributed_job_queue_sc.Model.{Job, Store}
use distributed_job_queue_sc.Jobs.{Change, claim, set_row, get_job, replace_job, holds_lease}
use distributed_job_queue_sc.Jobs.Enqueue.{conflicts}
use distributed_job_queue_sc.Jobs.Finish.{give_up_lease}
use distributed_job_queue_sc.Steps.{
  Write, Step, same, update, insert, drop_leases, set_queues, Reach, Reach_ind,
}

-- No row of the list has the id.
abbrev pub Fresh : String → List Job → Type 0
Fresh id [] = Unit
Fresh id (j ∷ js) = (j.id ≢ id) × Fresh id js

-- `id TEXT PRIMARY KEY`.
abbrev pub UniqueIds : List Job → Type 0
UniqueIds [] = Unit
UniqueIds (j ∷ js) = Fresh j.id js × UniqueIds js

pub set_row-id : (c : Change) (j : Job) → (set_row c j).id ≡ j.id
unfolding set_row
set_row-id (claim worker lease_until at) j = refl
set_row-id _ j = refl

pub get_job-id : (id : String) (js : List Job) {j : Job} → get_job id js ≡ some j → j.id ≡ id
unfolding get_job find
get_job-id id [] e = cc
get_job-id id (x ∷ js) e = elim (Bool-cases (str_eq x.id id)) [
  | inl hit ↦ ground (arith, eq_iff x.id id)
  | inr miss ↦ get_job-id id js (rw miss at e)
]

Fresh-replace_job :
    (k id : String) (new : Job) (js : List Job)
    → Fresh k js
    → new.id ≢ k
    → Fresh k (replace_job id new js)
unfolding replace_job
Fresh-replace_job k id new [] h n = tt
Fresh-replace_job k id new (j ∷ js) h n = ground (arith, Fresh-replace_job k id new js h.1 n)

replace_job-UniqueIds :
    (id : String) (new : Job) (js : List Job)
    → new.id ≡ id
    → UniqueIds js
    → UniqueIds (replace_job id new js)
unfolding replace_job
replace_job-UniqueIds id new [] e h = tt
replace_job-UniqueIds id new (j ∷ js) e (f, u) = elim (Bool-cases (str_eq j.id id)) [
  | inl hit ↦ rw hit (subst (λ k. Fresh k js) ((eq_iff j.id id).0 hit ∙ sym e) f, u)
  | inr miss ↦ rw miss (
    Fresh-replace_job j.id id new js f (λ p. cc ((eq_iff j.id id).1 (sym p ∙ e))),
    replace_job-UniqueIds id new js e u,
  )
]

module _ (test : Job → Bool) (f : Job → Job) (keeps : (j : Job) → (f j).id ≡ j.id) where
  Fresh-update_rows : (k : String) (js : List Job) → Fresh k js → Fresh k (update_rows test f js)
  unfolding update_rows
  Fresh-update_rows k [] h = tt
  Fresh-update_rows k (j ∷ js) (n, h) = (ground (arith, keeps j), Fresh-update_rows k js h)

  kept_id : (j : Job) → (if test j then f j else j).id ≡ j.id
  kept_id j = ground (arith, keeps j)

  update_rows-UniqueIds : (js : List Job) → UniqueIds js → UniqueIds (update_rows test f js)
  unfolding update_rows
  update_rows-UniqueIds [] h = tt
  update_rows-UniqueIds (j ∷ js) (n, h) = (
    subst (λ k. Fresh k (update_rows test f js)) (sym (kept_id j)) (Fresh-update_rows j.id js n),
    update_rows-UniqueIds js h,
  )

Fresh-append :
    (k : String) (new : Job) (js : List Job) → Fresh k js → new.id ≢ k → Fresh k (js ++ new ∷ [])
Fresh-append k new [] h n = (n, tt)
Fresh-append k new (j ∷ js) (m, h) n = (m, Fresh-append k new js h n)

pub append-UniqueIds :
    (new : Job) (js : List Job)
    → any (conflicts new) js ≡ false
    → UniqueIds js
    → UniqueIds (js ++ new ∷ [])
unfolding any conflicts
append-UniqueIds new [] e h = (tt, tt)
append-UniqueIds new (j ∷ js) e (n, h) = (
  Fresh-append j.id new js n (λ p. ground (arith, eq_iff j.id new.id)),
  append-UniqueIds new js (ground arith) h,
)

give_up_lease-id : (reason : String) (at : ℕ) (j : Job) → (give_up_lease reason at j).id ≡ j.id
unfolding give_up_lease
give_up_lease-id reason at j = refl

module _ {A : Write → Type 0} where
  Step-UniqueIds : {s t : Store} → Step A s t → UniqueIds s.jobs → UniqueIds t.jobs
  Step-UniqueIds (same e q) u = rw e u
  Step-UniqueIds {s} (update c id j a g w r e q) u =
      rw e
        (replace_job-UniqueIds id (set_row c j) s.jobs (set_row-id c j ∙ get_job-id id s.jobs g) u)
  Step-UniqueIds {s} (insert j a f e q) u = rw e (append-UniqueIds j s.jobs f u)
  Step-UniqueIds {s} (drop_leases worker reason at a e q) u = rw e (
      update_rows-UniqueIds (λ j. holds_lease j worker) (give_up_lease reason at)
        (give_up_lease-id reason at) s.jobs u)
  Step-UniqueIds (set_queues a e) u = rw e u

  pub Reach-UniqueIds : {s t : Store} → Reach A s t → UniqueIds s.jobs → UniqueIds t.jobs
  Reach-UniqueIds =
      Reach_ind (λ s t. UniqueIds s.jobs → UniqueIds t.jobs) (λ s u. u)
        (λ s t u r st h. Step-UniqueIds st (r h))
