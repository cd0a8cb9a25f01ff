-- ===== src/Outcomes/Update.antt =====
-- One UPDATE of a job by its id, in each of its cases.
use distributed_job_queue_sc.Prelude.{
  ℕ, String, true, false, ◌≡◌, refl, sym, ◌∙◌, List, Option, none, some, Bool-cases, inl, inr, ap,
  str_eq, eq_iff, ◌⊎◌,
}
use distributed_job_queue_sc.Prelude.Int.{ℤ}
use distributed_job_queue_sc.Model.{Job, Store}
use distributed_job_queue_sc.Exec.{or_raise, or_fail, or_type_error, pure}
use distributed_job_queue_sc.Exec.Outcome.{Gives, SameJobs, weaken-Gives, now_iso-Gives, bind-Gives}
use distributed_job_queue_sc.Workers.{update_worker, increment_worker}
use distributed_job_queue_sc.Jobs.{
  Change, where_row, set_row, get_job, replace_job, update_job, try_change,
}
use distributed_job_queue_sc.Steps.Unique.{set_row-id, get_job-id}
use distributed_job_queue_sc.Steps.Lookup.{get_job-replace_self, get_job-replace_ne}

pub data Updated (c : Change) (id : String) (s : Store) : Option Job → Store → Type 0 where
  missing : {t : Store} → get_job id s.jobs ≡ none → t.jobs ≡ s.jobs → Updated c id s none t
  refused :
      {t : Store} (j : Job)
      → get_job id s.jobs ≡ some j
      → where_row s c j ≡ false
      → t.jobs ≡ s.jobs
      → Updated c id s none t
  written :
      {t : Store} (j : Job)
      → get_job id s.jobs ≡ some j
      → where_row s c j ≡ true
      → t.jobs ≡ replace_job id (set_row c j) s.jobs
      → Updated c id s (some (set_row c j)) t

pub update_job-Gives :
    (c : Change) (id : String) (s : Store) → Gives (update_job c id) s (Updated c id s)
unfolding update_job try_change
update_job-Gives c id s =
    let g = go (get_job id s.jobs) refl in
    record { value = g.value; returns = g.returns; post = g.post }
  where
    go :
        (o : Option Job)
        → get_job id s.jobs ≡ o
        → Gives (λ s. try_change c id o s) s (Updated c id s)
    go none e = record { value = none; returns = refl; post = missing e refl }
    go (some j) e = elim (Bool-cases (where_row s c j)) [
      | inl w ↦ record {
        value = some (set_row c j);
        returns = rw w refl;
        post = rw w (written j e w refl);
      }
      | inr w ↦ record { value = none; returns = rw w refl; post = rw w (refused j e w refl) }
    ]

Updated-written :
    (c : Change) (id : String) (s : Store) (j : Job) (o : Option Job) (t : Store)
    → get_job id s.jobs ≡ some j
    → where_row s c j ≡ true
    → Updated c id s o t
    → (o ≡ some (set_row c j)) × (t.jobs ≡ replace_job id (set_row c j) s.jobs)
Updated-written c id s j none t e w (missing g d) = absurd (cc (e, g))
Updated-written c id s j none t e w (refused k g x d) =
    let same_job : k ≡ j = cc (e, g) in absurd (cc (w, x, ap (where_row s c) same_job))
Updated-written c id s j (some k) t e w (written m g x d) =
    let same_job : m ≡ j = cc (e, g) in
    (
      ap (λ x. some (set_row c x)) same_job,
      d ∙ ap (λ x. replace_job id (set_row c x) s.jobs) same_job,
    )

-- With the row there and the conditions met, the UPDATE returns the new row, which is then the row of
-- the id.
pub update_job-written :
    (c : Change) (id : String) (s : Store) (j : Job)
    → get_job id s.jobs ≡ some j
    → where_row s c j ≡ true
    → Gives (update_job c id) s (λ o t.
      (o ≡ some (set_row c j))
      × (t.jobs ≡ replace_job id (set_row c j) s.jobs)
      × (get_job id t.jobs ≡ some (set_row c j)))
update_job-written c id s j e w = weaken-Gives _ s (update_job-Gives c id s) λ o t u.
    let (p, q) = Updated-written c id s j o t e w u in
    (
      p,
      q,
      ap (get_job id) q
          ∙ get_job-replace_self id (set_row c j) s.jobs e
              (set_row-id c j ∙ get_job-id id s.jobs e),
    )

-- A lookup after the row of a key was replaced: the new row, or another row as it was.
pub get_job_after :
    (c : Change) (id : String) (js : List Job) (j : Job) (k : String) (b : Job)
    → get_job id js ≡ some j
    → get_job k (replace_job id (set_row c j) js) ≡ some b
    → ((k ≡ id) × (b ≡ set_row c j)) ⊎ (get_job k js ≡ some b)
get_job_after c id js j k b g f =
    let same_id = set_row-id c j ∙ get_job-id id js g in
    elim (Bool-cases (str_eq k id)) [
      | inl e ↦
          (let k_is_id : k ≡ id = (eq_iff k id).0 e in
            let b_is_new : b ≡ set_row c j =
              cc (get_job-replace_self id (set_row c j) js g same_id, f, k_is_id) in
            inl (k_is_id, b_is_new))
      | inr e ↦ inr (
          sym (get_job-replace_ne k id (set_row c j) js same_id (λ q. cc (e, (eq_iff k id).1 q)))
          ∙ f)
    ]

module _ {B : Type 0} where
  pub or_raise-Gives :
      (message : String) (o : Option B) (b : B) (s : Store)
      → o ≡ some b
      → Gives (or_raise message o) s (λ x t. (x ≡ b) × (t.jobs ≡ s.jobs))
  unfolding or_raise pure
  or_raise-Gives message o b s e = rw e record { value = b; returns = refl; post = (refl, refl) }

  pub or_fail-Gives :
      (message : String) (o : Option B) (b : B) (s : Store)
      → o ≡ some b
      → Gives (or_fail message o) s (λ x t. (x ≡ b) × (t.jobs ≡ s.jobs))
  unfolding or_fail pure
  or_fail-Gives message o b s e = rw e record { value = b; returns = refl; post = (refl, refl) }

  pub or_type_error-Gives :
      (o : Option B) (b : B) (s : Store)
      → o ≡ some b
      → Gives (or_type_error o) s (λ x t. (x ≡ b) × (t.jobs ≡ s.jobs))
  unfolding or_type_error pure
  or_type_error-Gives o b s e = rw e record { value = b; returns = refl; post = (refl, refl) }

pub increment_worker-Gives :
    (id : String) (processed failed : ℕ) (active : ℤ) (s : Store)
    → Gives (increment_worker id processed failed active) s (SameJobs s)
unfolding increment_worker update_worker
increment_worker-Gives id processed failed active s =
    bind-Gives _ _ s (now_iso-Gives s) λ at t e. record { value = tt; returns = refl; post = e }
