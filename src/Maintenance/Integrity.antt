-- ===== src/Maintenance/Integrity.antt =====
-- The jobs table under `archiveTerminalJobs` (src/core/store.mjs).
use distributed_job_queue_sc.Prelude.{
  ℕ, String, Bool, not, sym, subst, List, [], ◌∷◌, All, where_rows, str_eq, Bool-cases, inl, inr,
}
use distributed_job_queue_sc.Input.{Parsed}
use distributed_job_queue_sc.Model.{Job, Store}
use distributed_job_queue_sc.Exec.{Exec, Result, ok, err, continue, ◌>>=◌, ◌>>◌}
use distributed_job_queue_sc.Steps.Unique.{Fresh, UniqueIds, Reach-UniqueIds}
use distributed_job_queue_sc.Steps.Moves.{Moves, IsQuiet, quiet_methods}
use distributed_job_queue_sc.Invariant.{WellFormed, Sound, Reach-WellFormed}
use distributed_job_queue_sc.Maintenance.{archive_one, archive_each, archive_terminal_jobs}

-- The ids are distinct, and the jobs well-formed.
abbrev pub Healthy : List Job → Type 0
Healthy js = UniqueIds js × All WellFormed js

-- A method keeps the table so.
pub record Holds {B : Type 0} (m : Exec B) : Type 0 where
  pub at : (s : Store) → Healthy s.jobs → Healthy (m s).1.jobs

module _ {B : Type 0} where
  pub quiet-Holds : (m : Exec B) → IsQuiet m → Holds m
  quiet-Holds m q = record { at = λ s h. subst Healthy (sym (q.jobs s)) h }

  pub Moves-Holds : (m : Exec B) → Moves Sound m → Holds m
  Moves-Holds m k = record {
    at = λ s (u, v). let path = k.at s u tt in (Reach-UniqueIds path u, Reach-WellFormed path v);
  }

module _ {B C : Type 0} where
  continue-Holds : (f : B → Exec C) (r : Result B) → ((b : B) → Holds (f b)) → Holds (continue f r)
  continue-Holds f (ok b) q = q b
  continue-Holds f (err e) q = record { at = λ s h. h }

  pub bind-Holds :
      (m : Exec B) (f : B → Exec C) → Holds m → ((b : B) → Holds (f b)) → Holds (m >>= f)
  unfolding ◌>>=◌
  bind-Holds m f p q = record { at = λ s h. (continue-Holds f (m s).0 q).at (m s).1 (p.at s h) }

  pub then-Holds : (m : Exec B) (n : Exec C) → Holds m → Holds n → Holds (m >> n)
  unfolding ◌>>◌
  then-Holds m n p q = record {
    at = λ s h. (continue-Holds (λ _. n) (m s).0 (λ _. q)).at (m s).1 (p.at s h);
  }

ruleset holds_rules = (quiet-Holds, bind-Holds, then-Holds, quiet_methods)

Fresh-where_rows :
    (id : String) (test : Job → Bool) (js : List Job) → Fresh id js → Fresh id (where_rows test js)
unfolding where_rows
Fresh-where_rows id test [] h = tt
Fresh-where_rows id test (j ∷ js) (n, h) = elim (Bool-cases (test j)) [
  | inl e ↦ rw e (n, Fresh-where_rows id test js h)
  | inr e ↦ rw e (Fresh-where_rows id test js h)
]

where_rows-UniqueIds :
    (test : Job → Bool) (js : List Job) → UniqueIds js → UniqueIds (where_rows test js)
unfolding where_rows
where_rows-UniqueIds test [] h = tt
where_rows-UniqueIds test (j ∷ js) (f, u) = elim (Bool-cases (test j)) [
  | inl e ↦ rw e (Fresh-where_rows j.id test js f, where_rows-UniqueIds test js u)
  | inr e ↦ rw e (where_rows-UniqueIds test js u)
]

where_rows-WellFormed :
    (test : Job → Bool) (js : List Job) → All WellFormed js → All WellFormed (where_rows test js)
unfolding where_rows
where_rows-WellFormed test [] h = tt
where_rows-WellFormed test (j ∷ js) (w, h) = elim (Bool-cases (test j)) [
  | inl e ↦ rw e (w, where_rows-WellFormed test js h)
  | inr e ↦ rw e (where_rows-WellFormed test js h)
]

archive_one-Holds : (at : ℕ) (j : Job) → Holds (archive_one at j)
unfolding archive_one
archive_one-Holds at j = record {
  at = λ s (u, v). (
    where_rows-UniqueIds (λ x. not (str_eq x.id j.id)) s.jobs u,
    where_rows-WellFormed (λ x. not (str_eq x.id j.id)) s.jobs v,
  );
}

archive_each-Holds : (at : ℕ) (js : List Job) → Holds (archive_each at js)
unfolding archive_each
archive_each-Holds at [] = search holds_rules
archive_each-Holds at (j ∷ js) = then-Holds _ _ (archive_one-Holds at j) (archive_each-Holds at js)

pub archive_terminal_jobs-Holds :
    (older_than_days limit : Parsed) → Holds (archive_terminal_jobs older_than_days limit)
unfolding archive_terminal_jobs
archive_terminal_jobs-Holds older_than_days limit =
    search (holds_rules, archive_each-Holds) depth 30
