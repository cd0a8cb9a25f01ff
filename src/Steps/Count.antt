-- ===== src/Steps/Count.antt =====
-- How a write of one row changes a count of rows.
use native.Mathlib.Omega.{arith}
use distributed_job_queue_sc.Prelude.{
  ℕ, ◌+◌, ◌≤◌, String, Bool, true, false, ◌≡◌, List, [], ◌∷◌, ◌++◌, some, find, count_rows,
  update_rows, str_eq, if◌then◌else◌, Bool-cases, inl, inr,
}
use distributed_job_queue_sc.Model.{Job}
use distributed_job_queue_sc.Jobs.{get_job, replace_job}

abbrev pub one_if : Bool → ℕ
one_if b = if b then 1 else 0

pub one_if-le : (b : Bool) → one_if b ≤ 1
one_if-le true = omega arith
one_if-le false = omega arith

module _ (test : Job → Bool) where
  pub count_rows-replace_job :
      (id : String) (new : Job) (js : List Job) (j : Job)
      → get_job id js ≡ some j
      → count_rows test (replace_job id new js) + one_if (test j)
        ≡ count_rows test js + one_if (test new)
  unfolding get_job find replace_job count_rows
  count_rows-replace_job id new [] j e = cc
  count_rows-replace_job id new (x ∷ js) j e = elim (Bool-cases (str_eq x.id id)) [
    | inl hit ↦ let same : x ≡ j = ground arith in rw (hit, same) (omega arith)
    | inr miss ↦ rw miss (omega (arith, count_rows-replace_job id new js j (rw miss at e)))
  ]

  pub count_rows-append :
      (js : List Job) (new : Job)
      → count_rows test (js ++ new ∷ []) ≡ count_rows test js + one_if (test new)
  unfolding count_rows
  count_rows-append [] new = omega arith
  count_rows-append (x ∷ js) new = omega (arith, count_rows-append js new)

  -- An update that turns no other row into a counted one.
  pub count_rows-update_rows :
      (hit : Job → Bool) (f : Job → Job) (js : List Job)
      → ((j : Job) → hit j ≡ true → test (f j) ≡ false)
      → count_rows test (update_rows hit f js) ≤ count_rows test js
  unfolding count_rows update_rows
  count_rows-update_rows hit f [] h = omega arith
  count_rows-update_rows hit f (x ∷ js) h = elim (Bool-cases (hit x)) [
    | inl e ↦ rw (e, h x e) (omega (arith, count_rows-update_rows hit f js h))
    | inr e ↦ rw e (omega (arith, count_rows-update_rows hit f js h))
  ]
