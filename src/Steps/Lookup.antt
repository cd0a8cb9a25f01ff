-- ===== src/Steps/Lookup.antt =====
-- What a lookup by id finds after a write, and the rows that a SELECT returns.
use distributed_job_queue_sc.Prelude.{
  String, Bool, true, ◌≡◌, refl, ◌≢◌, List, [], ◌∷◌, ◌++◌, none, some, arith, All, find, where_rows,
  update_rows, str_eq, eq_iff, eq_refl, if◌then◌else◌, Bool-cases, inl, inr, subst,
}
use distributed_job_queue_sc.Model.{Job}
use distributed_job_queue_sc.Jobs.{get_job, replace_job}
use distributed_job_queue_sc.Steps.Unique.{Fresh, UniqueIds}

pub get_job-replace_self :
    (id : String) (new : Job) (js : List Job) {j : Job}
    → get_job id js ≡ some j
    → new.id ≡ id
    → get_job id (replace_job id new js) ≡ some new
unfolding get_job find replace_job
get_job-replace_self id new [] e n = cc
get_job-replace_self id new (x ∷ js) e n = elim (Bool-cases (str_eq x.id id)) [
  | inl hit ↦ rw hit (rw (n, eq_refl id))
  | inr miss ↦ rw (miss, miss) (get_job-replace_self id new js (rw miss at e) n)
]

pub get_job-replace_ne :
    (k id : String) (new : Job) (js : List Job)
    → new.id ≡ id
    → k ≢ id
    → get_job k (replace_job id new js) ≡ get_job k js
unfolding get_job find replace_job
get_job-replace_ne k id new [] n d = refl
get_job-replace_ne k id new (x ∷ js) n d =
    ground
      (arith, eq_iff x.id id, eq_iff x.id k, eq_iff new.id k, get_job-replace_ne k id new js n d)

pub get_job-append :
    (k : String) (new : Job) (js : List Job) (j : Job)
    → get_job k js ≡ some j
    → get_job k (js ++ new ∷ []) ≡ some j
unfolding get_job find
get_job-append k new [] j e = cc
get_job-append k new (x ∷ js) j e = ground (arith, get_job-append k new js j)

-- An update of many rows that keeps ids, seen by a lookup.
module _ (test : Job → Bool) (f : Job → Job) (keeps : (j : Job) → (f j).id ≡ j.id) where
  pub get_job-update_rows :
      (k : String) (js : List Job) (j : Job)
      → get_job k js ≡ some j
      → get_job k (update_rows test f js) ≡ some (if test j then f j else j)
  unfolding get_job find update_rows
  get_job-update_rows k [] j e = cc
  get_job-update_rows k (x ∷ js) j e =
      ground (arith, keeps x, eq_iff x.id k, eq_iff (f x).id k, get_job-update_rows k js j)

-- A row of the table, as a lookup by its id finds it.
abbrev pub Found : List Job → Job → Type 0
Found js j = get_job j.id js ≡ some j

get_job-Fresh : (id : String) (js : List Job) → Fresh id js → get_job id js ≡ none
unfolding get_job find
get_job-Fresh id [] f = refl
get_job-Fresh id (x ∷ js) (n, f) = ground (arith, eq_iff x.id id, get_job-Fresh id js f)

Found-cons : (x : Job) (js : List Job) (j : Job) → Fresh x.id js → Found js j → Found (x ∷ js) j
unfolding get_job find
Found-cons x js j f e = elim (Bool-cases (str_eq x.id j.id)) [
  | inl hit ↦
      absurd (cc (get_job-Fresh j.id js (subst (λ k. Fresh k js) ((eq_iff x.id j.id).0 hit) f)))
  | inr miss ↦ rw miss e
]

All-Found-cons :
    (x : Job) (js rows : List Job) → Fresh x.id js → All (Found js) rows → All (Found (x ∷ js)) rows
All-Found-cons x js [] f h = tt
All-Found-cons x js (r ∷ rows) f (e, h) = (Found-cons x js r f e, All-Found-cons x js rows f h)

-- With unique ids, a SELECT returns rows that a lookup finds.
pub where_rows-Found :
    (test : Job → Bool) (js : List Job) → UniqueIds js → All (Found js) (where_rows test js)
unfolding where_rows get_job find
where_rows-Found test [] u = tt
where_rows-Found test (x ∷ js) (f, u) =
    let rest = All-Found-cons x js (where_rows test js) f (where_rows-Found test js u) in
    elim (Bool-cases (test x)) [ inl e ↦ rw e (rw (eq_refl x.id), rest) | inr e ↦ rw e rest ]

pub where_rows-test :
    (test : Job → Bool) (js : List Job) → All (λ j. test j ≡ true) (where_rows test js)
unfolding where_rows
where_rows-test test [] = tt
where_rows-test test (x ∷ js) = elim (Bool-cases (test x)) [
  | inl e ↦ rw e (e, where_rows-test test js)
  | inr e ↦ rw e (where_rows-test test js)
]

Fresh-where_rows :
    (test : Job → Bool) (k : String) (js : List Job) → Fresh k js → Fresh k (where_rows test js)
unfolding where_rows
Fresh-where_rows test k [] f = tt
Fresh-where_rows test k (x ∷ js) (n, f) = elim (Bool-cases (test x)) [
  | inl e ↦ rw e (n, Fresh-where_rows test k js f)
  | inr e ↦ rw e (Fresh-where_rows test k js f)
]

pub where_rows-UniqueIds :
    (test : Job → Bool) (js : List Job) → UniqueIds js → UniqueIds (where_rows test js)
unfolding where_rows
where_rows-UniqueIds test [] u = tt
where_rows-UniqueIds test (x ∷ js) (f, u) = elim (Bool-cases (test x)) [
  | inl e ↦ rw e (Fresh-where_rows test x.id js f, where_rows-UniqueIds test js u)
  | inr e ↦ rw e (where_rows-UniqueIds test js u)
]
