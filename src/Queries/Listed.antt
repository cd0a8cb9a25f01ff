-- ===== src/Queries/Listed.antt =====
-- Pages of jobs, and what `listJobs` returns (src/core/store.mjs).
use distributed_job_queue_sc.Prelude.{
  none, some, Option, ◌++◌, ◌⊎◌, subst, ℕ, zero, suc, ◌≤◌, String, Bool, true, false, ◌≡◌, refl,
  sym, ap, ◌∙◌, List, [], ◌∷◌, All, All-where_rows, All-sort_by, All-take, length, length-take-le,
  take, sort_by, where_rows, count_rows, inl, inr, arith,
}
use distributed_job_queue_sc.Model.{Job}
use distributed_job_queue_sc.Queries.{mentions, normalize_name, status_text, Json, JobFilter}
use distributed_job_queue_sc.Queries.Sorting.{Sorted, sort_by-Sorted, count_rows-sort_by}

-- Each row may follow the one in front of it.
abbrev pub InOrder : (Job → Job → Type 0) → List Job → Type 0
InOrder Follows [] = Unit
InOrder Follows (a ∷ []) = Unit
InOrder Follows (a ∷ (b ∷ js)) = Follows a b × InOrder Follows (b ∷ js)

Sorted-InOrder :
    (before : Job → Job → Bool) (Follows : Job → Job → Type 0) (js : List Job)
    → ((a b : Job) → before b a ≡ false → Follows a b)
    → Sorted before js
    → InOrder Follows js
Sorted-InOrder before Follows [] f h = tt
Sorted-InOrder before Follows (a ∷ []) f h = tt
Sorted-InOrder before Follows (a ∷ (b ∷ js)) f (e, h) =
    (f a b e, Sorted-InOrder before Follows (b ∷ js) f h)

-- A page of the rows that pass a test: what holds of each is spelled out, they come in an order, and a rest is left out where the page is full.
pub record IsPage (test : Job → Bool) (Holds : Job → Type 0) (Follows : Job → Job → Type 0)
    (most : ℕ) (rows page : List Job) : Type 0 where
  pub rest : List Job
  pub all_pass : All Holds page
  pub sorted : InOrder Follows (page ++ rest)
  pub same :
      (other : Job → Bool)
      → count_rows other (page ++ rest) ≡ count_rows other (where_rows test rows)
  pub few : length page ≤ most
  pub full : (rest ≡ []) ⊎ (length page ≡ most)

drop : {A : Type 0} → ℕ → List A → List A
drop zero xs = xs
drop (suc n) [] = []
drop (suc n) (x ∷ xs) = drop n xs

take-drop : {A : Type 0} (n : ℕ) (xs : List A) → take n xs ++ drop n xs ≡ xs
unfolding drop
take-drop zero xs = refl
take-drop (suc n) [] = refl
take-drop (suc n) (x ∷ xs) = ap (λ ys. x ∷ ys) (take-drop n xs)

-- Nothing is left out of a page that is not full.
drop-take : {A : Type 0} (n : ℕ) (xs : List A) → (drop n xs ≡ []) ⊎ (length (take n xs) ≡ n)
unfolding drop
drop-take zero xs = inr refl
drop-take (suc n) [] = inl refl
drop-take (suc n) (x ∷ xs) = elim (drop-take n xs) [
  | inl none_left ↦ inl none_left
  | inr most ↦ inr (omega arith)
]

All-true : (rows : List Job) → All (λ _. Unit {0}) rows
All-true [] = tt
All-true (j ∷ js) = (tt, All-true js)

All-second :
    (test : Job → Bool) (Holds : Job → Type 0) (rows : List Job)
    → ((j : Job) → test j ≡ true → Holds j)
    → All (λ j. Unit {0} × (test j ≡ true)) rows
    → All Holds rows
All-second test Holds [] f h = tt
All-second test Holds (j ∷ js) f ((u, e), h) = (f j e, All-second test Holds js f h)

pub take-IsPage :
    (test : Job → Bool) (Holds : Job → Type 0) (before : Job → Job → Bool)
    (Follows : Job → Job → Type 0) (most : ℕ) (rows : List Job)
    → ((a b : Job) → before a b ≡ true → before b a ≡ false)
    → ((j : Job) → test j ≡ true → Holds j)
    → ((a b : Job) → before b a ≡ false → Follows a b)
    → IsPage test Holds Follows most rows (take most (sort_by before (where_rows test rows)))
take-IsPage test Holds before Follows most rows asymmetric holds follows =
    let found = where_rows test rows in
    let ordered = sort_by before found in
    let whole = take-drop most ordered in
    record {
      rest = drop most ordered;
      all_pass = All-take _ most _ (
          All-sort_by _ before _
            (All-second test Holds _ holds (All-where_rows _ test rows (All-true rows))));
      sorted =
          subst (InOrder Follows) (sym whole) (
            Sorted-InOrder before Follows ordered follows (sort_by-Sorted before asymmetric found));
      same = λ other. ap (count_rows other) whole ∙ count_rows-sort_by before other found;
      few = length-take-le most ordered;
      full = drop-take most ordered;
    }

-- A filter that is given and not empty holds of a value.
abbrev pub Filtered : Option String → (String → Type 0) → Type 0
Filtered none Q = Unit
Filtered (some v) Q = (v ≡ "") ⊎ Q v

-- What the filters of a list say of a job.
pub record Passes (f : JobFilter) (stringify : Json → String) (j : Job) : Type 0 where
  pub status : Filtered f.status (λ v. status_text j.status ≡ v)
  pub queue : Filtered f.queue (λ v. j.queue ≡ normalize_name v)
  pub type : Filtered f.type (λ v. j.type ≡ v)
  pub worker : Filtered f.worker_id (λ v. j.lease_owner ≡ some v)
  pub workflow : Filtered f.workflow_id (λ v. j.workflow_id ≡ some v)
  pub text : Filtered f.q (λ v. mentions stringify j v ≡ true)
