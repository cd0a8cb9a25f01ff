-- ===== src/Prelude/Table.antt =====
-- A table of the database as the list of its rows, and the statements that the store runs on it.
use Prim.Native.Nat.{ℕ, zero, suc, ◌+◌}
use mathlib.Core.Path.{◌≡◌, refl}
use mathlib.Core.Bool.{Bool, true, false}
use mathlib.Core.List.{List, [], ◌∷◌}
use mathlib.Core.Option.{Option, none, some}
use distributed_job_queue_sc.Prelude.Tests.{if◌then◌else◌, Bool-cases}
use mathlib.Core.Logic.{inl, inr}
use distributed_job_queue_sc.Prelude.Lists.{All, take}

module _ {ℓ} {A : Type ℓ} where
  -- SELECT … WHERE test, first row.
  unfoldable pub find : (A → Bool) → List A → Option A
  find test [] = none
  find test (x ∷ xs) = if test x then some x else find test xs

  -- SELECT … WHERE test.
  unfoldable pub where_rows : (A → Bool) → List A → List A
  where_rows test [] = []
  where_rows test (x ∷ xs) = let rest = where_rows test xs in if test x then x ∷ rest else rest

  -- SELECT COUNT(*) … WHERE test.
  unfoldable pub count_rows : (A → Bool) → List A → ℕ
  count_rows test [] = 0
  count_rows test (x ∷ xs) = (if test x then 1 else 0) + count_rows test xs

  -- UPDATE … SET f WHERE test.
  unfoldable pub update_rows : (A → Bool) → (A → A) → List A → List A
  update_rows test f [] = []
  update_rows test f (x ∷ xs) = (if test x then f x else x) ∷ update_rows test f xs

  -- ORDER BY, stable: `before a b` says that `a` comes strictly before `b`.
  unfoldable pub insert_by : (A → A → Bool) → A → List A → List A
  insert_by before x [] = x ∷ []
  insert_by before x (y ∷ ys) = if before y x then y ∷ insert_by before x ys else x ∷ y ∷ ys

  unfoldable pub sort_by : (A → A → Bool) → List A → List A
  unfolding insert_by
  sort_by before [] = []
  sort_by before (x ∷ xs) = insert_by before x (sort_by before xs)

  pub All-update_rows {κ} :
      (P : A → Type κ) (test : A → Bool) (f : A → A) (xs : List A)
      → ((x : A) → test x ≡ true → P x → P (f x))
      → All P xs
      → All P (update_rows test f xs)
  unfolding update_rows
  All-update_rows P test f [] step h = tt
  All-update_rows P test f (x ∷ xs) step (p, h) =
      (one (test x) refl, All-update_rows P test f xs step h)
    where
      one : (b : Bool) → test x ≡ b → P (if b then f x else x)
      one true e = step x e p
      one false e = p

-- What holds of every row holds of the rows that a query returns.
module _ {ℓ} {A : Type ℓ} (P : A → Type 0) where
  pub All-where_rows :
      (test : A → Bool) (xs : List A)
      → All P xs
      → All (λ x. P x × (test x ≡ true)) (where_rows test xs)
  unfolding where_rows
  All-where_rows test [] h = tt
  All-where_rows test (x ∷ xs) (p, ps) = elim (Bool-cases (test x)) [
    | inl e ↦ rw e ((p, e), All-where_rows test xs ps)
    | inr e ↦ rw e (All-where_rows test xs ps)
  ]

  pub All-insert_by :
      (before : A → A → Bool) (x : A) (xs : List A) → P x → All P xs → All P (insert_by before x xs)
  unfolding insert_by
  All-insert_by before x [] p ps = (p, tt)
  All-insert_by before x (y ∷ ys) p (q, qs) = elim (Bool-cases (before y x)) [
    | inl e ↦ rw e (q, All-insert_by before x ys p qs)
    | inr e ↦ rw e (p, (q, qs))
  ]

  pub All-sort_by : (before : A → A → Bool) (xs : List A) → All P xs → All P (sort_by before xs)
  unfolding sort_by
  All-sort_by before [] h = tt
  All-sort_by before (x ∷ xs) (p, ps) =
      All-insert_by before x (sort_by before xs) p (All-sort_by before xs ps)

  pub All-take : (n : ℕ) (xs : List A) → All P xs → All P (take n xs)
  All-take zero xs h = tt
  All-take (suc n) [] h = tt
  All-take (suc n) (x ∷ xs) (p, ps) = (p, All-take n xs ps)
