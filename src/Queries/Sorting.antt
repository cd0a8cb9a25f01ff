-- ===== src/Queries/Sorting.antt =====
-- The order of the rows after ORDER BY.
use distributed_job_queue_sc.Prelude.{
  ◌+◌, Bool, true, false, ◌≡◌, refl, List, [], ◌∷◌, insert_by, sort_by, count_rows, Bool-cases, inl,
  inr, if◌then◌else◌, arith,
}

module _ {A : Type 0} (before : A → A → Bool) where
  -- No row comes strictly before the row in front of it.
  abbrev pub Sorted : List A → Type 0
  Sorted [] = Unit
  Sorted (x ∷ []) = Unit
  Sorted (x ∷ (y ∷ ys)) = (before y x ≡ false) × Sorted (y ∷ ys)

  Sorted-tail : (x : A) (xs : List A) → Sorted (x ∷ xs) → Sorted xs
  Sorted-tail x [] h = tt
  Sorted-tail x (y ∷ ys) h = h.1

  module _ (asymmetric : (a b : A) → before a b ≡ true → before b a ≡ false) where
    insert_by-Sorted : (x : A) (xs : List A) → Sorted xs → Sorted (insert_by before x xs)
    unfolding insert_by
    insert_by-Sorted x [] h = tt
    insert_by-Sorted x (y ∷ ys) h = elim (Bool-cases (before y x)) [
      | inl e ↦ rw e (front y ys (asymmetric y x e) h (insert_by-Sorted x ys (Sorted-tail y ys h)))
      | inr e ↦ rw e (e, h)
    ]
      where
        front :
            (y : A) (ys : List A)
            → before x y ≡ false
            → Sorted (y ∷ ys)
            → Sorted (insert_by before x ys)
            → Sorted (y ∷ insert_by before x ys)
        front y [] a h k = (a, tt)
        front y (z ∷ zs) a h k = elim (Bool-cases (before z x)) [
          | inl e ↦ rw e (h.0, rw e at k)
          | inr e ↦ rw e (a, rw e at k)
        ]

    pub sort_by-Sorted : (xs : List A) → Sorted (sort_by before xs)
    unfolding sort_by
    sort_by-Sorted [] = tt
    sort_by-Sorted (x ∷ xs) = insert_by-Sorted x (sort_by before xs) (sort_by-Sorted xs)

  -- Sorting keeps how many rows pass a test.
  count_rows-insert_by :
      (test : A → Bool) (x : A) (xs : List A)
      → count_rows test (insert_by before x xs) ≡ (if test x then 1 else 0) + count_rows test xs
  unfolding insert_by count_rows
  count_rows-insert_by test x [] = refl
  count_rows-insert_by test x (y ∷ ys) = elim (Bool-cases (before y x)) [
    | inl e ↦ rw e (omega (arith, count_rows-insert_by test x ys))
    | inr e ↦ rw e refl
  ]

  pub count_rows-sort_by :
      (test : A → Bool) (xs : List A) → count_rows test (sort_by before xs) ≡ count_rows test xs
  unfolding sort_by count_rows
  count_rows-sort_by test [] = refl
  count_rows-sort_by test (x ∷ xs) =
      omega (arith, count_rows-insert_by test x (sort_by before xs), count_rows-sort_by test xs)
