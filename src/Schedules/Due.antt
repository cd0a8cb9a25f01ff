-- ===== src/Schedules/Due.antt =====
-- The rows that a dispatch selects.
use distributed_job_queue_sc.Prelude.{
  ℕ, zero, suc, All-where_rows, All-insert_by, All-sort_by, All-take, Bool, true, false, ◌≡◌, inl,
  inr, refl, List, [], ◌∷◌, All, ◌&&◌, &&-true, leb, ltb, leb→le, str_eq, where_rows, sort_by,
  insert_by, take, Bool-cases, arith, eq_iff,
}
use distributed_job_queue_sc.Model.{Schedule}
use distributed_job_queue_sc.Schedules.Dispatch.{due_schedules}
use distributed_job_queue_sc.Schedules.Runs.{DistinctIds, Picks, IsDue}

abbrev Apart : Schedule → Schedule → Type 0
Apart c d = str_eq d.id c.id ≡ false

Apart-sym : (c d : Schedule) → Apart c d → Apart d c
Apart-sym c d h = ground (arith, eq_iff c.id d.id, eq_iff d.id c.id)

All-Apart-where :
    (c : Schedule) (test : Schedule → Bool) (xs : List Schedule)
    → All (Apart c) xs
    → All (Apart c) (where_rows test xs)
unfolding where_rows
All-Apart-where c test [] h = tt
All-Apart-where c test (x ∷ xs) (p, ps) = elim (Bool-cases (test x)) [
  | inl e ↦ rw e (p, All-Apart-where c test xs ps)
  | inr e ↦ rw e (All-Apart-where c test xs ps)
]

where_rows-DistinctIds :
    (test : Schedule → Bool) (xs : List Schedule)
    → DistinctIds xs
    → DistinctIds (where_rows test xs)
unfolding where_rows
where_rows-DistinctIds test [] h = tt
where_rows-DistinctIds test (x ∷ xs) (p, ps) = elim (Bool-cases (test x)) [
  | inl e ↦ rw e (All-Apart-where x test xs p, where_rows-DistinctIds test xs ps)
  | inr e ↦ rw e (where_rows-DistinctIds test xs ps)
]

insert_by-DistinctIds :
    (before : Schedule → Schedule → Bool) (x : Schedule) (xs : List Schedule)
    → All (Apart x) xs
    → DistinctIds xs
    → DistinctIds (insert_by before x xs)
unfolding insert_by
insert_by-DistinctIds before x [] a h = (tt, tt)
insert_by-DistinctIds before x (y ∷ ys) (a, rest) (d, ds) = elim (Bool-cases (before y x)) [
  | inl e ↦
      rw e
        (All-insert_by _ before x ys (Apart-sym x y a) d, insert_by-DistinctIds before x ys rest ds)
  | inr e ↦ rw e ((a, rest), (d, ds))
]

sort_by-DistinctIds :
    (before : Schedule → Schedule → Bool) (xs : List Schedule)
    → DistinctIds xs
    → DistinctIds (sort_by before xs)
unfolding sort_by
sort_by-DistinctIds before [] h = tt
sort_by-DistinctIds before (x ∷ xs) (a, d) =
    insert_by-DistinctIds before x (sort_by before xs) (All-sort_by _ before xs a)
      (sort_by-DistinctIds before xs d)

take-DistinctIds : (n : ℕ) (xs : List Schedule) → DistinctIds xs → DistinctIds (take n xs)
take-DistinctIds zero xs h = tt
take-DistinctIds (suc n) [] h = tt
take-DistinctIds (suc n) (x ∷ xs) (a, d) = (All-take _ n xs a, take-DistinctIds n xs d)

id-Picks : (c : Schedule) (rows : List Schedule) → All (Apart c) rows → Picks rows c
id-Picks c [] a = tt
id-Picks c (r ∷ rows) (a, rest) = (λ t. absurd (cc), id-Picks c rows rest)

cons-Picks :
    (r : Schedule) (rows cs : List Schedule)
    → All (Apart r) cs
    → All (Picks rows) cs
    → All (Picks (r ∷ rows)) cs
cons-Picks r rows [] a h = tt
cons-Picks r rows (c ∷ cs) (a, rest) (h, hs) =
    ((λ t. absurd (cc (Apart-sym r c a)), h), cons-Picks r rows cs rest hs)

-- In a table with distinct ids, each row is the only one that its own update takes.
pub All-Picks : (rows : List Schedule) → DistinctIds rows → All (Picks rows) rows
All-Picks [] d = tt
All-Picks (r ∷ rows) (a, d) =
    ((λ t. refl, id-Picks r rows a), cons-Picks r rows rows a (All-Picks rows d))

-- What a dispatch selects.
pub record Selected (at : ℕ) (rows cs : List Schedule) : Type 0 where
  pub distinct : DistinctIds cs
  pub due : All (IsDue at) cs
  pub picks : All (Picks rows) cs

IsDue-both :
    (at : ℕ) (rows xs : List Schedule)
    → All (λ c. Picks rows c × (((c.enabled && leb c.next_run_at at) ≡ true))) xs
    → All (IsDue at) xs × All (Picks rows) xs
IsDue-both at rows [] h = (tt, tt)
IsDue-both at rows (x ∷ xs) ((p, e), h) =
    let (due, picks) = IsDue-both at rows xs h in
    let (on, before) = &&-true x.enabled (leb x.next_run_at at) e in
    (((on, leb→le x.next_run_at at before), due), (p, picks))

pub due_schedules-Selected :
    (at limit : ℕ) (rows : List Schedule)
    → DistinctIds rows
    → Selected at rows (due_schedules at limit rows)
unfolding due_schedules
due_schedules-Selected at limit rows d =
    let both = IsDue-both at rows _ (
      All-take _ limit _ (
        All-sort_by _ (λ a b. ltb a.next_run_at b.next_run_at) _
          (All-where_rows _ (λ c. c.enabled && leb c.next_run_at at) rows (All-Picks rows d)))) in
    record {
      distinct = take-DistinctIds limit _ (
          sort_by-DistinctIds (λ a b. ltb a.next_run_at b.next_run_at) _
            (where_rows-DistinctIds (λ c. c.enabled && leb c.next_run_at at) rows d));
      due = both.0;
      picks = both.1;
    }
