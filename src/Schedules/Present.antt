-- ===== src/Schedules/Present.antt =====
-- A schedule that a dispatch has read is still there for its UPDATE (src/core/store.mjs).
use distributed_job_queue_sc.Prelude.{
  ℕ, true, false, ◌≡◌, inl, inr, refl, ap, List, [], ◌∷◌, some, All, All-take, All-sort_by,
  All-where_rows, ◌&&◌, ltb, leb, str_eq, eq_iff, find, arith, Bool-cases,
}
use distributed_job_queue_sc.Dates.{TimeZone}
use distributed_job_queue_sc.Model.{Schedule}
use distributed_job_queue_sc.Schedules.Dispatch.{is_untaken, due_schedules}
use distributed_job_queue_sc.Schedules.Runs.{DistinctIds, Rows, Took, has_id-one, is_untaken_refl}

-- The UPDATE of `c` finds `c`.
abbrev pub Has : List Schedule → Schedule → Type 0
Has rows c = find (is_untaken c) rows ≡ some c

untaken_apart : (c r : Schedule) → str_eq r.id c.id ≡ false → is_untaken c r ≡ false
unfolding is_untaken
untaken_apart c r e = rw e refl

Has-cons :
    (r c : Schedule) (rows : List Schedule) → is_untaken c r ≡ false → Has rows c → Has (r ∷ rows) c
unfolding find
Has-cons r c rows e h = rw e h

All-Has-cons :
    (r : Schedule) (rows cs : List Schedule)
    → All (λ d. str_eq d.id r.id ≡ false) cs
    → All (Has rows) cs
    → All (Has (r ∷ rows)) cs
All-Has-cons r rows [] a h = tt
All-Has-cons r rows (c ∷ cs) (a, rest) (h, hs) = (
  Has-cons r c rows (untaken_apart c r (ground (arith, eq_iff c.id r.id, eq_iff r.id c.id))) h,
  All-Has-cons r rows cs rest hs,
)

All-Has : (rows : List Schedule) → DistinctIds rows → All (Has rows) rows
unfolding find
All-Has [] d = tt
All-Has (r ∷ rows) (a, d) =
    (rw (is_untaken_refl r) refl, All-Has-cons r rows rows a (All-Has rows d))

pub due_schedules-Has :
    (at limit : ℕ) (rows : List Schedule)
    → DistinctIds rows
    → All (Has rows) (due_schedules at limit rows)
unfolding due_schedules
due_schedules-Has at limit rows d = firsts _ (
    All-take _ limit _ (
      All-sort_by _ (λ a b. ltb a.next_run_at b.next_run_at) _
        (All-where_rows _ (λ c. c.enabled && leb c.next_run_at at) rows (All-Has rows d))))
  where
    firsts :
        (xs : List Schedule)
        → All (λ c. Has rows c × ((c.enabled && leb c.next_run_at at) ≡ true)) xs
        → All (Has rows) xs
    firsts [] h = tt
    firsts (x ∷ xs) ((p, e), h) = (p, firsts xs h)

-- The run of another schedule leaves it there.
Has-Rows :
    (zone : TimeZone) (at : ℕ) (c d : Schedule) (must xs ys : List Schedule)
    → str_eq d.id c.id ≡ false
    → Rows (Took zone at must (c ∷ [])) xs ys
    → Has xs d
    → Has ys d
unfolding find
Has-Rows zone at c d must [] [] a h p = p
Has-Rows zone at c d must [] (y ∷ ys) a h p = elim h [ ]
Has-Rows zone at c d must (x ∷ xs) [] a h p = elim h [ ]
Has-Rows zone at c d must (x ∷ xs) (y ∷ ys) a (inl (e, m), hs) p =
    elim (Bool-cases (is_untaken d x)) [
      | inl hit ↦ rw (e, hit) (rw hit at p)
      | inr miss ↦ rw (e, miss) (Has-Rows zone at c d must xs ys a hs (rw miss at p))
    ]
Has-Rows zone at c d must (x ∷ xs) (y ∷ ys) a (inr (k, (next, due, l, f, e)), hs) p =
    let first : c.id ≡ x.id = (eq_iff c.id x.id).0 (has_id-one c x.id k) in
    let there : y.id ≡ x.id = ap (λ (r : Schedule). r.id) e in
    let apart : str_eq x.id d.id ≡ false = ground (arith, eq_iff x.id d.id, eq_iff d.id c.id) in
    let moved : str_eq y.id d.id ≡ false = rw there apart in
    rw (untaken_apart d y moved)
      (Has-Rows zone at c d must xs ys a hs (rw (untaken_apart d x apart) at p))

pub Has-All :
    (zone : TimeZone) (at : ℕ) (c : Schedule) (must cs xs ys : List Schedule)
    → All (λ d. str_eq d.id c.id ≡ false) cs
    → Rows (Took zone at must (c ∷ [])) xs ys
    → All (Has xs) cs
    → All (Has ys) cs
Has-All zone at c must [] xs ys a h p = tt
Has-All zone at c must (d ∷ cs) xs ys (a, rest) h (p, ps) =
    (Has-Rows zone at c d must xs ys a h p, Has-All zone at c must cs xs ys rest h ps)
