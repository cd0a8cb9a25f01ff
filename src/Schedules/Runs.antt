-- ===== src/Schedules/Runs.antt =====
-- What one dispatch does to the schedules table.
use distributed_job_queue_sc.Prelude.{
  Bool-cases, ℕ, ◌+◌, ◌≤◌, String, Bool, true, false, ◌≡◌, ◌⊎◌, inl, inr, refl, sym, ap, ◌∙◌, subst,
  List, [], ◌∷◌, some, All, ◌||◌, &&-true, ◌==◌, str_eq, or_else, update_rows, if◌then◌else◌, arith,
  eq_iff, eq_refl,
}
use distributed_job_queue_sc.Dates.{TimeZone}
use distributed_job_queue_sc.Model.{Schedule, ScheduleKind, interval, cron}
use distributed_job_queue_sc.Exec.{ok}
use distributed_job_queue_sc.Cron.Search.{next_cron_run}
use distributed_job_queue_sc.Schedules.Dispatch.{is_untaken}

-- The instant that follows a run at `at`.
abbrev pub FollowsAs : TimeZone → ScheduleKind → Schedule → (at next : ℕ) → Type 0
FollowsAs zone interval c at next = next ≡ c.next_run_at + c.interval_ms
FollowsAs zone cron c at next = next_cron_run zone (or_else c.cron_expr "") at ≡ ok next

-- A row that was due and whose run was taken at `at`.
abbrev pub Ran : TimeZone → ℕ → Schedule → Schedule → Type 0
Ran zone at old new =
    (next : ℕ) × (old.enabled ≡ true)
    × (old.next_run_at ≤ at)
    × FollowsAs zone old.schedule_kind old at next
    × (new ≡ record old { last_run_at = some at; next_run_at = next; updated_at = at })

-- Row by row.
abbrev pub Rows : (Schedule → Schedule → Type 0) → List Schedule → List Schedule → Type 0
Rows R [] [] = Unit
Rows R [] (d ∷ ds) = ⊥
Rows R (c ∷ cs) [] = ⊥
Rows R (c ∷ cs) (d ∷ ds) = R c d × Rows R cs ds

-- No two rows have the same id.
abbrev pub DistinctIds : List Schedule → Type 0
DistinctIds [] = Unit
DistinctIds (c ∷ cs) = All (λ d. str_eq d.id c.id ≡ false) cs × DistinctIds cs

-- Whether the id of a row is among those of a batch.
unfoldable pub has_id : String → List Schedule → Bool
has_id id [] = false
has_id id (c ∷ cs) = str_eq c.id id || has_id id cs

-- A row of `must` has run, and no row has but those of the batch `cs`.
abbrev pub Took : TimeZone → ℕ → (must cs : List Schedule) → Schedule → Schedule → Type 0
Took zone at must cs old new =
    ((new ≡ old) × (has_id old.id must ≡ false)) ⊎ ((has_id old.id cs ≡ true) × Ran zone at old new)

-- The only row with the id of `c` is `c`.
abbrev pub Picks : List Schedule → Schedule → Type 0
Picks rows c = All (λ r. str_eq r.id c.id ≡ true → r ≡ c) rows

abbrev pub IsDue : ℕ → Schedule → Type 0
IsDue at c = (c.enabled ≡ true) × (c.next_run_at ≤ at)

pub Rows-refl :
    (zone : TimeZone) (at : ℕ) (cs rows : List Schedule) → Rows (Took zone at [] cs) rows rows
unfolding has_id
Rows-refl zone at cs [] = tt
Rows-refl zone at cs (r ∷ rows) = (inl (refl, refl), Rows-refl zone at cs rows)

abbrev pub set_run : ℕ → ℕ → Schedule → Schedule
set_run at next c = record c { last_run_at = some at; next_run_at = next; updated_at = at }

pub is_untaken-id : (c r : Schedule) → is_untaken c r ≡ true → str_eq r.id c.id ≡ true
unfolding is_untaken
is_untaken-id c r t = (&&-true (str_eq r.id c.id) (r.next_run_at == c.next_run_at) t).0

pub is_untaken_refl : (c : Schedule) → is_untaken c c ≡ true
unfolding is_untaken
is_untaken_refl c = ground (arith, eq_refl c.id)

-- The UPDATE.
pub update_rows-Rows :
    (zone : TimeZone) (at next : ℕ) (c : Schedule) (rows : List Schedule)
    → IsDue at c
    → FollowsAs zone c.schedule_kind c at next
    → Picks rows c
    → Rows (Took zone at (c ∷ []) (c ∷ [])) rows (update_rows (is_untaken c) (set_run at next) rows)
unfolding update_rows
update_rows-Rows zone at next c [] d f p = tt
update_rows-Rows zone at next c (r ∷ rows) d f (p, ps) =
    (one (is_untaken c r) refl, update_rows-Rows zone at next c rows d f ps)
  where
    -- A row with the id is the row that was read, so the UPDATE takes it.
    other : is_untaken c r ≡ false → has_id r.id (c ∷ []) ≡ false
    other e = elim (Bool-cases (str_eq r.id c.id)) [
      | inl same ↦ absurd (cc (is_untaken_refl c, e, p same))
      | inr apart ↦ unfold has_id in ground (arith, eq_iff r.id c.id, eq_iff c.id r.id)
    ]

    one :
        (b : Bool)
        → is_untaken c r ≡ b
        → Took zone at (c ∷ []) (c ∷ []) r (if b then set_run at next r else r)
    one false e = inl (refl, other e)
    one true e =
        subst (λ x. Took zone at (c ∷ []) (c ∷ []) x (set_run at next x))
          (sym (p (is_untaken-id c r e)))
          (inr (unfold has_id in rw (eq_refl c.id) refl, (next, d.0, d.1, f, refl)))

has_id-cons :
    (c : Schedule) (cs : List Schedule) (id : String)
    → has_id id (c ∷ []) ≡ true
    → has_id id (c ∷ cs) ≡ true
unfolding has_id
has_id-cons c cs id h = ground arith

pub has_id-one : (c : Schedule) (id : String) → has_id id (c ∷ []) ≡ true → str_eq c.id id ≡ true
unfolding has_id
has_id-one c id h = ground arith

has_id-later :
    (c : Schedule) (cs : List Schedule) (id : String)
    → has_id id cs ≡ true
    → has_id id (c ∷ cs) ≡ true
unfolding has_id
has_id-later c cs id h = ground arith

-- An id of the first row is not an id of a later one.
has_id-apart :
    (c : Schedule) (cs : List Schedule) (id : String)
    → All (λ d. str_eq d.id c.id ≡ false) cs
    → has_id id (c ∷ []) ≡ true
    → has_id id cs ≡ false
unfolding has_id
has_id-apart c [] id a h = refl
has_id-apart c (d ∷ cs) id (a, rest) h = ground (arith, has_id-apart c cs id rest h, eq_iff c.id id)

-- Rows that have run in one of two parts of a batch.
abbrev pub Covers : (first second whole : List Schedule) → Type 0
Covers first second whole =
    (id : String) → has_id id first ≡ false → has_id id second ≡ false → has_id id whole ≡ false

pub cons-Covers : (c : Schedule) (cs : List Schedule) → Covers (c ∷ []) cs (c ∷ cs)
unfolding has_id
cons-Covers c cs id a b = ground arith

pub nil-Covers : (first second : List Schedule) → Covers first second []
unfolding has_id
nil-Covers first second id a b = refl

module _ (zone : TimeZone) (at : ℕ) (c : Schedule) (cs first second whole : List Schedule) where
  Took-trans :
      (old mid new : Schedule)
      → All (λ d. str_eq d.id c.id ≡ false) cs
      → Covers first second whole
      → Took zone at first (c ∷ []) old mid
      → Took zone at second cs mid new
      → Took zone at whole (c ∷ cs) old new
  Took-trans old mid new a both (inl (e, m)) (inl (f, n)) =
      inl (f ∙ e, both old.id m (subst (λ (x : Schedule). has_id x.id second ≡ false) e n))
  Took-trans old mid new a both (inl (e, m)) (inr (h, r)) =
      subst (λ x. Took zone at whole (c ∷ cs) x new) e (inr (has_id-later c cs mid.id h, r))
  Took-trans old mid new a both (inr (h, r)) (inl (f, n)) =
      inr (has_id-cons c cs old.id h, subst (Ran zone at old) (sym f) r)
  Took-trans old mid new a both (inr (h, (next, d, l, f, e))) (inr (k, r)) =
      absurd (cc (has_id-apart c cs old.id a h, ap (λ (x : Schedule). has_id x.id cs) e))

  pub Rows-trans :
      (xs ys zs : List Schedule)
      → All (λ d. str_eq d.id c.id ≡ false) cs
      → Covers first second whole
      → Rows (Took zone at first (c ∷ [])) xs ys
      → Rows (Took zone at second cs) ys zs
      → Rows (Took zone at whole (c ∷ cs)) xs zs
  Rows-trans [] [] [] a both h k = tt
  Rows-trans [] [] (z ∷ zs) a both h k = elim k [ ]
  Rows-trans [] (y ∷ ys) zs a both h k = elim h [ ]
  Rows-trans (x ∷ xs) [] zs a both h k = elim h [ ]
  Rows-trans (x ∷ xs) (y ∷ ys) [] a both h k = elim k [ ]
  Rows-trans (x ∷ xs) (y ∷ ys) (z ∷ zs) a both (h, hs) (k, ks) =
      (Took-trans x y z a both h k, Rows-trans xs ys zs a both hs ks)

-- A row that has run is no row of the rest of the batch.
Picks-Rows :
    (zone : TimeZone) (at : ℕ) (c d : Schedule) (must xs ys : List Schedule)
    → str_eq d.id c.id ≡ false
    → Rows (Took zone at must (c ∷ [])) xs ys
    → Picks xs d
    → Picks ys d
Picks-Rows zone at c d must [] [] a h p = tt
Picks-Rows zone at c d must [] (y ∷ ys) a h p = elim h [ ]
Picks-Rows zone at c d must (x ∷ xs) [] a h p = elim h [ ]
Picks-Rows zone at c d must (x ∷ xs) (y ∷ ys) a (inl (e, m), hs) (p, ps) = (
  subst (λ (r : Schedule). str_eq r.id d.id ≡ true → r ≡ d) (sym e) p,
  Picks-Rows zone at c d must xs ys a hs ps,
)
Picks-Rows zone at c d must (x ∷ xs) (y ∷ ys) a (inr (k, (next, due, l, f, e)), hs) (p, ps) =
    (λ t. absurd (apart t), Picks-Rows zone at c d must xs ys a hs ps)
  where
    apart : str_eq y.id d.id ≡ true → ⊥
    apart t =
        let first : c.id ≡ x.id = (eq_iff c.id x.id).0 (has_id-one c x.id k) in
        let there : y.id ≡ x.id = ap (λ (r : Schedule). r.id) e in
        let same : d.id ≡ c.id = cc ((eq_iff y.id d.id).0 t, first, there) in
        cc ((eq_iff d.id c.id).1 same)

pub Picks-All :
    (zone : TimeZone) (at : ℕ) (c : Schedule) (must cs xs ys : List Schedule)
    → All (λ d. str_eq d.id c.id ≡ false) cs
    → Rows (Took zone at must (c ∷ [])) xs ys
    → All (Picks xs) cs
    → All (Picks ys) cs
Picks-All zone at c must [] xs ys a h p = tt
Picks-All zone at c must (d ∷ cs) xs ys (a, rest) h (p, ps) =
    (Picks-Rows zone at c d must xs ys a h p, Picks-All zone at c must cs xs ys rest h ps)

-- A part of the batch, of which no run is asked for.
pub Took-weaken :
    (zone : TimeZone) (at : ℕ) (c : Schedule) (must cs xs ys : List Schedule)
    → Rows (Took zone at must (c ∷ [])) xs ys
    → Rows (Took zone at [] (c ∷ cs)) xs ys
unfolding has_id
Took-weaken zone at c must cs [] [] h = tt
Took-weaken zone at c must cs [] (y ∷ ys) h = elim h [ ]
Took-weaken zone at c must cs (x ∷ xs) [] h = elim h [ ]
Took-weaken zone at c must cs (x ∷ xs) (y ∷ ys) (inl (e, m), hs) =
    (inl (e, refl), Took-weaken zone at c must cs xs ys hs)
Took-weaken zone at c must cs (x ∷ xs) (y ∷ ys) (inr (k, r), hs) =
    (inr (has_id-cons c cs x.id k, r), Took-weaken zone at c must cs xs ys hs)
