-- ===== src/Cron/Range.antt =====
-- The sets of `parseField`: which values a field holds.
use native.Mathlib.Omega.{arith}
use distributed_job_queue_sc.Prelude.{
  ℕ, ◌≤◌, ◌<◌, String, true, false, ◌≡◌, ◌↔◌, ◌⊎◌, subst, inl, inr, refl, List, [], ◌∷◌, Option,
  none, some, any, Bool-cases,
}
use distributed_job_queue_sc.Text.{trim, is_empty, split_from}
use distributed_job_queue_sc.Input.{Parsed, nan, int}
use distributed_job_queue_sc.Exec.{Result, ok, err, Error}
use distributed_job_queue_sc.Cron.{
  Segment, has, add_segment, good_step, good_bounds, check_bounds, check_segment, read_segment,
  read_bounds, read_step, first_part, second_part, parse_segments, parse_field, not_empty, ◌>>=◌,
}
use distributed_job_queue_sc.Cron.Values.{
  Holds, add_segment_kept, add_segment_sound, add_segment-Holds,
}

-- What a segment that was read looks like.
pub record IsWithin (lo hi : ℕ) (g : Segment) : Type 0 where
  pub low : lo ≤ g.start
  pub ordered : g.start ≤ g.last
  pub high : g.last ≤ hi
  pub moves : 0 < g.step

good_step_pos : (p : Parsed) {n : ℕ} → good_step p ≡ some n → 0 < n
unfolding good_step
good_step_pos nan h = cc
good_step_pos (int n) h = ground arith

good_bounds-IsWithin :
    (p : Parsed × Parsed) (lo hi step : ℕ) {g : Segment}
    → 0 < step
    → good_bounds p lo hi step ≡ some g
    → IsWithin lo hi g
unfolding good_bounds
good_bounds-IsWithin (nan, b) lo hi step p h = cc
good_bounds-IsWithin (int a, nan) lo hi step p h = cc
good_bounds-IsWithin (int a, int b) lo hi step p h = ground arith

check_bounds_ok :
    (text : String) (o : Option Segment) {g : Segment} → check_bounds text o ≡ ok g → o ≡ some g
unfolding check_bounds
check_bounds_ok text none h = cc
check_bounds_ok text (some x) h = cc

check_segment-IsWithin :
    (text range : String) (lo hi : ℕ) (o : Option ℕ) {g : Segment}
    → ((n : ℕ) → o ≡ some n → 0 < n)
    → check_segment text range lo hi o ≡ ok g
    → IsWithin lo hi g
unfolding check_segment
check_segment-IsWithin text range lo hi none p h = cc
check_segment-IsWithin text range lo hi (some n) p h =
    good_bounds-IsWithin (read_bounds range lo hi) lo hi n (p n refl)
      (check_bounds_ok text (good_bounds (read_bounds range lo hi) lo hi n) h)

pub read_segment-IsWithin :
    (text : String) (lo hi : ℕ) {g : Segment} → read_segment text lo hi ≡ ok g → IsWithin lo hi g
unfolding read_segment
read_segment-IsWithin text lo hi h =
    let parts = split_from b'/' "" (trim text) in
    check_segment-IsWithin text (first_part parts) lo hi (good_step (read_step (second_part parts)))
      (λ n e. good_step_pos (read_step (second_part parts)) e) h

-- A value that some segment of a field holds.
abbrev pub Listed : List String → (lo hi : ℕ) → ℕ → Type 0
Listed [] lo hi v = ⊥
Listed (text ∷ texts) lo hi v =
    ((is_empty (trim text) ≡ false) × (g : Segment) × (read_segment text lo hi ≡ ok g) × Holds g v)
    ⊎ Listed texts lo hi v

parse_segments_nil :
    (vs : List ℕ) (lo hi : ℕ) {found : List ℕ} → parse_segments [] lo hi vs ≡ ok found → vs ≡ found
unfolding parse_segments not_empty
parse_segments_nil [] lo hi h = cc
parse_segments_nil (v ∷ vs) lo hi h = cc

pub Result-cases :
    {A : Type 0} (r : Result A) → ((a : A) × (r ≡ ok a)) ⊎ ((e : Error) × (r ≡ err e))
Result-cases (ok a) = inl (a, refl)
Result-cases (err e) = inr (e, refl)

-- One segment of a field that parses: it is blank, or it is read and its values are added.
parse_segments_cons :
    (text : String) (texts : List String) (lo hi : ℕ) (vs : List ℕ) {found : List ℕ}
    → parse_segments (text ∷ texts) lo hi vs ≡ ok found
    → ((is_empty (trim text) ≡ true) × (parse_segments texts lo hi vs ≡ ok found))
      ⊎ ((is_empty (trim text) ≡ false)
          × (g : Segment) × (read_segment text lo hi ≡ ok g)
          × (parse_segments texts lo hi (add_segment g vs) ≡ ok found))
unfolding parse_segments
parse_segments_cons text texts lo hi vs {found} h = elim (Bool-cases (is_empty (trim text))) [
  | inl blank ↦ inl (blank, rw blank at h)
  | inr full ↦ elim (Result-cases (read_segment text lo hi)) [
    | inl (g, e) ↦ inr (full, g, e, unfold ◌>>=◌ in cc (rw (full, e) at h))
    | inr (x, e) ↦ absurd (unfold ◌>>=◌ in cc (rw (full, e) at h))
  ]
]

-- The sets: what was there before, and the values of the segments.
parse_segments_sound :
    (texts : List String) (lo hi : ℕ) (vs : List ℕ) {found : List ℕ}
    → parse_segments texts lo hi vs ≡ ok found
    → (v : ℕ) → has found v ≡ true
    → (has vs v ≡ true) ⊎ Listed texts lo hi v
parse_segments_sound [] lo hi vs h v m = inl (rw (parse_segments_nil vs lo hi h) m)
parse_segments_sound (text ∷ texts) lo hi vs h v m =
    elim (parse_segments_cons text texts lo hi vs h) [
      | inl (blank, t) ↦ old (parse_segments_sound texts lo hi vs t v m)
      | inr (full, g, e, t) ↦
          new full g e (parse_segments_sound texts lo hi (add_segment g vs) t v m)
    ]
  where
    old :
        (has vs v ≡ true) ⊎ Listed texts lo hi v → (has vs v ≡ true) ⊎ Listed (text ∷ texts) lo hi v
    old (inl a) = inl a
    old (inr b) = inr (inr b)

    new :
        is_empty (trim text) ≡ false
        → (g : Segment) → read_segment text lo hi ≡ ok g
        → (has (add_segment g vs) v ≡ true) ⊎ Listed texts lo hi v
        → (has vs v ≡ true) ⊎ Listed (text ∷ texts) lo hi v
    new full g e (inr b) = inr (inr b)
    new full g e (inl a) = elim (add_segment_sound g vs v a) [
      | inl o ↦ inl o
      | inr b ↦ inr (inl (full, g, e, b))
    ]

parse_segments_complete :
    (texts : List String) (lo hi : ℕ) (vs : List ℕ) {found : List ℕ}
    → parse_segments texts lo hi vs ≡ ok found
    → (v : ℕ) → (has vs v ≡ true) ⊎ Listed texts lo hi v
    → has found v ≡ true
parse_segments_complete [] lo hi vs h v (inl m) = rw (← parse_segments_nil vs lo hi h) m
parse_segments_complete [] lo hi vs h v (inr m) = elim m [ ]
parse_segments_complete (text ∷ texts) lo hi vs h v m =
    elim (parse_segments_cons text texts lo hi vs h) [
      | inl (blank, t) ↦ parse_segments_complete texts lo hi vs t v (old blank m)
      | inr (full, g, e, t) ↦ parse_segments_complete texts lo hi (add_segment g vs) t v (new g e m)
    ]
  where
    old :
        is_empty (trim text) ≡ true
        → (has vs v ≡ true) ⊎ Listed (text ∷ texts) lo hi v
        → (has vs v ≡ true) ⊎ Listed texts lo hi v
    old blank (inl a) = inl a
    old blank (inr (inl b)) = absurd (cc)
    old blank (inr (inr b)) = inr b

    new :
        (g : Segment)
        → read_segment text lo hi ≡ ok g
        → (has vs v ≡ true) ⊎ Listed (text ∷ texts) lo hi v
        → (has (add_segment g vs) v ≡ true) ⊎ Listed texts lo hi v
    new g e (inl a) = inl (add_segment_kept g vs v a)
    new g e (inr (inr b)) = inr b
    new g e (inr (inl (full, g', e', b))) =
        let eq : g' ≡ g = cc in
        inl (
          add_segment-Holds g vs v (read_segment-IsWithin text lo hi e).moves
            (subst (λ x. Holds x v) eq b))

Listed-bounds : (texts : List String) (lo hi v : ℕ) → Listed texts lo hi v → (lo ≤ v) × (v ≤ hi)
Listed-bounds [] lo hi v h = elim h [ ]
Listed-bounds (text ∷ texts) lo hi v (inl (full, g, e, (k, at, b))) =
    let w = read_segment-IsWithin text lo hi e in (omega (arith, w.low), omega (arith, w.high))
Listed-bounds (text ∷ texts) lo hi v (inr h) = Listed-bounds texts lo hi v h

-- A cron field that parses holds exactly the values in the range of the field that its segments list:
-- for a segment that is not blank, those from its start in steps up to its end.
pub parse_field-Listed :
    (raw : String) (lo hi : ℕ) {found : List ℕ}
    → parse_field raw lo hi ≡ ok found
    → (v : ℕ)
    → (has found v ≡ true) ↔ ((lo ≤ v) × (v ≤ hi) × Listed (split_from b',' "" raw) lo hi v)
unfolding parse_field
parse_field-Listed raw lo hi {found} h v = (
  λ m. let b = Listed-bounds texts lo hi v (sound m) in (b.0, b.1, sound m),
  λ (_, _, l). parse_segments_complete texts lo hi [] h v (inr l),
)
  where
    texts : List String
    texts = split_from b',' "" raw

    sound : has found v ≡ true → Listed texts lo hi v
    sound m = elim (parse_segments_sound texts lo hi [] h v m) [
      | inl none_yet ↦ absurd (unfold has any in cc)
      | inr l ↦ l
    ]
