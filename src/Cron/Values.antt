-- ===== src/Cron/Values.antt =====
-- The values that a segment of a cron field adds to the set of `parseField`.
use native.Mathlib.Omega.{arith}
use distributed_job_queue_sc.Prelude.{
  ℕ, zero, suc, ◌+◌, ◌-◌, ◌*◌, ◌≤◌, ◌<◌, true, ◌≡◌, ◌⊎◌, inl, inr, List, [], ◌∷◌, ◌++◌, ◌||◌, leb,
  ◌==◌, any, Bool-cases,
}
use distributed_job_queue_sc.Cron.{Segment, has, add_value, add_from, add_segment}

-- A value of a segment: start + k * step, not past the end.
abbrev pub Holds : Segment → ℕ → Type 0
Holds g v = (k : ℕ) × (v ≡ g.start + k * g.step) × (v ≤ g.last)

has-append : (vs : List ℕ) (v w : ℕ) → has (vs ++ v ∷ []) w ≡ (has vs w || v == w)
unfolding has any
has-append [] v w = ground arith
has-append (x ∷ vs) v w = ground (arith, has-append vs v w)

has-add_value : (vs : List ℕ) (v w : ℕ) → has (add_value v vs) w ≡ (has vs w || v == w)
unfolding add_value
has-add_value vs v w = ground (arith, has-append vs v w)

pub add_from_kept :
    (n value last step : ℕ) (vs : List ℕ) (w : ℕ)
    → has vs w ≡ true
    → has (add_from n value last step vs) w ≡ true
unfolding add_from
add_from_kept zero value last step vs w h = h
add_from_kept (suc n) value last step vs w h = ground (
  arith,
  has-add_value vs value w,
  add_from_kept n (value + step) last step (add_value value vs) w,
)

suc-mul : (k d : ℕ) → suc k * d ≡ d + k * d
suc-mul k d = grind arith

pub add_from_sound :
    (n value last step : ℕ) (vs : List ℕ) (w : ℕ)
    → has (add_from n value last step vs) w ≡ true
    → (has vs w ≡ true) ⊎ ((k : ℕ) × (w ≡ value + k * step) × (w ≤ last))
unfolding add_from
add_from_sound zero value last step vs w h = inl h
add_from_sound (suc n) value last step vs w h = elim (Bool-cases (leb value last)) [
  | inr past ↦ inl (rw past at h)
  | inl more ↦
      later more (add_from_sound n (value + step) last step (add_value value vs) w (rw more at h))
]
  where
    now :
        leb value last ≡ true
        → has (add_value value vs) w ≡ true
        → (has vs w ≡ true) ⊎ ((k : ℕ) × (w ≡ value + k * step) × (w ≤ last))
    now more e = elim (Bool-cases (has vs w)) [
      | inl old ↦ inl old
      | inr new ↦
          inr
            (0, ground (arith, has-add_value vs value w), ground (arith, has-add_value vs value w))
    ]

    later :
        leb value last ≡ true
        → (has (add_value value vs) w ≡ true)
          ⊎ ((k : ℕ) × (w ≡ value + step + k * step) × (w ≤ last))
        → (has vs w ≡ true) ⊎ ((k : ℕ) × (w ≡ value + k * step) × (w ≤ last))
    later more (inl e) = now more e
    later more (inr (k, e, b)) = inr (suc k, omega (arith, suc-mul k step), b)

pub add_from_complete :
    (n value last step : ℕ) (vs : List ℕ) (w k : ℕ)
    → 0 < step
    → suc last ≤ value + n
    → w ≡ value + k * step
    → w ≤ last
    → has (add_from n value last step vs) w ≡ true
unfolding add_from
add_from_complete zero value last step vs w k p f e b = absurd (omega arith)
add_from_complete (suc n) value last step vs w zero p f e b = ground (
  arith,
  has-add_value vs value w,
  add_from_kept n (value + step) last step (add_value value vs) w,
)
add_from_complete (suc n) value last step vs w (suc k) p f e b =
    ground
      (arith, suc-mul k step, add_from_complete n (value + step) last step (add_value value vs) w k)

pub add_segment_kept :
    (g : Segment) (vs : List ℕ) (v : ℕ) → has vs v ≡ true → has (add_segment g vs) v ≡ true
unfolding add_segment
add_segment_kept g vs v h = add_from_kept (suc g.last - g.start) g.start g.last g.step vs v h

pub add_segment_sound :
    (g : Segment) (vs : List ℕ) (v : ℕ)
    → has (add_segment g vs) v ≡ true
    → (has vs v ≡ true) ⊎ Holds g v
unfolding add_segment
add_segment_sound g vs v h = add_from_sound (suc g.last - g.start) g.start g.last g.step vs v h

pub add_segment-Holds :
    (g : Segment) (vs : List ℕ) (v : ℕ) → 0 < g.step → Holds g v → has (add_segment g vs) v ≡ true
unfolding add_segment
add_segment-Holds g vs v p (k, e, b) =
    add_from_complete (suc g.last - g.start) g.start g.last g.step vs v k p (omega arith) e b
