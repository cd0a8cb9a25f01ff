-- ===== src/RateLimits/Verdict.antt =====
-- The checks of `checkDispatchRateLimit` (src/core/store.mjs), one after another.
use native.Mathlib.Omega.{arith}
use distributed_job_queue_sc.Prelude.{
  ℕ, ◌-◌, ◌<◌, Bool, true, false, ◌≡◌, refl, ◌↔◌, List, [], ◌∷◌, Option, none, some, if◌then◌else◌,
  Bool-cases, inl, inr, foldl, leb, All, ◌⊎◌, sym, ◌∙◌, ap,
}
use distributed_job_queue_sc.Model.{Store}
use distributed_job_queue_sc.RateLimits.{Check, Denial, get_dispatch_count, apply_check}

-- How many claims count against a check at a time: those since the start of its window.
abbrev pub Below : Store → ℕ → Check → Type 0
Below s at c = (get_dispatch_count s c.scope c.target (at - c.window_ms)).0 < c.limit_count

-- A check below its limit leaves the verdict; one that is not gives a denial.
apply_check-Below :
    (s : Store) (at : ℕ) (d : Option Denial) (c : Check) → Below s at c → apply_check s at d c ≡ d
unfolding apply_check
apply_check-Below s at d c b = ground arith

apply_check-denial :
    (s : Store) (at : ℕ) (c : Check)
    → ((d : Denial) × (apply_check s at none c ≡ some d)) ⊎ Below s at c
unfolding apply_check
apply_check-denial s at c =
    elim (Bool-cases
      (leb c.limit_count (get_dispatch_count s c.scope c.target (at - c.window_ms)).0)) [
        | inl e ↦ inl (rw e (_, refl))
        | inr e ↦ inr (ground arith)
      ]

if_some : (b : Bool) (x y : Denial) → (e : Denial) × ((if b then some x else some y) ≡ some e)
if_some true x y = (x, refl)
if_some false x y = (y, refl)

apply_check-some :
    (s : Store) (at : ℕ) (d : Denial) (c : Check)
    → (e : Denial) × (apply_check s at (some d) c ≡ some e)
unfolding apply_check
apply_check-some s at d c = if_some _ _ d

denied-stays :
    (s : Store) (at : ℕ) (cs : List Check) (d : Denial)
    → (e : Denial) × (foldl (apply_check s at) (some d) cs ≡ some e)
denied-stays s at [] d = (d, refl)
denied-stays s at (c ∷ cs) d =
    let (e, p) = apply_check-some s at d c in
    let (f, q) = denied-stays s at cs e in (f, ap (λ o. foldl (apply_check s at) o cs) p ∙ q)

pub allowed_iff :
    (s : Store) (at : ℕ) (cs : List Check)
    → (foldl (apply_check s at) none cs ≡ none) ↔ All (Below s at) cs
allowed_iff s at [] = ((λ e. tt), (λ h. refl))
allowed_iff s at (c ∷ cs) = (forth (allowed_iff s at cs).0, back (allowed_iff s at cs).1)
  where
    forth :
        (foldl (apply_check s at) none cs ≡ none → All (Below s at) cs)
        → foldl (apply_check s at) none (c ∷ cs) ≡ none
        → All (Below s at) (c ∷ cs)
    forth rest e = elim (apply_check-denial s at c) [
      | inl (d, p) ↦
          (let (f, q) = denied-stays s at cs d in
            absurd (cc (e, ap (λ o. foldl (apply_check s at) o cs) p, q)))
      | inr b ↦ (
        b,
        rest (sym (ap (λ o. foldl (apply_check s at) o cs) (apply_check-Below s at none c b)) ∙ e),
      )
    ]

    back :
        (All (Below s at) cs → foldl (apply_check s at) none cs ≡ none)
        → All (Below s at) (c ∷ cs)
        → foldl (apply_check s at) none (c ∷ cs) ≡ none
    back rest (b, h) =
        ap (λ o. foldl (apply_check s at) o cs) (apply_check-Below s at none c b) ∙ rest h
