-- ===== src/RateLimits/Limits.antt =====
-- When `checkDispatchRateLimit` (src/core/store.mjs) lets a job through, by the limits and the events.
use native.Mathlib.Omega.{arith}
use distributed_job_queue_sc.Prelude.{
  ℕ, suc, zero, ◌-◌, ◌<◌, String, Bool, true, false, ◌≡◌, refl, ◌↔◌, List, [], ◌∷◌, ◌++◌, Option,
  none, some, ◌&&◌, ◌||◌, Bool-cases, inl, inr, leb, All, ◌⊎◌, sym, ◌∙◌, subst, str_eq, count_rows,
  where_rows, length, map, All-append,
}
use distributed_job_queue_sc.Model.{
  Job, Store, Event, EventType, Queue, RateLimit, Scope, by_queue, by_type, job_claimed,
}
use distributed_job_queue_sc.Queues.{get_queue}
use distributed_job_queue_sc.Jobs.{get_job}
use distributed_job_queue_sc.RateLimits.{
  Check, get_dispatch_count, in_window, event_counts, is_claim_event, counts_for, is_scope,
  applies_to, as_check, own_check, queue_check, checks_for, check_dispatch_rate_limit,
}
use distributed_job_queue_sc.RateLimits.Verdict.{Below, allowed_iff}

-- An event that tells of a claim.
abbrev tells_claim : EventType → Bool
tells_claim job_claimed = true
tells_claim _ = false

abbrev job_of : List Job → Option String → Option Job
job_of jobs none = none
job_of jobs (some id) = get_job id jobs

-- The jobs that count for a limit.
abbrev counted : Scope → String → Option Job → Bool
counted scope target none = false
counted by_type target (some j) = str_eq j.type target
counted by_queue target (some j) = str_eq j.queue target

-- How many claims of such jobs there were since a time.
abbrev pub claims : Store → Scope → String → (start : ℕ) → ℕ
claims s scope target start =
    count_rows
      (λ (e : Event).
        tells_claim e.type
        && leb start e.created_at
        && counted scope target (job_of s.jobs e.job_id))
      s.events

-- The limit of the job's queue, where it has a count and a window that are not 0.
abbrev pub OwnLimit : Store → String → ℕ → (count window : Option ℕ) → Type 0
OwnLimit s target at (some (suc n)) (some (suc w)) = claims s by_queue target (at - suc w) < suc n
OwnLimit s target at n w = Unit

abbrev pub QueueLimit : Store → String → ℕ → Option Queue → Type 0
QueueLimit s target at none = Unit
QueueLimit s target at (some q) = OwnLimit s target at q.rate_limit_count q.rate_limit_window_ms

-- Whether a limit is on the job's type or on its queue.
abbrev pub aims : Scope → String → Job → Bool
aims by_type target j = str_eq target j.type
aims by_queue target j = str_eq target j.queue

-- A configured limit that is not enabled, or not on the job's type or queue, or not reached.
abbrev pub Obeys : Store → Job → ℕ → RateLimit → Type 0
Obeys s j at r =
    ((r.enabled && aims r.scope r.target j) ≡ false)
    ⊎ (claims s r.scope r.target (at - r.window_ms) < r.limit_count)

same_event : (t : EventType) → is_claim_event t ≡ tells_claim t
same_event job_claimed = refl
same_event _ = refl

same_row :
    (jobs : List Job) (scope : Scope) (target : String) (id : Option String)
    → event_counts jobs scope target id ≡ counted scope target (job_of jobs id)
unfolding event_counts
same_row jobs scope target none = refl
same_row jobs scope target (some id) = found (get_job id jobs) scope
  where
    found :
        (o : Option Job) (scope : Scope)
        → (elim o [ none ↦ false | some j ↦ counts_for scope target j ]) ≡ counted scope target o
    found none by_type = refl
    found none by_queue = refl
    found (some j) by_type = refl
    found (some j) by_queue = refl

length-where :
    (f g : Event → Bool) (es : List Event)
    → ((e : Event) → f e ≡ g e)
    → length (where_rows f es) ≡ count_rows g es
unfolding where_rows count_rows
length-where f g [] same = refl
length-where f g (e ∷ es) same = elim (Bool-cases (f e)) [
  | inl hit ↦ rw (hit, sym (same e) ∙ hit) (omega (arith, length-where f g es same))
  | inr miss ↦ rw (miss, sym (same e) ∙ miss) (omega (arith, length-where f g es same))
]

get_dispatch_count-claims :
    (s : Store) (scope : Scope) (target : String) (start : ℕ)
    → (get_dispatch_count s scope target start).0 ≡ claims s scope target start
unfolding get_dispatch_count in_window
get_dispatch_count-claims s scope target start =
    length-where (in_window s.jobs scope target start) _ s.events
      (λ e. rw (same_event e.type, same_row s.jobs scope target e.job_id) refl)

Below-claims :
    (s : Store) (at : ℕ) (c : Check)
    → Below s at c ↔ (claims s c.scope c.target (at - c.window_ms) < c.limit_count)
Below-claims s at c =
    let e = get_dispatch_count-claims s c.scope c.target (at - c.window_ms) in
    (subst (λ n. n < c.limit_count) e, subst (λ n. n < c.limit_count) (sym e))

own_iff :
    (s : Store) (target : String) (at : ℕ) (n w : Option ℕ)
    → All (Below s at) (own_check target n w) ↔ OwnLimit s target at n w
own_iff s target at none w = (λ h. tt, λ h. tt)
own_iff s target at (some zero) w = (λ h. tt, λ h. tt)
own_iff s target at (some (suc n)) none = (λ h. tt, λ h. tt)
own_iff s target at (some (suc n)) (some zero) = (λ h. tt, λ h. tt)
own_iff s target at (some (suc n)) (some (suc w)) =
    let b =
      Below-claims s at
        (record { scope = by_queue; target = target; limit_count = suc n; window_ms = suc w }) in
    (λ h. b.0 h.0, λ h. (b.1 h, tt))

queue_iff :
    (s : Store) (target : String) (at : ℕ) (o : Option Queue)
    → All (Below s at) (queue_check o target) ↔ QueueLimit s target at o
unfolding queue_check
queue_iff s target at none = (λ h. tt, λ h. tt)
queue_iff s target at (some q) = own_iff s target at q.rate_limit_count q.rate_limit_window_ms

applies_to-aims :
    (j : Job) (r : RateLimit) → applies_to j r ≡ (r.enabled && aims r.scope r.target j)
unfolding applies_to
applies_to-aims j r = by_scope r.scope
  where
    by_scope :
        (t : Scope)
        → (r.enabled
            && (is_scope t by_type && str_eq r.target j.type
                || is_scope t by_queue && str_eq r.target j.queue))
          ≡ (r.enabled && aims t r.target j)
    by_scope by_type = ground arith
    by_scope by_queue = ground arith

limits_iff :
    (s : Store) (j : Job) (at : ℕ) (rs : List RateLimit)
    → All (Below s at) (map as_check (where_rows (applies_to j) rs)) ↔ All (Obeys s j at) rs
unfolding where_rows
limits_iff s j at [] = (λ h. tt, λ h. tt)
limits_iff s j at (r ∷ rs) = one (limits_iff s j at rs)
  where
    one :
        All (Below s at) (map as_check (where_rows (applies_to j) rs)) ↔ All (Obeys s j at) rs
        → All (Below s at) (map as_check (where_rows (applies_to j) (r ∷ rs)))
          ↔ All (Obeys s j at) (r ∷ rs)
    one rest = elim (Bool-cases (applies_to j r)) [
      | inl hit ↦
          (let b = Below-claims s at (as_check r) in
            rw hit (
              (λ h. (inr (b.0 h.0), rest.0 h.1)),
              λ h. elim h.0 [
                | inl out ↦ absurd (cc (hit, out, applies_to-aims j r))
                | inr below ↦ (b.1 below, rest.1 h.1)
              ],
            ))
      | inr miss ↦
          rw miss ((λ h. (inl (sym (applies_to-aims j r) ∙ miss), rest.0 h)), λ h. rest.1 h.1)
    ]

All-first :
    (s : Store) (at : ℕ) (cs ds : List Check)
    → All (Below s at) (cs ++ ds)
    → All (Below s at) cs × All (Below s at) ds
All-first s at [] ds h = (tt, h)
All-first s at (c ∷ cs) ds (b, h) = let (x, y) = All-first s at cs ds h in ((b, x), y)

-- A job is let through if and only if its queue's own limit, where it has one, and each enabled limit on its
-- type or its queue is not reached: fewer claims of jobs of that type or queue since the start of the window
-- than the limit.
pub check_dispatch_rate_limit_iff :
    (s : Store) (job : Job) (at : ℕ)
    → (check_dispatch_rate_limit s job at ≡ none) ↔ (
        QueueLimit s job.queue at (get_queue job.queue s.queues)
        × All (Obeys s job at) s.rate_limits)
unfolding check_dispatch_rate_limit checks_for
check_dispatch_rate_limit_iff s job at =
    let own = queue_iff s job.queue at (get_queue job.queue s.queues) in
    let rest = limits_iff s job at s.rate_limits in
    let verdict = allowed_iff s at (checks_for s job) in
    (
      λ e. let (a, b) = All-first s at _ _ (verdict.0 e) in (own.0 a, rest.0 b),
      λ (a, b). verdict.1 (All-append (Below s at) _ _ (own.1 a) (rest.1 b)),
    )
