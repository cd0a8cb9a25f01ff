-- ===== src/Input/Bounds.antt =====
-- Bounds of the clamped numbers and of the retry delay.
use distributed_job_queue_sc.Prelude.{
  ℕ, suc, zero, ◌+◌, ◌≤◌, ◌<◌, Option, none, some, ◌≡◌, refl, arith, min, or_else,
}
use distributed_job_queue_sc.Prelude.Int.{ℤ, pos, ◌≤ℤ◌}
use distributed_job_queue_sc.Input.{
  Parsed, nan, int, clamp_int, clamp_nat, Strategy, fixed, exponential, RetryPolicy, RetryInput,
  strategy_text, draw_jitter, read_strategy, normalize_retry_policy, as_input, base_delay,
  compute_retry_delay_ms, policy_in_use,
}

-- Whatever text or number was given, the clamped value lies between the bounds, and a number that
-- lies there is kept.
pub clamp_int_bounds :
    (v : Parsed) (lo hi : ℤ)
    → lo ≤ℤ hi
    → (lo ≤ℤ clamp_int v lo hi)
      × (clamp_int v lo hi ≤ℤ hi)
      × ((n : ℤ) → v ≡ int n → lo ≤ℤ n → n ≤ℤ hi → clamp_int v lo hi ≡ n)
unfolding clamp_int
clamp_int_bounds nan lo hi h = (omega arith, omega arith, λ n e. cc)
clamp_int_bounds (int m) lo hi h = (ground arith, ground arith, λ n e p q. ground arith)

pub clamp_nat_bounds :
    (v : Parsed) (lo hi : ℕ) → lo ≤ hi → (lo ≤ clamp_nat v lo hi) × (clamp_nat v lo hi ≤ hi)
unfolding clamp_nat
clamp_nat_bounds nan lo hi h = (omega arith, omega arith)
clamp_nat_bounds (int m) lo hi h = ground arith

pub clamp_nat_of_nat : (n lo hi : ℕ) → lo ≤ n → n ≤ hi → clamp_nat (int (pos n)) lo hi ≡ n
unfolding clamp_nat
clamp_nat_of_nat n lo hi p q = ground arith

-- The ranges that `normalizeRetryPolicy` promises.
pub record IsNormal (p : RetryPolicy) : Type 0 where
  pub base_low : 250 ≤ p.base_ms
  pub base_high : p.base_ms ≤ 3600000
  pub delay_low : 250 ≤ p.max_delay_ms
  pub delay_high : p.max_delay_ms ≤ 86400000
  pub jitter_high : p.jitter_ms ≤ 3600000

-- Whatever a request gives, a policy that `normalizeRetryPolicy` returns has its times in range.
pub normalize_retry_policy-IsNormal :
    (v : Option RetryInput) (p : RetryPolicy) → normalize_retry_policy v ≡ some p → IsNormal p
unfolding normalize_retry_policy
normalize_retry_policy-IsNormal none p h = cc
normalize_retry_policy-IsNormal (some v) p h = ground (
  arith,
  clamp_nat_bounds (or_else v.base_ms (int (pos 2000))) 250 3600000,
  clamp_nat_bounds (or_else v.max_delay_ms (int (pos 300000))) 250 86400000,
  clamp_nat_bounds (or_else v.jitter_ms (int (pos 0))) 0 3600000,
)

read-strategy_text : (s : Strategy) → read_strategy (some (strategy_text s)) ≡ s
unfolding read_strategy
read-strategy_text fixed = refl
read-strategy_text exponential = refl

-- A policy with its times in range, stored and read back, is normalised to itself.
pub normalize_retry_policy_of_stored :
    (p : RetryPolicy) → IsNormal p → normalize_retry_policy (some (as_input p)) ≡ some p
unfolding normalize_retry_policy
normalize_retry_policy_of_stored p n = ground (
  arith,
  read-strategy_text p.strategy,
  clamp_nat_of_nat p.base_ms 250 3600000,
  clamp_nat_of_nat p.max_delay_ms 250 86400000,
  clamp_nat_of_nat p.jitter_ms 0 3600000,
)

draw_jitter-le :
    (random : ℕ → ℕ) (n : ℕ) → ((n : ℕ) → 0 < n → random n < n) → draw_jitter random n ≤ n
unfolding draw_jitter
draw_jitter-le random zero r = omega arith
draw_jitter-le random (suc n) r = omega (arith, r (suc n) (omega arith))

normalized : (p : RetryPolicy) → normalize_retry_policy (some (as_input p)) ≡ some (policy_in_use p)
unfolding normalize_retry_policy policy_in_use
normalized p = refl

policy_in_use-IsNormal : (p : RetryPolicy) → IsNormal (policy_in_use p)
policy_in_use-IsNormal p =
    normalize_retry_policy-IsNormal (some (as_input p)) (policy_in_use p) (normalized p)

-- For any policy, as `computeRetryDelayMs` normalises it, and random draws below n being below n, for n
-- above 0: the normalised policy has its times in range, and the retry delay is at most its longest delay
-- and at most the base delay and the jitter together, and at least the lesser of the base delay and the
-- longest delay.
pub compute_retry_delay_bounds :
    (random : ℕ → ℕ) (policy : RetryPolicy) (attempts : ℕ)
    → ((n : ℕ) → 0 < n → random n < n)
    → IsNormal (policy_in_use policy)
      × (compute_retry_delay_ms random policy attempts ≤ (policy_in_use policy).max_delay_ms)
      × (min (policy_in_use policy).max_delay_ms (base_delay (policy_in_use policy) attempts)
          ≤ compute_retry_delay_ms random policy attempts)
      × (compute_retry_delay_ms random policy attempts
          ≤ base_delay (policy_in_use policy) attempts + (policy_in_use policy).jitter_ms)
unfolding compute_retry_delay_ms
compute_retry_delay_bounds random policy attempts r =
    let low = draw_jitter-le random (policy_in_use policy).jitter_ms r in
    (policy_in_use-IsNormal policy, omega arith, omega arith, omega arith)
