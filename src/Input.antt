-- ===== src/Input.antt =====
-- How the store reads the numbers, switches and retry policies of a request (src/core/store.mjs).
-- A field that may be missing (undefined or null) is an `Option`.
pub mod Bounds
use distributed_job_queue_sc.Prelude.{
  ℕ, zero, suc, ◌+◌, ◌*◌, ◌^◌, ◌-◌, String, Bool, true, false, Option, none, some, str_eq, or_else,
  if◌then◌else◌, min,
}
use distributed_job_queue_sc.Prelude.Int.{ℤ, pos, negsuc, pos_part, ltb_ℤ}
use distributed_job_queue_sc.Json.{Json, bool, num, str}

-- What `Number.parseInt(value, 10)` returns.
pub data Parsed : Type 0 where
  nan : Parsed
  int : ℤ → Parsed

unfoldable pub min_ℤ : ℤ → ℤ → ℤ
min_ℤ a b = if ltb_ℤ a b then a else b

unfoldable pub max_ℤ : ℤ → ℤ → ℤ
max_ℤ a b = if ltb_ℤ a b then b else a

-- `clampInt(value, min, max)`.
unfoldable pub clamp_int : Parsed → ℤ → ℤ → ℤ
unfolding min_ℤ max_ℤ
clamp_int nan lo hi = lo
clamp_int (int n) lo hi = min_ℤ hi (max_ℤ lo n)

-- `clampInt` between bounds that are not negative.
unfoldable pub clamp_nat : Parsed → ℕ → ℕ → ℕ
unfolding clamp_int
clamp_nat v lo hi = pos_part (clamp_int v (pos lo) (pos hi))

-- `optionalInt(value, min, max)`.
unfoldable pub optional_int : Option Parsed → ℕ → ℕ → Option ℕ
unfolding clamp_nat
optional_int none lo hi = none
optional_int (some v) lo hi = some (clamp_nat v lo hi)

-- `boolInt(value)`: false, "false", 0 and "0" are false, all else is true.
unfoldable pub bool_int : Json → Bool
bool_int (bool b) = b
bool_int (str s) = if str_eq s "false" then false else if str_eq s "0" then false else true
bool_int (num (pos n)) = elim n [ zero ↦ false | suc m ↦ true ]
bool_int v = true

pub data Strategy : Type 0 where
  fixed exponential : Strategy

pub record RetryPolicy : Type 0 where
  pub strategy : Strategy
  pub base_ms : ℕ
  pub max_delay_ms : ℕ
  pub jitter_ms : ℕ

-- A policy as a request gives it, once parsed: the object's fields, of any value.
pub record RetryInput : Type 0 where
  pub strategy : Option String
  pub base_ms : Option Parsed
  pub max_delay_ms : Option Parsed
  pub jitter_ms : Option Parsed

unfoldable pub read_strategy : Option String → Strategy
read_strategy none = exponential
read_strategy (some s) = if str_eq s "fixed" then fixed else exponential

-- `normalizeRetryPolicy(value)`; `none` is a value that is no object.
unfoldable pub normalize_retry_policy : Option RetryInput → Option RetryPolicy
unfolding read_strategy clamp_nat
normalize_retry_policy none = none
normalize_retry_policy (some p) = some record {
  strategy = read_strategy p.strategy;
  base_ms = clamp_nat (or_else p.base_ms (int (pos 2000))) 250 3600000;
  max_delay_ms = clamp_nat (or_else p.max_delay_ms (int (pos 300000))) 250 86400000;
  jitter_ms = clamp_nat (or_else p.jitter_ms (int (pos 0))) 0 3600000;
}

abbrev pub strategy_text : Strategy → String
strategy_text fixed = "fixed"
strategy_text exponential = "exponential"

-- A stored policy, read back from its column: `JSON.parse` of what `JSON.stringify` wrote.
abbrev pub as_input : RetryPolicy → RetryInput
as_input p = record {
  strategy = some (strategy_text p.strategy);
  base_ms = some (int (pos p.base_ms));
  max_delay_ms = some (int (pos p.max_delay_ms));
  jitter_ms = some (int (pos p.jitter_ms));
}

-- The base delay of `computeRetryDelayMs` before its jitter; attempts count from 1.
unfoldable pub base_delay : RetryPolicy → ℕ → ℕ
base_delay p attempts = elim p.strategy [
  | fixed ↦ p.base_ms
  | exponential ↦ p.base_ms * 2 ^ (attempts - 1)
]

-- The jitter, with what `Math.floor(Math.random() * n)` returns for each n as an argument.
unfoldable pub draw_jitter : (ℕ → ℕ) → ℕ → ℕ
draw_jitter random zero = 0
draw_jitter random (suc n) = random (suc n)

abbrev pub default_policy : RetryPolicy
default_policy = record {
  strategy = exponential;
  base_ms = 2000;
  max_delay_ms = 300000;
  jitter_ms = 0;
}

-- `normalizeRetryPolicy(policy) ?? { … }`.
unfoldable pub policy_in_use : RetryPolicy → RetryPolicy
unfolding normalize_retry_policy
policy_in_use p = or_else (normalize_retry_policy (some (as_input p))) default_policy

-- `computeRetryDelayMs(policy, attempts)`.
unfoldable pub compute_retry_delay_ms : (ℕ → ℕ) → RetryPolicy → ℕ → ℕ
unfolding base_delay draw_jitter policy_in_use
compute_retry_delay_ms random policy attempts =
    let p = policy_in_use policy in
    min p.max_delay_ms (base_delay p attempts + draw_jitter random p.jitter_ms)
