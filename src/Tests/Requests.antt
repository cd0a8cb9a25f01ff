-- ===== src/Tests/Requests.antt =====
-- The theorems on what a request holds, at concrete requests.
use native.Mathlib.Omega.{arith}
use distributed_job_queue_sc.Prelude.{
  ◌+◌, ◌-◌, ◌≤◌, min, false, ◌≡◌, refl, ◌↔◌, [], ◌∷◌, none, some,
}
use distributed_job_queue_sc.Prelude.Int.{pos}
use distributed_job_queue_sc.Text.{normalize_name, is_empty}
use distributed_job_queue_sc.Text.Names.{IsNameText, normalize_name-IsNameText}
use distributed_job_queue_sc.Json.{str, obj, field, end}
use distributed_job_queue_sc.Schemas.{
  Schema, string, number, boolean, validate_payload, get_property, job_schemas, own,
}
use distributed_job_queue_sc.Schemas.Laws.{Accepts, validate_payload_iff}
use distributed_job_queue_sc.Input.{
  nan, int, RetryPolicy, RetryInput, exponential, normalize_retry_policy, base_delay,
  compute_retry_delay_ms, policy_in_use,
}
use distributed_job_queue_sc.Input.Bounds.{
  IsNormal, compute_retry_delay_bounds, normalize_retry_policy-IsNormal,
}

abbrev policy : RetryPolicy
policy = record { strategy = exponential; base_ms = 1000; max_delay_ms = 3000; jitter_ms = 10 }

policy-IsNormal : IsNormal policy
policy-IsNormal = record {
  base_low = omega arith;
  base_high = omega arith;
  delay_low = omega arith;
  delay_high = omega arith;
  jitter_high = omega arith;
}

-- A stored policy out of range.
abbrev short_policy : RetryPolicy
short_policy = record policy { max_delay_ms = 0 }

compute_retry_delay_bounds_example :
    IsNormal (policy_in_use short_policy)
    × (compute_retry_delay_ms (λ n. n - 1) short_policy 3
        ≤ (policy_in_use short_policy).max_delay_ms)
    × (min (policy_in_use short_policy).max_delay_ms (base_delay (policy_in_use short_policy) 3)
        ≤ compute_retry_delay_ms (λ n. n - 1) short_policy 3)
    × (compute_retry_delay_ms (λ n. n - 1) short_policy 3
        ≤ base_delay (policy_in_use short_policy) 3 + (policy_in_use short_policy).jitter_ms)
compute_retry_delay_bounds_example =
    compute_retry_delay_bounds (λ n. n - 1) short_policy 3 (λ n h. omega arith)

abbrev rough_input : RetryInput
rough_input = record {
  strategy = some "linear";
  base_ms = some (int (pos 1));
  max_delay_ms = some nan;
  jitter_ms = none;
}

abbrev rough_policy : RetryPolicy
rough_policy = record { strategy = exponential; base_ms = 250; max_delay_ms = 250; jitter_ms = 0 }

rough_reads : normalize_retry_policy (some rough_input) ≡ some rough_policy
unfolding normalize_retry_policy
rough_reads = refl

normalize_retry_policy-IsNormal_example : IsNormal rough_policy
normalize_retry_policy-IsNormal_example =
    normalize_retry_policy-IsNormal (some rough_input) rough_policy rough_reads

normalize_name-IsNameText_example :
    IsNameText (normalize_name " My Queue!") × (is_empty (normalize_name " My Queue!") ≡ false)
normalize_name-IsNameText_example = normalize_name-IsNameText " My Queue!"

abbrev cache_schema : Schema
cache_schema =
    ("keyPattern", string)
    ∷ ("durationMs", number)
    ∷ ("failAlways", boolean)
    ∷ ("failUntilAttempt", number)
    ∷ []

cache_known : get_property "cache.warm" job_schemas ≡ own cache_schema
unfolding get_property
cache_known = refl

validate_payload_iff_example :
    (validate_payload "cache.warm" (obj (field "keyPattern" (str "user:*") end)) ≡ some [])
    ↔ Accepts cache_schema (obj (field "keyPattern" (str "user:*") end))
validate_payload_iff_example =
    validate_payload_iff "cache.warm" cache_schema (obj (field "keyPattern" (str "user:*") end))
      cache_known
