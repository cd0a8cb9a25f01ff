-- ===== src/Guidance.antt =====
-- src/core/failureGuidance.mjs: the first rule with a pattern that occurs in the error.
use distributed_job_queue_sc.Prelude.{ℕ, String, Bool, List, [], ◌∷◌, any, find, or_else}
use distributed_job_queue_sc.Text.{contains}

pub record Rule : Type 0 where
  pub pattern : List String
  pub category : String
  pub cause : String
  pub action : String

-- `RULES`: each pattern is a choice of texts, read without regard to case.
abbrev pub rules : List Rule
rules =
    record {
      pattern = "timed out" ∷ "timeout" ∷ [];
      category = "timeout";
      cause = "The job exceeded its configured execution deadline.";
      action =
          "Increase timeoutMs only if the job is expected to be long-running; otherwise inspect downstream latency and split the job into smaller units.";
    }
    ∷ record {
      pattern = "lease expired" ∷ "drained out" ∷ "worker stopped" ∷ [];
      category = "worker_lifecycle";
      cause = "The worker lost ownership before the job reached a terminal state.";
      action =
          "Check worker shutdowns, heartbeat cadence, leaseMs, and whether the worker process is being terminated during active work.";
    }
    ∷ record {
      pattern = "payload validation" ∷ "schema" ∷ "invalid json" ∷ [];
      category = "schema";
      cause = "The submitted payload does not match the expected job contract.";
      action = "Fix the payload shape or update the schema for this job type before replaying.";
    }
    ∷ record {
      pattern = "429" ∷ "rate limit" ∷ "too many requests" ∷ [];
      category = "rate_limit";
      cause = "The target system or queue policy throttled dispatch.";
      action =
          "Reduce dispatch rate, widen the rate-limit window, or replay after the current window expires.";
    }
    ∷ record {
      pattern = "econn" ∷ "network" ∷ "upstream" ∷ "webhook" ∷ "503" ∷ "502" ∷ "504" ∷ [];
      category = "dependency";
      cause = "An external dependency was unavailable or returned an error.";
      action =
          "Validate the target endpoint, retry after dependency recovery, and consider a more conservative retry policy with jitter.";
    }
    ∷ record {
      pattern = "simulated" ∷ "failalways" ∷ "failuntilattempt" ∷ [];
      category = "demo_failure";
      cause = "The demo payload intentionally triggered a failure path.";
      action =
          "Remove failAlways/failUntilAttempt from the payload or requeue to demonstrate recovery behavior.";
    }
    ∷ []

abbrev pub unknown_rule : Rule
unknown_rule = record {
  pattern = [];
  category = "unknown";
  cause = "The worker reported an unclassified error.";
  action =
      "Review the job timeline, payload, worker logs, and retry policy before replaying from dead letter.";
}

pub record FailureHint : Type 0 where
  pub category : String
  pub likely_cause : String
  pub suggested_action : String
  pub job_type : String
  pub queue : String
  pub generated_at : ℕ

unfoldable pub matches : String → Rule → Bool
unfolding contains
matches message rule = any (λ piece. contains piece message) rule.pattern

-- `buildFailureGuidance(error, job)`, from the job's type and queue and the time of the call.
unfoldable pub build_failure_guidance : String → String → String → ℕ → FailureHint
unfolding matches
build_failure_guidance message type queue now =
    let rule = or_else (find (matches message) rules) unknown_rule in
    record {
      category = rule.category;
      likely_cause = rule.cause;
      suggested_action = rule.action;
      job_type = type;
      queue = queue;
      generated_at = now;
    }
