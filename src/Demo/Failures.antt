-- ===== src/Demo/Failures.antt =====
-- `injectFailureScenario` (src/core/store.mjs).
use distributed_job_queue_sc.Prelude.{
  ℕ, suc, zero, String, true, List, [], ◌∷◌, some, str_eq, concat, if◌then◌else◌,
}
use distributed_job_queue_sc.Prelude.Int.{sub_ℕ}
use distributed_job_queue_sc.Text.{show, or_text}
use distributed_job_queue_sc.Json.{bool, end, field}
use distributed_job_queue_sc.Input.{int}
use distributed_job_queue_sc.Model.{Job}
use distributed_job_queue_sc.Exec.{Exec, pure, ◌>>=◌, ◌>>◌}
use distributed_job_queue_sc.RateLimits.{upsert_rate_limit}
use distributed_job_queue_sc.Jobs.Enqueue.{JobInput, enqueue_job}
use distributed_job_queue_sc.Jobs.Workflow.{Definition, create_workflow}
use distributed_job_queue_sc.Demo.{whole, request, text, number, webhook_limit, depending}

abbrev one_attempt : JobInput → JobInput
one_attempt input = record input { max_attempts = whole 1 }

unfoldable pub inject_timeout : Exec (List Job)
inject_timeout = do
  job ←
      enqueue_job
        (record (one_attempt (
          request "critical" "webhook.deliver" "webhook"
            (text "endpoint" "https://example.com/slow" (number "durationMs" 1000 end)))) {
              timeout_ms = whole 10;
            })
  pure (job ∷ [])

unfoldable pub inject_permanent : Exec (List Job)
inject_permanent = do
  job ← enqueue_job (
      one_attempt (
        request "default" "webhook.deliver" "webhook" (
          text "endpoint" "https://example.com/fail" (
            field "failAlways" (bool true)
              (text "error" "Injected permanent upstream 503" (number "durationMs" 100 end))))))
  pure (job ∷ [])

-- The job of the burst with an index.
abbrev burst_job : ℕ → JobInput
burst_job index =
    record (request "critical" "webhook.deliver" "webhook" (
      text "endpoint" (concat ("https://example.com/burst/" ∷ show index ∷ []))
        (number "durationMs" 100 end))) { priority = some (int (sub_ℕ 5 index)) }

unfoldable pub burst_from : (left index : ℕ) → Exec (List Job)
burst_from zero index = pure []
burst_from (suc left) index = do
  job ← enqueue_job (burst_job index)
  rest ← burst_from left (suc index)
  pure (job ∷ rest)

unfoldable pub inject_burst : Exec (List Job)
inject_burst = do upsert_rate_limit (webhook_limit 1); burst_from 5 0

abbrev failing_definitions : List Definition
failing_definitions =
    record {
      key = "parent";
      job = one_attempt (
          request "default" "webhook.deliver" "webhook" (
            field "failAlways" (bool true)
              (text "error" "Injected parent failure" (number "durationMs" 100 end))));
    }
    ∷ record {
      key = "child";
      job = depending "parent" (
          request "critical" "email.digest" "email"
            (text "recipient" "ops@example.com" (number "durationMs" 100 end)));
    }
    ∷ []

unfoldable pub inject_dependency : Exec (List Job)
inject_dependency = do
  workflow ← create_workflow "Injected dependency failure" failing_definitions
  pure workflow.jobs

unfoldable pub inject_retryable : Exec (List Job)
inject_retryable = do
  job ←
      enqueue_job
        (record (request "default" "webhook.deliver" "webhook" (
          text "endpoint" "https://example.com/retry" (
            number "failUntilAttempt" 1
              (text "error" "Injected retryable upstream error" (number "durationMs" 100 end))))) {
                max_attempts = whole 3;
              })
  pure (job ∷ [])

-- `injectFailureScenario(kind)`: the jobs that it adds.
unfoldable pub inject_failure_scenario : String → Exec (List Job)
inject_failure_scenario kind =
    let scenario = or_text kind "retryable" in
    if str_eq scenario "timeout"
    then inject_timeout
    else if str_eq scenario "permanent"
    then inject_permanent
    else if str_eq scenario "rate_burst"
    then inject_burst
    else if str_eq scenario "dependency"
    then inject_dependency
    else inject_retryable
