-- ===== src/Runtime/Handlers.antt =====
-- The handlers of the worker: `executeJob` and `durationForType` (src/worker/handlers.mjs), and
-- `executeWithTimeout` (src/worker/workerRuntime.mjs).
use distributed_job_queue_sc.Prelude.{
  ℕ, suc, String, Bool, true, false, ◌&&◌, [], ◌∷◌, Option, none, some, str_eq, concat,
  if◌then◌else◌, ltb, not, ◌≡◌,
}
use distributed_job_queue_sc.Prelude.Int.{ℤ, pos, ltb_ℤ}
use distributed_job_queue_sc.Text.{show}
use distributed_job_queue_sc.Json.{
  Json, null, bool, num, not_finite, str, obj, Fields, end, field, is_true,
}
use distributed_job_queue_sc.Model.{Job}
use distributed_job_queue_sc.Runtime.{Outcome, output, failed}

-- What the language makes of a value: `Number(text)`, and `String(value)`.
pub record Conversions : Type 0 where
  pub number_of : String → Option ℤ
  pub text_of : Json → String

unfoldable pub lookup_field : String → Fields → Json
lookup_field k end = null
lookup_field k (field j v fs) = if str_eq j k then v else lookup_field k fs

-- `payload.key`, with null for undefined: the code tests both alike.
unfoldable pub get_field : String → Json → Json
unfolding lookup_field
get_field k (obj fs) = lookup_field k fs
get_field k v = null

-- `a || b`, `a ?? b`.
unfoldable pub or_value : Json → Json → Json
unfolding is_true
or_value a b = if is_true a then a else b

unfoldable pub if_null : Json → Json → Json
if_null null b = b
if_null a b = a

-- `Number(value)`; `none` is NaN or an infinity.
unfoldable pub to_number : Conversions → Json → Option ℤ
to_number c null = some (pos 0)
to_number c (bool b) = some (pos (if b then 1 else 0))
to_number c (num n) = some n
to_number c not_finite = none
to_number c (str s) = c.number_of s
to_number c v = c.number_of (c.text_of v)

-- The number as JSON: one that is not finite is written as null.
unfoldable pub number_field : Conversions → Json → Json
unfolding to_number
number_field c v = elim (to_number c v) [ none ↦ null | some n ↦ num n ]

-- `Number(job.attempts) <= Number(value)`; no number is below NaN, every number is below an infinity.
unfoldable pub at_most : Conversions → ℕ → Json → Bool
unfolding to_number
at_most c n not_finite = true
at_most c n v = elim (to_number c v) [ none ↦ false | some m ↦ not (ltb_ℤ m (pos n)) ]

-- `text.slice(-n)`: the last n characters.
unfoldable pub text_length : String → ℕ
text_length String.[] = 0
text_length (String.◌∷◌ c s) = suc (text_length s)

unfoldable pub last_chars : ℕ → String → String
unfolding text_length
last_chars n String.[] = String.[]
last_chars n (String.◌∷◌ c s) =
    let rest = last_chars n s in if ltb n (suc (text_length s)) then rest else String.◌∷◌ c s

abbrev two_fields : String → Json → String → Json → Fields
two_fields k v j w = field k v (field j w end)

-- The output of a job that does not fail.
unfoldable pub job_output : Conversions → Job → Json
unfolding or_value if_null get_field number_field last_chars
job_output c j =
    let get = λ (k : String). get_field k j.payload in
    obj (
      field "action"
        (if str_eq j.type "email.digest"
          then str "email_sent"
          else if str_eq j.type "report.generate"
          then str "report_generated"
          else if str_eq j.type "webhook.deliver"
          then str "webhook_delivered"
          else if str_eq j.type "billing.reconcile"
          then str "billing_reconciled"
          else if str_eq j.type "cache.warm"
          then str "cache_warmed"
          else str "generic_completed")
        (if str_eq j.type "email.digest"
          then two_fields "recipient" (or_value (get "recipient") (str "user@example.com"))
              "template" (or_value (get "template") (str "daily-digest"))
          else if str_eq j.type "report.generate"
          then two_fields "reportId"
              (or_value (get "reportId") (str (concat ("report-" ∷ last_chars 6 j.id ∷ []))))
              "rowsProcessed" (number_field c (if_null (get "rows") (num (pos 250))))
          else if str_eq j.type "webhook.deliver"
          then two_fields "endpoint" (or_value (get "endpoint") (str "https://example.com/webhook"))
              "statusCode" (num (pos 200))
          else if str_eq j.type "billing.reconcile"
          then two_fields "accountId" (or_value (get "accountId") (str "acct-demo")) "invoiceCount"
              (number_field c (if_null (get "invoiceCount") (num (pos 12))))
          else if str_eq j.type "cache.warm"
          then field "keyPattern" (or_value (get "keyPattern") (str "dashboard:*")) end
          else field "type" (str j.type) end))

-- `new Error(payload.error || message)`.
unfoldable pub error_text : Conversions → Job → String → String
unfolding get_field is_true
error_text c j message =
    let given = get_field "error" j.payload in if is_true given then c.text_of given else message

-- `executeJob(job)`, after its sleep.
unfoldable pub execute_job : Conversions → Job → Outcome
unfolding get_field is_true at_most error_text job_output
execute_job c j =
    if is_true (get_field "failAlways" j.payload)
    then failed (error_text c j (concat ("Simulated permanent failure for " ∷ j.type ∷ [])))
    else if is_true (get_field "failUntilAttempt" j.payload)
        && at_most c j.attempts (get_field "failUntilAttempt" j.payload)
    then failed
        (error_text c j (concat ("Simulated retryable failure on attempt " ∷ show j.attempts ∷ [])))
    else output (job_output c j)

-- `durationForType(type)`.
unfoldable pub duration_for_type : String → ℕ
duration_for_type type =
    if str_eq type "report.generate"
    then 900
    else if str_eq type "billing.reconcile"
    then 700
    else if str_eq type "webhook.deliver"
    then 500
    else if str_eq type "cache.warm"
    then 350
    else 450

abbrev pub timeout_error : ℕ → Outcome
timeout_error ms = failed (concat ("Job timed out after " ∷ show ms ∷ "ms." ∷ []))

-- How `executeWithTimeout(job)` may end: as `executeJob` does, or, for a job with a time-out above
-- 0, by the timer.
pub data Executes (c : Conversions) (j : Job) : Outcome → Type 0 where
  handled : {o : Outcome} → o ≡ execute_job c j → Executes c j o
  timed_out :
      {o : Outcome} (ms : ℕ)
      → j.timeout_ms ≡ some (suc ms)
      → o ≡ timeout_error (suc ms)
      → Executes c j o
