-- ===== src/Outcomes/Insert.antt =====
-- The INSERT of `enqueueJob` and what comes before it (src/core/store.mjs).
use distributed_job_queue_sc.Prelude.Int.{pos, negsuc}
use distributed_job_queue_sc.Json.{Json}
use distributed_job_queue_sc.Input.{clamp_int, clamp_nat, int, optional_int, normalize_retry_policy}
use native.Mathlib.Omega.{arith}
use distributed_job_queue_sc.Prelude.{
  or_else, String, Bool, true, false, ◌≡◌, refl, ◌∙◌, List, [], ◌∷◌, ◌++◌, Option, none, some,
  Bool-cases, inl, inr, any, find, is_text, eq_refl, ◌⊎◌,
}
use distributed_job_queue_sc.Text.{empty_to_null, or_text, trim, normalize_name, normalize_id_list}
use distributed_job_queue_sc.Model.{Job, Store}
use distributed_job_queue_sc.Exec.{Exec, pure}
use distributed_job_queue_sc.Exec.Outcome.{
  Gives, Ends, SameJobs, pure-Gives, gets-Gives, weaken-Gives, bind-Gives, then-Gives,
  add_event-Gives, quiet-Ends,
}
use distributed_job_queue_sc.Queues.{ensure_queue, find_queue}
use distributed_job_queue_sc.Jobs.{get_job, find_job}
use distributed_job_queue_sc.Jobs.Enqueue.{
  null_if_empty, normalize_payload, JobInput, waiting_on, initial_status, check_payload,
  given_or_new, conflicts, insert_job, announce_dependencies, announce_job,
}
use distributed_job_queue_sc.Steps.{
  Write, configure, Step, same, set_queues, update, insert, drop_leases, Reach_ind,
}
use distributed_job_queue_sc.Steps.Unique.{UniqueIds}
use distributed_job_queue_sc.Steps.Moves.{IsQuiet, quiet_rules, if-IsQuiet, pure-IsQuiet}
use distributed_job_queue_sc.Steps.Requests.{ensure_queue-Moves}
use distributed_job_queue_sc.Outcomes.Update.{or_raise-Gives}

-- No write to the jobs.
abbrev pub QueuesOnly : Write → Type 0
QueuesOnly configure = Unit
QueuesOnly w = ⊥

pub Step-same_jobs : (s t : Store) → Step QueuesOnly s t → t.jobs ≡ s.jobs
Step-same_jobs s t (same e q) = e
Step-same_jobs s t (set_queues a e) = e
Step-same_jobs s t (update c id j a g w r e q) = absurd a
Step-same_jobs s t (insert j a f e q) = absurd a
Step-same_jobs s t (drop_leases worker reason at a e q) = absurd a

pub ensure_queue-same_jobs :
    (name : String) (s : Store) → UniqueIds s.jobs → (ensure_queue name s).1.jobs ≡ s.jobs
ensure_queue-same_jobs name s u =
    Reach_ind (λ s t. t.jobs ≡ s.jobs) (λ s. refl) (λ s t u e st. Step-same_jobs t u st ∙ e)
      ((ensure_queue-Moves {A = QueuesOnly} tt name).at s u tt)

pub find_queue-IsQuiet : (name : String) → IsQuiet (find_queue name)
unfolding find_queue
find_queue-IsQuiet name = search quiet_rules

pub check_payload-IsQuiet :
    (allow : Bool) (o : Option (List String)) → IsQuiet (check_payload allow o)
unfolding check_payload
check_payload-IsQuiet allow none = search quiet_rules
check_payload-IsQuiet allow (some []) = search quiet_rules
check_payload-IsQuiet allow (some (e ∷ es)) = search quiet_rules

pub given_or_new-IsQuiet :
    (o : Option String) (m : Exec String) → IsQuiet m → IsQuiet (given_or_new o m)
unfolding given_or_new
given_or_new-IsQuiet none m q = q
given_or_new-IsQuiet (some id) m q = if-IsQuiet _ m (pure id) q (pure-IsQuiet id)

module _ {B : Type 0} where
  pub quiet :
      (m : Exec B) (s t : Store)
      → t.jobs ≡ s.jobs
      → IsQuiet m
      → Ends m t (SameJobs s) (λ u. u.jobs ≡ s.jobs)
  quiet m s t e q = quiet-Ends m s t e (q.jobs t)

-- The fields of a job that are those of the request, each in its range.
pub record AsAsked (input : JobInput) (row : Job) : Type 0 where
  pub type : row.type ≡ trim (or_text input.type "generic.job")
  pub priority :
      row.priority ≡ clamp_int (or_else input.priority (int (pos 0))) (negsuc 999) (pos 1000)
  pub max_attempts : row.max_attempts ≡ clamp_nat (or_else input.max_attempts (int (pos 3))) 1 50
  pub timeout_ms : row.timeout_ms ≡ optional_int input.timeout_ms 1 86400000
  pub capabilities : row.required_capabilities ≡ normalize_id_list input.required_capabilities
  pub retry_policy : row.retry_policy ≡ normalize_retry_policy input.retry_policy
  pub idempotency_key : row.idempotency_key ≡ empty_to_null input.idempotency_key
  pub workflow_id : row.workflow_id ≡ empty_to_null input.workflow_id
  pub source_schedule_id : row.source_schedule_id ≡ null_if_empty input.source_schedule_id

-- The job that a request adds.
pub record Added (input : JobInput) (s : Store) (row : Job) (t : Store) : Type 0 where
  pub jobs : t.jobs ≡ s.jobs ++ row ∷ []
  pub alone : any (conflicts row) s.jobs ≡ false
  pub queue : row.queue ≡ normalize_name input.queue
  pub depends_on : row.depends_on ≡ normalize_id_list input.depends_on
  pub status : row.status ≡ initial_status (waiting_on s row.depends_on) row.run_at row.created_at
  pub attempts : row.attempts ≡ 0
  pub run_at : row.run_at ≡ or_else input.run_at row.created_at
  pub payload :
      (parse : String → Option Json) × (row.payload ≡ normalize_payload parse input.payload)
  pub asks : AsAsked input row

-- The job that was there with the request's idempotency key.
pub record Reused (input : JobInput) (s : Store) (row : Job) (t : Store) : Type 0 where
  pub jobs : t.jobs ≡ s.jobs
  pub key : String
  pub asked : input.idempotency_key ≡ some key
  pub first : find (λ j. is_text j.idempotency_key key) s.jobs ≡ some row

abbrev pub Enqueued : JobInput → Store → Job → Store → Type 0
Enqueued input s row t = Added input s row t ⊎ Reused input s row t

pub get_job-append_new :
    (new : Job) (js : List Job)
    → any (conflicts new) js ≡ false
    → get_job new.id (js ++ new ∷ []) ≡ some new
unfolding get_job find any conflicts
get_job-append_new new [] e = rw (eq_refl new.id) refl
get_job-append_new new (x ∷ js) e = ground (arith, get_job-append_new new js)

pub waiting_on-jobs :
    (s t : Store) (ids : List String) → t.jobs ≡ s.jobs → waiting_on t ids ≡ waiting_on s ids
unfolding waiting_on
waiting_on-jobs s t [] e = refl
waiting_on-jobs s t (id ∷ ids) e = rw (e, waiting_on-jobs s t ids e) refl

pub insert_job-Gives :
    (new : Job) (s : Store)
    → Gives (insert_job new) s (λ b t.
      ((b ≡ true) × (t.jobs ≡ s.jobs ++ new ∷ []) × (any (conflicts new) s.jobs ≡ false))
      ⊎ ((b ≡ false) × (t.jobs ≡ s.jobs)))
unfolding insert_job
insert_job-Gives new s = elim (Bool-cases (any (conflicts new) s.jobs)) [
  | inl e ↦ record { value = false; returns = rw e refl; post = rw e (inr (refl, refl)) }
  | inr e ↦ record { value = true; returns = rw e refl; post = rw e (inl (refl, refl, refl)) }
]

pub announce_dependencies-Gives :
    (id : String) (ids : List String) (s : Store)
    → Gives (announce_dependencies id ids) s (SameJobs s)
unfolding announce_dependencies
announce_dependencies-Gives id [] s = pure-Gives tt s refl
announce_dependencies-Gives id (x ∷ ids) s = add_event-Gives _ _ _ _ _ s

pub announce_job-Gives :
    (input : JobInput) (id : String) (depends_on : List String) (new : Job) (s : Store)
    → get_job id s.jobs ≡ some new
    → Gives (announce_job input id depends_on) s (λ row t. (row ≡ new) × (t.jobs ≡ s.jobs))
unfolding announce_job find_job
announce_job-Gives input id depends_on new s found =
    bind-Gives _ _ s found_it λ job t (is_new, same_t).
      then-Gives _ _ t (add_event-Gives _ _ _ _ _ t) λ _ u same_u.
        then-Gives _ _ u (announce_dependencies-Gives id depends_on u)
          λ _ v same_v. pure-Gives job v (is_new, same_v ∙ same_u ∙ same_t)
  where
    found_it : Gives (find_job id) s (λ x t. (x ≡ new) × (t.jobs ≡ s.jobs))
    found_it = bind-Gives _ _ s (gets-Gives (λ s. get_job id s.jobs) s) λ o t (picked, still).
        weaken-Gives _ t (or_raise-Gives _ o new t (picked ∙ found))
          λ x u (is_new, same_u). (is_new, same_u ∙ still)
