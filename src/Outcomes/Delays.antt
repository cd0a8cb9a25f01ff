-- ===== src/Outcomes/Delays.antt =====
-- The retry delay of `failJob` (src/core/store.mjs), and the policy it is computed with.
use distributed_job_queue_sc.Prelude.{ℕ, ◌≤◌, ◌<◌, min, String, ◌≡◌, refl, Option, some, ap}
use distributed_job_queue_sc.Input.{RetryPolicy, base_delay, policy_in_use}
use distributed_job_queue_sc.Input.Bounds.{compute_retry_delay_bounds}
use distributed_job_queue_sc.Model.{Job, Store}
use distributed_job_queue_sc.Exec.{pure, random_below, now_iso, gets, or_raise, ◌>>=◌}
use distributed_job_queue_sc.Exec.Outcome.{Gives, SameJobs, pure-Gives, bind-Gives, now_iso-Gives}
use distributed_job_queue_sc.Jobs.Finish.{held_job, guidance, retry_delay, resolve_retry_policy}

-- `Math.floor(Math.random() * n)` is below n.
abbrev pub Fair : Store → Type 0
Fair s = (k n : ℕ) → 0 < n → s.world.random k n < n

-- The policy that the delay is computed with.
unfoldable pub effective_policy : Store → Job → ℕ → RetryPolicy
unfolding resolve_retry_policy
effective_policy s j base = policy_in_use (resolve_retry_policy s j base)

-- The base delay, if the longest delay allows it, and no more than that.
abbrev pub DelayWithin : RetryPolicy → ℕ → ℕ → Type 0
DelayWithin p attempts d = (min p.max_delay_ms (base_delay p attempts) ≤ d) × (d ≤ p.max_delay_ms)

-- Jobs, queues and the source of random numbers are as they were.
abbrev pub Still : {B : Type 0} → Store → B → Store → Type 0
Still s b t = (t.jobs ≡ s.jobs) × (t.queues ≡ s.queues) × (Fair s → Fair t)

pub now_iso-Still : (s : Store) → Gives now_iso s (Still s)
unfolding now_iso
now_iso-Still s = record { value = _; returns = refl; post = (refl, refl, λ f. f) }

pub gets-Still :
    {B : Type 0} (f : Store → B) (s : Store) → Gives (gets f) s (λ b t. (b ≡ f s) × Still s b t)
unfolding gets
gets-Still f s = record { value = f s; returns = refl; post = (refl, (refl, refl, λ f. f)) }

pub held_job-jobs :
    (id worker : String) (s t : Store)
    → t.jobs ≡ s.jobs
    → held_job id worker t ≡ held_job id worker s
unfolding held_job
held_job-jobs id worker s t e = rw e refl

pub retry_delay-Gives :
    (p : RetryPolicy) (attempts : ℕ) (s : Store)
    → Fair s
    → Gives
        (retry_delay p attempts)
        s
        (λ d t. DelayWithin (policy_in_use p) attempts d × (t.jobs ≡ s.jobs))
unfolding retry_delay random_below pure ◌>>=◌
retry_delay-Gives p attempts s f =
    let (normal, high, low, within) =
      compute_retry_delay_bounds (s.world.random s.world.reads) p attempts (f s.world.reads) in
    record { value = _; returns = refl; post = ((low, high), refl) }

pub guidance-Gives :
    (error : String) (j : Job) (s : Store) → Gives (guidance error j) s (SameJobs s)
unfolding guidance
guidance-Gives error j s = bind-Gives _ _ s (now_iso-Gives s) λ at t e. pure-Gives _ t e

pub resolve_retry_policy-queues :
    (s t : Store) (j : Job) (base : ℕ)
    → t.queues ≡ s.queues
    → resolve_retry_policy t j base ≡ resolve_retry_policy s j base
unfolding resolve_retry_policy
resolve_retry_policy-queues s t j base e = rw e refl

pub effective_policy-queues :
    (s t : Store) (j : Job) (base : ℕ)
    → t.queues ≡ s.queues
    → effective_policy t j base ≡ effective_policy s j base
unfolding effective_policy
effective_policy-queues s t j base e = ap policy_in_use (resolve_retry_policy-queues s t j base e)

pub or_raise-Still :
    {B : Type 0} (message : String) (o : Option B) (b : B) (s : Store)
    → o ≡ some b
    → Gives (or_raise message o) s (λ x t. (x ≡ b) × Still s x t)
unfolding or_raise pure
or_raise-Still message o b s e =
    rw e record { value = b; returns = refl; post = (refl, (refl, refl, λ f. f)) }
