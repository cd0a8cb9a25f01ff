-- ===== src/Api/Lifecycle.antt =====
-- What becomes of one job while nothing replays it (src/core/store.mjs).
use distributed_job_queue_sc.Prelude.{String, true, false, ◌≡◌, ◌≤◌, some}
use distributed_job_queue_sc.Model.{Job, Store, is_terminal}
use distributed_job_queue_sc.Jobs.{get_job}
use distributed_job_queue_sc.Steps.{Write, row}
use distributed_job_queue_sc.Api.{is_replay_change}

-- Every write but those of a replay.
abbrev NoReplay : Write → Type 0
NoReplay (row c id) = is_replay_change c ≡ false
NoReplay w = Unit

-- The later row of a job: the request is as it was, attempts are never taken back, and a job that has
-- ended does not change at all.
pub record Evolves (a b : Job) : Type 0 where
  pub id : b.id ≡ a.id
  pub queue : b.queue ≡ a.queue
  pub type : b.type ≡ a.type
  pub payload : b.payload ≡ a.payload
  pub depends_on : b.depends_on ≡ a.depends_on
  pub idempotency_key : b.idempotency_key ≡ a.idempotency_key
  pub workflow_id : b.workflow_id ≡ a.workflow_id
  pub priority : b.priority ≡ a.priority
  pub max_attempts : b.max_attempts ≡ a.max_attempts
  pub created_at : b.created_at ≡ a.created_at
  pub attempts : a.attempts ≤ b.attempts
  pub ended : is_terminal a.status ≡ true → b ≡ a

-- The job of an id, later.
abbrev pub Later : String → Store → Store → Type 0
Later id s t =
    (a : Job) → get_job id s.jobs ≡ some a → (b : Job) × (get_job id t.jobs ≡ some b) × Evolves a b
