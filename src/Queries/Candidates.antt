-- ===== src/Queries/Candidates.antt =====
-- The candidates of a claim, and their order (`claimJobs`, src/core/store.mjs).
use distributed_job_queue_sc.Queues.{get_queue}
use distributed_job_queue_sc.Prelude.{
  ◌/◌, ◌-◌, some, ◌<◌, if◌then◌else◌, includes, leb, ◌⊎◌, ℕ, ◌≤◌, String, true, ◌≡◌, List,
}
use distributed_job_queue_sc.Prelude.Int.{sub_ℕ, ◌+ℤ◌, ℤ, ltb_ℤ, pos}
use distributed_job_queue_sc.Model.{Queue, scheduled, queued, Store, Job}
use distributed_job_queue_sc.Jobs.{count_running}

-- A job may be claimed.
pub record Dispatchable (s : Store) (queues : List String) (now : ℕ) (j : Job) : Type 0 where
  pub status : (j.status ≡ queued) ⊎ (j.status ≡ scheduled)
  pub due : j.run_at ≤ now
  pub asked : includes j.queue queues ≡ true
  pub row : Queue
  pub found : get_queue j.queue s.queues ≡ some row
  pub enabled : row.enabled ≡ true
  pub room : count_running j.queue s.jobs < row.concurrency

-- The score of a job: its priority and, by each full aging interval since its creation, one more.
abbrev pub score : (now aging : ℕ) → Job → ℤ
score now aging j =
    j.priority
    +ℤ (if leb j.created_at now
        then pos ((now - j.created_at) / aging)
        else sub_ℕ 0 ((j.created_at - now) / aging))

-- In the order of dispatch, `b` may follow `a`: its score is lower; or the same, and it is due later; or
-- at the same time, and it is not older.
abbrev pub MayFollow : (now aging : ℕ) → Job → Job → Type 0
MayFollow now aging a b =
    (ltb_ℤ (score now aging b) (score now aging a) ≡ true)
    ⊎ ((score now aging b ≡ score now aging a)
        × ((a.run_at < b.run_at) ⊎ ((a.run_at ≡ b.run_at) × (a.created_at ≤ b.created_at))))
