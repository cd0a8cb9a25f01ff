-- ===== src/Steps.antt =====
-- What a method of the store does to the jobs table and the queues, as a sequence of atomic writes.
-- Each write is one statement of src/core/store.mjs, with the condition under which it runs.
pub mod Unique
pub mod Count
pub mod Lookup
pub mod Moves
pub mod Methods
pub mod Failures
pub mod Requests
pub mod Dispatch
pub mod Schedules
use distributed_job_queue_sc.Prelude.{
  ℕ, String, Bool, true, false, ◌||◌, ◌≡◌, List, [], ◌∷◌, ◌++◌, some, update_rows, any,
}
use distributed_job_queue_sc.Model.{Job, Store, is_running, is_terminal, is_failed}
use distributed_job_queue_sc.Jobs.{
  Change, claim, defer, renew, complete, release, fail, cancel, cancel_dependent, requeue,
  allow_attempts, expire_lease, time_out, where_row, set_row, get_job, replace_job, holds_lease,
}
use distributed_job_queue_sc.Jobs.Enqueue.{conflicts}
use distributed_job_queue_sc.Jobs.Finish.{give_up_lease}

-- The kinds of write: an update of one job, a new job, the leases that a worker gives up, and a
-- change to the queues.
pub data Write : Type 0 where
  row : Change → String → Write
  add : Job → Write
  give_up : String → Write
  configure : Write

-- What the code checked before an UPDATE whose WHERE clause is the id alone.
abbrev pub Ready : Change → Job → Type 0
Ready (fail retry error run_at hint at) j = is_running j.status ≡ true
Ready (expire_lease retry error hint at) j = is_running j.status ≡ true
Ready (requeue later run_at at) j = (is_terminal j.status || is_failed j.status) ≡ true
Ready c j = Unit

-- One write, of a kind that `A` allows.
pub data Step (A : Write → Type 0) (s t : Store) : Type 0 where
  same : t.jobs ≡ s.jobs → t.queues ≡ s.queues → Step A s t
  update :
      (c : Change) (id : String) (j : Job)
      → A (row c id)
      → get_job id s.jobs ≡ some j
      → where_row s c j ≡ true
      → Ready c j
      → t.jobs ≡ replace_job id (set_row c j) s.jobs
      → t.queues ≡ s.queues
      → Step A s t
  insert :
      (j : Job)
      → A (add j)
      → any (conflicts j) s.jobs ≡ false
      → t.jobs ≡ s.jobs ++ j ∷ []
      → t.queues ≡ s.queues
      → Step A s t
  drop_leases :
      (worker reason : String) (at : ℕ)
      → A (give_up worker)
      → t.jobs ≡ update_rows (λ j. holds_lease j worker) (give_up_lease reason at) s.jobs
      → t.queues ≡ s.queues
      → Step A s t
  set_queues : A configure → t.jobs ≡ s.jobs → Step A s t

-- A sequence of writes.
pub data Reach (A : Write → Type 0) (s : Store) : Store → Type 0 where
  here : Reach A s s
  next : {t u : Store} → Reach A s t → Step A t u → Reach A s u

module _ {A : Write → Type 0} where
  pub Reach-trans : {s t u : Store} → Reach A s t → Reach A t u → Reach A s u
  Reach-trans r here = r
  Reach-trans r (next q st) = next (Reach-trans r q) st

  pub Reach-one : {s t : Store} → Step A s t → Reach A s t
  Reach-one st = next here st

  -- What holds across every write, and composes, holds across a sequence.
  pub Reach_ind :
      (R : Store → Store → Type 0)
      → ((s : Store) → R s s)
      → ((s t u : Store) → R s t → Step A t u → R s u)
      → {s t : Store} → Reach A s t
      → R s t
  Reach_ind R base step {s} here = base s
  Reach_ind R base step {s} (next {t = t} {u = u} r st) = step s t u (Reach_ind R base step r) st
