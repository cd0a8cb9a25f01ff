-- ===== src/Workers.antt =====
-- The workers table (src/core/store.mjs).
use distributed_job_queue_sc.Prelude.{
  ℕ, ◌+◌, String, List, [], ◌∷◌, ◌++◌, Option, str_eq, is_some, find, update_rows, ltb, sort_by,
  concat, if◌then◌else◌,
}
use distributed_job_queue_sc.Prelude.Int.{ℤ, pos, pos_part, ◌+ℤ◌}
use distributed_job_queue_sc.Text.{normalize_id_list, IdList, or_text}
use distributed_job_queue_sc.Input.{Parsed, clamp_nat}
use distributed_job_queue_sc.Model.{Worker, WorkerStatus, draining, offline}
use distributed_job_queue_sc.Exec.{Exec, ok, or_raise, gets, ◌>>=◌, ◌>>◌, now_iso}

pub record Heartbeat : Type 0 where
  pub worker_id : String
  pub queues : List String
  pub capabilities : IdList
  pub concurrency : Parsed
  pub active_jobs : ℤ
  pub status : WorkerStatus

unfoldable pub get_worker : String → List Worker → Option Worker
get_worker id = find (λ w. str_eq w.id id)

-- `findWorker(workerId)`.
unfoldable pub find_worker : String → Exec Worker
find_worker id = do
  row ← gets (λ s. get_worker id s.workers)
  or_raise (concat ("Worker not found: " ∷ id ∷ [])) row

-- The row of a first heartbeat.
unfoldable pub worker_row : Heartbeat → String → ℕ → Worker
unfolding normalize_id_list clamp_nat
worker_row h id at = record {
  id = id;
  queues = h.queues;
  capabilities = normalize_id_list h.capabilities;
  concurrency = clamp_nat h.concurrency 1 100;
  status = h.status;
  active_jobs = pos_part h.active_jobs;
  processed = 0;
  failed = 0;
  started_at = at;
  heartbeat_at = at;
  updated_at = at;
}

-- ON CONFLICT(id) DO UPDATE: the counters and the start time of the row stay.
unfoldable pub refresh_worker : Worker → Worker → Worker
refresh_worker new old = record new {
  processed = old.processed;
  failed = old.failed;
  started_at = old.started_at;
}

unfoldable pub put_worker : Worker → Exec (Unit {0})
unfolding get_worker refresh_worker
put_worker row s =
    if is_some (get_worker row.id s.workers)
    then (
      ok tt,
      record s { workers = update_rows (λ w. str_eq w.id row.id) (refresh_worker row) s.workers },
    )
    else (ok tt, record s { workers = s.workers ++ row ∷ [] })

-- `heartbeatWorker(…)`.
unfoldable pub heartbeat_worker : Heartbeat → Exec Worker
heartbeat_worker h = do
  at ← now_iso
  let id = or_text h.worker_id "worker-local"
  put_worker (worker_row h id at)
  find_worker id

-- UPDATE workers SET … WHERE id = ?
unfoldable pub update_worker : String → (Worker → Worker) → Exec (Unit {0})
update_worker id f s = (ok tt, record s { workers = update_rows (λ w. str_eq w.id id) f s.workers })

-- `incrementWorker(workerId, { processed, failed, activeJobs })`.
unfoldable pub increment_worker : String → ℕ → ℕ → ℤ → Exec (Unit {0})
increment_worker id processed failed active = do
  at ← now_iso
  update_worker id (λ w. record w {
    processed = w.processed + processed;
    failed = w.failed + failed;
    active_jobs = pos_part (pos w.active_jobs +ℤ active);
    heartbeat_at = at;
    updated_at = at;
  })

-- `markWorkerOffline(workerId)`.
unfoldable pub mark_worker_offline : String → Exec (Unit {0})
mark_worker_offline id = do
  at ← now_iso
  update_worker id (λ w. record w { status = offline; active_jobs = 0; updated_at = at })

-- `markWorkerDraining(workerId)`.
unfoldable pub mark_worker_draining : String → Exec (Unit {0})
mark_worker_draining id = do
  at ← now_iso
  update_worker id (λ w. record w { status = draining; updated_at = at })

-- `listWorkers()`.
unfoldable pub list_workers : Exec (List Worker)
list_workers = gets (λ s. sort_by (λ a b. ltb b.heartbeat_at a.heartbeat_at) s.workers)
