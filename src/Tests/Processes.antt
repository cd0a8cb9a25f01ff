-- ===== src/Tests/Processes.antt =====
-- A worker, queries and snapshots at concrete stores.
use distributed_job_queue_sc.Prelude.{
  ℕ, true, ◌≡◌, ◌≤◌, refl, [], ◌∷◌, none, some, All, length, map, all, find,
}
use distributed_job_queue_sc.Prelude.Int.{pos}
use distributed_job_queue_sc.Input.{int}
use distributed_job_queue_sc.Model.{Store, Status, snapshot_imported}
use distributed_job_queue_sc.Exec.{ok, now_iso, ◌>>=◌}
use distributed_job_queue_sc.Exec.Outcome.{Gives}
use distributed_job_queue_sc.Autoscaler.{sum}
use distributed_job_queue_sc.Jobs.{count_running}
use distributed_job_queue_sc.Jobs.Enqueue.{conflicts}
use distributed_job_queue_sc.Invariant.{WellFormed}
use distributed_job_queue_sc.Steps.Unique.{UniqueIds}
use distributed_job_queue_sc.Queries.{JobFilter}
use distributed_job_queue_sc.Queries.Metrics.{groups, all_statuses, queue_metrics}
use distributed_job_queue_sc.Queries.Counts.{metrics_counts}
use distributed_job_queue_sc.Runtime.{WorkerOptions, JobWorker, new_worker, beat, tick, after_tick}
use distributed_job_queue_sc.Runtime.Process.{Runs, begins, goes, starts, ticks}
use distributed_job_queue_sc.Runtime.Slots.{new_worker-Fits}
use distributed_job_queue_sc.Runtime.Integrity.{Runs-WellFormed}
use distributed_job_queue_sc.Snapshots.{
  Snapshot, tables_of, export_snapshot, import_snapshot, queue_clash,
}
use distributed_job_queue_sc.Snapshots.Roundtrip.{Noted, Consistent, import_snapshot-restores}
use distributed_job_queue_sc.Queues.{get_queue}
use distributed_job_queue_sc.Tests.{store, jobs, email}
use distributed_job_queue_sc.Tests.Calls.{unique, sample-WellFormed}
use distributed_job_queue_sc.Tests.Plans.{planned}

abbrev options : WorkerOptions
options = record {
  worker_id = "w2";
  queues = "email" ∷ [];
  capabilities = [];
  concurrency = none;
  lease_ms = none;
  backoff_base_ms = none;
  aging_interval_ms = 60000;
}

abbrev worker : JobWorker
worker = record (new_worker options) { running = true }

abbrev beaten : Store
beaten = (beat (new_worker options) store).1

abbrev ticked : JobWorker × Store
ticked = (after_tick worker (tick worker beaten).0, (tick worker beaten).1)

one_tick : Runs (new_worker options, store) ticked
one_tick = goes (goes begins (starts (new_worker options) store)) (ticks worker beaten refl)

new_worker-Fits_example :
    (length ticked.0.active ≤ ticked.0.concurrency) × (1 ≤ (new_worker options).concurrency)
new_worker-Fits_example = new_worker-Fits options store one_tick

Runs-WellFormed_example : UniqueIds ticked.1.jobs × All WellFormed ticked.1.jobs
Runs-WellFormed_example = Runs-WellFormed one_tick unique sample-WellFormed

abbrev pub running_on_email : JobFilter
running_on_email = record {
  status = some "running";
  queue = some "Email";
  type = none;
  worker_id = none;
  workflow_id = none;
  q = none;
  limit = int (pos 100);
}

metrics_counts_example :
    (sum (map (λ (g : Status × ℕ). g.1) (groups all_statuses jobs)) ≡ length jobs)
    × ((queue_metrics jobs email).stats.running ≡ count_running "email" jobs)
metrics_counts_example = metrics_counts jobs email

abbrev pub exported : Snapshot
exported = record { exported_at = 100000; tables = some (tables_of store) }

store-Consistent : Consistent store
unfolding queue_clash conflicts all get_queue find
store-Consistent = record {
  queues = (tt, tt);
  rate_limits = tt;
  jobs = search;
  schedules = tt;
  workers = tt;
  events = tt;
  job_archive = tt;
  job_queues = refl;
  schedule_queues = refl;
}

exports : (export_snapshot store).0 ≡ ok exported
unfolding export_snapshot tables_of ◌>>=◌ now_iso
exports = refl

import_snapshot-restores_example :
    Gives (import_snapshot exported "replace") planned (λ _ u. Noted snapshot_imported store u)
import_snapshot-restores_example =
    import_snapshot-restores store planned exported exports store-Consistent
