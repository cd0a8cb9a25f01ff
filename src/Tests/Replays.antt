-- ===== src/Tests/Replays.antt =====
-- The theorems on requeues, renewals and scaling, at the sample store.
use distributed_job_queue_sc.Model.{Worker, online, draining, offline}
use distributed_job_queue_sc.Prelude.{List, ◌+◌, ◌≡◌, refl, [], ◌∷◌, none, some, find}
use distributed_job_queue_sc.Exec.{failure}
use distributed_job_queue_sc.Exec.Outcome.{Gives, Throws}
use distributed_job_queue_sc.Jobs.{get_job}
use distributed_job_queue_sc.Jobs.Finish.{renew_lease, held_job}
use distributed_job_queue_sc.Jobs.Requeue.{requeue_job, not_requeueable}
use distributed_job_queue_sc.Outcomes.Requeue.{
  Fresh, requeue_job-Fresh, requeue_job-not_requeueable, renew_lease-renews,
}
use distributed_job_queue_sc.Prelude.Int.{pos}
use distributed_job_queue_sc.Input.{int}
use distributed_job_queue_sc.Autoscaler.{QueueStats, Options, recommend_autoscale}
use distributed_job_queue_sc.Autoscaler.Laws.{Coherent, recommend_autoscale-Coherent}
use distributed_job_queue_sc.Tests.{store, jobs, done_job, first_try}

found_done : get_job "job-0" jobs ≡ some done_job
unfolding get_job find
found_done = refl

found_running : get_job "job-1" jobs ≡ some first_try
unfolding get_job find
found_running = refl

holds_running : held_job "job-1" "w1" store ≡ some first_try
unfolding held_job find
holds_running = refl

requeue_job-Fresh_example :
    Gives
      (requeue_job "job-0" (some 500))
      store
      (λ row t. Fresh row × (row.run_at ≡ 500) × (get_job "job-0" t.jobs ≡ some row))
requeue_job-Fresh_example = requeue_job-Fresh "job-0" 500 store done_job found_done refl

requeue_job-not_requeueable_example :
    Throws (requeue_job "job-1" none) store (failure not_requeueable) (λ t. t.jobs ≡ jobs)
requeue_job-not_requeueable_example =
    requeue_job-not_requeueable "job-1" none store first_try found_running refl

renew_lease-renews_example : Gives (renew_lease "job-1" "w1" 30000) store (λ row t.
    (row ≡ record first_try {
      lease_expires_at = some (row.updated_at + 30000);
      updated_at = row.updated_at;
    })
    × (get_job "job-1" t.jobs ≡ some row))
renew_lease-renews_example = renew_lease-renews "job-1" "w1" 30000 store first_try holds_running

abbrev loads : List QueueStats
loads = record { queued = 30; scheduled = 2; running = 2; dead_letter = 1 } ∷ []

abbrev idle : Worker
idle = record {
  id = "w7";
  queues = "email" ∷ [];
  capabilities = [];
  concurrency = 2;
  status = online;
  active_jobs = 0;
  processed = 0;
  failed = 0;
  started_at = 1;
  heartbeat_at = 1;
  updated_at = 1;
}

-- Three workers, of which two are active.
abbrev pool : List Worker
pool =
    idle
    ∷ record idle { id = "w8"; status = draining }
    ∷ record idle { id = "w9"; status = offline }
    ∷ []

abbrev at_most_twenty : Options
at_most_twenty = record {
  min_workers = none;
  max_workers = some (int (pos 20));
  target_jobs_per_worker = none;
  target_queue_age_ms = none;
}

recommend_autoscale-Coherent_example :
    Coherent loads 90000 pool at_most_twenty (recommend_autoscale loads 90000 pool at_most_twenty 5)
recommend_autoscale-Coherent_example =
    recommend_autoscale-Coherent loads 90000 pool at_most_twenty 5
