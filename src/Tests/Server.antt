-- ===== src/Tests/Server.antt =====
-- Requests at a concrete store.
use distributed_job_queue_sc.Prelude.{List, true, false, ◌≡◌, refl, [], ◌∷◌, none, some, All}
use distributed_job_queue_sc.Prelude.Int.{pos}
use distributed_job_queue_sc.Json.{bool}
use distributed_job_queue_sc.Input.{int}
use distributed_job_queue_sc.Invariant.{WellFormed}
use distributed_job_queue_sc.Steps.Unique.{UniqueIds}
use distributed_job_queue_sc.Snapshots.{tables_of}
use distributed_job_queue_sc.Server.{get_method, post_method, Query, Body, Request, Platform}
use distributed_job_queue_sc.Server.Routes.{route_of}
use distributed_job_queue_sc.Server.Serve.{handle}
use distributed_job_queue_sc.Server.Answers.{handle-reads}
use distributed_job_queue_sc.Server.Safety.{NotImport, handle_all, handle_all-WellFormed}
use distributed_job_queue_sc.Queues.{queue_named}
use distributed_job_queue_sc.Tests.{store, request}
use distributed_job_queue_sc.Tests.Calls.{unique, sample-WellFormed}
use distributed_job_queue_sc.Tests.Plans.{nightly}
use distributed_job_queue_sc.Tests.Processes.{running_on_email, exported}

abbrev query : Query
query = record {
  autoscale = record {
    min_workers = none;
    max_workers = none;
    target_jobs_per_worker = none;
    target_queue_age_ms = none;
  };
  bucket_ms = 60000;
  series_limit = 20;
  filter = running_on_email;
}

abbrev body : Body
body = record {
  job = request;
  queue = queue_named "bulk";
  rate_limit = record {
    scope = "type";
    target = "webhook.deliver";
    limit_count = none;
    window_ms = none;
    enabled = none;
  };
  schedule = nightly;
  enabled = bool true;
  run_at = none;
  replay_queue = "";
  replay_type = "";
  replay_limit = int (pos 100);
  max_attempts = none;
  name = "Workflow";
  definitions = [];
  scenario = "";
  snapshot = exported;
  mode = "merge";
  older_than_days = int (pos 7);
  keep_last = int (pos 200);
  archive_limit = int (pos 500);
}

abbrev platform : Platform
platform = record {
  decode = λ t. some t;
  locale_before = λ a b. false;
  finds_file = λ path. false;
  bytes_before = 4096;
  bytes_after = 4096;
}

abbrev enqueue_request : Request
enqueue_request = record {
  method = post_method;
  pathname = "/api/jobs";
  query = query;
  content = some body;
}

enqueue-NotImport : NotImport platform enqueue_request
unfolding route_of
enqueue-NotImport parts e = refl

archive-NotImport :
    NotImport platform (record enqueue_request { pathname = "/api/maintenance/archive-jobs" })
unfolding route_of
archive-NotImport parts e = refl

-- Enqueue a job, then archive.
abbrev requests : List Request
requests =
    enqueue_request ∷ record enqueue_request { pathname = "/api/maintenance/archive-jobs" } ∷ []

handle_all-WellFormed_example :
    UniqueIds (handle_all platform requests store).jobs
    × All WellFormed (handle_all platform requests store).jobs
handle_all-WellFormed_example =
    handle_all-WellFormed platform requests store (enqueue-NotImport, (archive-NotImport, tt))
      unique sample-WellFormed

handle-reads_example :
    tables_of (handle platform (record enqueue_request { method = get_method }) store).1
    ≡ tables_of store
handle-reads_example =
    handle-reads platform (record enqueue_request { method = get_method }) store refl
