-- ===== src/Server/Serve.antt =====
-- What each route does: the handler of `createApp` (src/server/server.mjs).
use distributed_job_queue_sc.Prelude.{
  ℕ, String, Bool, List, ◌++◌, Option, none, some, if◌then◌else◌,
}
use distributed_job_queue_sc.Prelude.Int.{pos}
use distributed_job_queue_sc.Input.{int}
use distributed_job_queue_sc.Model.{Job, Store}
use distributed_job_queue_sc.Exec.{Exec, Result, ok, err, pure, gets, ◌>>=◌, now_iso}
use distributed_job_queue_sc.Queues.{upsert_queue, toggle_queue}
use distributed_job_queue_sc.RateLimits.{upsert_rate_limit, list_rate_limits}
use distributed_job_queue_sc.Schedules.{create_schedule, toggle_schedule, run_schedule_now}
use distributed_job_queue_sc.Schedules.Dispatch.{dispatch_due_schedules}
use distributed_job_queue_sc.Jobs.Enqueue.{enqueue_job}
use distributed_job_queue_sc.Jobs.Workflow.{create_workflow}
use distributed_job_queue_sc.Jobs.Cancel.{cancel_job}
use distributed_job_queue_sc.Jobs.Requeue.{requeue_job, requeue_dead_letters}
use distributed_job_queue_sc.Jobs.Recover.{recover_stale_leases, recover_timed_out_jobs}
use distributed_job_queue_sc.Maintenance.{prune_events, archive_terminal_jobs}
use distributed_job_queue_sc.Queries.{list_jobs, list_job_events, get_idempotency_stats}
use distributed_job_queue_sc.Queries.Metrics.{get_metrics, get_autoscale_recommendation}
use distributed_job_queue_sc.Queries.Series.{
  State, get_state, get_throughput_series, get_worker_pools,
}
use distributed_job_queue_sc.Workers.{list_workers}
use distributed_job_queue_sc.Snapshots.{export_snapshot, import_and_read}
use distributed_job_queue_sc.Demo.{seed_demo_scenario, vacuum_database}
use distributed_job_queue_sc.Demo.Failures.{inject_failure_scenario}
use distributed_job_queue_sc.Server.{
  Query, Body, Request, Platform, route_parts, Payload, Response, error_status,
}
use distributed_job_queue_sc.Server.Routes

-- `await readJson(req)`: a body that is not JSON is a SyntaxError, which is answered by 400.
unfoldable pub with_body : Option Body → (Body → Exec Response) → Exec Response
with_body none f = pure (record { status = 400; payload = Payload.bad_syntax })
with_body (some body) f = f body

-- `sendJson(res, 200, …)` of what a query returns.
unfoldable pub reply : {A : Type 0} → (A → Payload) → Exec A → Exec Response
reply payload m = do a ← m; pure (record { status = 200; payload = payload a })

-- `sendChanged(res, clients, { …, state: getState() }, status)`.
unfoldable pub changed :
    {A : Type 0} → (String → String → Bool) → ℕ → (A → State → Payload) → Exec A → Exec Response
changed before status payload m = do
  a ← m
  state ← get_state before
  pure (record { status = status; payload = payload a state })

unfoldable pub recover_all : Exec (List Job)
recover_all = do
  at ← now_iso
  stale ← recover_stale_leases at
  later ← now_iso
  timed_out ← recover_timed_out_jobs later
  pure (stale ++ timed_out)

-- The handler of a route, for a path that decodes.
module _ (p : Platform) where
  unfoldable pub serve : Routes.Route → Query → Option Body → Exec Response
  serve Routes.health_route q b = pure (record { status = 200; payload = Payload.health })
  serve Routes.openapi_route q b = pure (record { status = 200; payload = Payload.openapi })
  serve Routes.state_route q b = reply Payload.state (get_state p.locale_before)
  serve Routes.metrics_route q b = reply Payload.metrics get_metrics
  serve Routes.autoscale_route q b =
      reply Payload.recommendation (get_autoscale_recommendation q.autoscale)
  serve Routes.series_route q b =
      reply Payload.series (gets (get_throughput_series q.bucket_ms q.series_limit))
  serve Routes.pools_route q b = do
    workers ← list_workers
    pure (record {
      status = 200;
      payload = Payload.worker_pools (get_worker_pools p.locale_before workers);
    })
  serve Routes.idempotency_route q b = reply Payload.idempotency (gets get_idempotency_stats)
  serve Routes.prometheus_route q b = reply Payload.prometheus get_metrics
  serve Routes.stream_route q b = reply Payload.stream (get_state p.locale_before)
  serve Routes.jobs_route q b = reply Payload.jobs (gets (list_jobs q.filter))
  serve Routes.limits_route q b = reply Payload.rate_limits list_rate_limits
  serve (Routes.job_events_route id) q b =
      reply Payload.events (gets (list_job_events id (int (pos 100))))
  serve Routes.export_route q b = reply Payload.snapshot export_snapshot
  serve Routes.set_limit_route q b = with_body b λ body.
      changed p.locale_before 201 Payload.changed_rate_limit (upsert_rate_limit body.rate_limit)
  serve Routes.set_queue_route q b =
      with_body b
        λ body. changed p.locale_before 201 Payload.changed_queue (upsert_queue body.queue)
  serve (Routes.toggle_queue_route name) q b =
      with_body b
        λ body. changed p.locale_before 200 Payload.changed_queue (toggle_queue name body.enabled)
  serve Routes.enqueue_route q b =
      with_body b λ body. changed p.locale_before 201 Payload.changed_job (enqueue_job body.job)
  serve (Routes.cancel_route id) q b =
      changed p.locale_before 200 Payload.changed_job (cancel_job id)
  serve (Routes.requeue_route id) q b =
      with_body b
        λ body. changed p.locale_before 200 Payload.changed_job (requeue_job id body.run_at)
  serve Routes.replay_route q b = with_body b λ body.
      changed p.locale_before 200 Payload.changed_jobs (
        requeue_dead_letters body.replay_queue body.replay_type body.replay_limit body.max_attempts)
  serve Routes.workflow_route q b = with_body b λ body.
      changed p.locale_before 201 Payload.changed_workflow
        (create_workflow body.name body.definitions)
  serve Routes.demo_route q b = changed p.locale_before 201 Payload.changed_demo seed_demo_scenario
  serve Routes.inject_route q b = with_body b λ body.
      changed p.locale_before 201 Payload.changed_jobs (inject_failure_scenario body.scenario)
  serve Routes.schedule_route q b =
      with_body b
        λ body. changed p.locale_before 201 Payload.changed_schedule (create_schedule body.schedule)
  serve (Routes.toggle_schedule_route id) q b =
      with_body b λ body.
        changed p.locale_before 200 Payload.changed_schedule (toggle_schedule id body.enabled)
  serve (Routes.run_now_route id) q b =
      changed p.locale_before 201 Payload.changed_job (run_schedule_now id)
  serve Routes.dispatch_route q b =
      changed p.locale_before 200 Payload.changed_dispatched
        (dispatch_due_schedules "api-manual" (int (pos 50)))
  serve Routes.recover_route q b = changed p.locale_before 200 Payload.changed_jobs recover_all
  serve Routes.import_route q b =
      with_body b
        λ body. reply Payload.state (import_and_read p.locale_before body.snapshot body.mode)
  serve Routes.vacuum_route q b =
      changed p.locale_before 200 Payload.changed_bytes
        (vacuum_database p.bytes_before p.bytes_after)
  serve Routes.prune_route q b = with_body b λ body.
      changed p.locale_before 200 Payload.changed_counts
        (prune_events body.older_than_days body.keep_last)
  serve Routes.archive_route q b = with_body b λ body.
      changed p.locale_before 200 Payload.changed_counts
        (archive_terminal_jobs body.older_than_days body.archive_limit)
  serve (Routes.static_route path) q b =
      if p.finds_file path
      then pure (record { status = 200; payload = Payload.static_file path })
      else pure (record { status = 404; payload = Payload.no_route })

  -- The `catch` of the handler.
  unfoldable pub or_error : Result Response → Response
  unfolding error_status
  or_error (ok r) = r
  or_error (err e) = record { status = error_status e; payload = Payload.failed_with e }

  unfoldable pub handle_parts : Request → Option (List String) → Store → Response × Store
  unfolding or_error serve
  handle_parts r none s = (record { status = 500; payload = Payload.bad_uri }, s)
  handle_parts r (some parts) s =
      let m = serve (Routes.route_of r.method r.pathname parts) r.query r.content in
      (or_error (m s).0, (m s).1)

  -- The handler: a response to every request, and the store after it. A path that does not decode is
  -- answered before the store is called.
  unfoldable pub handle : Request → Store → Response × Store
  unfolding handle_parts route_parts
  handle r s = handle_parts r (route_parts p.decode r.pathname) s
