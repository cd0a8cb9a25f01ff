-- ===== src/Server/Routes.antt =====
-- Which route a request takes: the tests of `createApp` (src/server/server.mjs), in their order.
use distributed_job_queue_sc.Prelude.{
  String, Bool, true, false, ◌&&◌, List, ◌∷◌, Option, none, some, str_eq, if◌then◌else◌,
}
use distributed_job_queue_sc.Text.{is_empty}
use distributed_job_queue_sc.Server.{Method, get_method, post_method, other_method}

pub data Route : Type 0 where
  health_route openapi_route state_route metrics_route autoscale_route series_route pools_route
        idempotency_route prometheus_route stream_route jobs_route limits_route :
      Route
  set_limit_route set_queue_route enqueue_route replay_route workflow_route demo_route inject_route
        schedule_route dispatch_route recover_route export_route import_route vacuum_route
        prune_route archive_route :
      Route
  toggle_queue_route job_events_route cancel_route requeue_route toggle_schedule_route run_now_route
        static_route :
      String → Route

abbrev is_get : Method → Bool
is_get get_method = true
is_get _ = false

abbrev is_post : Method → Bool
is_post post_method = true
is_post _ = false

-- GET routes with a fixed path.
unfoldable pub get_route : String → Option Route
get_route path =
    if str_eq path "/health"
    then some health_route
    else if str_eq path "/openapi.json"
    then some openapi_route
    else if str_eq path "/api/state"
    then some state_route
    else if str_eq path "/api/metrics"
    then some metrics_route
    else if str_eq path "/api/autoscale/recommendation"
    then some autoscale_route
    else if str_eq path "/api/charts/throughput"
    then some series_route
    else if str_eq path "/api/worker-pools"
    then some pools_route
    else if str_eq path "/api/idempotency"
    then some idempotency_route
    else if str_eq path "/metrics"
    then some prometheus_route
    else if str_eq path "/api/events/stream"
    then some stream_route
    else if str_eq path "/api/jobs"
    then some jobs_route
    else if str_eq path "/api/rate-limits"
    then some limits_route
    else if str_eq path "/api/export"
    then some export_route
    else none

-- POST routes with a fixed path.
unfoldable pub post_route : String → Option Route
post_route path =
    if str_eq path "/api/rate-limits"
    then some set_limit_route
    else if str_eq path "/api/queues"
    then some set_queue_route
    else if str_eq path "/api/jobs"
    then some enqueue_route
    else if str_eq path "/api/dead-letter/replay"
    then some replay_route
    else if str_eq path "/api/workflows"
    then some workflow_route
    else if str_eq path "/api/demo/seed"
    then some demo_route
    else if str_eq path "/api/failures/inject"
    then some inject_route
    else if str_eq path "/api/schedules"
    then some schedule_route
    else if str_eq path "/api/scheduler/tick"
    then some dispatch_route
    else if str_eq path "/api/recover-leases"
    then some recover_route
    else if str_eq path "/api/import"
    then some import_route
    else if str_eq path "/api/maintenance/vacuum"
    then some vacuum_route
    else if str_eq path "/api/maintenance/prune-events"
    then some prune_route
    else if str_eq path "/api/maintenance/archive-jobs"
    then some archive_route
    else none

-- The routes that name a queue, a job or a schedule.
unfoldable pub named_route : Method → (kind name action : String) → Option Route
unfolding is_empty
named_route m kind name action =
    if is_empty name
    then none
    else if str_eq kind "queues"
    then (if is_post m && str_eq action "toggle" then some (toggle_queue_route name) else none)
    else if str_eq kind "jobs"
    then (if is_get m && str_eq action "events"
        then some (job_events_route name)
        else if is_post m && str_eq action "cancel"
        then some (cancel_route name)
        else if is_post m && str_eq action "requeue"
        then some (requeue_route name)
        else none)
    else if str_eq kind "schedules"
    then (if is_post m && str_eq action "toggle"
        then some (toggle_schedule_route name)
        else if is_post m && str_eq action "run-now"
        then some (run_now_route name)
        else none)
    else none

unfoldable pub parts_route : Method → List String → Option Route
unfolding named_route
parts_route m (root ∷ kind ∷ name ∷ action ∷ rest) =
    if str_eq root "api" then named_route m kind name action else none
parts_route m parts = none

unfoldable pub fixed_route : Method → String → Option Route
unfolding get_route post_route
fixed_route get_method path = get_route path
fixed_route post_method path = post_route path
fixed_route other_method path = none

unfoldable pub first_route : Option Route → Option Route → String → Route
first_route (some r) o path = r
first_route none (some r) path = r
first_route none none path = static_route path

-- A fixed path has no fourth part that a named route tests, so that the order of the two does not
-- matter; what is left is a file of the dashboard.
unfoldable pub route_of : Method → String → List String → Route
unfolding first_route fixed_route parts_route
route_of m path parts = first_route (fixed_route m path) (parts_route m parts) path
