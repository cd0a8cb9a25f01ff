-- ===== src/Server/Answers.antt =====
-- Requests that only read (src/server/server.mjs).
use distributed_job_queue_sc.Prelude.{
  ℕ, String, Bool, true, false, ◌≡◌, refl, List, [], ◌∷◌, Option, none, some, str_eq, if◌then◌else◌,
}
use distributed_job_queue_sc.Model.{Store}
use distributed_job_queue_sc.Exec.{now_iso}
use distributed_job_queue_sc.Exec.Frame.{Keeps, keeps_rules}
use distributed_job_queue_sc.Queues.{list_queues}
use distributed_job_queue_sc.Workers.{list_workers}
use distributed_job_queue_sc.RateLimits.{list_rate_limits}
use distributed_job_queue_sc.Autoscaler.{Options}
use distributed_job_queue_sc.Queries.Metrics.{
  get_metrics, pending_age, get_autoscale_recommendation,
}
use distributed_job_queue_sc.Queries.Series.{get_state}
use distributed_job_queue_sc.Snapshots.{tables_of, export_snapshot}
use distributed_job_queue_sc.Server.{get_method, Query, Body, Request, Platform, route_parts}
use distributed_job_queue_sc.Server.Routes
use distributed_job_queue_sc.Server.Routes.{
  Route, get_route, parts_route, named_route, fixed_route, first_route, route_of,
}
use distributed_job_queue_sc.Server.Serve.{serve, reply, handle_parts, handle}

now_iso-Keeps : Keeps tables_of now_iso
unfolding now_iso tables_of
now_iso-Keeps = record { at = λ s. refl }

pending_age-Keeps : (t : Option ℕ) → Keeps tables_of (pending_age t)
unfolding pending_age
pending_age-Keeps none = search keeps_rules
pending_age-Keeps (some t) = search (keeps_rules, now_iso-Keeps)

list_queues-Keeps : Keeps tables_of list_queues
unfolding list_queues
list_queues-Keeps = search keeps_rules

list_workers-Keeps : Keeps tables_of list_workers
unfolding list_workers
list_workers-Keeps = search keeps_rules

list_rate_limits-Keeps : Keeps tables_of list_rate_limits
unfolding list_rate_limits
list_rate_limits-Keeps = search keeps_rules

ruleset read_rules = (
  keeps_rules, now_iso-Keeps, pending_age-Keeps, list_queues-Keeps, list_workers-Keeps,
  list_rate_limits-Keeps,
)

get_metrics-Keeps : Keeps tables_of get_metrics
unfolding get_metrics
get_metrics-Keeps = search (read_rules) depth 20

get_autoscale_recommendation-Keeps :
    (o : Options) → Keeps tables_of (get_autoscale_recommendation o)
unfolding get_autoscale_recommendation
get_autoscale_recommendation-Keeps o = search (read_rules, get_metrics-Keeps) depth 20

pub get_state-Keeps : (before : String → String → Bool) → Keeps tables_of (get_state before)
unfolding get_state
get_state-Keeps before =
    search (read_rules, get_metrics-Keeps, get_autoscale_recommendation-Keeps) depth 30

export_snapshot-Keeps : Keeps tables_of export_snapshot
unfolding export_snapshot
export_snapshot-Keeps = search read_rules

-- The routes of GET requests.
abbrev pub is_read : Route → Bool
is_read Routes.health_route = true
is_read Routes.openapi_route = true
is_read Routes.state_route = true
is_read Routes.metrics_route = true
is_read Routes.autoscale_route = true
is_read Routes.series_route = true
is_read Routes.pools_route = true
is_read Routes.idempotency_route = true
is_read Routes.prometheus_route = true
is_read Routes.stream_route = true
is_read Routes.jobs_route = true
is_read Routes.limits_route = true
is_read Routes.export_route = true
is_read (Routes.job_events_route id) = true
is_read (Routes.static_route path) = true
is_read r = false

ruleset serve_rules = (
  read_rules, get_metrics-Keeps, get_autoscale_recommendation-Keeps, get_state-Keeps,
  export_snapshot-Keeps,
)

pub serve-Keeps :
    (p : Platform) (r : Route) (q : Query) (b : Option Body)
    → is_read r ≡ true
    → Keeps tables_of (serve p r q b)
unfolding serve reply
serve-Keeps p Routes.health_route q b h = search serve_rules
serve-Keeps p Routes.openapi_route q b h = search serve_rules
serve-Keeps p Routes.state_route q b h = search serve_rules
serve-Keeps p Routes.metrics_route q b h = search serve_rules
serve-Keeps p Routes.autoscale_route q b h = search serve_rules
serve-Keeps p Routes.series_route q b h = search serve_rules
serve-Keeps p Routes.pools_route q b h = search serve_rules
serve-Keeps p Routes.idempotency_route q b h = search serve_rules
serve-Keeps p Routes.prometheus_route q b h = search serve_rules
serve-Keeps p Routes.stream_route q b h = search serve_rules
serve-Keeps p Routes.jobs_route q b h = search serve_rules
serve-Keeps p Routes.limits_route q b h = search serve_rules
serve-Keeps p Routes.export_route q b h = search serve_rules
serve-Keeps p (Routes.job_events_route id) q b h = search serve_rules
serve-Keeps p (Routes.static_route path) q b h = search serve_rules
serve-Keeps p _ q b h = absurd cc

abbrev Reads : Option Route → Type 0
Reads none = Unit
Reads (some r) = is_read r ≡ true

if-Reads : (b : Bool) (x y : Option Route) → Reads x → Reads y → Reads (if b then x else y)
if-Reads true x y h k = h
if-Reads false x y h k = k

get_route-Reads : (path : String) → Reads (get_route path)
unfolding get_route
get_route-Reads path = search (if-Reads) depth 40

named_route-Reads : (kind name action : String) → Reads (named_route get_method kind name action)
unfolding named_route
named_route-Reads kind name action = search (if-Reads) depth 40

parts_route-Reads : (parts : List String) → Reads (parts_route get_method parts)
unfolding parts_route
parts_route-Reads [] = tt
parts_route-Reads (a ∷ []) = tt
parts_route-Reads (a ∷ b ∷ []) = tt
parts_route-Reads (a ∷ b ∷ c ∷ []) = tt
parts_route-Reads (a ∷ b ∷ c ∷ d ∷ rest) =
    if-Reads (str_eq a "api") _ none (named_route-Reads b c d) tt

first_route-Reads :
    (o k : Option Route) (path : String) → Reads o → Reads k → is_read (first_route o k path) ≡ true
unfolding first_route
first_route-Reads (some r) k path h l = h
first_route-Reads none (some r) path h l = l
first_route-Reads none none path h l = refl

route_of-read :
    (path : String) (parts : List String) → is_read (route_of get_method path parts) ≡ true
unfolding route_of fixed_route
route_of-read path parts =
    first_route-Reads (get_route path) (parts_route get_method parts) path (get_route-Reads path)
      (parts_route-Reads parts)

handle_parts-reads :
    (p : Platform) (r : Request) (o : Option (List String)) (s : Store)
    → r.method ≡ get_method
    → tables_of (handle_parts p r o s).1 ≡ tables_of s
unfolding handle_parts
handle_parts-reads p r none s h = refl
handle_parts-reads p r (some parts) s h =
    (serve-Keeps p (route_of r.method r.pathname parts) r.query r.content
        (rw h (route_of-read r.pathname parts))).at
      s

-- No GET request changes a table of the store.
pub handle-reads :
    (p : Platform) (r : Request) (s : Store)
    → r.method ≡ get_method
    → tables_of (handle p r s).1 ≡ tables_of s
unfolding handle
handle-reads p r s h = handle_parts-reads p r (route_parts p.decode r.pathname) s h
