-- ===== src/Server/Safety.antt =====
-- The jobs table under requests (src/server/server.mjs).
use distributed_job_queue_sc.Prelude.{
  ℕ, String, Bool, true, false, ◌≡◌, refl, List, [], ◌∷◌, Option, none, some, All, ap, subst,
}
use distributed_job_queue_sc.Prelude.Int.{pos}
use distributed_job_queue_sc.Input.{int}
use distributed_job_queue_sc.Model.{Store}
use distributed_job_queue_sc.Exec.{Exec}
use distributed_job_queue_sc.Exec.Frame.{Keeps}
use distributed_job_queue_sc.Steps.{Reach}
use distributed_job_queue_sc.Steps.Unique.{UniqueIds}
use distributed_job_queue_sc.Steps.Moves.{Moves, IsQuiet, quiet-Moves, moves_rules, bind-Moves}
use distributed_job_queue_sc.Steps.Failures.{recover_stale_leases-Moves}
use distributed_job_queue_sc.Steps.Dispatch.{recover_timed_out_jobs-Moves}
use distributed_job_queue_sc.Invariant.{WellFormed, Sound}
use distributed_job_queue_sc.Api.{
  Call, perform, enqueue_call, workflow_call, cancel_call, requeue_call, replay_call, queue_call,
  toggle_call, limit_call, schedule_call, pause_call, run_call, dispatch_call,
}
use distributed_job_queue_sc.Api.Performs.{perform-Reach, prune_events-Moves}
use distributed_job_queue_sc.Api.Integrity.{Sound-Allows}
use distributed_job_queue_sc.Maintenance.Integrity.{
  Healthy, Holds, quiet-Holds, Moves-Holds, bind-Holds, archive_terminal_jobs-Holds,
}
use distributed_job_queue_sc.Demo.Moves.{
  seed_demo_scenario-Moves, inject_failure_scenario-Moves, vacuum_database-Moves,
}
use distributed_job_queue_sc.Queries.Series.{State}
use distributed_job_queue_sc.Snapshots.{Tables, tables_of}
use distributed_job_queue_sc.Server.{Query, Body, Request, Platform, Payload, Response, route_parts}
use distributed_job_queue_sc.Server.Routes
use distributed_job_queue_sc.Server.Routes.{Route, route_of}
use distributed_job_queue_sc.Server.Serve.{
  serve, changed, with_body, recover_all, handle_parts, handle,
}
use distributed_job_queue_sc.Server.Answers.{get_state-Keeps, is_read, serve-Keeps}

-- A method that keeps every table moves the store by no write.
Keeps-IsQuiet : {B : Type 0} (m : Exec B) → Keeps tables_of m → IsQuiet m
unfolding tables_of
Keeps-IsQuiet m k = record {
  jobs = λ s. ap (λ (t : Tables). t.jobs) (k.at s);
  queues = λ s. ap (λ (t : Tables). t.queues) (k.at s);
}

-- A call of the store, as it stands in a route.
call-Moves :
    {B : Type 0} (m : Exec B) (c : Call) → ((s : Store) → perform c s ≡ (m s).1) → Moves Sound m
call-Moves m c same = record {
  at = λ s u p. subst (Reach Sound s) (same s) (perform-Reach Sound-Allows c s (λ e x id. tt) u);
}

changed-Moves :
    {B : Type 0} (before : String → String → Bool) (status : ℕ) (payload : B → State → Payload)
    (m : Exec B)
    → Moves Sound m
    → Moves Sound (changed before status payload m)
unfolding changed
changed-Moves before status payload m h = bind-Moves _ _ h λ a.
    bind-Moves _ _ (quiet-Moves _ (Keeps-IsQuiet _ (get_state-Keeps before)))
      λ state. search moves_rules

with_body-Moves :
    (b : Option Body) (f : Body → Exec Response)
    → ((body : Body) → Moves Sound (f body))
    → Moves Sound (with_body b f)
unfolding with_body
with_body-Moves none f h = search moves_rules
with_body-Moves (some body) f h = h body

recover_all-Moves : Moves Sound recover_all
unfolding recover_all
recover_all-Moves = bind-Moves _ _ (search moves_rules) λ at.
    bind-Moves _ _ (recover_stale_leases-Moves (λ reason t id. tt) (λ retry error hint t id. tt) at)
      λ stale. bind-Moves _ _ (search moves_rules) λ later.
        bind-Moves _ _
          (recover_timed_out_jobs-Moves (λ reason t id. tt) (λ retry error u hint t id. tt) later)
          λ out. search moves_rules

-- The routes whose writes are not those of calls: an import writes rows as they are given, an archiving
-- deletes rows.
abbrev is_bulk : Route → Bool
is_bulk Routes.import_route = true
is_bulk Routes.archive_route = true
is_bulk r = false

abbrev pub is_import : Route → Bool
is_import Routes.import_route = true
is_import r = false

-- A route that reads.
read-Moves :
    (p : Platform) (r : Route) (q : Query) (b : Option Body)
    → is_read r ≡ true
    → Moves Sound (serve p r q b)
read-Moves p r q b h = quiet-Moves _ (Keeps-IsQuiet _ (serve-Keeps p r q b h))

-- A route that makes one call.
one_call :
    {B : Type 0} (p : Platform) (status : ℕ) (payload : B → State → Payload) (m : Exec B) (c : Call)
    → ((s : Store) → perform c s ≡ (m s).1)
    → Moves Sound (changed p.locale_before status payload m)
one_call p status payload m c same =
    changed-Moves p.locale_before status payload m (call-Moves m c same)

serve-Moves :
    (p : Platform) (r : Route) (q : Query) (b : Option Body)
    → is_bulk r ≡ false
    → Moves Sound (serve p r q b)
unfolding serve perform
serve-Moves p Routes.set_limit_route q b h =
    with_body-Moves b _ λ body. one_call p 201 _ _ (limit_call body.rate_limit) (λ s. refl)
serve-Moves p Routes.set_queue_route q b h =
    with_body-Moves b _ λ body. one_call p 201 _ _ (queue_call body.queue) (λ s. refl)
serve-Moves p (Routes.toggle_queue_route name) q b h =
    with_body-Moves b _ λ body. one_call p 200 _ _ (toggle_call name body.enabled) (λ s. refl)
serve-Moves p Routes.enqueue_route q b h =
    with_body-Moves b _ λ body. one_call p 201 _ _ (enqueue_call body.job) (λ s. refl)
serve-Moves p (Routes.cancel_route id) q b h = one_call p 200 _ _ (cancel_call id) (λ s. refl)
serve-Moves p (Routes.requeue_route id) q b h =
    with_body-Moves b _ λ body. one_call p 200 _ _ (requeue_call id body.run_at) (λ s. refl)
serve-Moves p Routes.replay_route q b h = with_body-Moves b _ λ body.
    one_call p 200 _ _
      (replay_call body.replay_queue body.replay_type body.replay_limit body.max_attempts)
      (λ s. refl)
serve-Moves p Routes.workflow_route q b h =
    with_body-Moves b _
      λ body. one_call p 201 _ _ (workflow_call body.name body.definitions) (λ s. refl)
serve-Moves p Routes.demo_route q b h =
    changed-Moves p.locale_before 201 _ _ (seed_demo_scenario-Moves Sound-Allows)
serve-Moves p Routes.inject_route q b h = with_body-Moves b _ λ body.
    changed-Moves p.locale_before 201 _ _ (inject_failure_scenario-Moves Sound-Allows body.scenario)
serve-Moves p Routes.schedule_route q b h =
    with_body-Moves b _ λ body. one_call p 201 _ _ (schedule_call body.schedule) (λ s. refl)
serve-Moves p (Routes.toggle_schedule_route id) q b h =
    with_body-Moves b _ λ body. one_call p 200 _ _ (pause_call id body.enabled) (λ s. refl)
serve-Moves p (Routes.run_now_route id) q b h = one_call p 201 _ _ (run_call id) (λ s. refl)
serve-Moves p Routes.dispatch_route q b h =
    one_call p 200 _ _ (dispatch_call "api-manual" (int (pos 50))) (λ s. refl)
serve-Moves p Routes.recover_route q b h = changed-Moves p.locale_before 200 _ _ recover_all-Moves
serve-Moves p Routes.vacuum_route q b h =
    changed-Moves p.locale_before 200 _ _
      (vacuum_database-Moves Sound-Allows p.bytes_before p.bytes_after)
serve-Moves p Routes.prune_route q b h = with_body-Moves b _ λ body.
    changed-Moves p.locale_before 200 _ _ (prune_events-Moves body.older_than_days body.keep_last)
serve-Moves p Routes.import_route q b h = absurd cc
serve-Moves p Routes.archive_route q b h = absurd cc
serve-Moves p r q b h = read-Moves p r q b refl

changed-Holds :
    {B : Type 0} (before : String → String → Bool) (status : ℕ) (payload : B → State → Payload)
    (m : Exec B)
    → Holds m
    → Holds (changed before status payload m)
unfolding changed
changed-Holds before status payload m h = bind-Holds _ _ h λ a.
    bind-Holds _ _ (quiet-Holds _ (Keeps-IsQuiet _ (get_state-Keeps before)))
      λ state. Moves-Holds _ (search moves_rules)

archive-Holds :
    (p : Platform) (q : Query) (b : Option Body) → Holds (serve p Routes.archive_route q b)
unfolding serve with_body
archive-Holds p q none = Moves-Holds _ (search moves_rules)
archive-Holds p q (some body) =
    changed-Holds p.locale_before 200 _ _
      (archive_terminal_jobs-Holds body.older_than_days body.archive_limit)

serve-Holds :
    (p : Platform) (r : Route) (q : Query) (b : Option Body)
    → is_import r ≡ false
    → Holds (serve p r q b)
serve-Holds p Routes.import_route q b h = absurd cc
serve-Holds p Routes.archive_route q b h = archive-Holds p q b
serve-Holds p r q b h = Moves-Holds _ (serve-Moves p r q b refl)

-- The route of a request, if its path decodes.
abbrev pub NotImport : Platform → Request → Type 0
NotImport p r =
    (parts : List String)
    → route_parts p.decode r.pathname ≡ some parts
    → is_import (route_of r.method r.pathname parts) ≡ false

handle_parts-Holds :
    (p : Platform) (r : Request) (o : Option (List String)) (s : Store)
    → ((parts : List String)
        → o ≡ some parts
        → is_import (route_of r.method r.pathname parts) ≡ false)
    → Healthy s.jobs
    → Healthy (handle_parts p r o s).1.jobs
unfolding handle_parts
handle_parts-Holds p r none s h u = u
handle_parts-Holds p r (some parts) s h u =
    (serve-Holds p (route_of r.method r.pathname parts) r.query r.content (h parts refl)).at s u

-- Requests, one after another.
unfoldable pub handle_all : Platform → List Request → Store → Store
unfolding handle
handle_all p [] s = s
handle_all p (r ∷ rs) s = handle_all p rs (handle p r s).1

-- Whatever requests reach the server, other than imports, job ids stay distinct and jobs well-formed
-- through all of them, where they were so at first.
pub handle_all-WellFormed :
    (p : Platform) (rs : List Request) (s : Store)
    → All (NotImport p) rs
    → UniqueIds s.jobs
    → All WellFormed s.jobs
    → UniqueIds (handle_all p rs s).jobs × All WellFormed (handle_all p rs s).jobs
unfolding handle_all handle
handle_all-WellFormed p [] s h u v = (u, v)
handle_all-WellFormed p (r ∷ rs) s (h, hs) u v =
    let (w, x) = handle_parts-Holds p r (route_parts p.decode r.pathname) s h (u, v) in
    handle_all-WellFormed p rs (handle p r s).1 hs w x
