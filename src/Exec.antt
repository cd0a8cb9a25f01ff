-- ===== src/Exec.antt =====
-- Methods of the store: each changes the database and returns or throws. What was written before a
-- throw stays written, so the state comes back beside the error too.
pub mod Outcome
pub mod Frame
use Prim.Native.Char.{Char, code}
use Prim.Native.String.{char_at}
use distributed_job_queue_sc.Prelude.{
  ℕ, suc, zero, String, Bool, true, false, List, [], ◌∷◌, ◌++◌, Option, none, some, concat,
  if◌then◌else◌, ◌&&◌, ◌==◌,
}
use distributed_job_queue_sc.Text.{lower, slug_from, is_id_char, is_empty, or_text}
use distributed_job_queue_sc.Model.{World, Store, Event, EventType}

-- NotFoundError, Error, TypeError, and SQLite's refusal of a duplicate key. `out_of_fuel` is not of the
-- program: a recursion of the model that has used up its fuel ends with it.
pub data Error : Type 0 where
  not_found : String → Error
  failure : String → Error
  type_error : Error
  unique_constraint : Error
  out_of_fuel : Error

pub data Result (A : Type 0) : Type 0 where
  ok : A → Result A
  err : Error → Result A

abbrev pub Exec : Type 0 → Type 0
Exec A = Store → Result A × Store

module _ {A : Type 0} where
  unfoldable pub pure : A → Exec A
  pure a s = (ok a, s)

  unfoldable pub raise : Error → Exec A
  raise e s = (err e, s)

  -- Reading the tables.
  unfoldable pub gets : (Store → A) → Exec A
  gets f s = (ok (f s), s)

  -- The row, or `throw new Error(message)`.
  unfoldable pub or_fail : String → Option A → Exec A
  unfolding raise pure
  or_fail message none = raise (failure message)
  or_fail message (some a) = pure a

  -- Reading a field of a row that may be undefined.
  unfoldable pub or_type_error : Option A → Exec A
  unfolding raise pure
  or_type_error none = raise type_error
  or_type_error (some a) = pure a

  -- The row, or `throw new NotFoundError(message)`.
  unfoldable pub or_raise : String → Option A → Exec A
  unfolding raise pure
  or_raise message none = raise (not_found message)
  or_raise message (some a) = pure a

module _ {A B : Type 0} where
  abbrev pub continue : (A → Exec B) → Result A → Exec B
  continue f (ok a) s = f a s
  continue f (err e) s = (err e, s)

  infixl 5 ◌>>=◌ ◌>>◌
  -- Opening this opens the simple actions too.
  unfoldable pub ◌>>=◌ : Exec A → (A → Exec B) → Exec B
  unfolding pure raise gets or_fail or_type_error or_raise
  ◌>>=◌ m f s = continue f (m s).0 (m s).1

  unfoldable pub ◌>>◌ : Exec A → Exec B → Exec B
  unfolding ◌>>=◌
  ◌>>◌ m n s = continue (λ _. n) (m s).0 (m s).1

-- `if (!done) { m; }`, of a call whose result is not used.
unfoldable pub unless : {A : Type 0} → Bool → Exec (List A) → Exec (List A)
unfolding pure
unless true m = pure []
unless false m = m

abbrev advance : World → World
advance w = record w { reads = suc w.reads }

-- `nowIso()`.
unfoldable pub now_iso : Exec ℕ
now_iso s = (ok (s.world.clock s.world.reads), record s { world = advance s.world })

-- `crypto.randomUUID().slice(0, 8)`.
unfoldable pub random_uuid : Exec String
random_uuid s = (ok (s.world.uuid s.world.reads), record s { world = advance s.world })

-- `Math.floor(Math.random() * n)`, as a function of n.
unfoldable pub random_below : Exec (ℕ → ℕ)
random_below s = (ok (s.world.random s.world.reads), record s { world = advance s.world })

-- `text.replace(/(^-|-$)/g, "")`.
unfoldable pub drop_first_dash : String → String
drop_first_dash String.[] = String.[]
drop_first_dash (String.◌∷◌ c s) = if code c == b'-' then s else String.◌∷◌ c s

unfoldable pub drop_last_dash : String → String
unfolding is_empty
drop_last_dash String.[] = String.[]
drop_last_dash (String.◌∷◌ c s) =
    let rest = String.◌∷◌ c (drop_last_dash s) in
    if code c == b'-' && is_empty s then String.[] else rest

-- `text.slice(0, n)`.
unfoldable pub take_text : ℕ → String → String
take_text zero s = String.[]
take_text (suc n) String.[] = String.[]
take_text (suc n) (String.◌∷◌ c s) = String.◌∷◌ c (take_text n s)

-- The part that `createId` and `queueId` share.
unfoldable pub id_slug : String → String
unfolding lower slug_from is_id_char drop_first_dash drop_last_dash
id_slug label = drop_last_dash (drop_first_dash (slug_from is_id_char false (lower label)))

-- `createId(prefix, label)`.
unfoldable pub create_id : String → String → Exec String
create_id prefix label = do
  uuid ← random_uuid
  pure (
      concat (
        prefix
        ∷ "-"
        ∷ or_text (take_text 36 (id_slug (or_text label prefix))) prefix
        ∷ "-"
        ∷ uuid
        ∷ []))

-- `queueId(name)`.
unfoldable pub queue_id : String → String
unfolding id_slug or_text
queue_id name = or_text (id_slug name) "default"

unfoldable pub insert_event : Event → Exec (Unit {0})
insert_event e s = (ok tt, record s { events = s.events ++ e ∷ [] })

-- The text of an event type.
abbrev pub event_text : EventType → String
event_text EventType.queue_resumed = "queue.resumed"
event_text EventType.queue_paused = "queue.paused"
event_text EventType.rate_limit_upserted = "rate_limit.upserted"
event_text EventType.job_idempotency_hit = "job.idempotency_hit"
event_text EventType.job_enqueued = "job.enqueued"
event_text EventType.job_dependencies_registered = "job.dependencies_registered"
event_text EventType.job_claimed = "job.claimed"
event_text EventType.job_rate_limited = "job.rate_limited"
event_text EventType.job_completed = "job.completed"
event_text EventType.job_dependencies_released = "job.dependencies_released"
event_text EventType.job_retry_scheduled = "job.retry_scheduled"
event_text EventType.job_dead_lettered = "job.dead_lettered"
event_text EventType.job_cancelled = "job.cancelled"
event_text EventType.job_dependency_cancelled = "job.dependency_cancelled"
event_text EventType.job_requeued = "job.requeued"
event_text EventType.dead_letter_bulk_replayed = "dead_letter.bulk_replayed"
event_text EventType.workflow_created = "workflow.created"
event_text EventType.schedule_created = "schedule.created"
event_text EventType.schedule_resumed = "schedule.resumed"
event_text EventType.schedule_paused = "schedule.paused"
event_text EventType.schedule_dispatched = "schedule.dispatched"
event_text EventType.job_lease_released = "job.lease_released"
event_text EventType.job_lease_recovered = "job.lease_recovered"
event_text EventType.job_timeout_recovered = "job.timeout_recovered"
event_text EventType.job_started = "job.started"
event_text EventType.snapshot_imported = "snapshot.imported"
event_text EventType.demo_seeded = "demo.seeded"
event_text EventType.maintenance_vacuumed = "maintenance.vacuumed"
event_text EventType.maintenance_events_pruned = "maintenance.events_pruned"
event_text EventType.maintenance_jobs_archived = "maintenance.jobs_archived"

-- `addEvent({ jobId, scheduleId, workerId, type, message })`.
unfoldable pub add_event :
    EventType → Option String → Option String → Option String → String → Exec (Unit {0})
add_event type job_id schedule_id worker_id message = do
  at ← now_iso
  id ← create_id "evt" (event_text type)
  insert_event (record {
    id = id;
    job_id = job_id;
    schedule_id = schedule_id;
    worker_id = worker_id;
    type = type;
    message = message;
    created_at = at;
  })
