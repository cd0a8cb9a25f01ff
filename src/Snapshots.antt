-- ===== src/Snapshots.antt =====
-- `exportSnapshot` and `importSnapshot` (src/core/store.mjs). A row of a snapshot has all the columns
-- of its table, as an exported row does; a table that is missing is an empty list.
pub mod Roundtrip
use distributed_job_queue_sc.Prelude.{
  ℕ, String, Bool, true, false, ◌&&◌, ◌||◌, List, [], ◌∷◌, ◌++◌, Option, none, some, str_eq, not,
  where_rows, all, is_some, concat, if◌then◌else◌,
}
use distributed_job_queue_sc.Model.{
  Store, Queue, RateLimit, Job, Schedule, Worker, Event, Archived, Scope, by_type, by_queue,
  snapshot_imported,
}
use distributed_job_queue_sc.Exec.{
  Exec, Result, ok, err, Error, failure, pure, raise, gets, ◌>>=◌, ◌>>◌, now_iso, add_event,
}
use distributed_job_queue_sc.Queues.{get_queue}
use distributed_job_queue_sc.Jobs.Enqueue.{conflicts}
use distributed_job_queue_sc.Queries.Series.{State, get_state}

-- The tables, in the order of `SNAPSHOT_TABLES`.
pub record Tables : Type 0 where
  pub queues : List Queue
  pub rate_limits : List RateLimit
  pub jobs : List Job
  pub schedules : List Schedule
  pub workers : List Worker
  pub events : List Event
  pub job_archive : List Archived

pub record Snapshot : Type 0 where
  pub exported_at : ℕ
  pub tables : Option Tables

-- SELECT * FROM each table.
unfoldable pub tables_of : Store → Tables
tables_of s = record {
  queues = s.queues;
  rate_limits = s.rate_limits;
  jobs = s.jobs;
  schedules = s.schedules;
  workers = s.workers;
  events = s.events;
  job_archive = s.job_archive;
}

-- `exportSnapshot()`.
unfoldable pub export_snapshot : Exec Snapshot
export_snapshot = do
  at ← now_iso
  tables ← gets tables_of
  pure (record { exported_at = at; tables = some tables })

-- INSERT OR REPLACE: the rows that the new one conflicts with are deleted.
module _ {A : Type 0} (clash : A → A → Bool) where
  unfoldable pub replace_row : A → List A → List A
  unfolding where_rows
  replace_row new rows = where_rows (λ old. not (clash new old)) rows ++ new ∷ []

-- The PRIMARY KEY and the UNIQUE columns of the tables.
unfoldable pub queue_clash : Queue → Queue → Bool
queue_clash new old = str_eq old.id new.id || str_eq old.name new.name

abbrev same_scope : Scope → Scope → Bool
same_scope by_type by_type = true
same_scope by_queue by_queue = true
same_scope _ _ = false

unfoldable pub limit_clash : RateLimit → RateLimit → Bool
limit_clash new old =
    str_eq old.id new.id || (same_scope old.scope new.scope && str_eq old.target new.target)

abbrev pub schedule_clash : Schedule → Schedule → Bool
schedule_clash new old = str_eq old.id new.id

abbrev pub worker_clash : Worker → Worker → Bool
worker_clash new old = str_eq old.id new.id

abbrev pub event_clash : Event → Event → Bool
event_clash new old = str_eq old.id new.id

abbrev pub archive_clash : Archived → Archived → Bool
archive_clash new old = str_eq old.id new.id

-- FOREIGN KEY(queue) REFERENCES queues(name), of the jobs and the schedules.
unfoldable pub refers : Store → Bool
unfolding get_queue all
refers s =
    all (λ (j : Job). is_some (get_queue j.queue s.queues)) s.jobs
    && all (λ (c : Schedule). is_some (get_queue c.queue s.queues)) s.schedules

-- A statement that breaks a foreign key is refused.
unfoldable pub keeping_references : (Store → Store) → Exec (Unit {0})
unfolding refers
keeping_references change s =
    if refers (change s)
    then (ok tt, change s)
    else (err (failure "FOREIGN KEY constraint failed"), s)

unfoldable pub insert_each : {A : Type 0} → (A → Store → Store) → List A → Exec (Unit {0})
unfolding keeping_references
insert_each put [] = pure tt
insert_each put (new ∷ news) = do keeping_references (put new); insert_each put news

unfoldable pub put_queue_row : Queue → Store → Store
unfolding replace_row queue_clash
put_queue_row new s = record s { queues = replace_row queue_clash new s.queues }

unfoldable pub put_limit_row : RateLimit → Store → Store
unfolding replace_row limit_clash
put_limit_row new s = record s { rate_limits = replace_row limit_clash new s.rate_limits }

unfoldable pub put_job_row : Job → Store → Store
unfolding replace_row conflicts
put_job_row new s = record s { jobs = replace_row conflicts new s.jobs }

unfoldable pub put_schedule_row : Schedule → Store → Store
unfolding replace_row
put_schedule_row new s = record s { schedules = replace_row schedule_clash new s.schedules }

unfoldable pub put_worker_row : Worker → Store → Store
unfolding replace_row
put_worker_row new s = record s { workers = replace_row worker_clash new s.workers }

unfoldable pub put_event_row : Event → Store → Store
unfolding replace_row
put_event_row new s = record s { events = replace_row event_clash new s.events }

unfoldable pub put_archive_row : Archived → Store → Store
unfolding replace_row
put_archive_row new s = record s { job_archive = replace_row archive_clash new s.job_archive }

-- DELETE FROM each table, the children first.
unfoldable pub delete_all : Exec (Unit {0})
delete_all s = (
  ok tt,
  record s {
    queues = [];
    rate_limits = [];
    jobs = [];
    schedules = [];
    workers = [];
    events = [];
    job_archive = [];
  },
)

unfoldable pub insert_tables : Tables → Exec (Unit {0})
insert_tables t = do
  insert_each put_queue_row t.queues
  insert_each put_limit_row t.rate_limits
  insert_each put_job_row t.jobs
  insert_each put_schedule_row t.schedules
  insert_each put_worker_row t.workers
  insert_each put_event_row t.events
  insert_each put_archive_row t.job_archive

-- COMMIT, or ROLLBACK to the tables before and the error again.
unfoldable pub close_transaction : {A : Type 0} → Store → Result A → Store → Result A × Store
close_transaction before (ok a) t = (ok a, t)
close_transaction before (err e) t = (err e, record before { world = t.world })

unfoldable pub in_transaction : {A : Type 0} → Exec A → Exec A
unfolding close_transaction
in_transaction m s = close_transaction s (m s).0 (m s).1

unfoldable pub import_tables : String → Tables → Exec (Unit {0})
import_tables mode t = do
  (if str_eq mode "replace" then delete_all else pure tt)
  insert_tables t
  add_event snapshot_imported none none none
      (concat ("Snapshot imported in " ∷ mode ∷ " mode." ∷ []))

unfoldable pub import_from : String → Option Tables → Exec (Unit {0})
import_from mode none = raise (failure "Snapshot must contain a tables object.")
import_from mode (some t) = do now_iso; in_transaction (import_tables mode t)

-- `importSnapshot(snapshot, { mode })`, up to the state that it returns.
unfoldable pub import_snapshot : Snapshot → String → Exec (Unit {0})
unfolding import_from
import_snapshot snapshot mode = import_from mode snapshot.tables

-- The whole method, with the order of `localeCompare` for `getState`.
unfoldable pub import_and_read : (String → String → Bool) → Snapshot → String → Exec State
import_and_read before snapshot mode = do import_snapshot snapshot mode; get_state before
