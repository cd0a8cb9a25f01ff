-- ===== src/Schedules/Frame.antt =====
-- Which parts of the store the methods on jobs and schedules leave alone.
use distributed_job_queue_sc.Prelude.{
  String, Bool, ◌≡◌, refl, subst, sym, List, [], ◌∷◌, Option, none, some, arith,
}
use distributed_job_queue_sc.Dates.{TimeZone}
use distributed_job_queue_sc.Model.{Store, Schedule, Job, Queue, Event, EventType}
use distributed_job_queue_sc.Exec.{
  Exec, Result, ok, err, now_iso, random_uuid, insert_event, create_id, add_event, raise,
}
use distributed_job_queue_sc.Exec.Outcome.{Ends, Judge}
use distributed_job_queue_sc.Exec.Frame.{Keeps, keeps_rules, bind-Keeps, then-Keeps}
use distributed_job_queue_sc.Queues.{QueueInput, put_queue, find_queue, upsert_queue, ensure_queue}
use distributed_job_queue_sc.Jobs.{find_job}
use distributed_job_queue_sc.Jobs.Enqueue.{
  JobInput, check_payload, given_or_new, insert_job, reuse_job, duplicate_job,
  announce_dependencies, announce_job, enqueue_job,
}

-- The schedules, and the time zone that the cron expressions are read in.
abbrev pub schedules_of : Store → List Schedule × TimeZone
schedules_of s = (s.schedules, s.world.zone)

pub now_iso-Keeps : Keeps schedules_of now_iso
unfolding now_iso
now_iso-Keeps = record { at = λ s. refl }

random_uuid-Keeps : Keeps schedules_of random_uuid
unfolding random_uuid
random_uuid-Keeps = record { at = λ s. refl }

insert_event-Keeps : (e : Event) → Keeps schedules_of (insert_event e)
unfolding insert_event
insert_event-Keeps e = record { at = λ s. refl }

pub create_id-Keeps : (prefix label : String) → Keeps schedules_of (create_id prefix label)
unfolding create_id
create_id-Keeps prefix label = search (keeps_rules, random_uuid-Keeps)

pub add_event-Keeps :
    (type : EventType) (job schedule worker : Option String) (message : String)
    → Keeps schedules_of (add_event type job schedule worker message)
unfolding add_event
add_event-Keeps type job schedule worker message =
    search (keeps_rules, now_iso-Keeps, create_id-Keeps, insert_event-Keeps)

pub ruleset frame_rules = (keeps_rules, now_iso-Keeps, create_id-Keeps, add_event-Keeps)

put_queue-Keeps : (row : Queue) → Keeps schedules_of (put_queue row)
unfolding put_queue raise
put_queue-Keeps row = record { at = λ s. kept s }
  where
    kept : (s : Store) → schedules_of (put_queue row s).1 ≡ schedules_of s
    kept s = ground arith

find_queue-Keeps : (name : String) → Keeps schedules_of (find_queue name)
unfolding find_queue
find_queue-Keeps name = search keeps_rules

insert_job-Keeps : (j : Job) → Keeps schedules_of (insert_job j)
unfolding insert_job
insert_job-Keeps j = record { at = λ s. kept s }
  where
    kept : (s : Store) → schedules_of (insert_job j s).1 ≡ schedules_of s
    kept s = ground arith

upsert_queue-Keeps : (input : QueueInput) → Keeps schedules_of (upsert_queue input)
unfolding upsert_queue
upsert_queue-Keeps input = search (frame_rules, put_queue-Keeps, find_queue-Keeps)

pub ensure_queue-Keeps : (name : String) → Keeps schedules_of (ensure_queue name)
unfolding ensure_queue
ensure_queue-Keeps name = search (frame_rules, upsert_queue-Keeps)

pub check_payload-Keeps :
    (allow : Bool) (o : Option (List String)) → Keeps schedules_of (check_payload allow o)
unfolding check_payload
check_payload-Keeps allow none = search keeps_rules
check_payload-Keeps allow (some []) = search keeps_rules
check_payload-Keeps allow (some (e ∷ es)) = search keeps_rules

pub given_or_new-Keeps :
    (given : Option String) (prefix label : String)
    → Keeps schedules_of (given_or_new given (create_id prefix label))
unfolding given_or_new
given_or_new-Keeps none prefix label = search frame_rules
given_or_new-Keeps (some id) prefix label = search frame_rules

reuse_job-Keeps : (key : String) (o : Option Job) → Keeps schedules_of (reuse_job key o)
unfolding reuse_job
reuse_job-Keeps key none = search frame_rules
reuse_job-Keeps key (some j) = search frame_rules

duplicate_job-Keeps : (key : Option String) → Keeps schedules_of (duplicate_job key)
unfolding duplicate_job
duplicate_job-Keeps none = search frame_rules
duplicate_job-Keeps (some key) = search (frame_rules, reuse_job-Keeps)

announce_dependencies-Keeps :
    (id : String) (ids : List String) → Keeps schedules_of (announce_dependencies id ids)
unfolding announce_dependencies
announce_dependencies-Keeps id [] = search frame_rules
announce_dependencies-Keeps id (d ∷ ds) = search frame_rules

find_job-Keeps : (id : String) → Keeps schedules_of (find_job id)
unfolding find_job
find_job-Keeps id = search frame_rules

announce_job-Keeps :
    (input : JobInput) (id : String) (ids : List String)
    → Keeps schedules_of (announce_job input id ids)
unfolding announce_job
announce_job-Keeps input id ids = search (frame_rules, find_job-Keeps, announce_dependencies-Keeps)

ruleset enqueue_rules = (
  frame_rules, find_queue-Keeps, ensure_queue-Keeps, check_payload-Keeps, given_or_new-Keeps,
  insert_job-Keeps, announce_job-Keeps, duplicate_job-Keeps,
)

pub enqueue_job-Keeps : (input : JobInput) → Keeps schedules_of (enqueue_job input)
unfolding enqueue_job
enqueue_job-Keeps input = search (enqueue_rules) depth 30

module _ {B : Type 0} (R : List Schedule × TimeZone → Type 0) where
  -- A part that writes no schedule.
  pub Keeps-Ends :
      (m : Exec B) (s : Store)
      → Keeps schedules_of m
      → R (schedules_of s)
      → Ends m s (λ _ t. R (schedules_of t)) (λ t. R (schedules_of t))
  Keeps-Ends m s k h = record { verdict = judge (m s).0 }
    where
      judge : (r : Result B) → Judge (λ _. R (schedules_of (m s).1)) (R (schedules_of (m s).1)) r
      judge (ok b) = subst R (sym (k.at s)) h
      judge (err e) = subst R (sym (k.at s)) h

  -- What holds in both cases.
  pub Ends-both :
      (m : Exec B) (s : Store)
      → Ends m s (λ _ t. R (schedules_of t)) (λ t. R (schedules_of t))
      → R (schedules_of (m s).1)
  Ends-both m s e = from (m s).0 e.verdict
    where
      from :
          (r : Result B)
          → Judge (λ _. R (schedules_of (m s).1)) (R (schedules_of (m s).1)) r
          → R (schedules_of (m s).1)
      from (ok b) h = h
      from (err x) h = h
