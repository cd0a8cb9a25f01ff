-- ===== src/Snapshots/Roundtrip.antt =====
-- Exporting a store and importing the snapshot in replace mode (src/core/store.mjs).
use mathlib.Core.List.{append-nil, append_assoc}
use distributed_job_queue_sc.Prelude.{
  suc, none, concat, String, Bool, true, false, ◌≡◌, refl, sym, ap, ◌∙◌, List, [], ◌∷◌, ◌++◌, some,
  All, &&-true, not, where_rows, all, is_some, arith,
}
use distributed_job_queue_sc.Model.{Store, Job, Schedule, Event, EventType, snapshot_imported}
use distributed_job_queue_sc.Text.{or_text}
use distributed_job_queue_sc.Exec.{
  Exec, ok, pure, ◌>>=◌, ◌>>◌, now_iso, create_id, random_uuid, insert_event, add_event, take_text,
  id_slug, event_text,
}
use distributed_job_queue_sc.Exec.Outcome.{Gives, now_iso-Gives, then-Gives}
use distributed_job_queue_sc.Queues.{get_queue}
use distributed_job_queue_sc.Jobs.Enqueue.{conflicts}
use distributed_job_queue_sc.Snapshots.{
  Snapshot, tables_of, export_snapshot, replace_row, queue_clash, limit_clash, schedule_clash,
  worker_clash, event_clash, archive_clash, refers, keeping_references, insert_each, put_queue_row,
  put_limit_row, put_job_row, put_schedule_row, put_worker_row, put_event_row, put_archive_row,
  delete_all, insert_tables, in_transaction, import_tables, import_snapshot,
}

-- No row clashes with a row of `rows` or with an earlier one.
abbrev pub NoClash : {A : Type 0} → (A → A → Bool) → List A → List A → Type 0
NoClash clash rows [] = Unit
NoClash clash rows (new ∷ news) =
    All (λ old. clash new old ≡ false) rows × NoClash clash (rows ++ new ∷ []) news

replace_row_new :
    {A : Type 0} (clash : A → A → Bool) (new : A) (rows : List A)
    → All (λ old. clash new old ≡ false) rows
    → replace_row clash new rows ≡ rows ++ new ∷ []
unfolding replace_row
replace_row_new {A = A} clash new rows h = ap (λ xs. xs ++ new ∷ []) (kept rows h)
  where
    kept :
        (xs : List A)
        → All (λ old. clash new old ≡ false) xs
        → where_rows (λ old. not (clash new old)) xs ≡ xs
    kept [] h = unfold where_rows in refl
    kept (x ∷ xs) (e, h) = unfold where_rows in rw e (ap (λ ys. x ∷ ys) (kept xs h))

keeping_then :
    (change : Store → Store) (s t : Store) (m : Exec (Unit {0}))
    → change s ≡ t
    → refers t ≡ true
    → (keeping_references change >> m) s ≡ m t
unfolding keeping_references ◌>>◌
keeping_then change s t m e r = rw (e, r) refl

module _ {A : Type 0} (put : A → Store → Store) (set : List A → Store) (clash : A → A → Bool)
    (law : (new : A) (rows : List A) → put new (set rows) ≡ set (replace_row clash new rows)) where
  -- The references hold after each row.
  abbrev References : List A → List A → Type 0
  References rows [] = Unit
  References rows (new ∷ news) =
      (refers (set (rows ++ new ∷ [])) ≡ true) × References (rows ++ new ∷ []) news

  insert_each-set :
      (news rows : List A)
      → NoClash clash rows news
      → References rows news
      → insert_each put news (set rows) ≡ (ok tt, set (rows ++ news))
  unfolding insert_each pure
  insert_each-set [] rows h r = ap (λ xs. (ok tt, set xs)) (sym (append-nil rows))
  insert_each-set (new ∷ news) rows (c, h) (e, r) =
      keeping_then (put new) (set rows) (set (rows ++ new ∷ [])) (insert_each put news)
        (law new rows ∙ ap set (replace_row_new clash new rows c)) e
      ∙ insert_each-set news (rows ++ new ∷ []) h r
      ∙ ap (λ xs. (ok tt, set xs)) (append_assoc rows (new ∷ []) news)

  all-append_one :
      (p : A → Bool) (rows : List A) (new : A)
      → all p rows ≡ true
      → p new ≡ true
      → all p (rows ++ new ∷ []) ≡ true
  unfolding all
  all-append_one p [] new h e = rw e refl
  all-append_one p (x ∷ rows) new h e = ground (arith, all-append_one p rows new)

  References-all :
      (p : A → Bool) (rows news : List A)
      → ((xs : List A) → all p xs ≡ true → refers (set xs) ≡ true)
      → all p rows ≡ true
      → all p news ≡ true
      → References rows news
  unfolding all
  References-all p rows [] f h k = tt
  References-all p rows (new ∷ news) f h k =
      let (now, later) = &&-true (p new) (all p news) k in
      let more = all-append_one p rows new h now in
      (f (rows ++ new ∷ []) more, References-all p (rows ++ new ∷ []) news f more later)

  -- A whole table, into an empty one.
  insert_table :
      (p : A → Bool) (news : List A)
      → NoClash clash [] news
      → ((xs : List A) → all p xs ≡ true → refers (set xs) ≡ true)
      → all p news ≡ true
      → insert_each put news (set []) ≡ (ok tt, set news)
  unfolding all
  insert_table p news h f k = insert_each-set news [] h (References-all p [] news f refl k)

all-always : {A : Type 0} (xs : List A) → all (λ _. true) xs ≡ true
unfolding all
all-always [] = refl
all-always (x ∷ xs) = all-always xs

-- What the constraints of the schema say of the tables: the keys are distinct, and every job and
-- every schedule names a queue that is there.
pub record Consistent (s : Store) : Type 0 where
  pub queues : NoClash queue_clash [] s.queues
  pub rate_limits : NoClash limit_clash [] s.rate_limits
  pub jobs : NoClash conflicts [] s.jobs
  pub schedules : NoClash schedule_clash [] s.schedules
  pub workers : NoClash worker_clash [] s.workers
  pub events : NoClash event_clash [] s.events
  pub job_archive : NoClash archive_clash [] s.job_archive
  pub job_queues : all (λ (j : Job). is_some (get_queue j.queue s.queues)) s.jobs ≡ true
  pub schedule_queues :
      all (λ (c : Schedule). is_some (get_queue c.queue s.queues)) s.schedules ≡ true

then_ok :
    {A B : Type 0} (m : Exec A) (n : Exec B) (s t : Store) (a : A)
    → m s ≡ (ok a, t)
    → (m >> n) s ≡ n t
unfolding ◌>>◌
then_ok m n s t a e = rw e refl

abbrev restored : Store → Store → Store
restored t s = record s { world = t.world }

insert_tables-restored :
    (s t : Store)
    → Consistent s
    → insert_tables (tables_of s) (delete_all t).1 ≡ (ok tt, restored t s)
unfolding insert_tables tables_of delete_all put_queue_row put_limit_row put_job_row
    put_schedule_row put_worker_row put_event_row put_archive_row refers all
insert_tables-restored s t c =
    let b0 = (delete_all t).1 in
    let b1 = record b0 { queues = s.queues } in
    let b2 = record b1 { rate_limits = s.rate_limits } in
    let b3 = record b2 { jobs = s.jobs } in
    let b4 = record b3 { schedules = s.schedules } in
    let b5 = record b4 { workers = s.workers } in
    let b6 = record b5 { events = s.events } in
    let whole : refers b4 ≡ true = rw (c.job_queues, c.schedule_queues) refl in
    then_ok _ _ b0 b1 tt (
      insert_table put_queue_row (λ xs. record b0 { queues = xs }) queue_clash (λ n xs. refl)
        (λ _. true) s.queues c.queues (λ xs h. refl) (all-always s.queues))
    ∙ then_ok _ _ b1 b2 tt (
        insert_table put_limit_row (λ xs. record b1 { rate_limits = xs }) limit_clash (λ n xs. refl)
          (λ _. true) s.rate_limits c.rate_limits (λ xs h. refl) (all-always s.rate_limits))
    ∙ then_ok _ _ b2 b3 tt (
        insert_table put_job_row (λ xs. record b2 { jobs = xs }) conflicts (λ n xs. refl)
          (λ (j : Job). is_some (get_queue j.queue s.queues)) s.jobs c.jobs (λ xs h. rw h refl)
          c.job_queues)
    ∙ then_ok _ _ b3 b4 tt (
        insert_table put_schedule_row (λ xs. record b3 { schedules = xs }) schedule_clash
          (λ n xs. refl) (λ (d : Schedule). is_some (get_queue d.queue s.queues)) s.schedules
          c.schedules (λ xs h. rw (c.job_queues, h) refl) c.schedule_queues)
    ∙ then_ok _ _ b4 b5 tt (
        insert_table put_worker_row (λ xs. record b4 { workers = xs }) worker_clash (λ n xs. refl)
          (λ _. true) s.workers c.workers (λ xs h. whole) (all-always s.workers))
    ∙ then_ok _ _ b5 b6 tt (
        insert_table put_event_row (λ xs. record b5 { events = xs }) event_clash (λ n xs. refl)
          (λ _. true) s.events c.events (λ xs h. whole) (all-always s.events))
    ∙ insert_table put_archive_row (λ xs. record b6 { job_archive = xs }) archive_clash
        (λ n xs. refl) (λ _. true) s.job_archive c.job_archive (λ xs h. whole)
        (all-always s.job_archive)

-- What an event adds.
abbrev pub Noted : EventType → Store → Store → Type 0
Noted type s u =
    (e : Event) × (e.type ≡ type)
    × (tables_of u ≡ record (tables_of s) { events = s.events ++ e ∷ [] })

add_event-Noted :
    (type : EventType) (message : String) (s : Store)
    → ((add_event type none none none message s).0 ≡ ok tt)
      × Noted type s (add_event type none none none message s).1
unfolding add_event now_iso create_id random_uuid insert_event ◌>>=◌ tables_of
add_event-Noted type message s = (
  refl,
  (
    record {
      id = concat (
          "evt"
          ∷ "-"
          ∷ or_text (take_text 36 (id_slug (or_text (event_text type) "evt"))) "evt"
          ∷ "-"
          ∷ s.world.uuid (suc s.world.reads)
          ∷ []);
      job_id = none;
      schedule_id = none;
      worker_id = none;
      type = type;
      message = message;
      created_at = s.world.clock s.world.reads;
    },
    refl,
    refl,
  ),
)

import_tables-Noted :
    (s t : Store)
    → Consistent s
    → ((import_tables "replace" (tables_of s) t).0 ≡ ok tt)
      × Noted snapshot_imported s (import_tables "replace" (tables_of s) t).1
unfolding import_tables tables_of
import_tables-Noted s t c =
    rw
      (then_ok delete_all (insert_tables (tables_of s) >> note) t (delete_all t).1 tt deleted
        ∙ then_ok (insert_tables (tables_of s)) note (delete_all t).1 (restored t s) tt
            (insert_tables-restored s t c))
      (add_event-Noted snapshot_imported message (restored t s))
  where
    deleted : delete_all t ≡ (ok tt, (delete_all t).1)
    deleted = unfold delete_all in refl

    message : String
    message = concat ("Snapshot imported in " ∷ "replace" ∷ " mode." ∷ [])

    note : Exec (Unit {0})
    note = add_event snapshot_imported none none none message

in_transaction-ok :
    (m : Exec (Unit {0})) (s : Store) {Q : Store → Type 0}
    → (m s).0 ≡ ok tt
    → Q (m s).1
    → Gives (in_transaction m) s (λ _ u. Q u)
unfolding in_transaction
in_transaction-ok m s e q = record { value = tt; returns = rw e refl; post = rw e q }

exported :
    (s : Store) (snapshot : Snapshot)
    → (export_snapshot s).0 ≡ ok snapshot
    → snapshot.tables ≡ some (tables_of s)
unfolding export_snapshot now_iso ◌>>=◌ tables_of
exported s snapshot e = cc e

-- Exporting a store and importing the snapshot in replace mode, into any store, gives every table
-- back as it was, with one event more that says so; the keys of the exported tables are distinct, and
-- their jobs and schedules name queues that are there.
pub import_snapshot-restores :
    (s t : Store) (snapshot : Snapshot)
    → (export_snapshot s).0 ≡ ok snapshot
    → Consistent s
    → Gives (import_snapshot snapshot "replace") t (λ _ u. Noted snapshot_imported s u)
unfolding import_snapshot
import_snapshot-restores s t snapshot e c = rw (exported s snapshot e) (
    then-Gives _ _ t (now_iso-Gives t) λ at u same.
      let done = import_tables-Noted s u c in
      in_transaction-ok (import_tables "replace" (tables_of s)) u done.0 done.1)
