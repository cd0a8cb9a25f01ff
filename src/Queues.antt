-- ===== src/Queues.antt =====
-- Queues: `upsertQueue`, `findQueue`, `listQueues`, `toggleQueue`, `ensureQueue`
-- (src/core/store.mjs).
use distributed_job_queue_sc.Prelude.{
  ℕ, String, Bool, true, List, [], ◌∷◌, ◌++◌, Option, none, some, str_eq, or_else, is_some, find,
  update_rows, sort_by, concat, if◌then◌else◌,
}
use distributed_job_queue_sc.Prelude.Int.{pos}
use distributed_job_queue_sc.Text.{normalize_name, text_before}
use distributed_job_queue_sc.Json.{Json, bool, is_true}
use distributed_job_queue_sc.Input.{
  Parsed, int, clamp_nat, optional_int, bool_int, RetryInput, normalize_retry_policy, as_input,
}
use distributed_job_queue_sc.Model.{Queue, queue_resumed, queue_paused}
use distributed_job_queue_sc.Exec.{
  Exec, ok, or_raise, unique_constraint, pure, raise, gets, ◌>>=◌, ◌>>◌, now_iso, queue_id,
  add_event,
}

pub record QueueInput : Type 0 where
  pub name : String
  pub concurrency : Option Parsed
  pub max_backlog : Option Parsed
  pub rate_limit_count : Option Parsed
  pub rate_limit_window_ms : Option Parsed
  pub retry_policy : Option RetryInput
  pub enabled : Option Json

abbrev pub queue_named : String → QueueInput
queue_named name = record {
  name = name;
  concurrency = none;
  max_backlog = none;
  rate_limit_count = none;
  rate_limit_window_ms = none;
  retry_policy = none;
  enabled = none;
}

-- SELECT * FROM queues WHERE name = ?
unfoldable pub get_queue : String → List Queue → Option Queue
get_queue name = find (λ q. str_eq q.name name)

-- `a ?? b` on optional values.
abbrev pub first_of_two {ℓ} : {A : Type ℓ} → Option A → Option A → Option A
first_of_two none b = b
first_of_two (some a) b = some a

abbrev pub stored {ℓ} : {A : Type ℓ} → Option Queue → (Queue → A) → Option A
stored none f = none
stored (some q) f = some (f q)

abbrev pub stored_or_null {ℓ} : {A : Type ℓ} → Option Queue → (Queue → Option A) → Option A
stored_or_null none f = none
stored_or_null (some q) f = f q

abbrev pub as_parsed : Option ℕ → Option Parsed
as_parsed none = none
as_parsed (some n) = some (int (pos n))

abbrev pub as_policy : Option Queue → Option RetryInput
as_policy none = none
as_policy (some q) = elim q.retry_policy [ none ↦ none | some p ↦ some (as_input p) ]

-- The row that `upsertQueue` builds from the request, the row that is there, and the defaults.
unfoldable pub queue_row : QueueInput → String → Option Queue → ℕ → Queue
unfolding clamp_nat optional_int bool_int normalize_retry_policy queue_id
queue_row input name existing at = record {
  id = queue_id name;
  name = name;
  concurrency =
      clamp_nat
        (or_else (first_of_two input.concurrency (as_parsed (stored existing (λ q. q.concurrency))))
          (int (pos 4)))
        1 100;
  max_backlog =
      clamp_nat
        (or_else (first_of_two input.max_backlog (as_parsed (stored existing (λ q. q.max_backlog))))
          (int (pos 10000)))
        1 1000000;
  rate_limit_count =
      optional_int
        (first_of_two input.rate_limit_count
          (as_parsed (stored_or_null existing (λ q. q.rate_limit_count))))
        1 1000000;
  rate_limit_window_ms =
      optional_int
        (first_of_two input.rate_limit_window_ms
          (as_parsed (stored_or_null existing (λ q. q.rate_limit_window_ms))))
        1000 86400000;
  retry_policy = normalize_retry_policy (first_of_two input.retry_policy (as_policy existing));
  enabled =
      bool_int
        (or_else (first_of_two input.enabled (stored existing (λ q. bool q.enabled))) (bool true));
  created_at = at;
  updated_at = at;
}

-- ON CONFLICT(name) DO UPDATE SET …: the id and the creation time of the row stay.
unfoldable pub overwrite_queue : Queue → Queue → Queue
overwrite_queue new old = record new { id = old.id; created_at = old.created_at }

-- INSERT INTO queues … ON CONFLICT(name) DO UPDATE; the id is the primary key, and a conflict on it
-- alone is refused.
unfoldable pub put_queue : Queue → Exec (Unit {0})
unfolding get_queue overwrite_queue
put_queue row s =
    if is_some (get_queue row.name s.queues)
    then (
      ok tt,
      record s {
        queues = update_rows (λ q. str_eq q.name row.name) (overwrite_queue row) s.queues;
      },
    )
    else if is_some (find (λ q. str_eq q.id row.id) s.queues)
    then raise unique_constraint s
    else (ok tt, record s { queues = s.queues ++ row ∷ [] })

abbrev pub queue_missing : String → String
queue_missing name = concat ("Queue not found: " ∷ name ∷ [])

-- `findQueue(name)`.
unfoldable pub find_queue : String → Exec Queue
find_queue name = do
  row ← gets (λ s. get_queue (normalize_name name) s.queues)
  or_raise (queue_missing name) row

-- `upsertQueue(input)`.
unfoldable pub upsert_queue : QueueInput → Exec Queue
upsert_queue input = do
  at ← now_iso
  let name = normalize_name input.name
  existing ← gets (λ s. get_queue name s.queues)
  put_queue (queue_row input name existing at)
  find_queue name

-- `ensureQueue(queue)`.
unfoldable pub ensure_queue : String → Exec (Unit {0})
ensure_queue queue = do
  row ← gets (λ s. get_queue queue s.queues)
  if is_some row then pure tt else do upsert_queue (queue_named queue); pure tt

-- `listQueues()`.
unfoldable pub list_queues : Exec (List Queue)
list_queues = gets (λ s. sort_by (λ a b. text_before a.name b.name) s.queues)

-- UPDATE queues SET enabled = ?, updated_at = ? WHERE name = ? RETURNING *
unfoldable pub enable_queue : String → Bool → ℕ → Exec (Option Queue)
unfolding get_queue
enable_queue name enabled at s =
    let queues =
      update_rows (λ q. str_eq q.name name) (λ q. record q { enabled = enabled; updated_at = at })
        s.queues in
    (ok (get_queue name queues), record s { queues = queues })

-- `toggleQueue(name, enabled)`. The column gets `boolInt(enabled)`, the event `Boolean(enabled)`.
unfoldable pub toggle_queue : String → Json → Exec Queue
toggle_queue name enabled = do
  at ← now_iso
  let queue_name = normalize_name name
  found ← enable_queue queue_name (bool_int enabled) at
  row ← or_raise (queue_missing name) found
  add_event (if is_true enabled then queue_resumed else queue_paused) none none none
      (concat ("Queue " ∷ queue_name ∷ (if is_true enabled then " resumed." else " paused.") ∷ []))
  pure row
