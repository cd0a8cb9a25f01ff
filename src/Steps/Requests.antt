-- ===== src/Steps/Requests.antt =====
-- Requeues, enqueues, given-up leases and queue settings as sequences of allowed writes.
use distributed_job_queue_sc.Prelude.{
  ℕ, String, Bool, true, false, ◌≡◌, refl, ◌||◌, List, [], ◌∷◌, Option, none, some, any,
  if◌then◌else◌, Bool-cases, inl, inr, subst, is_some, str_eq, find, concat,
}
use distributed_job_queue_sc.Json.{Json}
use distributed_job_queue_sc.Input.{Parsed}
use distributed_job_queue_sc.Text.{is_truthy}
use distributed_job_queue_sc.Model.{Job, Queue, Store, is_terminal, is_failed}
use distributed_job_queue_sc.Exec.{
  Exec, pure, raise, or_raise, unique_constraint, failure, continue, ◌>>=◌, ◌>>◌,
}
use distributed_job_queue_sc.Queues.{
  QueueInput, put_queue, find_queue, upsert_queue, ensure_queue, enable_queue, toggle_queue,
  get_queue, queue_named,
}
use distributed_job_queue_sc.Jobs.{requeue, allow_attempts, get_job, find_job}
use distributed_job_queue_sc.Jobs.Enqueue.{
  JobInput, new_job, conflicts, insert_job, announce_job, announce_dependencies, duplicate_job,
  reuse_job, check_payload, given_or_new, enqueue_job,
}
use distributed_job_queue_sc.Jobs.Finish.{give_up_leases, log_each, release_worker_leases}
use distributed_job_queue_sc.Jobs.Requeue.{
  run_at_or_now, requeue_job, replay_one, replay_each, requeue_dead_letters,
}
use distributed_job_queue_sc.Steps.{
  Write, row, add, give_up, configure, insert, drop_leases, set_queues, Reach, here, Reach-one,
}
use distributed_job_queue_sc.Steps.Unique.{UniqueIds}
use distributed_job_queue_sc.Steps.Moves.{
  Moves, MovesFrom, update_job-MovesFrom, moves_rules, quiet_methods, bind-Moves, then-Moves,
  IsQuiet, now_iso-IsQuiet, pure-IsQuiet, if-Moves, after_quiet-Moves,
}

run_at_or_now-IsQuiet : (t : Option ℕ) → IsQuiet (run_at_or_now t)
unfolding run_at_or_now
run_at_or_now-IsQuiet none = now_iso-IsQuiet
run_at_or_now-IsQuiet (some t) = pure-IsQuiet t

module _ {A : Write → Type 0} where
  -- `if (!test) throw …`, and then the rest, which may use the test.
  guard_then-Moves :
      {P : List Job → Type 0} {B : Type 0} (test : Bool) (message : String) (n : Exec B)
      → (test ≡ true → MovesFrom A P n)
      → MovesFrom A P ((if test then pure tt else raise (failure message)) >> n)
  unfolding ◌>>◌
  guard_then-Moves true message n h = record { at = (h refl).at }
  guard_then-Moves false message n h = record { at = λ s u p. here }

  -- The row of the id, or an error; the rest may use that it is there.
  find_job_then-Moves :
      {P : List Job → Type 0} {B : Type 0} (id : String) (f : Job → Exec B)
      → ((j : Job) → MovesFrom A (λ js. get_job id js ≡ some j) (f j))
      → MovesFrom A P (find_job id >>= f)
  unfolding ◌>>=◌ find_job
  find_job_then-Moves id f h = record { at = λ s u p. go s u (get_job id s.jobs) refl }
    where
      go :
          (s : Store)
          → UniqueIds s.jobs
          → (o : Option Job) → get_job id s.jobs ≡ o
          → Reach A s
              (continue f
                (or_raise (concat ("Job not found: " ∷ id ∷ [])) o s).0
                (or_raise (concat ("Job not found: " ∷ id ∷ [])) o s).1).1
      go s u none e = here
      go s u (some j) e = (h j).at s u e

  module _
      (may_requeue : (later : Bool) (run_at at : ℕ) (id : String)
        → A (row (requeue later run_at at) id)) where
    pub requeue_job-Moves : (id : String) (t : Option ℕ) → Moves A (requeue_job id t)
    unfolding requeue_job
    requeue_job-Moves id t = after_quiet-Moves _ _ (run_at_or_now-IsQuiet t) λ run_at.
        after_quiet-Moves _ _ (search quiet_methods) λ at. find_job_then-Moves id _ λ current.
          guard_then-Moves (is_terminal current.status || is_failed current.status) _ _ λ ends.
            after_quiet-Moves _ _ (search quiet_methods) λ now.
              bind-Moves _ _
                (update_job-MovesFrom _ id (may_requeue _ _ _ id) (λ js k found e.
                  let same_job : current ≡ k = cc (found, e) in
                  subst (λ (j : Job). (is_terminal j.status || is_failed j.status) ≡ true) same_job
                    ends))
                (λ found. search moves_rules)

    replay_one-Moves :
        ((n : ℕ) (id : String) → A (row (allow_attempts n) id))
        → (most : Option Parsed) (j : Job) → Moves A (replay_one most j)
    unfolding replay_one
    replay_one-Moves may none j = requeue_job-Moves j.id none
    replay_one-Moves may (some n) j =
        then-Moves _ _ (update_job-MovesFrom _ j.id (may _ j.id) (λ js k p e. tt))
          (requeue_job-Moves j.id none)

    replay_each-Moves :
        ((n : ℕ) (id : String) → A (row (allow_attempts n) id))
        → (most : Option Parsed) (js : List Job) → Moves A (replay_each most js)
    unfolding replay_each
    replay_each-Moves may most [] = search moves_rules
    replay_each-Moves may most (j ∷ js) =
        bind-Moves _ _ (replay_one-Moves may most j)
          λ this. bind-Moves _ _ (replay_each-Moves may most js) λ rest. search moves_rules

    pub requeue_dead_letters-Moves :
        ((n : ℕ) (id : String) → A (row (allow_attempts n) id))
        → (queue type : String) (limit : Parsed) (most : Option Parsed)
        → Moves A (requeue_dead_letters queue type limit most)
    unfolding requeue_dead_letters
    requeue_dead_letters-Moves may queue type limit most =
        bind-Moves _ _ (search moves_rules)
          λ rows. bind-Moves _ _ (replay_each-Moves may most _) λ requeued. search moves_rules

  log_each-Moves : (worker reason : String) (js : List Job) → Moves A (log_each worker reason js)
  unfolding log_each
  log_each-Moves worker reason [] = search moves_rules
  log_each-Moves worker reason (j ∷ js) =
      then-Moves _ _ (search moves_rules) (log_each-Moves worker reason js)

  give_up_leases-Moves :
      (worker reason : String) (at : ℕ)
      → A (give_up worker)
      → Moves A (give_up_leases worker reason at)
  unfolding give_up_leases
  give_up_leases-Moves worker reason at a = record {
    at = λ s u p. Reach-one (drop_leases worker reason at a refl refl);
  }

  pub release_worker_leases-Moves :
      (worker reason : String) → A (give_up worker) → Moves A (release_worker_leases worker reason)
  unfolding release_worker_leases
  release_worker_leases-Moves worker reason a = bind-Moves _ _ (search moves_rules) λ at.
      bind-Moves _ _ (give_up_leases-Moves worker reason at a)
        λ rows. then-Moves _ _ (log_each-Moves worker reason rows) (search moves_rules)

  module _ (may_configure : A configure) where
    put_queue-Moves : (q : Queue) → Moves A (put_queue q)
    unfolding put_queue raise
    put_queue-Moves q = record {
      at = λ s u p. elim (Bool-cases (is_some (get_queue q.name s.queues))) [
        | inl e ↦ rw e (Reach-one (set_queues may_configure refl))
        | inr e ↦
            rw e (elim (Bool-cases (is_some (find (λ (x : Queue). str_eq x.id q.id) s.queues))) [
              | inl e' ↦ rw e' here
              | inr e' ↦ rw e' (Reach-one (set_queues may_configure refl))
            ])
      ];
    }

    pub find_queue-Moves : (name : String) → Moves A (find_queue name)
    unfolding find_queue
    find_queue-Moves name = search moves_rules

    pub upsert_queue-Moves : (input : QueueInput) → Moves A (upsert_queue input)
    unfolding upsert_queue
    upsert_queue-Moves input = bind-Moves _ _ (search moves_rules) λ at.
        bind-Moves _ _ (search moves_rules)
          λ existing. then-Moves _ _ (put_queue-Moves _) (find_queue-Moves _)

    pub ensure_queue-Moves : (name : String) → Moves A (ensure_queue name)
    unfolding ensure_queue
    ensure_queue-Moves name = bind-Moves _ _ (search moves_rules) λ found.
        if-Moves (is_some found) (pure tt) (upsert_queue (queue_named name) >> pure tt)
          (search moves_rules) (then-Moves _ _ (upsert_queue-Moves _) (search moves_rules))

    enable_queue-Moves : (name : String) (b : Bool) (at : ℕ) → Moves A (enable_queue name b at)
    unfolding enable_queue
    enable_queue-Moves name b at = record {
      at = λ s u p. Reach-one (set_queues may_configure refl);
    }

    pub toggle_queue-Moves : (name : String) (enabled : Json) → Moves A (toggle_queue name enabled)
    unfolding toggle_queue
    toggle_queue-Moves name enabled =
        bind-Moves _ _ (search moves_rules)
          λ at. bind-Moves _ _ (enable_queue-Moves _ _ at) λ found. search moves_rules

  -- An enqueue adds at most one job; it may add its queue before.
  module _ (may_configure : A configure)
      (may_add : (input : JobInput) (id queue : String) (payload : Json)
          (depends_on waiting errors : List String) (run_at at : ℕ)
        → A (add (new_job input id queue payload depends_on waiting errors run_at at))) where
    insert_job-Moves : (j : Job) → A (add j) → Moves A (insert_job j)
    unfolding insert_job
    insert_job-Moves j may = record {
      at = λ s u p. elim (Bool-cases (any (conflicts j) s.jobs)) [
        | inl e ↦ rw e here
        | inr e ↦ rw e (Reach-one (insert j may e refl refl))
      ];
    }

    announce_dependencies-Moves :
        (id : String) (ids : List String) → Moves A (announce_dependencies id ids)
    unfolding announce_dependencies
    announce_dependencies-Moves id [] = search moves_rules
    announce_dependencies-Moves id (x ∷ ids) = search moves_rules

    announce_job-Moves :
        (input : JobInput) (id : String) (ids : List String) → Moves A (announce_job input id ids)
    unfolding announce_job find_job
    announce_job-Moves input id ids = bind-Moves _ _ (search moves_rules) λ j.
        then-Moves _ _ (search moves_rules)
          (then-Moves _ _ (announce_dependencies-Moves id ids) (search moves_rules))

    reuse_job-Moves : (key : String) (o : Option Job) → Moves A (reuse_job key o)
    unfolding reuse_job
    reuse_job-Moves key none = search moves_rules
    reuse_job-Moves key (some j) = search moves_rules

    duplicate_job-Moves : (key : Option String) → Moves A (duplicate_job key)
    unfolding duplicate_job
    duplicate_job-Moves none = search moves_rules
    duplicate_job-Moves (some key) = bind-Moves _ _ (search moves_rules) λ found.
        if-Moves (is_truthy (some key)) (reuse_job key found) (raise unique_constraint)
          (reuse_job-Moves key found) (search moves_rules)

    check_payload-Moves :
        (allow : Bool) (o : Option (List String)) → Moves A (check_payload allow o)
    unfolding check_payload
    check_payload-Moves allow none = search moves_rules
    check_payload-Moves allow (some []) = search moves_rules
    check_payload-Moves allow (some (e ∷ es)) = search moves_rules

    given_or_new-Moves :
        (o : Option String) (m : Exec String) → Moves A m → Moves A (given_or_new o m)
    unfolding given_or_new
    given_or_new-Moves none m h = h
    given_or_new-Moves (some id) m h = if-Moves (str_eq id "") m (pure id) h (search moves_rules)

    pub enqueue_job-Moves : (input : JobInput) → Moves A (enqueue_job input)
    unfolding enqueue_job
    enqueue_job-Moves input = bind-Moves _ _ (search moves_rules) λ at.
        then-Moves _ _ (ensure_queue-Moves may_configure _) (
          bind-Moves _ _ (find_queue-Moves may_configure _) λ q.
            bind-Moves _ _ (search moves_rules) λ backlog. then-Moves _ _ (search moves_rules) (
              bind-Moves _ _ (search moves_rules) λ waiting.
                bind-Moves _ _ (search moves_rules) λ parse.
                  bind-Moves _ _ (check_payload-Moves _ _) λ errors.
                    bind-Moves _ _ (given_or_new-Moves input.id _ (search moves_rules)) λ id.
                      bind-Moves _ _
                        (insert_job-Moves _ (may_add input id _ _ _ waiting errors _ at))
                        λ inserted.
                          if-Moves inserted _ _ (announce_job-Moves input id _)
                            (duplicate_job-Moves input.idempotency_key)))
