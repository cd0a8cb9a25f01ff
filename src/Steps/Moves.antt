-- ===== src/Steps/Moves.antt =====
-- A method moves the store by allowed writes. One rule for each way to build a method, which
-- `search` applies along a `do` block.
use distributed_job_queue_sc.Prelude.{
  ℕ, String, Bool, true, false, ◌≡◌, refl, sym, subst, List, [], Option, none, some, if◌then◌else◌,
  Bool-cases, inl, inr, ◌∙◌,
}
use distributed_job_queue_sc.Prelude.Int.{ℤ}
use distributed_job_queue_sc.Model.{Store, Worker, Job, Event, EventType}
use distributed_job_queue_sc.Exec.{
  Exec, Result, ok, err, Error, pure, raise, gets, continue, or_fail, or_raise, or_type_error,
  ◌>>=◌, ◌>>◌, unless, now_iso, random_uuid, random_below, insert_event, add_event, create_id,
}
use distributed_job_queue_sc.Jobs.{Change, where_row, get_job, update_job, try_change}
use distributed_job_queue_sc.Jobs.Finish.{retry_delay, guidance}
use distributed_job_queue_sc.Input.{RetryPolicy}
use distributed_job_queue_sc.Workers.{update_worker, increment_worker}
use distributed_job_queue_sc.Steps.{
  Write, row, Ready, same, update, Reach, here, Reach-trans, Reach-one,
}
use distributed_job_queue_sc.Steps.Unique.{UniqueIds, Reach-UniqueIds}

-- From a store with unique ids and jobs for which `P` holds.
pub record MovesFrom (A : Write → Type 0) (P : List Job → Type 0) {B : Type 0} (m : Exec B)
    : Type 0 where
  pub at : (s : Store) → UniqueIds s.jobs → P s.jobs → Reach A s (m s).1

abbrev pub Any : List Job → Type 0
Any js = Unit

abbrev pub Moves : (A : Write → Type 0) {B : Type 0} → Exec B → Type 0
Moves A m = MovesFrom A Any m

-- Neither the jobs nor the queues change.
pub record IsQuiet {B : Type 0} (m : Exec B) : Type 0 where
  pub jobs : (s : Store) → (m s).1.jobs ≡ s.jobs
  pub queues : (s : Store) → (m s).1.queues ≡ s.queues

module _ {B : Type 0} where
  pub pure-IsQuiet : (b : B) → IsQuiet (pure b)
  unfolding pure
  pure-IsQuiet b = record { jobs = λ s. refl; queues = λ s. refl }

  pub raise-IsQuiet : (e : Error) → IsQuiet (raise {A = B} e)
  unfolding raise
  raise-IsQuiet e = record { jobs = λ s. refl; queues = λ s. refl }

  pub gets-IsQuiet : (f : Store → B) → IsQuiet (gets f)
  unfolding gets
  gets-IsQuiet f = record { jobs = λ s. refl; queues = λ s. refl }

  pub or_fail-IsQuiet : (t : String) (o : Option B) → IsQuiet (or_fail t o)
  unfolding or_fail
  or_fail-IsQuiet t none = record { jobs = λ s. refl; queues = λ s. refl }
  or_fail-IsQuiet t (some b) = record { jobs = λ s. refl; queues = λ s. refl }

  pub or_raise-IsQuiet : (t : String) (o : Option B) → IsQuiet (or_raise t o)
  unfolding or_raise
  or_raise-IsQuiet t none = record { jobs = λ s. refl; queues = λ s. refl }
  or_raise-IsQuiet t (some b) = record { jobs = λ s. refl; queues = λ s. refl }

  pub or_type_error-IsQuiet : (o : Option B) → IsQuiet (or_type_error o)
  unfolding or_type_error
  or_type_error-IsQuiet none = record { jobs = λ s. refl; queues = λ s. refl }
  or_type_error-IsQuiet (some b) = record { jobs = λ s. refl; queues = λ s. refl }

  pub if-IsQuiet : (b : Bool) (m n : Exec B) → IsQuiet m → IsQuiet n → IsQuiet (if b then m else n)
  if-IsQuiet true m n p q = p
  if-IsQuiet false m n p q = q

module _ {B C : Type 0} where
  continue-IsQuiet :
      (f : B → Exec C) (r : Result B) → ((b : B) → IsQuiet (f b)) → IsQuiet (continue f r)
  continue-IsQuiet f (ok b) q = q b
  continue-IsQuiet f (err e) q = record { jobs = λ s. refl; queues = λ s. refl }

  pub bind-IsQuiet :
      (m : Exec B) (f : B → Exec C) → IsQuiet m → ((b : B) → IsQuiet (f b)) → IsQuiet (m >>= f)
  unfolding ◌>>=◌
  bind-IsQuiet m f p q = record {
    jobs = λ s. (continue-IsQuiet f (m s).0 q).jobs (m s).1 ∙ p.jobs s;
    queues = λ s. (continue-IsQuiet f (m s).0 q).queues (m s).1 ∙ p.queues s;
  }

  pub then-IsQuiet : (m : Exec B) (n : Exec C) → IsQuiet m → IsQuiet n → IsQuiet (m >> n)
  unfolding ◌>>◌
  then-IsQuiet m n p q = record {
    jobs = λ s. (continue-IsQuiet (λ _. n) (m s).0 (λ _. q)).jobs (m s).1 ∙ p.jobs s;
    queues = λ s. (continue-IsQuiet (λ _. n) (m s).0 (λ _. q)).queues (m s).1 ∙ p.queues s;
  }

pub now_iso-IsQuiet : IsQuiet now_iso
unfolding now_iso
now_iso-IsQuiet = record { jobs = λ s. refl; queues = λ s. refl }

pub random_uuid-IsQuiet : IsQuiet random_uuid
unfolding random_uuid
random_uuid-IsQuiet = record { jobs = λ s. refl; queues = λ s. refl }

pub random_below-IsQuiet : IsQuiet random_below
unfolding random_below
random_below-IsQuiet = record { jobs = λ s. refl; queues = λ s. refl }

pub insert_event-IsQuiet : (e : Event) → IsQuiet (insert_event e)
unfolding insert_event
insert_event-IsQuiet e = record { jobs = λ s. refl; queues = λ s. refl }

pub update_worker-IsQuiet : (id : String) (f : Worker → Worker) → IsQuiet (update_worker id f)
unfolding update_worker
update_worker-IsQuiet id f = record { jobs = λ s. refl; queues = λ s. refl }

pub ruleset quiet_rules = (
  pure-IsQuiet, raise-IsQuiet, gets-IsQuiet, or_fail-IsQuiet, or_raise-IsQuiet,
  or_type_error-IsQuiet, if-IsQuiet, bind-IsQuiet, then-IsQuiet, now_iso-IsQuiet,
  random_uuid-IsQuiet, random_below-IsQuiet, insert_event-IsQuiet, update_worker-IsQuiet,
)

pub create_id-IsQuiet : (prefix label : String) → IsQuiet (create_id prefix label)
unfolding create_id
create_id-IsQuiet prefix label = search quiet_rules

pub add_event-IsQuiet :
    (type : EventType) (job schedule worker : Option String) (message : String)
    → IsQuiet (add_event type job schedule worker message)
unfolding add_event
add_event-IsQuiet type job schedule worker message = search (quiet_rules, create_id-IsQuiet)

pub increment_worker-IsQuiet :
    (id : String) (processed failed : ℕ) (active : ℤ)
    → IsQuiet (increment_worker id processed failed active)
unfolding increment_worker
increment_worker-IsQuiet id processed failed active = search quiet_rules

pub guidance-IsQuiet : (error : String) (j : Job) → IsQuiet (guidance error j)
unfolding guidance
guidance-IsQuiet error j = search quiet_rules

pub retry_delay-IsQuiet :
    (policy : RetryPolicy) (attempts : ℕ) → IsQuiet (retry_delay policy attempts)
unfolding retry_delay
retry_delay-IsQuiet policy attempts = search quiet_rules

pub ruleset quiet_methods = (
  quiet_rules, create_id-IsQuiet, add_event-IsQuiet, increment_worker-IsQuiet, guidance-IsQuiet,
  retry_delay-IsQuiet,
)

module _ {A : Write → Type 0} {P : List Job → Type 0} {B : Type 0} where
  pub quiet-Moves : (m : Exec B) → IsQuiet m → MovesFrom A P m
  quiet-Moves m q = record { at = λ s u p. Reach-one (same (q.jobs s) (q.queues s)) }

  pub if-Moves :
      (b : Bool) (m n : Exec B)
      → MovesFrom A P m
      → MovesFrom A P n
      → MovesFrom A P (if b then m else n)
  if-Moves true m n p q = p
  if-Moves false m n p q = q

  pub any-Moves : (m : Exec B) → Moves A m → MovesFrom A P m
  any-Moves m h = record { at = λ s u p. h.at s u tt }

module _ {A : Write → Type 0} {P : List Job → Type 0} {B C : Type 0} where
  continue-Moves :
      (f : B → Exec C) (r : Result B)
      → ((b : B) → MovesFrom A P (f b))
      → MovesFrom A P (continue f r)
  continue-Moves f (ok b) q = q b
  continue-Moves f (err e) q = record { at = λ s u p. here }

module _ {A : Write → Type 0} {P : List Job → Type 0} {B C : Type 0} where
  -- The writes of `m`, then those of the rest.
  pub bind-Moves :
      (m : Exec B) (f : B → Exec C)
      → MovesFrom A P m
      → ((b : B) → Moves A (f b))
      → MovesFrom A P (m >>= f)
  unfolding ◌>>=◌
  bind-Moves m f p q = record {
    at = λ s u h.
        let first = p.at s u h in
        Reach-trans first ((continue-Moves f (m s).0 q).at (m s).1 (Reach-UniqueIds first u) tt);
  }

  pub then-Moves : (m : Exec B) (n : Exec C) → MovesFrom A P m → Moves A n → MovesFrom A P (m >> n)
  unfolding ◌>>◌
  then-Moves m n p q = (bind-Moves m (λ _. n) p (λ _. q))

  -- What holds of the jobs still holds after a part that leaves them alone.
  pub after_quiet-Moves :
      (m : Exec B) (f : B → Exec C)
      → IsQuiet m
      → ((b : B) → MovesFrom A P (f b))
      → MovesFrom A P (m >>= f)
  unfolding ◌>>=◌
  after_quiet-Moves m f p q = record {
    at = λ s u h.
        let e = sym (p.jobs s) in
        Reach-trans (Reach-one (same (p.jobs s) (p.queues s)))
          ((continue-Moves f (m s).0 q).at (m s).1 (subst UniqueIds e u) (subst P e h));
  }

module _ {A : Write → Type 0} {P : List Job → Type 0} {B : Type 0} where
  pub weaken-Moves :
      {Q : List Job → Type 0} (m : Exec B)
      → MovesFrom A Q m
      → ((js : List Job) → P js → Q js)
      → MovesFrom A P m
  weaken-Moves m h f = record { at = λ s u p. h.at s u (f s.jobs p) }

module _ {A : Write → Type 0} {P : List Job → Type 0} {B C : Type 0} where
  -- A read: the rest may use what was read, of the jobs as they are.
  pub gets_then-Moves :
      (g : Store → B) (f : B → Exec C)
      → ((s : Store) → UniqueIds s.jobs → P s.jobs → MovesFrom A (λ js. js ≡ s.jobs) (f (g s)))
      → MovesFrom A P (gets g >>= f)
  unfolding ◌>>=◌
  gets_then-Moves g f h = record { at = λ s u p. (h s u p).at s u refl }

  pub or_raise_then-Moves :
      (t : String) (o : Option B) (f : B → Exec C)
      → ((b : B) → o ≡ some b → MovesFrom A P (f b))
      → MovesFrom A P (or_raise t o >>= f)
  unfolding ◌>>=◌
  or_raise_then-Moves t none f h = record { at = λ s u p. here }
  or_raise_then-Moves t (some b) f h = record { at = λ s u p. (h b refl).at s u p }

  -- The rest may use what holds of the jobs after the first part.
  pub bind_post-Moves :
      {Q : List Job → Type 0} (m : Exec B) (f : B → Exec C)
      → MovesFrom A P m
      → ((s : Store) → UniqueIds s.jobs → P s.jobs → Q (m s).1.jobs)
      → ((b : B) → MovesFrom A Q (f b))
      → MovesFrom A P (m >>= f)
  unfolding ◌>>=◌
  bind_post-Moves m f p post q = record {
    at = λ s u h.
        let first = p.at s u h in
        Reach-trans first
          ((continue-Moves f (m s).0 q).at (m s).1 (Reach-UniqueIds first u) (post s u h));
  }

module _ {A : Write → Type 0} {B : Type 0} where
  pub unless-Moves : (b : Bool) (m : Exec (List B)) → Moves A m → Moves A (unless b m)
  unfolding unless
  unless-Moves true m h = quiet-Moves _ (pure-IsQuiet [])
  unless-Moves false m h = h

-- An UPDATE by id is one allowed write, or none.
module _ {A : Write → Type 0} {P : List Job → Type 0} where
  pub update_job-MovesFrom :
      (c : Change) (id : String)
      → A (row c id)
      → ((js : List Job) (j : Job) → P js → get_job id js ≡ some j → Ready c j)
      → MovesFrom A P (update_job c id)
  unfolding update_job
  update_job-MovesFrom c id a ready = record { at = λ s u p. go s p (get_job id s.jobs) refl }
    where
      go :
          (s : Store)
          → P s.jobs
          → (o : Option Job) → get_job id s.jobs ≡ o
          → Reach A s (try_change c id o s).1
      go s p none e = here
      go s p (some j) e = elim (Bool-cases (where_row s c j)) [
        | inl w ↦
            rw (w, try_change) (Reach-one (update c id j a e w (ready s.jobs j p e) refl refl))
        | inr w ↦ rw (w, try_change) here
      ]

pub ruleset moves_rules = (quiet-Moves, if-Moves, bind-Moves, then-Moves, quiet_methods)
