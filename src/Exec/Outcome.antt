-- ===== src/Exec/Outcome.antt =====
-- A method returns, and what holds of its result and the store then: one rule for each way to build
-- a method.
use distributed_job_queue_sc.Prelude.{
  String, Bool, true, false, ◌≡◌, refl, ◌∙◌, Option, none, if◌then◌else◌,
}
use distributed_job_queue_sc.Model.{Store, EventType}
use distributed_job_queue_sc.Exec.{
  Exec, Result, ok, err, pure, gets, ◌>>=◌, ◌>>◌, continue, now_iso, random_uuid, insert_event,
  create_id, add_event, Error, not_found, failure, or_raise, or_fail, raise,
}

pub record Gives {B : Type 0} (m : Exec B) (s : Store) (Q : B → Store → Type 0) : Type 0 where
  pub value : B
  pub returns : (m s).0 ≡ ok value
  pub post : Q value (m s).1

-- The jobs are as they were.
abbrev pub SameJobs : {B : Type 0} → Store → B → Store → Type 0
SameJobs s b t = t.jobs ≡ s.jobs

module _ {B : Type 0} where
  pub pure-Gives : (b : B) (s : Store) {Q : B → Store → Type 0} → Q b s → Gives (pure b) s Q
  unfolding pure
  pure-Gives b s q = record { value = b; returns = refl; post = q }

  pub gets-Gives :
      (f : Store → B) (s : Store) → Gives (gets f) s (λ b t. (b ≡ f s) × (t.jobs ≡ s.jobs))
  unfolding gets
  gets-Gives f s = record { value = f s; returns = refl; post = (refl, refl) }

  pub if-Gives :
      (b : Bool) (m n : Exec B) (s : Store) {Q : B → Store → Type 0}
      → (b ≡ true → Gives m s Q)
      → (b ≡ false → Gives n s Q)
      → Gives (if b then m else n) s Q
  if-Gives true m n s then_gives else_gives = then_gives refl
  if-Gives false m n s then_gives else_gives = else_gives refl

  pub weaken-Gives :
      (m : Exec B) (s : Store) {Q R : B → Store → Type 0}
      → Gives m s Q
      → ((b : B) (t : Store) → Q b t → R b t)
      → Gives m s R
  weaken-Gives m s g f = record {
    value = g.value;
    returns = g.returns;
    post = f g.value (m s).1 g.post;
  }

module _ {B C : Type 0} where
  pub bind-Gives :
      (m : Exec B) (f : B → Exec C) (s : Store) {Q : B → Store → Type 0} {R : C → Store → Type 0}
      → Gives m s Q
      → ((b : B) (t : Store) → Q b t → Gives (f b) t R)
      → Gives (m >>= f) s R
  unfolding ◌>>=◌
  bind-Gives m f s {R = R} g k =
      let rest = k g.value (m s).1 g.post in
      record {
        value = rest.value;
        returns = rw g.returns rest.returns;
        post = rw g.returns rest.post;
      }

  pub then-Gives :
      (m : Exec B) (n : Exec C) (s : Store) {Q : B → Store → Type 0} {R : C → Store → Type 0}
      → Gives m s Q
      → ((b : B) (t : Store) → Q b t → Gives n t R)
      → Gives (m >> n) s R
  unfolding ◌>>◌
  then-Gives m n s {R = R} g k =
      let rest = k g.value (m s).1 g.post in
      record {
        value = rest.value;
        returns = rw g.returns rest.returns;
        post = rw g.returns rest.post;
      }

pub now_iso-Gives : (s : Store) → Gives now_iso s (SameJobs s)
unfolding now_iso
now_iso-Gives s = record { value = _; returns = refl; post = refl }

random_uuid-Gives : (s : Store) → Gives random_uuid s (SameJobs s)
unfolding random_uuid
random_uuid-Gives s = record { value = _; returns = refl; post = refl }

create_id-Gives :
    (prefix label : String) (s : Store) → Gives (create_id prefix label) s (SameJobs s)
unfolding create_id
create_id-Gives prefix label s = bind-Gives _ _ s (random_uuid-Gives s) λ id t e. pure-Gives _ t e

pub add_event-Gives :
    (type : EventType) (job schedule worker : Option String) (message : String) (s : Store)
    → Gives (add_event type job schedule worker message) s (SameJobs s)
unfolding add_event insert_event
add_event-Gives type job schedule worker message s = bind-Gives _ _ s (now_iso-Gives s) λ at t e.
    bind-Gives _ _ t (create_id-Gives "evt" _ t)
      λ id u d. record { value = tt; returns = refl; post = d ∙ e }

-- A method throws, and what holds of the store then.
pub record Throws {B : Type 0} (m : Exec B) (s : Store) (e : Error) (Q : Store → Type 0)
    : Type 0 where
  pub throws : (m s).0 ≡ err e
  pub post : Q (m s).1

module _ {B C : Type 0} where
  pub first-Throws :
      (m : Exec B) (f : B → Exec C) (s : Store) {e : Error} {Q : Store → Type 0}
      → Throws m s e Q
      → Throws (m >>= f) s e Q
  unfolding ◌>>=◌
  first-Throws m f s h = record { throws = rw h.throws refl; post = rw h.throws h.post }

  pub then_first-Throws :
      (m : Exec B) (n : Exec C) (s : Store) {e : Error} {Q : Store → Type 0}
      → Throws m s e Q
      → Throws (m >> n) s e Q
  unfolding ◌>>◌
  then_first-Throws m n s h = record { throws = rw h.throws refl; post = rw h.throws h.post }

  pub bind-Throws :
      (m : Exec B) (f : B → Exec C) (s : Store) {e : Error} {Q : B → Store → Type 0}
      {R : Store → Type 0}
      → Gives m s Q
      → ((b : B) (t : Store) → Q b t → Throws (f b) t e R)
      → Throws (m >>= f) s e R
  unfolding ◌>>=◌
  bind-Throws m f s g k =
      let rest = k g.value (m s).1 g.post in
      record { throws = rw g.returns rest.throws; post = rw g.returns rest.post }

module _ {B : Type 0} where
  pub or_raise-Throws :
      (message : String) (o : Option B) (s : Store) {Q : Store → Type 0}
      → o ≡ none
      → Q s
      → Throws (or_raise message o) s (not_found message) Q
  unfolding or_raise raise
  or_raise-Throws message o s e q = rw e record { throws = refl; post = q }

  pub or_fail-Throws :
      (message : String) (o : Option B) (s : Store) {Q : Store → Type 0}
      → o ≡ none
      → Q s
      → Throws (or_fail message o) s (failure message) Q
  unfolding or_fail raise
  or_fail-Throws message o s e q = rw e record { throws = refl; post = q }

-- What holds of the result and the store, whether the method returns or throws.
abbrev pub Judge : {B : Type 0} → (B → Type 0) → Type 0 → Result B → Type 0
Judge Q E (ok b) = Q b
Judge Q E (err e) = E

pub record Ends {B : Type 0} (m : Exec B) (s : Store) (Q : B → Store → Type 0) (E : Store → Type 0)
    : Type 0 where
  pub verdict : Judge (λ b. Q b (m s).1) (E (m s).1) (m s).0

module _ {B : Type 0} where
  pub Gives-Ends :
      (m : Exec B) (s : Store) {Q : B → Store → Type 0} {E : Store → Type 0}
      → Gives m s Q
      → Ends m s Q E
  Gives-Ends m s g = record { verdict = rw g.returns g.post }

  pub weaken-Ends :
      (m : Exec B) (s : Store) {Q R : B → Store → Type 0} {E F : Store → Type 0}
      → Ends m s Q E
      → ((b : B) (t : Store) → Q b t → R b t)
      → ((t : Store) → E t → F t)
      → Ends m s R F
  weaken-Ends m s {Q = Q} {R = R} {E = E} {F = F} h f g = record {
    verdict = judge (m s).0 h.verdict;
  }
    where
      judge :
          (r : Result B)
          → Judge (λ b. Q b (m s).1) (E (m s).1) r
          → Judge (λ b. R b (m s).1) (F (m s).1) r
      judge (ok b) q = f b (m s).1 q
      judge (err e) q = g (m s).1 q

  pub Throws-Ends :
      (m : Exec B) (s : Store) {e : Error} {Q : B → Store → Type 0} {E : Store → Type 0}
      → Throws m s e E
      → Ends m s Q E
  Throws-Ends m s g = record { verdict = rw g.throws g.post }

  pub raise-Ends :
      (e : Error) (s : Store) {Q : B → Store → Type 0} {E : Store → Type 0}
      → E s
      → Ends (raise e) s Q E
  unfolding raise
  raise-Ends e s h = record { verdict = h }

  pub if-Ends :
      (b : Bool) (m n : Exec B) (s : Store) {Q : B → Store → Type 0} {E : Store → Type 0}
      → (b ≡ true → Ends m s Q E)
      → (b ≡ false → Ends n s Q E)
      → Ends (if b then m else n) s Q E
  if-Ends true m n s then_ends else_ends = then_ends refl
  if-Ends false m n s then_ends else_ends = else_ends refl

  -- A part that changes no job, whatever becomes of it.
  pub quiet-Ends :
      (m : Exec B) (s t : Store)
      → t.jobs ≡ s.jobs
      → (m t).1.jobs ≡ t.jobs
      → Ends m t (SameJobs s) (λ u. u.jobs ≡ s.jobs)
  quiet-Ends m s t e d = record { verdict = judge (m t).0 }
    where
      judge : (r : Result B) → Judge (λ b. (m t).1.jobs ≡ s.jobs) ((m t).1.jobs ≡ s.jobs) r
      judge (ok b) = d ∙ e
      judge (err x) = d ∙ e

module _ {B C : Type 0} where
  continue-Ends :
      (f : B → Exec C) (r : Result B) (t : Store) {P : B → Store → Type 0} {Q : C → Store → Type 0}
      {E : Store → Type 0}
      → Judge (λ b. P b t) (E t) r
      → ((b : B) (t : Store) → P b t → Ends (f b) t Q E)
      → Judge (λ c. Q c (continue f r t).1) (E (continue f r t).1) (continue f r t).0
  continue-Ends f (ok b) t h k = (k b t h).verdict
  continue-Ends f (err e) t h k = h

  pub bind-Ends :
      (m : Exec B) (f : B → Exec C) (s : Store) {P : B → Store → Type 0} {Q : C → Store → Type 0}
      {E : Store → Type 0}
      → Ends m s P E
      → ((b : B) (t : Store) → P b t → Ends (f b) t Q E)
      → Ends (m >>= f) s Q E
  unfolding ◌>>=◌
  bind-Ends m f s h k = record { verdict = continue-Ends f (m s).0 (m s).1 h.verdict k }

  pub then-Ends :
      (m : Exec B) (n : Exec C) (s : Store) {P : B → Store → Type 0} {Q : C → Store → Type 0}
      {E : Store → Type 0}
      → Ends m s P E
      → ((b : B) (t : Store) → P b t → Ends n t Q E)
      → Ends (m >> n) s Q E
  unfolding ◌>>◌
  then-Ends m n s h k = record { verdict = continue-Ends (λ _. n) (m s).0 (m s).1 h.verdict k }
