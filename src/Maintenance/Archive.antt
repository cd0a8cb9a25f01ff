-- ===== src/Maintenance/Archive.antt =====
-- `archiveTerminalJobs` (src/core/store.mjs).
use native.Mathlib.Omega.{arith}
use distributed_job_queue_sc.Prelude.{
  ℕ, String, Bool, true, false, not, ◌≡◌, refl, sym, ◌∙◌, List, [], ◌∷◌, ◌++◌, Option, some, ap,
  subst, str_eq, eq_iff, eq_refl, find, where_rows, All, Bool-cases, inl, inr, ◌⊎◌, take, sort_by,
  insert_by, ltb, zero, suc,
}
use distributed_job_queue_sc.Input.{Parsed}
use distributed_job_queue_sc.Model.{Job, EventType, Archived, Store, is_terminal}
use distributed_job_queue_sc.Exec.{
  pure, gets, now_iso, random_uuid, create_id, insert_event, add_event, ◌>>=◌,
}
use distributed_job_queue_sc.Exec.Outcome.{Gives, pure-Gives, bind-Gives, then-Gives}
use distributed_job_queue_sc.Jobs.{get_job}
use distributed_job_queue_sc.Steps.Unique.{UniqueIds, get_job-id}
use distributed_job_queue_sc.Steps.Lookup.{Found, where_rows-Found, where_rows-test}
use distributed_job_queue_sc.Maintenance.{
  is_archived, archive_one, archive_each, archive_terminal_jobs,
}

-- The job is in the archive, as it is.
abbrev pub InArchive : Job → List Archived → Type 0
InArchive a rows = (r : Archived) × (find (λ x. str_eq x.id a.id) rows ≡ some r) × (r.job ≡ a)

-- Against an earlier store: a job is in the table as it was, or has ended and is in the archive.
abbrev pub Preserved : Store → Store → Type 0
Preserved s t =
    (k : String) (a : Job)
    → get_job k s.jobs ≡ some a
    → (get_job k t.jobs ≡ some a) ⊎ ((is_terminal a.status ≡ true) × InArchive a t.job_archive)

find_other :
    (k id : String) (js : List Job) (a : Job)
    → str_eq k id ≡ false
    → get_job k js ≡ some a
    → get_job k (where_rows (λ x. not (str_eq x.id id)) js) ≡ some a
unfolding get_job find where_rows
find_other k id [] a n f = cc
find_other k id (x ∷ js) a n f =
    ground (arith, eq_iff x.id k, eq_iff x.id id, eq_iff k id, find_other k id js a n)

archive_other :
    (k id : String) (rows : List Archived) (new r : Archived)
    → str_eq k id ≡ false
    → find (λ x. str_eq x.id k) rows ≡ some r
    → find (λ x. str_eq x.id k) (where_rows (λ a. not (str_eq a.id id)) rows ++ new ∷ []) ≡ some r
unfolding find where_rows
archive_other k id [] new r n f = cc
archive_other k id (x ∷ rows) new r n f =
    ground (arith, eq_iff x.id k, eq_iff x.id id, eq_iff k id, archive_other k id rows new r n)

archive_self :
    (id : String) (rows : List Archived) (new : Archived)
    → str_eq new.id id ≡ true
    → find (λ x. str_eq x.id id) (where_rows (λ a. not (str_eq a.id id)) rows ++ new ∷ [])
      ≡ some new
unfolding find where_rows
archive_self id [] new e = rw e refl
archive_self id (x ∷ rows) new e = ground (arith, archive_self id rows new e)

-- The rows of the store that the transaction goes through have ended.
abbrev Ended : Store → List Job → Type 0
Ended s rows = All (λ j. Found s.jobs j × (is_terminal j.status ≡ true)) rows

archive_one-Preserved :
    (at : ℕ) (j : Job) (s t : Store)
    → Found s.jobs j
    → is_terminal j.status ≡ true
    → Preserved s t
    → Gives (archive_one at j) t (λ _ u. Preserved s u)
unfolding archive_one
archive_one-Preserved at j s t found ended p = record {
  value = tt;
  returns = refl;
  post = λ k a f. elim (Bool-cases (str_eq k j.id)) [
    | inl hit ↦
        (let k_is : k ≡ j.id = (eq_iff k j.id).0 hit in
          let a_is : j ≡ a = cc (found, f, k_is) in
          inr (
            subst (λ (x : Job). is_terminal x.status ≡ true) a_is ended,
            subst
                (λ (x : Job). InArchive x (
                  where_rows (λ r. not (str_eq r.id j.id)) t.job_archive
                  ++ record { id = j.id; job = j; archived_at = at } ∷ []))
                a_is
                (
                  record { id = j.id; job = j; archived_at = at },
                  archive_self j.id t.job_archive (record { id = j.id; job = j; archived_at = at })
                      (eq_refl j.id),
                  refl,
                ),
          ))
    | inr miss ↦ elim (p k a f) [
      | inl here ↦ inl (find_other k j.id t.jobs a miss here)
      | inr (e, (r, g, same)) ↦
          (let own : a.id ≡ k = get_job-id k s.jobs f in
            let other = ap (λ i. str_eq i j.id) own ∙ miss in
            inr (e, (r, archive_other a.id j.id t.job_archive _ r other g, same)))
    ]
  ];
}

archive_each-Preserved :
    (at : ℕ) (rows : List Job) (s t : Store)
    → Ended s rows
    → Preserved s t
    → Gives (archive_each at rows) t (λ _ u. Preserved s u)
unfolding archive_each
archive_each-Preserved at [] s t h p = pure-Gives tt t p
archive_each-Preserved at (j ∷ rows) s t ((found, ended), h) p =
    then-Gives _ _ t (archive_one-Preserved at j s t found ended p)
      λ _ u q. archive_each-Preserved at rows s u h q

module _ (P : Job → Type 0) where
  All-insert_by :
      (before : Job → Job → Bool) (x : Job) (js : List Job)
      → P x
      → All P js
      → All P (insert_by before x js)
  unfolding insert_by
  All-insert_by before x [] p h = (p, tt)
  All-insert_by before x (y ∷ js) p (q, h) = elim (Bool-cases (before y x)) [
    | inl e ↦ rw e (q, All-insert_by before x js p h)
    | inr e ↦ rw e (p, (q, h))
  ]

  All-sort_by : (before : Job → Job → Bool) (js : List Job) → All P js → All P (sort_by before js)
  unfolding sort_by
  All-sort_by before [] h = tt
  All-sort_by before (x ∷ js) (p, h) =
      All-insert_by before x (sort_by before js) p (All-sort_by before js h)

  All-take : (n : ℕ) (js : List Job) → All P js → All P (take n js)
  All-take zero js h = tt
  All-take (suc n) [] h = tt
  All-take (suc n) (x ∷ js) (p, h) = (p, All-take n js h)

  All-both : (Q : Job → Type 0) (js : List Job) → All P js → All Q js → All (λ j. P j × Q j) js
  All-both Q [] h k = tt
  All-both Q (x ∷ js) (p, h) (q, k) = ((p, q), All-both Q js h k)

archived-ended :
    (cutoff : ℕ) (js : List Job)
    → All (λ j. is_archived cutoff j ≡ true) js
    → All (λ j. is_terminal j.status ≡ true) js
unfolding is_archived
archived-ended cutoff [] h = tt
archived-ended cutoff (x ∷ js) (p, h) = (ground arith, archived-ended cutoff js h)

selected-Ended :
    (cutoff most : ℕ) (s : Store)
    → UniqueIds s.jobs
    → Ended s (
        take most
          (sort_by (λ a b. ltb a.updated_at b.updated_at) (where_rows (is_archived cutoff) s.jobs)))
selected-Ended cutoff most s u =
    let rows = where_rows (is_archived cutoff) s.jobs in
    let both = λ (j : Job). Found s.jobs j × (is_terminal j.status ≡ true) in
    All-take both most _ (
      All-sort_by both (λ a b. ltb a.updated_at b.updated_at) rows
        (All-both (Found s.jobs) (λ j. is_terminal j.status ≡ true) rows
          (where_rows-Found (is_archived cutoff) s.jobs u)
          (archived-ended cutoff rows (where_rows-test (is_archived cutoff) s.jobs))))

Preserved-same :
    (s t u : Store)
    → Preserved s t
    → u.jobs ≡ t.jobs
    → u.job_archive ≡ t.job_archive
    → Preserved s u
Preserved-same s t u p e d k a f = elim (p k a f) [
  | inl g ↦ inl (ap (get_job k) e ∙ g)
  | inr (x, (r, g, same)) ↦ inr (x, (r, ap (find (λ x. str_eq x.id a.id)) d ∙ g, same))
]

-- Jobs and archive are as they were.
abbrev Both : {B : Type 0} → Store → B → Store → Type 0
Both s b t = (t.jobs ≡ s.jobs) × (t.job_archive ≡ s.job_archive)

now_iso-Both : (s : Store) → Gives now_iso s (Both s)
unfolding now_iso
now_iso-Both s = record { value = _; returns = refl; post = (refl, refl) }

add_event-Both :
    (type : EventType) (job schedule worker : Option String) (message : String) (s : Store)
    → Gives (add_event type job schedule worker message) s (Both s)
unfolding add_event insert_event create_id random_uuid now_iso pure ◌>>=◌
add_event-Both type job schedule worker message s = record {
  value = tt;
  returns = refl;
  post = (refl, refl);
}

gets-Both :
    {B : Type 0} (f : Store → B) (s : Store) → Gives (gets f) s (λ b t. (b ≡ f s) × Both s b t)
unfolding gets
gets-Both f s = record { value = f s; returns = refl; post = (refl, (refl, refl)) }

-- Archiving returns, in a store whose job ids are distinct, and loses nothing: every job is in the table as
-- it was before, or it was completed, cancelled or a dead letter and is in the archive as it was. So a job
-- that has not ended is still in the table.
pub archive_terminal_jobs-Preserved :
    (older_than_days limit : Parsed) (s : Store)
    → UniqueIds s.jobs
    → Gives (archive_terminal_jobs older_than_days limit) s (λ _ t. Preserved s t)
unfolding archive_terminal_jobs
archive_terminal_jobs-Preserved older_than_days limit s u =
    bind-Gives _ _ s (now_iso-Both s) λ at t (jobs_t, archive_t).
      bind-Gives _ _ t (gets-Both _ t) λ rows v (picked, (jobs_v, archive_v)).
        let start : Preserved t v = Preserved-same t t v (λ k a f. inl f) jobs_v archive_v in
        then-Gives _ _ v
          (archive_each-Preserved at rows t v
            (subst (Ended t) (sym picked) (selected-Ended _ _ t (subst UniqueIds (sym jobs_t) u)))
            start)
          λ _ w done. then-Gives _ _ w (add_event-Both _ _ _ _ _ w) λ _ x (jobs_x, archive_x).
            pure-Gives _ x
              (λ k a f. Preserved-same t w x done jobs_x archive_x k a (ap (get_job k) jobs_t ∙ f))
