-- ===== src/Outcomes/Enqueue.antt =====
-- `enqueueJob` (src/core/store.mjs): the new job, the job of an idempotency key, and the errors.
use distributed_job_queue_sc.Prelude.{
  or_else, ℕ, String, ◌≡◌, refl, sym, ◌∙◌, List, [], ◌∷◌, ◌++◌, Option, none, some, if◌then◌else◌,
  inl, inr, ap, subst, any, find, is_text,
}
use distributed_job_queue_sc.Text.{normalize_name, normalize_id_list, is_truthy}
use distributed_job_queue_sc.Json.{Json}
use distributed_job_queue_sc.Model.{Job, Store}
use distributed_job_queue_sc.Exec.{now_iso, type_error, unique_constraint, ◌>>=◌}
use distributed_job_queue_sc.Exec.Outcome.{
  Ends, pure-Gives, gets-Gives, weaken-Gives, then-Gives, add_event-Gives, Gives-Ends, raise-Ends,
  if-Ends, quiet-Ends, bind-Ends, then-Ends,
}
use distributed_job_queue_sc.Jobs.{get_job}
use distributed_job_queue_sc.Jobs.Enqueue.{
  JobInput, normalize_payload, waiting_on, initial_status, conflicts, insert_job, reuse_job,
  duplicate_job, new_job, announce_job, enqueue_job,
}
use distributed_job_queue_sc.Steps.Unique.{UniqueIds}
use distributed_job_queue_sc.Steps.Moves.{now_iso-IsQuiet, quiet_methods, quiet_rules}
use distributed_job_queue_sc.Outcomes.Insert.{
  ensure_queue-same_jobs, find_queue-IsQuiet, check_payload-IsQuiet, given_or_new-IsQuiet, quiet,
  Added, AsAsked, Enqueued, get_job-append_new, waiting_on-jobs, insert_job-Gives,
  announce_job-Gives,
}

reuse_job-Ends :
    (input : JobInput) (key : String) (o : Option Job) (s t : Store)
    → t.jobs ≡ s.jobs
    → input.idempotency_key ≡ some key
    → o ≡ find (λ j. is_text j.idempotency_key key) s.jobs
    → Ends (reuse_job key o) t (Enqueued input s) (λ u. u.jobs ≡ s.jobs)
unfolding reuse_job
reuse_job-Ends input key none s t e k found = raise-Ends type_error t e
reuse_job-Ends input key (some job) s t e k found = Gives-Ends _ t (
    then-Gives _ _ t (add_event-Gives _ _ _ _ _ t) λ _ u same_u.
      pure-Gives job u (inr record { jobs = same_u ∙ e; key = key; asked = k; first = sym found }))

duplicate_job-Ends :
    (input : JobInput) (key : Option String) (s t : Store)
    → t.jobs ≡ s.jobs
    → input.idempotency_key ≡ key
    → Ends (duplicate_job key) t (Enqueued input s) (λ u. u.jobs ≡ s.jobs)
unfolding duplicate_job
duplicate_job-Ends input none s t e k = raise-Ends unique_constraint t e
duplicate_job-Ends input (some key) s t e k =
    bind-Ends _ _ t
      (Gives-Ends _ t (gets-Gives (λ s. find (λ j. is_text j.idempotency_key key) s.jobs) t))
      λ found u (picked, still).
        if-Ends (is_truthy (some key)) _ _ u
          (λ _.
            reuse_job-Ends input key found s u (still ∙ e) k
              (picked ∙ ap (find (λ j. is_text j.idempotency_key key)) e))
          (λ _. raise-Ends unique_constraint u (still ∙ e))

new_job-fields :
    (input : JobInput) (id queue : String) (payload : Json)
    (depends_on waiting errors : List String) (run_at at : ℕ)
    → let new = new_job input id queue payload depends_on waiting errors run_at at in
      (new.id ≡ id)
      × (new.queue ≡ queue)
      × (new.depends_on ≡ depends_on)
      × (new.status ≡ initial_status waiting new.run_at new.created_at)
      × (new.attempts ≡ 0)
      × (new.run_at ≡ run_at)
      × (new.created_at ≡ at)
      × (new.payload ≡ payload)
      × AsAsked input new
unfolding new_job
new_job-fields input id queue payload depends_on waiting errors run_at at = (
  refl,
  refl,
  refl,
  refl,
  refl,
  refl,
  refl,
  refl,
  record {
    type = refl;
    priority = refl;
    max_attempts = refl;
    timeout_ms = refl;
    capabilities = refl;
    retry_policy = refl;
    idempotency_key = refl;
    workflow_id = refl;
    source_schedule_id = refl;
  },
)

-- From the INSERT on.
inserting-Ends :
    (input : JobInput) (id : String) (parse : String → Option Json) (waiting errors : List String)
    (at : ℕ) (s t : Store)
    → t.jobs ≡ s.jobs
    → waiting ≡ waiting_on s (normalize_id_list input.depends_on)
    → Ends
        (insert_job (
            new_job input id
              (normalize_name input.queue)
              (normalize_payload parse input.payload)
              (normalize_id_list input.depends_on)
              waiting
              errors
              (or_else input.run_at at)
              at)
          >>= λ inserted.
              if inserted
              then announce_job input id (normalize_id_list input.depends_on)
              else duplicate_job input.idempotency_key)
        t
        (Enqueued input s)
        (λ u. u.jobs ≡ s.jobs)
inserting-Ends input id parse waiting errors at s t e waits =
    let run_at = or_else input.run_at at in
    let payload = normalize_payload parse input.payload in
    let ids = normalize_id_list input.depends_on in
    let queue = normalize_name input.queue in
    let new = new_job input id queue payload ids waiting errors run_at at in
    let (own_id, own_queue, own_ids, own_status, own_attempts, own_run, own_at, own_payload, asks) =
      new_job-fields input id queue payload ids waiting errors run_at at in
    bind-Ends _ _ t (Gives-Ends _ t (insert_job-Gives new t)) λ b u answer.
      if-Ends b _ _ u
        (λ yes_inserted. elim answer [
          | inr (is_false, _) ↦ absurd (cc (yes_inserted, is_false))
          | inl (is_true, jobs, alone) ↦
              (let found =
                  subst (λ k. get_job k u.jobs ≡ some new) own_id
                    (ap (get_job new.id) jobs ∙ get_job-append_new new t.jobs alone) in
                Gives-Ends _ u (
                  weaken-Gives _ u (announce_job-Gives input id ids new u found)
                    λ row v (row_is, same_v). inl (
                      subst (λ r. Added input s r v) (sym row_is)
                        record {
                          jobs = same_v ∙ jobs ∙ ap (λ js. js ++ new ∷ []) e;
                          alone = ap (any (conflicts new)) (sym e) ∙ alone;
                          queue = own_queue;
                          depends_on = own_ids;
                          status =
                              own_status
                              ∙ ap (λ w. initial_status w new.run_at new.created_at)
                                  (waits ∙ ap (waiting_on s) (sym own_ids));
                          attempts = own_attempts;
                          run_at = own_run ∙ ap (or_else input.run_at) (sym own_at);
                          payload = (parse, own_payload);
                          asks = asks;
                        })))
        ])
        (λ not_inserted. elim answer [
          | inr (is_false, same_u) ↦
              duplicate_job-Ends input input.idempotency_key s u (same_u ∙ e) refl
          | inl (is_true, _, _) ↦ absurd (cc (not_inserted, is_true))
        ])

pub enqueue_job-Enqueued :
    (input : JobInput) (s : Store)
    → UniqueIds s.jobs
    → Ends (enqueue_job input) s (Enqueued input s) (λ t. t.jobs ≡ s.jobs)
unfolding enqueue_job
enqueue_job-Enqueued input s u =
    let queue = normalize_name input.queue in
    let ids = normalize_id_list input.depends_on in
    bind-Ends _ _ s (quiet now_iso s s refl now_iso-IsQuiet) λ at s1 e1.
      then-Ends _ _ s1
        (quiet-Ends _ s s1 e1 (ensure_queue-same_jobs queue s1 (subst UniqueIds (sym e1) u)))
        λ _ s2 e2. bind-Ends _ _ s2 (quiet _ s s2 e2 (find_queue-IsQuiet queue)) λ q s3 e3.
          bind-Ends _ _ s3 (quiet _ s s3 e3 (search quiet_rules)) λ backlog s4 e4.
            then-Ends _ _ s4 (quiet _ s s4 e4 (search quiet_rules)) λ _ s5 e5.
              bind-Ends _ _ s5 (Gives-Ends _ s5 (gets-Gives (λ s. waiting_on s ids) s5))
                λ waiting s6 (waits, same6).
                  let e6 = same6 ∙ e5 in
                  bind-Ends _ _ s6 (quiet _ s s6 e6 (search quiet_rules)) λ parse s7 e7.
                    bind-Ends _ _ s7 (quiet _ s s7 e7 (check_payload-IsQuiet _ _)) λ errors s8 e8.
                      bind-Ends _ _ s8
                        (quiet _ s s8 e8 (given_or_new-IsQuiet input.id _ (search quiet_methods)))
                        λ id s9 e9.
                          inserting-Ends input id parse waiting errors at s s9 e9
                            (waits ∙ waiting_on-jobs s s5 ids e5)
