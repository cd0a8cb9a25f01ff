-- ===== src/Outcomes/Kept.antt =====
-- What the UPDATE of a claim, and a deferral, do to the jobs (src/core/store.mjs).
use native.Mathlib.Omega.{arith}
use distributed_job_queue_sc.Prelude.{
  ℕ, ◌+◌, ◌≤◌, String, true, false, ◌≡◌, refl, ◌∙◌, List, [], ◌∷◌, Option, none, some, Bool-cases,
  inl, inr, ap, All, leb, str_eq, eq_iff,
}
use distributed_job_queue_sc.Model.{Job, Store, running, is_dispatchable}
use distributed_job_queue_sc.Exec.Outcome.{
  Gives, pure-Gives, weaken-Gives, bind-Gives, add_event-Gives, now_iso-Gives,
}
use distributed_job_queue_sc.RateLimits.{Denial}
use distributed_job_queue_sc.Jobs.{Change, claim, defer, where_row, set_row, get_job, replace_job}
use distributed_job_queue_sc.Jobs.Claim.{deferred_one, defer_rate_limited_job}
use distributed_job_queue_sc.Steps.Unique.{set_row-id, get_job-id}
use distributed_job_queue_sc.Steps.Lookup.{get_job-replace_ne}
use distributed_job_queue_sc.Outcomes.Update.{Updated, missing, refused, written, update_job-Gives}

-- The jobs that cannot be dispatched are as they were.
abbrev pub Kept : Store → Store → Type 0
Kept s t =
    (k : String) (a : Job)
    → get_job k s.jobs ≡ some a
    → is_dispatchable a.status ≡ false
    → get_job k t.jobs ≡ some a

pub Kept-same : (s t : Store) → t.jobs ≡ s.jobs → Kept s t
Kept-same s t e k a f w = ap (get_job k) e ∙ f

pub Kept-written :
    (c : Change) (id : String) (s t : Store) (j : Job)
    → get_job id s.jobs ≡ some j
    → is_dispatchable j.status ≡ true
    → t.jobs ≡ replace_job id (set_row c j) s.jobs
    → Kept s t
Kept-written c id s t j g d e k a f w =
    let same_id = set_row-id c j ∙ get_job-id id s.jobs g in
    elim (Bool-cases (str_eq k id)) [
      | inl hit ↦
          (let k_is : k ≡ id = (eq_iff k id).0 hit in
            let a_is : a ≡ j = cc (f, g, k_is) in
            absurd (cc (w, d, ap (λ (x : Job). is_dispatchable x.status) a_is)))
      | inr miss ↦
          ap (get_job k) e
          ∙ get_job-replace_ne k id (set_row c j) s.jobs same_id (λ q. cc (miss, (eq_iff k id).1 q))
          ∙ f
    ]

-- A job that the worker runs: the row of its id, due when it was claimed.
pub record Claimed (worker : String) (lease_ms : ℕ) (t : Store) (row : Job) : Type 0 where
  pub status : row.status ≡ running
  pub owner : row.lease_owner ≡ some worker
  pub expiry : row.lease_expires_at ≡ some (row.updated_at + lease_ms)
  pub due : leb row.run_at row.updated_at ≡ true
  pub tried : 1 ≤ row.attempts
  pub found : get_job row.id t.jobs ≡ some row

pub Claimed-Kept :
    (worker : String) (lease_ms : ℕ) (t u : Store) (row : Job)
    → Kept t u
    → Claimed worker lease_ms t row
    → Claimed worker lease_ms u row
Claimed-Kept worker lease_ms t u row k c = record {
  status = c.status;
  owner = c.owner;
  expiry = c.expiry;
  due = c.due;
  tried = c.tried;
  found = k row.id row c.found (ap is_dispatchable c.status);
}

pub AllClaimed-Kept :
    (worker : String) (lease_ms : ℕ) (t u : Store) (rows : List Job)
    → Kept t u
    → All (Claimed worker lease_ms t) rows
    → All (Claimed worker lease_ms u) rows
AllClaimed-Kept worker lease_ms t u [] k h = tt
AllClaimed-Kept worker lease_ms t u (r ∷ rows) k (c, h) =
    (Claimed-Kept worker lease_ms t u r k c, AllClaimed-Kept worker lease_ms t u rows k h)

-- What a claim writes.
pub claim-row :
    (s t : Store) (worker : String) (lease_ms at : ℕ) (j : Job)
    → where_row s (claim worker (at + lease_ms) at) j ≡ true
    → get_job (set_row (claim worker (at + lease_ms) at) j).id t.jobs
      ≡ some (set_row (claim worker (at + lease_ms) at) j)
    → Claimed worker lease_ms t (set_row (claim worker (at + lease_ms) at) j)
unfolding set_row where_row
claim-row s t worker lease_ms at j w f = record {
  status = refl;
  owner = refl;
  expiry = refl;
  due = ground arith;
  tried = omega arith;
  found = f;
}

pub claim-dispatchable :
    (s : Store) (worker : String) (until at : ℕ) (j : Job)
    → where_row s (claim worker until at) j ≡ true
    → is_dispatchable j.status ≡ true
unfolding where_row
claim-dispatchable s worker until at j w = ground arith

pub defer-dispatchable :
    (s : Store) (t : ℕ) (reason : String) (at : ℕ) (j : Job)
    → where_row s (defer t reason at) j ≡ true
    → is_dispatchable j.status ≡ true
unfolding where_row
defer-dispatchable s t reason at j w = w

pub defer-Kept :
    (id : String) (d : Denial) (s : Store) → Gives (defer_rate_limited_job id d) s (λ _ t. Kept s t)
unfolding defer_rate_limited_job deferred_one
defer-Kept id d s = bind-Gives _ _ s (now_iso-Gives s) λ at t e.
    bind-Gives _ _ t (update_job-Gives (defer d.retry_at d.reason at) id t)
      λ o u h. after at t o u (Kept-same s t e) h
  where
    after :
        (at : ℕ) (t : Store) (o : Option Job) (u : Store)
        → Kept s t
        → Updated (defer d.retry_at d.reason at) id t o u
        → Gives (deferred_one id d o) u (λ _ v. Kept s v)
    after at t none u k (missing g e) =
        pure-Gives tt u (λ i a f w. Kept-same t u e i a (k i a f w) w)
    after at t none u k (refused j g x e) =
        pure-Gives tt u (λ i a f w. Kept-same t u e i a (k i a f w) w)
    after at t (some _) u k (written j g x e) =
        weaken-Gives _ u (add_event-Gives _ _ _ _ _ u) λ _ v same_v i a f w.
          Kept-same u v same_v i a
            (Kept-written (defer d.retry_at d.reason at) id t u j g
              (defer-dispatchable t d.retry_at d.reason at j x) e i a (k i a f w) w)
            w
