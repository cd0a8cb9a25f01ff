-- ===== src/Jobs/Claim.antt =====
-- `claimJobs`, `deferRateLimitedJob`, `hasRequiredCapabilities` (src/core/store.mjs).
use distributed_job_queue_sc.Prelude.{
  ℕ, zero, suc, ◌+◌, ◌-◌, ◌*◌, ◌/◌, String, Bool, true, false, ◌&&◌, List, [], ◌∷◌, ◌++◌, Option,
  none, some, ltb, leb, all, includes, map, length, take, where_rows, sort_by, concat,
  if◌then◌else◌,
}
use distributed_job_queue_sc.Prelude.Int.{ℤ, pos, sub_ℕ, ◌+ℤ◌, ltb_ℤ}
use distributed_job_queue_sc.Text.{normalize_name, normalize_id_list, IdList, items, lower}
use distributed_job_queue_sc.Input.{int, clamp_nat}
use distributed_job_queue_sc.Model.{
  Job, Queue, Store, is_dispatchable, job_rate_limited, job_claimed,
}
use distributed_job_queue_sc.Exec.{Exec, pure, gets, ◌>>=◌, ◌>>◌, now_iso, add_event}
use distributed_job_queue_sc.Queues.{get_queue}
use distributed_job_queue_sc.Jobs.{claim, defer, has_room, update_job}
use distributed_job_queue_sc.Jobs.Finish.{release_ready_dependencies}
use distributed_job_queue_sc.Jobs.Recover.{recover_stale_leases, recover_timed_out_jobs}
use distributed_job_queue_sc.RateLimits.{Denial, check_dispatch_rate_limit}

pub record ClaimInput : Type 0 where
  pub worker_id : String
  pub queues : List String
  pub capabilities : IdList
  pub limit : ℕ
  pub lease_ms : ℕ
  pub aging_interval_ms : ℕ

-- `hasRequiredCapabilities(required, available)`.
unfoldable pub has_required_capabilities : List String → List String → Bool
unfolding normalize_id_list lower
has_required_capabilities required available =
    let have = map lower (normalize_id_list (items available)) in
    all (λ item. includes (lower item) have) (normalize_id_list (items required))

-- `Math.max(1, Number(agingIntervalMs || 60000))`.
unfoldable pub aging_interval : ℕ → ℕ
aging_interval zero = 60000
aging_interval (suc n) = suc n

-- CAST((now - created_at) / aging AS INTEGER), rounded towards zero.
unfoldable pub age_bonus : ℕ → ℕ → ℕ → ℤ
age_bonus now created aging =
    if leb created now then pos ((now - created) / aging) else sub_ℕ 0 ((created - now) / aging)

-- The priority of a job with what it gains by waiting.
unfoldable pub dispatch_score : ℕ → ℕ → Job → ℤ
unfolding age_bonus ◌+ℤ◌
dispatch_score now aging j = j.priority +ℤ age_bonus now j.created_at aging

-- ORDER BY score DESC, run_at ASC, created_at ASC
unfoldable pub dispatch_before : ℕ → ℕ → Job → Job → Bool
unfolding dispatch_score
dispatch_before now aging a b =
    let x = dispatch_score now aging a in
    let y = dispatch_score now aging b in
    if ltb_ℤ y x
    then true
    else if ltb_ℤ x y
    then false
    else if ltb a.run_at b.run_at
    then true
    else if ltb b.run_at a.run_at
    then false
    else ltb a.created_at b.created_at

abbrev pub is_enabled : Option Queue → Bool
is_enabled none = false
is_enabled (some q) = q.enabled

-- The WHERE clause of the SELECT of candidates.
unfoldable pub is_candidate : Store → List String → ℕ → Job → Bool
unfolding has_room get_queue
is_candidate s queues now j =
    is_dispatchable j.status
    && leb j.run_at now
    && includes j.queue queues
    && is_enabled (get_queue j.queue s.queues)
    && has_room s j.queue

unfoldable pub deferred_one : String → Denial → Option Job → Exec (Unit {0})
deferred_one id d none = pure tt
deferred_one id d (some row) = add_event job_rate_limited (some id) none none d.reason

-- `deferRateLimitedJob(jobId, rateLimit)`.
unfoldable pub defer_rate_limited_job : String → Denial → Exec (Unit {0})
defer_rate_limited_job id d = do
  at ← now_iso
  found ← update_job (defer d.retry_at d.reason at) id
  deferred_one id d found

unfoldable pub claimed_one : String → Option Job → Exec (List Job)
claimed_one worker none = pure []
claimed_one worker (some row) = do
  add_event job_claimed (some row.id) none (some worker)
      (concat ("Worker " ∷ worker ∷ " claimed " ∷ row.type ∷ "." ∷ []))
  pure (row ∷ [])

unfoldable pub try_claim : String → ℕ → ℕ → Job → Option Denial → Exec (List Job)
try_claim worker at lease_until c (some d) = do defer_rate_limited_job c.id d; pure []
try_claim worker at lease_until c none =
    update_job (claim worker lease_until at) c.id >>= claimed_one worker

-- One round of the loop over the candidates: the job claimed, if it was.
unfoldable pub claim_candidate : String → List String → ℕ → ℕ → Job → Exec (List Job)
claim_candidate worker capabilities at lease_until c =
    if has_required_capabilities c.required_capabilities capabilities
    then gets (λ s. check_dispatch_rate_limit s c at) >>= try_claim worker at lease_until c
    else pure []

-- The loop, which stops once `claimed` has as many jobs as the limit.
unfoldable pub claim_each : (Job → Exec (List Job)) → ℕ → List Job → List Job → Exec (List Job)
claim_each body most claimed [] = pure claimed
claim_each body most claimed (c ∷ cs) =
    let next = body c >>= λ this. claim_each body most (claimed ++ this) cs in
    if leb most (length claimed) then pure claimed else next

unfoldable pub candidates : ClaimInput → List String → ℕ → Store → List Job
unfolding is_candidate dispatch_before aging_interval clamp_nat
candidates input queues at s = take (clamp_nat (int (pos (input.limit * 20))) 1 500) (
    sort_by (dispatch_before at (aging_interval input.aging_interval_ms))
      (where_rows (is_candidate s queues at) s.jobs))

unfoldable pub claim_from : ClaimInput → List String → ℕ → Exec (List Job)
claim_from input [] at = pure []
claim_from input queues at = do
  rows ← gets (candidates input queues at)
  claim_each
      (claim_candidate input.worker_id (normalize_id_list input.capabilities) at
        (at + input.lease_ms))
      (clamp_nat (int (pos input.limit)) 1 100) [] rows

-- `claimJobs(…)`.
unfoldable pub claim_jobs : ClaimInput → Exec (List Job)
claim_jobs input = do
  at ← now_iso
  recover_stale_leases at
  recover_timed_out_jobs at
  release_ready_dependencies at none
  claim_from input (map normalize_name input.queues) at
