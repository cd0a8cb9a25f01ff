-- ===== src/Api/Integrity.antt =====
-- What holds of the jobs table after any calls at all (src/core/store.mjs).
use distributed_job_queue_sc.Prelude.{String, true, ◌≡◌, List, [], ◌∷◌, All}
use distributed_job_queue_sc.Model.{Store}
use distributed_job_queue_sc.Jobs.{Change}
use distributed_job_queue_sc.Steps.{row}
use distributed_job_queue_sc.Steps.Unique.{UniqueIds, Reach-UniqueIds}
use distributed_job_queue_sc.Invariant.{WellFormed, Sound, Reach-WellFormed, new_job-WellFormed}
use distributed_job_queue_sc.Api.{Call, perform_all, is_replay}
use distributed_job_queue_sc.Api.Writes.{Allows}
use distributed_job_queue_sc.Api.Performs.{perform_all-Reach}

pub Sound-Allows : Allows Sound
Sound-Allows = record {
  rows = λ c id e. tt;
  gives = λ worker. tt;
  configures = tt;
  adds = new_job-WellFormed;
}

replays-Sound :
    (cs : List Call)
    → All (λ c. is_replay c ≡ true → (x : Change) (id : String) → Sound (row x id)) cs
replays-Sound [] = tt
replays-Sound (c ∷ cs) = ((λ e x id. tt), replays-Sound cs)

-- Whatever calls but imports and archivings are made of a store whose job ids are distinct and whose jobs are well-formed (a job
-- has a lease owner and a lease expiry exactly while it runs, a completion time and an output exactly
-- when it is completed, a cancellation or dead-letter time exactly when it is cancelled or dead, and a
-- running job has a start time and a first attempt), whether they return or throw, ids are distinct and
-- jobs are well-formed afterwards.
pub perform_all-WellFormed :
    (cs : List Call) (s : Store)
    → UniqueIds s.jobs
    → All WellFormed s.jobs
    → UniqueIds (perform_all cs s).jobs × All WellFormed (perform_all cs s).jobs
perform_all-WellFormed cs s u v =
    let r = perform_all-Reach Sound-Allows cs s (replays-Sound cs) u in
    (Reach-UniqueIds r u, Reach-WellFormed r v)
