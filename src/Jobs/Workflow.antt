-- ===== src/Jobs/Workflow.antt =====
-- `createWorkflow` (src/core/store.mjs).
use distributed_job_queue_sc.Prelude.{
  ℕ, String, List, [], ◌∷◌, ◌++◌, Option, none, some, str_eq, map, length, concat, if◌then◌else◌,
}
use distributed_job_queue_sc.Text.{normalize_id_list, items, or_text, show}
use distributed_job_queue_sc.Model.{Job, workflow_created}
use distributed_job_queue_sc.Exec.{Exec, failure, pure, raise, ◌>>=◌, ◌>>◌, create_id, add_event}
use distributed_job_queue_sc.Jobs.Enqueue.{JobInput, enqueue_job}

-- A job of a workflow; a missing key is "".
pub record Definition : Type 0 where
  pub key : String
  pub job : JobInput

pub record Workflow : Type 0 where
  pub id : String
  pub name : String
  pub jobs : List Job

-- `aliases.get(dependency) || dependency`; the key set last is in front.
unfoldable pub resolve_alias : List (String × String) → String → String
unfolding or_text
resolve_alias [] dependency = dependency
resolve_alias ((key, id) ∷ rest) dependency =
    if str_eq key dependency then or_text id dependency else resolve_alias rest dependency

-- `definition.idempotencyKey || …`.
unfoldable pub own_key : Option String → String → String
unfolding or_text
own_key none fallback = fallback
own_key (some key) fallback = or_text key fallback

-- The request that is enqueued for a definition, after `count` others.
unfoldable pub workflow_job : String → ℕ → List (String × String) → Definition → JobInput
unfolding resolve_alias own_key
workflow_job workflow_id count aliases d = record d.job {
  depends_on = items (map (resolve_alias aliases) (normalize_id_list d.job.depends_on));
  workflow_id = some workflow_id;
  idempotency_key = some (
      own_key d.job.idempotency_key
        (concat (workflow_id ∷ ":" ∷ or_text d.key (or_text d.job.type (show count)) ∷ [])));
}

unfoldable pub add_alias : String → String → List (String × String) → List (String × String)
add_alias key id aliases = if str_eq key "" then aliases else (key, id) ∷ aliases

-- The loop over the definitions.
unfoldable pub create_each :
    String → List (String × String) → List Job → List Definition → Exec (List Job)
create_each workflow_id aliases created [] = pure created
create_each workflow_id aliases created (d ∷ ds) = do
  job ← enqueue_job (workflow_job workflow_id (length created) aliases d)
  create_each workflow_id (add_alias d.key job.id aliases) (created ++ job ∷ []) ds

-- `createWorkflow({ name, jobs })`.
unfoldable pub create_workflow : String → List Definition → Exec Workflow
create_workflow name [] = raise (failure "Workflow requires at least one job.")
create_workflow name definitions = do
  workflow_id ← create_id "wf" name
  created ← create_each workflow_id [] [] definitions
  add_event workflow_created none none none
      (concat ("Workflow " ∷ name ∷ " created with " ∷ show (length created) ∷ " jobs." ∷ []))
  pure (record { id = workflow_id; name = name; jobs = created })
