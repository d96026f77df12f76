-- ===== src/Generation/Runs.antt =====
-- The table `generationruns`, less the type of a resource, and its repository,
-- src/api/data/repositories/generation_run_repository.py. A statement `UPDATE ... WHERE` is a pass
-- over the rows; the time of the call and a fresh id are arguments.
use study_agent_service.Prelude.{
  ℕ, ◌+◌, Bool, true, false, not, ◌&&◌, ◌||◌, Option, none, some, List, [], ◌∷◌, ◌++◌, ltb, ◌==◌,
  if◌then◌else◌, or_else, keep, count_if, find_first,
}
use Prim.Native.String.{String}
use study_agent_service.Prelude.Dict.{option_beq}
use study_agent_service.Generation.{
  GenerationPipeline, GenerationRunStatus, study_material, quiz, hint, running, failed, completed,
  superseded, paused, abandoned,
}
use study_agent_service.Generation.Profiles.{RequestParams}

pub record GenerationRun : Type 0 where
  pub run_id : ℕ
  pub pipeline : GenerationPipeline
  pub resource_id : ℕ
  pub node_id : ℕ
  pub space_id : ℕ
  pub mentor_id : ℕ
  pub status : GenerationRunStatus
  pub last_completed_node : Option String
  pub checkpoint_state : Option String
  pub request_params : Option RequestParams
  pub generation_mode : String
  pub artifact_run_id : Option String
  pub progress_step_index : ℕ
  pub error_message : Option String
  pub error_type : Option String
  pub next_llm_retry_at : Option ℕ
  pub attempt_count : ℕ
  pub created_at : ℕ
  pub updated_at : ℕ
  pub completed_at : Option ℕ
  pub paused_at : Option ℕ
  pub abandoned_at : Option ℕ
  pub pause_reason : Option String
  pub abandon_reason : Option String
  pub request_fingerprint : Option String
  pub execution_token : Option ℕ
  pub llamaparse_extract_job_id : Option String
  pub llamaparse_parse_job_id : Option String

pub record GenerationRunCreate : Type 0 where
  pub pipeline : GenerationPipeline
  pub resource_id : ℕ
  pub node_id : ℕ
  pub space_id : ℕ
  pub mentor_id : ℕ
  pub generation_mode : String
  pub request_params : RequestParams
  pub artifact_run_id : Option String
  pub run_id : Option ℕ

abbrev pub Runs : Type 0
Runs = List GenerationRun

abbrev pub is_running : GenerationRunStatus → Bool
is_running running = true
is_running _ = false

abbrev pub is_paused : GenerationRunStatus → Bool
is_paused paused = true
is_paused _ = false

abbrev pub is_failed_status : GenerationRunStatus → Bool
is_failed_status failed = true
is_failed_status _ = false

abbrev pub is_abandoned : GenerationRunStatus → Bool
is_abandoned abandoned = true
is_abandoned _ = false

abbrev pub same_pipeline : GenerationPipeline → GenerationPipeline → Bool
same_pipeline study_material study_material = true
same_pipeline quiz quiz = true
same_pipeline hint hint = true
same_pipeline _ _ = false

-- `ACTIVE_RUN_STATUSES`
abbrev pub is_active_run_status : GenerationRunStatus → Bool
is_active_run_status s = is_running s || (is_paused s || is_failed_status s)

-- `UPDATE generationruns SET ... WHERE ...`, and the number of rows it matched.
abbrev pub update_where : (GenerationRun → Bool) → (GenerationRun → GenerationRun) → Runs → Runs
update_where test change [] = []
update_where test change (r ∷ runs) =
    (if test r then change r else r) ∷ update_where test change runs

-- `rowcount > 0`
abbrev pub updated : (GenerationRun → Bool) → (GenerationRun → GenerationRun) → Runs → Runs × Bool
updated test change runs = (update_where test change runs, ltb 0 (count_if test runs))

-- A column that is written when a value is given.
abbrev pub given {ℓ} : {A : Type ℓ} → Option A → Option A → Option A
given none old = old
given (some a) old = some a

unfoldable pub create :
    GenerationRunCreate → ℕ → Option ℕ → Option String → ℕ → Runs → Runs × GenerationRun
create p fresh execution_token request_fingerprint now runs =
    let run : GenerationRun = record {
      run_id = or_else p.run_id fresh;
      pipeline = p.pipeline;
      resource_id = p.resource_id;
      node_id = p.node_id;
      space_id = p.space_id;
      mentor_id = p.mentor_id;
      status = running;
      last_completed_node = none;
      checkpoint_state = none;
      request_params = some p.request_params;
      generation_mode = p.generation_mode;
      artifact_run_id = p.artifact_run_id;
      progress_step_index = 0;
      error_message = none;
      error_type = none;
      next_llm_retry_at = none;
      attempt_count = 0;
      created_at = now;
      updated_at = now;
      completed_at = none;
      paused_at = none;
      abandoned_at = none;
      pause_reason = none;
      abandon_reason = none;
      request_fingerprint = request_fingerprint;
      execution_token = execution_token;
      llamaparse_extract_job_id = none;
      llamaparse_parse_job_id = none;
    } in
    (runs ++ run ∷ [], run)

unfoldable pub get_by_id : ℕ → Runs → Option GenerationRun
get_by_id run_id runs = find_first (λ r. r.run_id == run_id) runs

unfoldable pub get_live_status_and_token : ℕ → Runs → Option (GenerationRunStatus × Option ℕ)
unfolding get_by_id
get_live_status_and_token run_id runs = elim (get_by_id run_id runs) [
  | none ↦ none
  | some r ↦ some (r.status, r.execution_token)
]

-- The newest of a list, the first among equals.
abbrev pub newest : Runs → Option GenerationRun
newest [] = none
newest (r ∷ runs) = elim (newest runs) [
  | none ↦ some r
  | some s ↦ if ltb r.created_at s.created_at then some s else some r
]

-- An active run of a resource.
abbrev pub is_active_on : ℕ → GenerationPipeline → GenerationRun → Bool
is_active_on resource_id pipeline r =
    r.resource_id == resource_id
    && (same_pipeline r.pipeline pipeline && is_active_run_status r.status)

unfoldable pub get_active_run : ℕ → GenerationPipeline → Runs → Option GenerationRun
get_active_run resource_id pipeline runs = newest (keep (is_active_on resource_id pipeline) runs)

unfoldable pub checkpoint_after_node :
    ℕ → String → String → Option ℕ → Option String → ℕ → Runs → Runs × Option GenerationRun
unfolding get_by_id
checkpoint_after_node run_id node_name checkpoint_state step_index artifact now runs =
    let written =
      update_where (λ r. r.run_id == run_id && is_running r.status)
        (λ r. record r {
          last_completed_node = some node_name;
          checkpoint_state = some checkpoint_state;
          updated_at = now;
          progress_step_index = or_else step_index r.progress_step_index;
          artifact_run_id = given artifact r.artifact_run_id;
        })
        runs in
    (written, get_by_id run_id written)

unfoldable pub update_progress : ℕ → ℕ → Option String → ℕ → Runs → Runs
update_progress run_id step_index error_message now =
    update_where (λ r. r.run_id == run_id)
      (λ r. record r {
        progress_step_index = step_index;
        updated_at = now;
        error_message = given error_message r.error_message;
      })

-- The condition on the token that a caller expects.
abbrev pub expected : Option ℕ → GenerationRun → Bool
expected none r = true
expected (some token) r = option_beq r.execution_token (some token)

unfoldable pub fail_run : ℕ → String → Option String → Option ℕ → Option ℕ → ℕ → Runs → Runs × Bool
fail_run run_id error_message error_type next_llm_retry_at token now =
    updated (λ r. r.run_id == run_id && (is_running r.status && expected token r))
      (λ r. record r {
        status = failed;
        error_message = some error_message;
        error_type = error_type;
        next_llm_retry_at = next_llm_retry_at;
        updated_at = now;
      })

unfoldable pub complete_run : ℕ → ℕ → Runs → Runs × Bool
complete_run run_id now =
    updated (λ r. r.run_id == run_id && (is_running r.status || is_paused r.status))
      (λ r. record r {
        status = completed;
        completed_at = some now;
        updated_at = now;
        error_message = none;
        error_type = none;
      })

abbrev pub revived : Option ℕ → ℕ → GenerationRun → GenerationRun
revived token now r = record r {
  status = running;
  updated_at = now;
  error_message = none;
  error_type = none;
  paused_at = none;
  pause_reason = none;
  execution_token = given token r.execution_token;
}

unfoldable pub mark_running : ℕ → Option ℕ → ℕ → Runs → Runs
mark_running run_id token now = update_where (λ r. r.run_id == run_id) (revived token now)

unfoldable pub pause_run : ℕ → String → ℕ → Runs → Runs × Bool
pause_run run_id reason now =
    updated (λ r. r.run_id == run_id && is_running r.status)
      (λ r. record r {
        status = paused;
        paused_at = some now;
        pause_reason = some reason;
        updated_at = now;
      })

unfoldable pub abandon_run : ℕ → String → ℕ → Runs → Runs × Bool
abandon_run run_id reason now =
    updated (λ r. r.run_id == run_id && is_active_run_status r.status)
      (λ r. record r {
        status = abandoned;
        abandoned_at = some now;
        abandon_reason = some reason;
        updated_at = now;
      })

unfoldable pub find_stale_running_runs : ℕ → Runs → Runs
find_stale_running_runs threshold = keep (λ r. is_running r.status && ltb r.updated_at threshold)

-- The condition on the last write of the row.
abbrev pub stale : Option ℕ → GenerationRun → Bool
stale none r = true
stale (some before) r = ltb r.updated_at before

unfoldable pub mark_stale_failed : ℕ → Option ℕ → Option ℕ → ℕ → Runs → Runs × Bool
mark_stale_failed run_id stale_before token now =
    updated
      (λ r.
        r.run_id == run_id && (is_running r.status && (stale stale_before r && expected token r)))
      (λ r. record r {
        status = failed;
        error_type = some "stale_worker";
        error_message =
            some "Generation stopped responding. You can resume from the last completed step.";
        next_llm_retry_at = none;
        updated_at = now;
      })

unfoldable pub store_llamaparse_job_ids : ℕ → Option String → Option String → ℕ → Runs → Runs
store_llamaparse_job_ids run_id none none now runs = runs
store_llamaparse_job_ids run_id extract_id parse_id now runs =
    update_where (λ r. r.run_id == run_id)
      (λ r. record r {
        updated_at = now;
        llamaparse_extract_job_id = given extract_id r.llamaparse_extract_job_id;
        llamaparse_parse_job_id = given parse_id r.llamaparse_parse_job_id;
      })
      runs

-- The write of a number of attempts.
abbrev pub counted_row : ℕ → ℕ → GenerationRun → GenerationRun
counted_row new_count now r = record r { attempt_count = new_count; updated_at = now }

abbrev pub counted : ℕ → ℕ → ℕ → Runs → Runs
counted run_id new_count now = update_where (λ r. r.run_id == run_id) (counted_row new_count now)

abbrev pub count_up : ℕ → ℕ → Runs → Option GenerationRun → Runs × ℕ
count_up run_id now runs none = (runs, 0)
count_up run_id now runs (some run) =
    (counted run_id (run.attempt_count + 1) now runs, run.attempt_count + 1)

unfoldable pub increment_attempt_count : ℕ → ℕ → Runs → Runs × ℕ
unfolding get_by_id
increment_attempt_count run_id now runs = count_up run_id now runs (get_by_id run_id runs)

unfoldable pub update_request_params : ℕ → RequestParams → ℕ → Runs → Runs
update_request_params run_id params now =
    update_where (λ r. r.run_id == run_id)
      (λ r. record r { request_params = some params; updated_at = now })

abbrev pub excepted : Option ℕ → GenerationRun → Bool
excepted none r = true
excepted (some run_id) r = not (r.run_id == run_id)

-- A run that a new one supersedes.
abbrev pub is_superseded : ℕ → GenerationPipeline → Option ℕ → GenerationRun → Bool
is_superseded resource_id pipeline except_run_id r =
    r.resource_id == resource_id
    && (same_pipeline r.pipeline pipeline
        && ((is_paused r.status || is_failed_status r.status) && excepted except_run_id r))

abbrev pub superseded_row : ℕ → GenerationRun → GenerationRun
superseded_row now r = record r { status = superseded; updated_at = now }

unfoldable pub supersede_stale_runs : ℕ → GenerationPipeline → Option ℕ → ℕ → Runs → Runs × Bool
supersede_stale_runs resource_id pipeline except_run_id now =
    updated (is_superseded resource_id pipeline except_run_id) (superseded_row now)
