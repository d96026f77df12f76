-- ===== src/Generation/Worker.antt =====
-- Progress in the table of runs and the calls of a worker:
-- src/api/utils/generation_progress/db_store.py and the handlers without a mentor in
-- src/api/core/services/generation_run_service.py. The release of a lock is left out.
use study_agent_service.Prelude.{
  ℕ, suc, ◌-◌, Bool, true, false, not, ◌&&◌, ◌||◌, Option, none, some, List, [], ◌∷◌, ◌==◌,
  if◌then◌else◌, or_else, length,
}
use Prim.Native.String.{String}
use study_agent_service.Prelude.Dict.{option_beq}
use study_agent_service.Generation.{
  GenerationPipeline, GenerationStepProfile, GenerationRunStatus, running, failed, completed,
  superseded, paused, abandoned, profile_of, step_defs_for_profile,
}
use study_agent_service.Generation.Profiles.{
  GenerationProgressStep, step_profile_from_request_params, node_to_step_for_profile,
  build_steps_for_profile,
}
use study_agent_service.Generation.Runs.{
  GenerationRun, Runs, is_running, is_paused, given, get_by_id, get_live_status_and_token,
  checkpoint_after_node, update_progress, fail_run, complete_run, find_stale_running_runs,
  mark_stale_failed, update_request_params,
}

pub data GenerationJobStatus : Type 0 where
  job_running job_completed job_paused job_failed : GenerationJobStatus

unfoldable pub status_from_run : GenerationRunStatus → GenerationJobStatus
status_from_run completed = job_completed
status_from_run paused = job_paused
status_from_run failed = job_failed
status_from_run abandoned = job_failed
status_from_run superseded = job_failed
status_from_run running = job_running

unfoldable pub run_profile : GenerationRun → GenerationStepProfile
unfolding step_profile_from_request_params
run_profile run = step_profile_from_request_params run.request_params run.pipeline

-- `set_step`, and `start` with the index 0.
unfoldable pub set_step : ℕ → ℕ → ℕ → Runs → Runs
unfolding update_progress
set_step run_id step_index now = update_progress run_id step_index none now

abbrev pub step_if_any : ℕ → Option ℕ → ℕ → Runs → Runs
step_if_any run_id none now runs = runs
step_if_any run_id (some i) now runs = set_step run_id i now runs

unfoldable pub on_node : ℕ → String → Option String → ℕ → Runs → Runs
unfolding set_step run_profile profile_of node_to_step_for_profile get_by_id
on_node run_id node_name step_profile now runs = elim (get_by_id run_id runs) [
  | none ↦ runs
  | some run ↦
      if not (is_running run.status)
      then runs
      else step_if_any run_id
          (node_to_step_for_profile
            (elim step_profile [
              | none ↦ run_profile run
              | some raw ↦ or_else (profile_of raw) (run_profile run)
            ])
            node_name)
          now runs
]

-- `complete` of the store.
unfoldable pub complete_progress : ℕ → ℕ → Runs → Runs
unfolding update_progress complete_run run_profile step_defs_for_profile get_by_id
complete_progress run_id now runs = elim (get_by_id run_id runs) [
  | none ↦ runs
  | some run ↦
      if not (is_running run.status || is_paused run.status)
      then runs
      else (complete_run run_id now (
          update_progress run_id (length (step_defs_for_profile (run_profile run)) - 1) none now
            runs)).0
]

pub record GenerationProgressRecord : Type 0 where
  pub session_id : ℕ
  pub pipeline : GenerationPipeline
  pub status : GenerationJobStatus
  pub current_step_index : ℕ
  pub steps : List GenerationProgressStep
  pub error : Option String
  pub started_at : ℕ
  pub updated_at : ℕ

abbrev pub is_completed_job : GenerationJobStatus → Bool
is_completed_job job_completed = true
is_completed_job _ = false

unfoldable pub record_from_run : GenerationRun → GenerationProgressRecord
unfolding run_profile status_from_run step_defs_for_profile build_steps_for_profile
record_from_run run =
    let active_index =
      if is_completed_job (status_from_run run.status)
      then length (step_defs_for_profile (run_profile run)) - 1
      else run.progress_step_index in
    record {
      session_id = run.run_id;
      pipeline = run.pipeline;
      status = status_from_run run.status;
      current_step_index = active_index;
      steps = build_steps_for_profile (run_profile run) active_index;
      error = run.error_message;
      started_at = run.created_at;
      updated_at = run.updated_at;
    }

unfoldable pub to_progress_out_for_mentor : ℕ → ℕ → Runs → Option GenerationProgressRecord
unfolding record_from_run get_by_id
to_progress_out_for_mentor run_id mentor_id runs = elim (get_by_id run_id runs) [
  | none ↦ none
  | some run ↦ if not (run.mentor_id == mentor_id) then none else some (record_from_run run)
]

unfoldable pub should_continue_execution : ℕ → ℕ → Runs → Bool
unfolding get_live_status_and_token
should_continue_execution run_id job_token runs = elim (get_live_status_and_token run_id runs) [
  | none ↦ false
  | some live ↦ is_running live.0 && option_beq live.1 (some job_token)
]

-- `checkpoint_after_node` of the service, with the artifact that the state names.
unfoldable pub checkpoint_node : ℕ → String → String → Option String → ℕ → Runs → Runs
unfolding checkpoint_after_node run_profile node_to_step_for_profile get_by_id
checkpoint_node run_id node_name state artifact now runs = elim (get_by_id run_id runs) [
  | none ↦ runs
  | some run ↦
      if not (is_running run.status)
      then runs
      else (checkpoint_after_node run_id node_name state
          (node_to_step_for_profile (run_profile run) node_name)
          (given artifact run.artifact_run_id) now runs).0
]

-- `fail_run` of the service.
unfoldable pub fail_current : ℕ → String → Option String → Option ℕ → ℕ → Runs → Runs
unfolding fail_run get_by_id
fail_current run_id error_message error_type next_llm_retry_at now runs =
    (fail_run run_id error_message error_type next_llm_retry_at
      (elim (get_by_id run_id runs) [ none ↦ none | some run ↦ run.execution_token ]) now runs).0

unfoldable pub store_run_result : ℕ → String → ℕ → Runs → Runs
unfolding update_request_params get_by_id
store_run_result run_id payload now runs = elim (get_by_id run_id runs) [
  | none ↦ runs
  | some run ↦
      update_request_params run_id
        (record {
          step_profile = elim run.request_params [ none ↦ none | some p ↦ p.step_profile ];
          result = some payload;
        })
        now runs
]

-- The loop of `recover_stale_runs`, and the number of runs that it recovered.
unfoldable pub recover_each : ℕ → ℕ → List GenerationRun → Runs → Runs × ℕ
unfolding mark_stale_failed
recover_each threshold now [] runs = (runs, 0)
recover_each threshold now (run ∷ stale) runs =
    let marked = mark_stale_failed run.run_id (some threshold) run.execution_token now runs in
    let rest = recover_each threshold now stale marked.0 in
    (rest.0, (if marked.1 then suc rest.1 else rest.1))

unfoldable pub recover_stale_runs : ℕ → ℕ → Runs → Runs × ℕ
unfolding recover_each find_stale_running_runs
recover_stale_runs threshold now runs =
    recover_each threshold now (find_stale_running_runs threshold runs) runs
