-- ===== src/Generation/Settled.antt =====
-- Most writes do not touch a run that has ended and count no attempt: the calls of src/api/core/services/generation_run_service.py
-- and the writes of src/api/data/repositories/generation_run_repository.py behind them.
use study_agent_service.Prelude.{ℕ, refl, not, ◌||◌, Option, none, some, [], ◌∷◌, arith}
use Prim.Native.String.{String}
use study_agent_service.Generation.{GenerationPipeline}
use study_agent_service.Generation.Runs.{
  Runs, given, find_stale_running_runs, is_running, is_paused, get_by_id, store_llamaparse_job_ids,
  supersede_stale_runs, checkpoint_after_node, update_progress, fail_run, complete_run, pause_run,
  abandon_run, mark_stale_failed, update_request_params,
}
use study_agent_service.Generation.Profiles.{node_to_step_for_profile, RequestParams}
use study_agent_service.Generation.Worker.{
  run_profile, set_step, step_if_any, on_node, complete_progress, checkpoint_node, fail_current,
  store_run_result, recover_each, recover_stale_runs,
}
use study_agent_service.Generation.Rows.{Tame, write, found-holds, branch-holds}

module _ (start : Runs) where
  pub set_step-Tame :
      (run_id i now : ℕ) (runs : Runs) → Tame start runs → Tame start (set_step run_id i now runs)
  unfolding set_step update_progress
  set_step-Tame run_id i now runs h =
      write _ _ (λ r. refl) (λ r. refl) (λ r. refl) (λ r. refl) (λ r _ _. refl) h

  step_if_any-Tame :
      (run_id : ℕ) (i : Option ℕ) (now : ℕ) (runs : Runs)
      → Tame start runs
      → Tame start (step_if_any run_id i now runs)
  step_if_any-Tame run_id none now runs h = h
  step_if_any-Tame run_id (some i) now runs h = set_step-Tame run_id i now runs h

  pub supersede_stale_runs-Tame :
      (resource_id : ℕ) (pipeline : GenerationPipeline) (except : Option ℕ) (now : ℕ) (runs : Runs)
      → Tame start runs
      → Tame start (supersede_stale_runs resource_id pipeline except now runs).0
  unfolding supersede_stale_runs
  supersede_stale_runs-Tame resource_id pipeline except now runs h =
      write _ _ (λ r. refl) (λ r. refl) (λ r. refl) (λ r. refl)
        (λ r test ended. absurd (ground arith)) h

  pub fail_run-Tame :
      (run_id : ℕ) (message : String) (error_type : Option String) (next token : Option ℕ) (now : ℕ)
      (runs : Runs)
      → Tame start runs
      → Tame start (fail_run run_id message error_type next token now runs).0
  unfolding fail_run
  fail_run-Tame run_id message error_type next token now runs h =
      write _ _ (λ r. refl) (λ r. refl) (λ r. refl) (λ r. refl)
        (λ r test ended. absurd (ground arith)) h

  complete_run-Tame :
      (run_id now : ℕ) (runs : Runs) → Tame start runs → Tame start (complete_run run_id now runs).0
  unfolding complete_run
  complete_run-Tame run_id now runs h =
      write _ _ (λ r. refl) (λ r. refl) (λ r. refl) (λ r. refl)
        (λ r test ended. absurd (ground arith)) h

  pub pause_run-Tame :
      (run_id : ℕ) (reason : String) (now : ℕ) (runs : Runs)
      → Tame start runs
      → Tame start (pause_run run_id reason now runs).0
  unfolding pause_run
  pause_run-Tame run_id reason now runs h =
      write _ _ (λ r. refl) (λ r. refl) (λ r. refl) (λ r. refl)
        (λ r test ended. absurd (ground arith)) h

  pub abandon_run-Tame :
      (run_id : ℕ) (reason : String) (now : ℕ) (runs : Runs)
      → Tame start runs
      → Tame start (abandon_run run_id reason now runs).0
  unfolding abandon_run
  abandon_run-Tame run_id reason now runs h =
      write _ _ (λ r. refl) (λ r. refl) (λ r. refl) (λ r. refl)
        (λ r test ended. absurd (ground arith)) h

  mark_stale_failed-Tame :
      (run_id : ℕ) (stale_before token : Option ℕ) (now : ℕ) (runs : Runs)
      → Tame start runs
      → Tame start (mark_stale_failed run_id stale_before token now runs).0
  unfolding mark_stale_failed
  mark_stale_failed-Tame run_id stale_before token now runs h =
      write _ _ (λ r. refl) (λ r. refl) (λ r. refl) (λ r. refl)
        (λ r test ended. absurd (ground arith)) h

  checkpoint_after_node-Tame :
      (run_id : ℕ) (node_name state : String) (i : Option ℕ) (artifact : Option String) (now : ℕ)
      (runs : Runs)
      → Tame start runs
      → Tame start (checkpoint_after_node run_id node_name state i artifact now runs).0
  unfolding checkpoint_after_node
  checkpoint_after_node-Tame run_id node_name state i artifact now runs h =
      write _ _ (λ r. refl) (λ r. refl) (λ r. refl) (λ r. refl) (λ r _ _. refl) h

  update_request_params-Tame :
      (run_id : ℕ) (params : RequestParams) (now : ℕ) (runs : Runs)
      → Tame start runs
      → Tame start (update_request_params run_id params now runs)
  unfolding update_request_params
  update_request_params-Tame run_id params now runs h =
      write _ _ (λ r. refl) (λ r. refl) (λ r. refl) (λ r. refl) (λ r _ _. refl) h

  pub store_llamaparse_job_ids-Tame :
      (run_id : ℕ) (extract_id parse_id : Option String) (now : ℕ) (runs : Runs)
      → Tame start runs
      → Tame start (store_llamaparse_job_ids run_id extract_id parse_id now runs)
  unfolding store_llamaparse_job_ids
  store_llamaparse_job_ids-Tame run_id none none now runs h = h
  store_llamaparse_job_ids-Tame run_id none (some p) now runs h =
      write _ _ (λ r. refl) (λ r. refl) (λ r. refl) (λ r. refl) (λ r _ _. refl) h
  store_llamaparse_job_ids-Tame run_id (some e) parse_id now runs h =
      write _ _ (λ r. refl) (λ r. refl) (λ r. refl) (λ r. refl) (λ r _ _. refl) h

  pub on_node-Tame :
      (run_id : ℕ) (node_name : String) (step_profile : Option String) (now : ℕ) (runs : Runs)
      → Tame start runs
      → Tame start (on_node run_id node_name step_profile now runs)
  unfolding on_node
  on_node-Tame run_id node_name step_profile now runs h =
      found-holds (Tame start) (get_by_id run_id runs) _ runs h (λ run.
        branch-holds (Tame start) (not (is_running run.status)) _ _ h
          (step_if_any-Tame run_id _ now runs h))

  pub complete_progress-Tame :
      (run_id now : ℕ) (runs : Runs)
      → Tame start runs
      → Tame start (complete_progress run_id now runs)
  unfolding complete_progress set_step
  complete_progress-Tame run_id now runs h =
      found-holds (Tame start) (get_by_id run_id runs) _ runs h (λ run.
        branch-holds (Tame start) (not (is_running run.status || is_paused run.status)) _ _ h
          (complete_run-Tame run_id now _ (set_step-Tame run_id _ now runs h)))

  pub checkpoint_node-Tame :
      (run_id : ℕ) (node_name state : String) (artifact : Option String) (now : ℕ) (runs : Runs)
      → Tame start runs
      → Tame start (checkpoint_node run_id node_name state artifact now runs)
  unfolding checkpoint_node
  checkpoint_node-Tame run_id node_name state artifact now runs h =
      found-holds (Tame start) (get_by_id run_id runs) _ runs h (λ run.
        branch-holds (Tame start) (not (is_running run.status)) _ _ h (
          checkpoint_after_node-Tame run_id node_name state
            (node_to_step_for_profile (run_profile run) node_name)
            (given artifact run.artifact_run_id) now runs h))

  pub fail_current-Tame :
      (run_id : ℕ) (message : String) (error_type : Option String) (next : Option ℕ) (now : ℕ)
      (runs : Runs)
      → Tame start runs
      → Tame start (fail_current run_id message error_type next now runs)
  unfolding fail_current
  fail_current-Tame run_id message error_type next now runs h =
      fail_run-Tame run_id message error_type next _ now runs h

  pub store_run_result-Tame :
      (run_id : ℕ) (payload : String) (now : ℕ) (runs : Runs)
      → Tame start runs
      → Tame start (store_run_result run_id payload now runs)
  unfolding store_run_result
  store_run_result-Tame run_id payload now runs h =
      found-holds (Tame start) (get_by_id run_id runs) _ runs h
        (λ run. update_request_params-Tame run_id _ now runs h)

  recover_each-Tame :
      (threshold now : ℕ) (stale runs : Runs)
      → Tame start runs
      → Tame start (recover_each threshold now stale runs).0
  unfolding recover_each
  recover_each-Tame threshold now [] runs h = h
  recover_each-Tame threshold now (run ∷ stale) runs h =
      recover_each-Tame threshold now stale _
        (mark_stale_failed-Tame run.run_id (some threshold) run.execution_token now runs h)

  pub recover_stale_runs-Tame :
      (threshold now : ℕ) (runs : Runs)
      → Tame start runs
      → Tame start (recover_stale_runs threshold now runs).0
  unfolding recover_stale_runs
  recover_stale_runs-Tame threshold now runs h =
      recover_each-Tame threshold now (find_stale_running_runs threshold runs) runs h
