-- ===== src/Generation/Machine.antt =====
-- The life of a generation run: every call of the worker and of the mentor as a step on the table,
-- and a status that no step leaves.
use study_agent_service.Prelude.{false, ◌==◌, any, true, ℕ, ◌≡◌, ◌⊎◌, inr, Bool, Option}
use study_agent_service.Prelude.Result.{Done}
use Prim.Native.String.{String}
use study_agent_service.Generation.Runs.{
  GenerationRun, GenerationRunCreate, Runs, store_llamaparse_job_ids,
}
use study_agent_service.Generation.Worker.{
  on_node, complete_progress, checkpoint_node, fail_current, store_run_result, recover_stale_runs,
}
use study_agent_service.Generation.Service.{
  RunException, Fingerprint, start_run, resume_run, pause_for_mentor, abandon_for_mentor,
}

-- A call that raises leaves the table as it is, so only calls that return are steps.
-- No caller keeps the older runs of a start, and the table refuses an id that is taken.
pub data Step (fingerprint : Fingerprint) : Runs → Runs → Type 0 where
  starts :
      {runs after : Runs} (p : GenerationRunCreate) (lock : Bool) (fresh token now : ℕ)
      (run : GenerationRun)
      → start_run fingerprint p true lock fresh token now runs ≡ inr (after, run)
      → any (λ r. r.run_id == run.run_id) runs ≡ false
      → Step fingerprint runs after
  resumes :
      {runs after : Runs} (run_id mentor_id : ℕ) (lock : Bool) (token : ℕ)
      (next_node : Option String) (now : ℕ)
      → resume_run fingerprint run_id mentor_id lock token next_node now runs ≡ inr after
      → Step fingerprint runs after
  pauses :
      {runs after : Runs} (run_id mentor_id now : ℕ)
      → pause_for_mentor run_id mentor_id now runs ≡ inr after
      → Step fingerprint runs after
  abandons :
      {runs after : Runs} (run_id mentor_id : ℕ) (reason : String) (discarded : RunException ⊎ Done)
      (now : ℕ)
      → abandon_for_mentor run_id mentor_id reason discarded now runs ≡ inr after
      → Step fingerprint runs after
  enters :
      {runs : Runs} (run_id : ℕ) (node_name : String) (step_profile : Option String) (now : ℕ)
      → Step fingerprint runs (on_node run_id node_name step_profile now runs)
  checkpoints :
      {runs : Runs} (run_id : ℕ) (node_name state : String) (artifact : Option String) (now : ℕ)
      → Step fingerprint runs (checkpoint_node run_id node_name state artifact now runs)
  fails :
      {runs : Runs} (run_id : ℕ) (message : String) (error_type : Option String)
      (next_llm_retry_at : Option ℕ) (now : ℕ)
      → Step fingerprint runs (fail_current run_id message error_type next_llm_retry_at now runs)
  completes :
      {runs : Runs} (run_id now : ℕ) → Step fingerprint runs (complete_progress run_id now runs)
  stores :
      {runs : Runs} (run_id : ℕ) (payload : String) (now : ℕ)
      → Step fingerprint runs (store_run_result run_id payload now runs)
  parses :
      {runs : Runs} (run_id : ℕ) (extract_id parse_id : Option String) (now : ℕ)
      → Step fingerprint runs (store_llamaparse_job_ids run_id extract_id parse_id now runs)
  recovers :
      {runs : Runs} (threshold now : ℕ)
      → Step fingerprint runs (recover_stale_runs threshold now runs).0

pub data History (fingerprint : Fingerprint) : Runs → Runs → Type 0 where
  begin : {runs : Runs} → History fingerprint runs runs
  next :
      {runs between after : Runs}
      → History fingerprint runs between
      → Step fingerprint between after
      → History fingerprint runs after
