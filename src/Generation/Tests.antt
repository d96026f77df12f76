-- ===== src/Generation/Tests.antt =====
-- Generation runs and their steps on concrete inputs.
use study_agent_service.Prelude.{
  ℕ, if◌then◌else◌, ◌==◌, arith, all, true, ◌-◌, ◌≡◌, refl, inr, true, none, some, [], ◌∷◌, ◌++◌,
  length,
}
use study_agent_service.Generation.{
  study_generate_with_ref, quiz_generate, profile_value, step_defs_for_profile, quiz, running,
  completed,
}
use study_agent_service.Generation.Profiles.{
  build_steps_for_profile, GenerationStepStatus, pending, active, node_to_step_for_profile,
}
use study_agent_service.Generation.Steps.{statuses, times, node_step-shows}
use study_agent_service.Generation.Runs.{GenerationRun, GenerationRunCreate, Runs, get_by_id}
use study_agent_service.Generation.Shown.{start_run-shows}
use study_agent_service.Generation.Worker.{
  GenerationProgressRecord, job_running, to_progress_out_for_mentor, fail_current,
  recover_stale_runs,
}
use study_agent_service.Generation.Service.{resume_run, Fingerprint, start_run}
use study_agent_service.Generation.Machine.{resumes, begin, next, starts, fails, recovers}
use study_agent_service.Generation.Tries.{is_within_attempts, resumes_are_bounded}
use study_agent_service.Generation.OneActive.{IsOneActive, History-IsOneActive}
use study_agent_service.Generation.Ended.{ended_run_is_final}

node_step-shows_example :
    statuses (build_steps_for_profile study_generate_with_ref 2)
    ≡ times 2 GenerationStepStatus.completed
      ++ active ∷ times (length (step_defs_for_profile study_generate_with_ref) - 3) pending
unfolding node_to_step_for_profile
node_step-shows_example = node_step-shows study_generate_with_ref "study_agent" refl

abbrev request : GenerationRunCreate
request = record {
  pipeline = quiz;
  resource_id = 7;
  node_id = 7;
  space_id = 1;
  mentor_id = 3;
  generation_mode = "generate";
  request_params = record { step_profile = some "quiz_generate"; result = none };
  artifact_run_id = none;
  run_id = none;
}

abbrev one_hash : Fingerprint
one_hash _ _ _ _ = "hash"

abbrev finished : GenerationRun
finished = record {
  run_id = 1;
  pipeline = quiz;
  resource_id = 7;
  node_id = 7;
  space_id = 1;
  mentor_id = 3;
  status = completed;
  last_completed_node = some "persist_quiz_draft";
  checkpoint_state = some "state";
  request_params = some request.request_params;
  generation_mode = "generate";
  artifact_run_id = none;
  progress_step_index = 2;
  error_message = none;
  error_type = none;
  next_llm_retry_at = none;
  attempt_count = 0;
  created_at = 10;
  updated_at = 20;
  completed_at = some 20;
  paused_at = none;
  abandoned_at = none;
  pause_reason = none;
  abandon_reason = none;
  request_fingerprint = some "hash";
  execution_token = some 5;
  llamaparse_extract_job_id = none;
  llamaparse_parse_job_id = none;
}

-- A second run of the quiz is started.
abbrev both : Runs
both =
    finished
    ∷ record finished {
      run_id = 2;
      status = running;
      last_completed_node = none;
      checkpoint_state = none;
      progress_step_index = 0;
      created_at = 30;
      updated_at = 30;
      completed_at = none;
      execution_token = some 6;
    }
    ∷ []

second_run :
    start_run one_hash request true true 2 6 30 (finished ∷ [])
    ≡ inr (
      both,
      record finished {
        run_id = 2;
        status = running;
        last_completed_node = none;
        checkpoint_state = none;
        progress_step_index = 0;
        created_at = 30;
        updated_at = 30;
        completed_at = none;
        execution_token = some 6;
      },
    )
unfolding start_run
second_run = refl

start_run-shows_example :
    (rec : GenerationProgressRecord) × ((m : ℕ)
      → to_progress_out_for_mentor 2 m both ≡ (if 3 == m then some rec else none))
    × (rec.steps ≡ build_steps_for_profile quiz_generate 0)
    × (rec.status ≡ job_running)
    × (rec.current_step_index ≡ 0)
unfolding profile_value
start_run-shows_example =
    start_run-shows one_hash request quiz_generate true true 2 6 30 (finished ∷ []) refl second_run
      refl

-- It is started, a late failure of the first run arrives, and the second goes stale.
ended_run_is_final_example :
    (later : GenerationRun) × (get_by_id 1
        (recover_stale_runs 40 50 (fail_current 1 "late" none none 35 both)).0
      ≡ some later)
    × (later.status ≡ completed)
unfolding get_by_id
ended_run_is_final_example = ended_run_is_final one_hash 1 finished refl refl (
    next
      (next (next begin (starts request true 2 6 30 _ second_run refl))
        (fails 1 "late" none none 35))
      (recovers 40 50))

-- The second run fails and is resumed at the node that generates the quiz.
abbrev retried : Runs
retried =
    finished
    ∷ record finished {
      run_id = 2;
      status = running;
      last_completed_node = none;
      checkpoint_state = none;
      progress_step_index = 1;
      attempt_count = 1;
      created_at = 30;
      updated_at = 60;
      completed_at = none;
      execution_token = some 9;
    }
    ∷ []

second_resumed :
    resume_run one_hash 2 3 true 9
      (some "quiz_generator")
      60
      (fail_current 2 "timeout" none none 50 both)
    ≡ inr retried
unfolding resume_run fail_current
second_resumed = refl

resumes_are_bounded_example : all is_within_attempts retried ≡ true
resumes_are_bounded_example = resumes_are_bounded one_hash {runs = both} refl (
    next (next begin (fails 2 "timeout" none none 50))
      (resumes 2 3 true 9 (some "quiz_generator") 60 second_resumed))

alone : IsOneActive (finished ∷ [])
alone = record { distinct = λ i. ground arith; one_active = λ resource_id pipeline. ground arith }

History-IsOneActive_example : IsOneActive retried
History-IsOneActive_example = History-IsOneActive one_hash alone (
    next
      (next (next begin (starts request true 2 6 30 _ second_run refl))
        (fails 2 "timeout" none none 50))
      (resumes 2 3 true 9 (some "quiz_generator") 60 second_resumed))
