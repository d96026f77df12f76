-- ===== src/Routing/Tests.antt =====
-- A state of each graph on which the theorems are applied.
use study_agent_service.Prelude.{◌↔◌, ◌≡◌, true, false, none, some, [], ◌∷◌}
use study_agent_service.Routing.Study
use study_agent_service.Routing.Quiz
use study_agent_service.Routing.Hint
use study_agent_service.Routing.Resume.{study_resume_follows_edges, quiz_resume_follows_edges}

-- External research is on, and the cache has not answered.
abbrev study : Study.StudyState
study = record {
  terminal_llm_failure = false;
  error = false;
  generation_outcome = none;
  generator_format_attempt = 0;
  generated_content = false;
  skip_llamaparse = false;
  has_reference_material = true;
  reference_file_path = true;
  reference_material_id = true;
  parsed_sections = false;
  reference_mode = none;
  external_research_enabled = true;
  external_research_cache_hit = false;
  external_research_status = false;
  must_cover_checklist = true;
  qc_passed = false;
  qc_failed_permanently = false;
  qc_infra_error = false;
  qc_retry_mode = Study.no_retry;
}

study_resume_follows_edges_example :
    (Study.study_resume study (some Study.reference_router)
      ≡ Study.study_edge Study.reference_router study)
    ↔ (true ≡ true)
study_resume_follows_edges_example = study_resume_follows_edges Study.reference_router study

-- A regeneration whose check asks for a patch.
abbrev quiz : Quiz.QuizState
quiz = record {
  mode = some Quiz.regenerate;
  question_ids = [];
  study_material_content = true;
  existing_quiz_questions = true;
  terminal_llm_failure = false;
  error = false;
  raw_llm_output = true;
  parsed_questions = some (1 ∷ 2 ∷ []);
  validated_questions = some (1 ∷ 2 ∷ []);
  present_without_qc = false;
  struct_validation_passed = true;
  qc_passed = false;
  qc_failed_permanently = false;
  qc_infra_error = false;
  qc_attempt = 1;
  qc_retry_mode = Quiz.question_patch;
  all_questions = false;
  prompt_input = false;
  parsed_patches = none;
  validated_patches = false;
}

quiz_resume_follows_edges_example :
    (Quiz.quiz_resume quiz (some Quiz.quality_check) ≡ Quiz.quiz_edge Quiz.quality_check quiz)
    ↔ (true ≡ true)
unfolding Quiz.is_question_rework_run
quiz_resume_follows_edges_example = quiz_resume_follows_edges Quiz.quality_check quiz

-- The hint of one of two questions is written.
abbrev hint : Hint.HintState
hint = record {
  questions_for_hinting = 1 ∷ 2 ∷ [];
  prompt_input = true;
  terminal_llm_failure = false;
  error = false;
  raw_llm_output = true;
  hints_written = 1 ∷ [];
  failed_question_ids = [];
}
