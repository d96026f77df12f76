-- ===== src/Routing/Resume.antt =====
-- A failed run is resumed where the graph itself would have gone on.
use study_agent_service.Prelude.{
  [], ◌∷◌, ltb, if◌then◌else◌, ◌↔◌, is_some, contains, all, ℕ, List, ◌≡◌, refl, Bool, true, false,
  not, ◌&&◌, ◌||◌, some, arith,
}
use study_agent_service.Routing.Study
use study_agent_service.Routing.Quiz
use study_agent_service.Routing.Hint

-- The states in which a study material run is resumed along the graph's edge, by the node that it
-- completed last.
abbrev pub study_agrees : Study.StudyNode → Study.StudyState → Bool
study_agrees Study.resolver s = not s.error
study_agrees Study.llamaparse s = not s.error
study_agrees Study.concept_checklist s =
    not (s.terminal_llm_failure || s.error) && s.must_cover_checklist
study_agrees Study.reference_router s = not (s.terminal_llm_failure || s.error)
study_agrees Study.external_research s = not s.error
study_agrees Study.checklist_realign s = not s.error
study_agrees Study.study_agent s = true
study_agrees Study.quality_check s =
    if s.qc_passed || s.qc_failed_permanently
    then Study.is_terminal_generation_outcome s.generation_outcome
    else not (Study.is_terminal_generation_outcome s.generation_outcome)
      && (s.qc_infra_error || Study.is_study_retry s.qc_retry_mode)
study_agrees Study.end s = false
study_agrees Study.other s = false

-- Where a study material run is resumed: it goes to the node that the graph's edge names exactly in
-- these states. After the study agent: in all. After the resolver, the reference parser, the external
-- research and the realignment: without an error. After the checklist and the reference router:
-- without an error or a terminal failure of the model, and after the checklist with one in the
-- state. After a quality check that passed or failed for good: with a terminal outcome; after
-- another quality check: without one, and with an infrastructure error or a retry mode. After the
-- end and after an unknown node: never.
pub study_resume_follows_edges :
    (n : Study.StudyNode) (s : Study.StudyState)
    → (Study.study_resume s (some n) ≡ Study.study_edge n s) ↔ (study_agrees n s ≡ true)
unfolding Study.study_resume Study.study_edge
study_resume_follows_edges Study.resolver s = ground arith
study_resume_follows_edges Study.llamaparse s = ground arith
study_resume_follows_edges Study.concept_checklist s = ground arith
study_resume_follows_edges Study.reference_router s = ground arith
study_resume_follows_edges Study.external_research s = ground arith
study_resume_follows_edges Study.checklist_realign s = ground arith
study_resume_follows_edges Study.study_agent s = ground arith
study_resume_follows_edges Study.quality_check s = ground arith
study_resume_follows_edges Study.end s = ground arith
study_resume_follows_edges Study.other s = ground arith

-- The states in which a quiz run is resumed along the graph's edge, where the node is one of the
-- run's own kind.
abbrev pub generate_agrees : Quiz.QuizNode → Quiz.QuizState → Bool
generate_agrees Quiz.load_generation_context s =
    s.study_material_content && not (Quiz.is_regenerate s.mode && s.existing_quiz_questions)
generate_agrees Quiz.load_existing_quiz_if_regenerate s = true
generate_agrees Quiz.quiz_generator s =
    s.terminal_llm_failure
    || (not s.error
        && (if s.present_without_qc && s.struct_validation_passed
            then true
            else not (s.present_without_qc && s.qc_passed)
              && (is_some s.parsed_questions
                  || (not (is_some s.validated_questions) && s.raw_llm_output))))
generate_agrees Quiz.parse_quiz_output s = not s.error
generate_agrees Quiz.deterministic_validate s = true
generate_agrees Quiz.quality_check s =
    (s.qc_passed || s.qc_failed_permanently)
    || (if s.qc_infra_error then ltb s.qc_attempt 3 else Quiz.is_generator_retry s.qc_retry_mode)
generate_agrees _ s = false

abbrev pub rework_agrees : Quiz.QuizNode → Quiz.QuizState → Bool
rework_agrees Quiz.load_quiz_single_regen_context s = s.all_questions
rework_agrees Quiz.build_quiz_single_regen_prompt s = s.prompt_input
rework_agrees Quiz.invoke_quiz_single_regen_llm s =
    s.terminal_llm_failure || (not s.error && (s.raw_llm_output && not (is_some s.parsed_patches)))
rework_agrees Quiz.parse_quiz_single_regen_output s = not s.error
rework_agrees Quiz.deterministic_validate_question_patches s = s.error || s.validated_patches
rework_agrees _ s = false

-- Where a quiz run is resumed: it goes to the node that the graph's edge names exactly in these
-- states. In a run that generates: after the context with content, and not in a regeneration that
-- has loaded the existing quiz; always after the load of the existing quiz and after the structural
-- checks; after the generator with a terminal failure of the model, or without an error and either
-- presented after the structural checks, or not presented after a passed check and with parsed
-- questions or with nothing but raw output; after the parse without an error; after the quality
-- check if it passed, failed for good, has an infrastructure error before its third attempt, or has
-- no such error and a retry mode. In a run that reworks questions: after the context with questions;
-- after the prompt with a prompt; after the call with a terminal failure, or without an error and
-- with nothing but raw output; after the parse without an error; after the validation with an error
-- or with valid patches. After a store, after the end, after an unknown node and after a node of the
-- other kind of run: never.
pub quiz_resume_follows_edges :
    (n : Quiz.QuizNode) (s : Quiz.QuizState)
    → (Quiz.quiz_resume s (some n) ≡ Quiz.quiz_edge n s)
      ↔ ((if Quiz.is_question_rework_run s then rework_agrees n s else generate_agrees n s) ≡ true)
unfolding Quiz.quiz_resume Quiz.quiz_edge
quiz_resume_follows_edges Quiz.load_generation_context s = ground arith
quiz_resume_follows_edges Quiz.load_existing_quiz_if_regenerate s = ground arith
quiz_resume_follows_edges Quiz.quiz_generator s = ground arith
quiz_resume_follows_edges Quiz.parse_quiz_output s = ground arith
quiz_resume_follows_edges Quiz.deterministic_validate s = ground arith
quiz_resume_follows_edges Quiz.quality_check s = ground arith
quiz_resume_follows_edges Quiz.persist_quiz_draft s = ground arith
quiz_resume_follows_edges Quiz.load_quiz_single_regen_context s = ground arith
quiz_resume_follows_edges Quiz.build_quiz_single_regen_prompt s = ground arith
quiz_resume_follows_edges Quiz.invoke_quiz_single_regen_llm s = ground arith
quiz_resume_follows_edges Quiz.parse_quiz_single_regen_output s = ground arith
quiz_resume_follows_edges Quiz.deterministic_validate_question_patches s = ground arith
quiz_resume_follows_edges Quiz.persist_question_patches s = ground arith
quiz_resume_follows_edges Quiz.end s = ground arith
quiz_resume_follows_edges Quiz.other s = ground arith

-- Every question of a list has its hint.
abbrev pub all_written : List ℕ → List ℕ → Bool
all_written ids written = all (λ q. contains q written) ids

no_pending :
    (ids written : List ℕ)
    → Hint.has_ids (Hint.pending_ids ids written) ≡ not (all_written ids written)
unfolding Hint.pending_ids
no_pending [] written = refl
no_pending (q ∷ ids) written = ground (arith, no_pending ids written)

abbrev pub hint_ready : Hint.HintNode → Hint.HintState → Bool
hint_ready Hint.load_hint_context s = Hint.has_ids s.questions_for_hinting
hint_ready Hint.build_hint_prompt_payload s = s.prompt_input
hint_ready Hint.invoke_hint_llm s = s.terminal_llm_failure || (not s.error && s.raw_llm_output)
hint_ready Hint.parse_hint_output s = not s.error
hint_ready Hint.validate_hint_quality s =
    not s.error
    && (all_written s.failed_question_ids s.hints_written
        && all_written s.questions_for_hinting s.hints_written)
hint_ready _ s = false

-- For hints: in the states that `hint_ready` lists for a node the resumed run goes to the node that
-- the graph's edge names; and after the validation it goes to the commit exactly when every failed
-- and every listed question has its hint.
pub hint_resume_follows_edges :
    (s : Hint.HintState)
    → ((n : Hint.HintNode)
        → hint_ready n s ≡ true
        → Hint.hint_resume s (some n) ≡ Hint.hint_edge n s)
      × ((Hint.hint_resume s (some Hint.validate_hint_quality) ≡ Hint.persist_hints_to_questions)
          ↔ ((all_written s.failed_question_ids s.hints_written
                && all_written s.questions_for_hinting s.hints_written)
              ≡ true))
unfolding Hint.hint_resume Hint.hint_edge
hint_resume_follows_edges s = (
  λ n h. follows n h,
  ground (
    arith,
    no_pending s.failed_question_ids s.hints_written,
    no_pending s.questions_for_hinting s.hints_written,
  ),
)
  where
    follows :
        (n : Hint.HintNode)
        → hint_ready n s ≡ true
        → Hint.hint_resume s (some n) ≡ Hint.hint_edge n s
    follows Hint.load_hint_context h = ground arith
    follows Hint.build_hint_prompt_payload h = ground arith
    follows Hint.invoke_hint_llm h = ground arith
    follows Hint.parse_hint_output h = ground arith
    follows Hint.validate_hint_quality h = ground (
      arith,
      no_pending s.failed_question_ids s.hints_written,
      no_pending s.questions_for_hinting s.hints_written,
    )
    follows Hint.persist_hints_to_questions h = absurd (ground arith)
    follows Hint.persist_hint_failure_diagnostics h = absurd (ground arith)
    follows Hint.end h = absurd (ground arith)
    follows Hint.other h = absurd (ground arith)
