-- ===== src/Routing/Quiz.antt =====
-- src/api/control/quiz_agent/graph/quiz_graph/quiz_generation_graph.py and resume_router.py.
use study_agent_service.Prelude.{
  ℕ, Bool, true, false, not, ◌&&◌, ◌||◌, Option, none, some, List, [], ◌∷◌, ltb, if◌then◌else◌,
  is_some,
}

pub data QuizNode : Type 0 where
  load_generation_context load_existing_quiz_if_regenerate quiz_generator : QuizNode
  parse_quiz_output deterministic_validate quality_check persist_quiz_draft : QuizNode
  load_quiz_single_regen_context build_quiz_single_regen_prompt : QuizNode
  invoke_quiz_single_regen_llm parse_quiz_single_regen_output : QuizNode
  deterministic_validate_question_patches persist_question_patches : QuizNode
  end other : QuizNode

pub data QuizMode : Type 0 where
  generate regenerate improve : QuizMode

pub data QuizRetryMode : Type 0 where
  question_patch question_insert question_patch_then_insert : QuizRetryMode
  question_prune full_regeneration no_retry : QuizRetryMode

-- Two lists are tested for None and for emptiness; the others only for one of these.
pub record QuizState : Type 0 where
  pub mode : Option QuizMode
  pub question_ids : List ℕ
  pub study_material_content : Bool
  pub existing_quiz_questions : Bool
  pub terminal_llm_failure : Bool
  pub error : Bool
  pub raw_llm_output : Bool
  pub parsed_questions : Option (List ℕ)
  pub validated_questions : Option (List ℕ)
  pub present_without_qc : Bool
  pub struct_validation_passed : Bool
  pub qc_passed : Bool
  pub qc_failed_permanently : Bool
  pub qc_infra_error : Bool
  pub qc_attempt : ℕ
  pub qc_retry_mode : QuizRetryMode
  pub all_questions : Bool
  pub prompt_input : Bool
  pub parsed_patches : Option (List ℕ)
  pub validated_patches : Bool

-- Python's truth of a list, and of a list or None.
abbrev pub non_empty : List ℕ → Bool
non_empty [] = false
non_empty (_ ∷ _) = true

abbrev pub is_filled : Option (List ℕ) → Bool
is_filled none = false
is_filled (some l) = non_empty l

abbrev pub is_regenerate : Option QuizMode → Bool
is_regenerate (some regenerate) = true
is_regenerate _ = false

unfoldable pub is_question_rework_run : QuizState → Bool
is_question_rework_run s = elim s.mode [
  | none ↦ non_empty s.question_ids
  | some m ↦ elim m [ improve ↦ true | generate ↦ false | regenerate ↦ false ]
]

unfoldable pub route_after_quiz_generator : QuizState → QuizNode
route_after_quiz_generator s =
    if s.terminal_llm_failure
    then persist_quiz_draft
    else (if s.error
        then end
        else (if s.present_without_qc && s.struct_validation_passed
            then persist_quiz_draft
            else (if is_some s.parsed_questions
                then deterministic_validate
                else parse_quiz_output)))

unfoldable pub route_after_deterministic_validate : QuizState → QuizNode
route_after_deterministic_validate s =
    if s.struct_validation_passed
    then (if s.present_without_qc then persist_quiz_draft else quality_check)
    else (if s.qc_failed_permanently then persist_quiz_draft else quiz_generator)

-- MAX_QC_ATTEMPTS is 3.
unfoldable pub quiz_route_after_quality_check : QuizState → QuizNode
quiz_route_after_quality_check s =
    if s.qc_passed
    then persist_quiz_draft
    else (if s.qc_failed_permanently
        then persist_quiz_draft
        else (if s.qc_infra_error && ltb s.qc_attempt 3 then quality_check else quiz_generator))

-- The edges of `build_quiz_generation_graph`.
unfoldable pub quiz_edge : QuizNode → QuizState → QuizNode
unfolding route_after_quiz_generator route_after_deterministic_validate
    quiz_route_after_quality_check
quiz_edge load_generation_context s =
    if is_regenerate s.mode then load_existing_quiz_if_regenerate else quiz_generator
quiz_edge load_existing_quiz_if_regenerate s = quiz_generator
quiz_edge quiz_generator s = route_after_quiz_generator s
quiz_edge parse_quiz_output s = if s.error then end else deterministic_validate
quiz_edge deterministic_validate s = route_after_deterministic_validate s
quiz_edge quality_check s = quiz_route_after_quality_check s
quiz_edge load_quiz_single_regen_context s = build_quiz_single_regen_prompt
quiz_edge build_quiz_single_regen_prompt s = invoke_quiz_single_regen_llm
quiz_edge invoke_quiz_single_regen_llm s =
    if s.terminal_llm_failure || s.error then end else parse_quiz_single_regen_output
quiz_edge parse_quiz_single_regen_output s =
    if s.error then end else deterministic_validate_question_patches
quiz_edge deterministic_validate_question_patches s =
    if s.error then end else persist_question_patches
quiz_edge _ s = end

-- The branches of `_resolve_generate_resume_next_node` after the generator and after the check.
unfoldable pub resume_after_quiz_generator : QuizState → QuizNode
resume_after_quiz_generator s =
    if s.terminal_llm_failure
    then persist_quiz_draft
    else (if s.present_without_qc && (s.struct_validation_passed || s.qc_passed)
        then persist_quiz_draft
        else (if s.error
            then (if s.raw_llm_output && not (is_some s.parsed_questions)
                then parse_quiz_output
                else quiz_generator)
            else (if is_some s.validated_questions
                then deterministic_validate
                else (if is_some s.parsed_questions
                    then deterministic_validate
                    else (if s.raw_llm_output then parse_quiz_output else quiz_generator)))))

abbrev pub is_generator_retry : QuizRetryMode → Bool
is_generator_retry no_retry = false
is_generator_retry _ = true

unfoldable pub quiz_resume_after_quality_check : QuizState → QuizNode
quiz_resume_after_quality_check s =
    if s.qc_passed || s.qc_failed_permanently
    then persist_quiz_draft
    else (if s.qc_infra_error
        then quality_check
        else (if is_generator_retry s.qc_retry_mode
            then quiz_generator
            else (if is_filled s.validated_questions
                then quality_check
                else load_generation_context)))

-- Its branch after the structural checks.
unfoldable pub resume_after_deterministic_validate : QuizState → QuizNode
resume_after_deterministic_validate s =
    if s.struct_validation_passed
    then (if s.present_without_qc then persist_quiz_draft else quality_check)
    else (if s.qc_failed_permanently then persist_quiz_draft else quiz_generator)

unfoldable pub resume_generate : QuizState → Option QuizNode → QuizNode
unfolding resume_after_quiz_generator quiz_resume_after_quality_check
    resume_after_deterministic_validate
resume_generate s none = load_generation_context
resume_generate s (some load_generation_context) =
    if not s.study_material_content
    then load_generation_context
    else (if is_regenerate s.mode && not s.existing_quiz_questions
        then load_existing_quiz_if_regenerate
        else quiz_generator)
resume_generate s (some load_existing_quiz_if_regenerate) = quiz_generator
resume_generate s (some quiz_generator) = resume_after_quiz_generator s
resume_generate s (some parse_quiz_output) =
    if s.error
    then (if s.raw_llm_output then parse_quiz_output else quiz_generator)
    else deterministic_validate
resume_generate s (some deterministic_validate) = resume_after_deterministic_validate s
resume_generate s (some quality_check) = quiz_resume_after_quality_check s
resume_generate s (some persist_quiz_draft) = persist_quiz_draft
resume_generate s (some _) = load_generation_context

-- The branch of `_resolve_rework_resume_next_node` after the call of the model.
unfoldable pub resume_after_rework_invoke : QuizState → QuizNode
resume_after_rework_invoke s =
    if s.terminal_llm_failure
    then end
    else (if s.error
        then (if s.raw_llm_output && not (is_some s.parsed_patches)
            then parse_quiz_single_regen_output
            else invoke_quiz_single_regen_llm)
        else (if is_some s.parsed_patches
            then deterministic_validate_question_patches
            else (if s.raw_llm_output
                then parse_quiz_single_regen_output
                else invoke_quiz_single_regen_llm)))

unfoldable pub resume_rework : QuizState → Option QuizNode → QuizNode
unfolding resume_after_rework_invoke
resume_rework s none = load_quiz_single_regen_context
resume_rework s (some load_quiz_single_regen_context) =
    if s.all_questions then build_quiz_single_regen_prompt else load_quiz_single_regen_context
resume_rework s (some build_quiz_single_regen_prompt) =
    if s.prompt_input then invoke_quiz_single_regen_llm else build_quiz_single_regen_prompt
resume_rework s (some invoke_quiz_single_regen_llm) = resume_after_rework_invoke s
resume_rework s (some parse_quiz_single_regen_output) =
    if s.error
    then (if s.raw_llm_output then parse_quiz_single_regen_output else invoke_quiz_single_regen_llm)
    else deterministic_validate_question_patches
resume_rework s (some deterministic_validate_question_patches) =
    if s.error
    then end
    else (if s.validated_patches then persist_question_patches else invoke_quiz_single_regen_llm)
resume_rework s (some persist_question_patches) = persist_question_patches
resume_rework s (some _) = load_quiz_single_regen_context

-- `resolve_resume_next_node`
unfoldable pub quiz_resume : QuizState → Option QuizNode → QuizNode
unfolding is_question_rework_run resume_rework resume_generate
quiz_resume s last =
    if is_question_rework_run s then resume_rework s last else resume_generate s last
