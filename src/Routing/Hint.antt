-- ===== src/Routing/Hint.antt =====
-- src/api/control/hint_agent/graph/hint_generation_graph.py and resume_router.py.
use study_agent_service.Prelude.{
  ℕ, Bool, true, false, not, Option, none, some, List, [], ◌∷◌, if◌then◌else◌, keep, contains,
}

pub data HintNode : Type 0 where
  load_hint_context build_hint_prompt_payload invoke_hint_llm parse_hint_output : HintNode
  validate_hint_quality persist_hints_to_questions persist_hint_failure_diagnostics : HintNode
  end other : HintNode

-- A question is its id; of the dict of written hints the keys are read. No list counts as empty.
pub record HintState : Type 0 where
  pub questions_for_hinting : List ℕ
  pub prompt_input : Bool
  pub terminal_llm_failure : Bool
  pub error : Bool
  pub raw_llm_output : Bool
  pub hints_written : List ℕ
  pub failed_question_ids : List ℕ

-- `[id for id in ids if id not in hints_written]`
unfoldable pub pending_ids : List ℕ → List ℕ → List ℕ
pending_ids ids written = keep (λ q. not (contains q written)) ids

abbrev pub has_ids : List ℕ → Bool
has_ids [] = false
has_ids (_ ∷ _) = true

-- The edges of `build_hint_generation_graph`.
unfoldable pub hint_edge : HintNode → HintState → HintNode
hint_edge load_hint_context s = build_hint_prompt_payload
hint_edge build_hint_prompt_payload s = invoke_hint_llm
hint_edge invoke_hint_llm s =
    if s.terminal_llm_failure
    then persist_hint_failure_diagnostics
    else (if s.error then end else parse_hint_output)
hint_edge parse_hint_output s = if s.error then end else validate_hint_quality
hint_edge validate_hint_quality s = if s.error then end else persist_hints_to_questions
hint_edge _ s = end

unfoldable pub resume_after_validate : HintState → HintNode
unfolding pending_ids
resume_after_validate s =
    if has_ids (pending_ids s.failed_question_ids s.hints_written)
    then validate_hint_quality
    else (if has_ids (pending_ids s.questions_for_hinting s.hints_written)
        then validate_hint_quality
        else persist_hints_to_questions)

-- `resolve_resume_next_node`
unfoldable pub hint_resume : HintState → Option HintNode → HintNode
unfolding resume_after_validate
hint_resume s none = load_hint_context
hint_resume s (some load_hint_context) =
    if has_ids s.questions_for_hinting then build_hint_prompt_payload else load_hint_context
hint_resume s (some build_hint_prompt_payload) =
    if s.prompt_input then invoke_hint_llm else build_hint_prompt_payload
hint_resume s (some invoke_hint_llm) =
    if s.terminal_llm_failure
    then persist_hint_failure_diagnostics
    else (if s.error
        then (if s.raw_llm_output then parse_hint_output else invoke_hint_llm)
        else (if s.raw_llm_output then parse_hint_output else invoke_hint_llm))
hint_resume s (some parse_hint_output) =
    if s.error
    then (if s.raw_llm_output then parse_hint_output else invoke_hint_llm)
    else validate_hint_quality
hint_resume s (some validate_hint_quality) = resume_after_validate s
hint_resume s (some persist_hints_to_questions) = persist_hints_to_questions
hint_resume s (some persist_hint_failure_diagnostics) = persist_hint_failure_diagnostics
hint_resume s (some _) = load_hint_context
