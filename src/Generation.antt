-- ===== src/Generation.antt =====
-- The progress steps of a generation: the enums of src/api/schemas/common/generation_enums.py and
-- the step profiles and node maps of src/api/utils/generation_progress/store.py. Names and labels
-- are texts.
pub mod Profiles
pub mod Steps
pub mod Runs
pub mod Worker
pub mod Service
pub mod Machine
pub mod Rows
pub mod Settled
pub mod Calls
pub mod Shown
pub mod Ended
pub mod Tries
pub mod Clear
pub mod OneActive
pub mod Counts
mod Tests
use study_agent_service.Prelude.{
  ℕ, zero, suc, ◌+◌, ◌-◌, ◌*◌, ◌/◌, ◌%◌, ◌≤◌, ◌<◌, ◌≡◌, refl, sym, ap, ◌∙◌, subst, ◌≢◌, ◌↔◌, ◌⊎◌,
  inl, inr, Bool, true, false, not, ◌&&◌, ◌||◌, Option, none, some, List, [], ◌∷◌, ◌++◌, map, arith,
  ltb, leb, ◌==◌, if◌then◌else◌, ==_iff, Bool-cases, Option-cases, is_some, or_else, length, any,
  all, keep, count_if, find_first, contains, contains-append, contains-keep, get_elem?, order_by,
  ◌>>=◌,
}
use Prim.Native.String.{String}
use text.Mathlib.Text.{◌==◌ as str_eq}
use text.Mathlib.TextEquality.{eq_iff}
use study_agent_service.Prelude.Dict.{Dict, Eq}

instance abbrev pub string_eq : Eq String
string_eq = record { beq = str_eq; beq_iff = eq_iff }

pub data GenerationPipeline : Type 0 where
  study_material quiz hint : GenerationPipeline

pub data GenerationRunStatus : Type 0 where
  running failed completed superseded paused abandoned : GenerationRunStatus

pub data GenerationStepProfile : Type 0 where
  study_generate_with_ref study_generate_no_ref study_generate_with_external_research :
      GenerationStepProfile
  study_feedback_rework quiz_generate quiz_regenerate : GenerationStepProfile
  quiz_question_rework hint_generate hint_regenerate : GenerationStepProfile

-- The text of a member.
unfoldable pub profile_value : GenerationStepProfile → String
profile_value study_generate_with_ref = "study_generate_with_ref"
profile_value study_generate_no_ref = "study_generate_no_ref"
profile_value study_generate_with_external_research = "study_generate_with_external_research"
profile_value study_feedback_rework = "study_feedback_rework"
profile_value quiz_generate = "quiz_generate"
profile_value quiz_regenerate = "quiz_regenerate"
profile_value quiz_question_rework = "quiz_question_rework"
profile_value hint_generate = "hint_generate"
profile_value hint_regenerate = "hint_regenerate"

abbrev pub profiles : List GenerationStepProfile
profiles =
    study_generate_with_ref ∷ study_generate_no_ref ∷ study_generate_with_external_research
    ∷ study_feedback_rework ∷ quiz_generate ∷ quiz_regenerate ∷ quiz_question_rework ∷ hint_generate
    ∷ hint_regenerate ∷ []

-- `GenerationStepProfile(text)`, with `none` for the ValueError.
unfoldable pub profile_of : String → Option GenerationStepProfile
unfolding profile_value
profile_of text = find_first (λ p. str_eq (profile_value p) text) profiles

pub record GenerationProgressStepDef : Type 0 where
  pub id : String
  pub label : String

abbrev step : String → String → GenerationProgressStepDef
step name text = record { id = name; label = text }

unfoldable pub step_defs_for_profile : GenerationStepProfile → List GenerationProgressStepDef
step_defs_for_profile study_generate_with_ref =
    step "outlining" "Outlining the topics to cover"
    ∷ step "reading_reference" "Reading the reference material"
    ∷ step "generating" "Generating study material"
    ∷ step "assessing" "Assessing the quality of the content"
    ∷ []
step_defs_for_profile study_generate_no_ref =
    step "outlining" "Outlining the topics to cover"
    ∷ step "generating" "Generating study material"
    ∷ step "assessing" "Assessing the quality of the content"
    ∷ []
step_defs_for_profile study_generate_with_external_research =
    step "outlining" "Outlining the topics to cover"
    ∷ step "researching" "Researching external sources"
    ∷ step "generating" "Generating study material"
    ∷ step "assessing" "Assessing the quality of the content"
    ∷ []
step_defs_for_profile study_feedback_rework =
    step "outlining" "Outlining the topics to cover"
    ∷ step "generating" "Generating study material"
    ∷ step "assessing" "Assessing the quality of the content"
    ∷ []
step_defs_for_profile quiz_generate =
    step "outlining" "Outlining the topics to cover"
    ∷ step "generating" "Generating quiz"
    ∷ step "assessing" "Assessing the quality of the content"
    ∷ []
step_defs_for_profile quiz_regenerate =
    step "outlining" "Outlining the topics to cover"
    ∷ step "generating" "Generating quiz"
    ∷ step "assessing" "Assessing the quality of the content"
    ∷ []
step_defs_for_profile quiz_question_rework =
    step "preparing_question" "Preparing question rework"
    ∷ step "regenerating" "Regenerating question"
    ∷ step "validating" "Validating question quality"
    ∷ step "saving" "Saving changes"
    ∷ []
step_defs_for_profile hint_generate =
    step "generating" "Generating hints"
    ∷ step "validating" "Validating hint quality"
    ∷ step "saving" "Saving hints"
    ∷ []
step_defs_for_profile hint_regenerate =
    step "generating" "Generating hints"
    ∷ step "validating" "Validating hint quality"
    ∷ step "saving" "Saving hints"
    ∷ []

abbrev pub study_with_ref_nodes : Dict String ℕ
study_with_ref_nodes =
    ("concept_checklist", 0) ∷ ("llamaparse", 1) ∷ ("study_agent", 2) ∷ ("quality_check", 3) ∷ []

abbrev pub study_no_ref_nodes : Dict String ℕ
study_no_ref_nodes = ("concept_checklist", 0) ∷ ("study_agent", 1) ∷ ("quality_check", 2) ∷ []

abbrev pub study_with_external_research_nodes : Dict String ℕ
study_with_external_research_nodes =
    ("concept_checklist", 0)
    ∷ ("reference_router", 0)
    ∷ ("external_research", 1)
    ∷ ("external_research_cache_check", 1)
    ∷ ("external_research_resolve_query", 1)
    ∷ ("external_research_search", 1)
    ∷ ("external_research_content_extraction", 1)
    ∷ ("external_research_content_distillation", 1)
    ∷ ("external_research_chunk_if_needed", 1)
    ∷ ("external_research_knowledge_distillation", 1)
    ∷ ("external_research_website_reduction", 1)
    ∷ ("external_research_cross_website_merge", 1)
    ∷ ("external_research_persist_cache", 1)
    ∷ ("external_research_attach_sources", 1)
    ∷ ("external_research_youtube_discover", 1)
    ∷ ("external_research_attach_videos", 1)
    ∷ ("checklist_realign", 1)
    ∷ ("study_agent", 2)
    ∷ ("quality_check", 3)
    ∷ []

abbrev pub quiz_full_nodes : Dict String ℕ
quiz_full_nodes =
    ("load_generation_context", 0)
    ∷ ("load_existing_quiz_if_regenerate", 0)
    ∷ ("quiz_generator", 1)
    ∷ ("parse_quiz_output", 1)
    ∷ ("deterministic_validate", 1)
    ∷ ("quality_check", 2)
    ∷ ("persist_quiz_draft", 2)
    ∷ []

abbrev pub quiz_question_rework_nodes : Dict String ℕ
quiz_question_rework_nodes =
    ("load_quiz_single_regen_context", 0)
    ∷ ("build_quiz_single_regen_prompt", 0)
    ∷ ("invoke_quiz_single_regen_llm", 1)
    ∷ ("parse_quiz_single_regen_output", 1)
    ∷ ("deterministic_validate_question_patches", 2)
    ∷ ("persist_question_patches", 3)
    ∷ []

abbrev pub hint_nodes : Dict String ℕ
hint_nodes =
    ("load_hint_context", 0)
    ∷ ("build_hint_prompt_payload", 0)
    ∷ ("invoke_hint_llm", 0)
    ∷ ("parse_hint_output", 0)
    ∷ ("validate_hint_quality", 1)
    ∷ ("persist_hints_to_questions", 2)
    ∷ ("persist_hint_failure_diagnostics", 2)
    ∷ []

unfoldable pub profile_node_map : GenerationStepProfile → Dict String ℕ
profile_node_map study_generate_with_ref = study_with_ref_nodes
profile_node_map study_generate_no_ref = study_no_ref_nodes
profile_node_map study_generate_with_external_research = study_with_external_research_nodes
profile_node_map study_feedback_rework = study_no_ref_nodes
profile_node_map quiz_generate = quiz_full_nodes
profile_node_map quiz_regenerate = quiz_full_nodes
profile_node_map quiz_question_rework = quiz_question_rework_nodes
profile_node_map hint_generate = hint_nodes
profile_node_map hint_regenerate = hint_nodes
