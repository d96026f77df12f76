-- ===== src/Generation/Profiles.antt =====
-- The functions of src/api/utils/generation_progress/store.py over the profiles: which profile a
-- run has, which step a graph node belongs to, and the steps as they are rendered.
use study_agent_service.Prelude.{
  ℕ, suc, Bool, ◌||◌, Option, none, some, List, [], ◌∷◌, ltb, ◌==◌, if◌then◌else◌, or_else,
}
use Prim.Native.String.{String}
use text.Mathlib.Text.{◌==◌ as str_eq}
use study_agent_service.Prelude.Dict.{lookup}
use study_agent_service.Generation.{
  GenerationPipeline, GenerationStepProfile, GenerationProgressStepDef, profile_of,
  step_defs_for_profile, profile_node_map, string_eq, study_generate_with_ref,
  study_generate_no_ref, study_generate_with_external_research, study_feedback_rework,
  quiz_generate, quiz_regenerate, quiz_question_rework, hint_generate, hint_regenerate,
  study_material, quiz, hint,
}

-- The JSON object of a run, by the keys that are read.
pub record RequestParams : Type 0 where
  pub step_profile : Option String
  pub result : Option String

unfoldable pub default_profile : GenerationPipeline → GenerationStepProfile
default_profile study_material = study_generate_no_ref
default_profile quiz = quiz_generate
default_profile hint = hint_generate

unfoldable pub step_profile_from_request_params :
    Option RequestParams → GenerationPipeline → GenerationStepProfile
unfolding default_profile profile_of
step_profile_from_request_params none pipeline = default_profile pipeline
step_profile_from_request_params (some params) pipeline = elim params.step_profile [
  | none ↦ default_profile pipeline
  | some raw ↦ or_else (profile_of raw) (default_profile pipeline)
]

unfoldable pub node_to_step_for_profile : GenerationStepProfile → String → Option ℕ
unfolding profile_node_map
node_to_step_for_profile profile node_name = lookup node_name (profile_node_map profile)

unfoldable pub node_to_step : GenerationPipeline → String → Option GenerationStepProfile → Option ℕ
unfolding node_to_step_for_profile default_profile
node_to_step pipeline node_name step_profile =
    node_to_step_for_profile (or_else step_profile (default_profile pipeline)) node_name

pub data GenerationStepStatus : Type 0 where
  pending active completed : GenerationStepStatus

pub record GenerationProgressStep : Type 0 where
  pub id : String
  pub label : String
  pub status : GenerationStepStatus

abbrev pub step_status : ℕ → ℕ → GenerationStepStatus
step_status index active_index =
    if ltb index active_index then completed else if index == active_index then active else pending

-- The loop, from an index on.
unfoldable pub render_steps : ℕ → ℕ → List GenerationProgressStepDef → List GenerationProgressStep
render_steps index active_index [] = []
render_steps index active_index (s ∷ defs) =
    record { id = s.id; label = s.label; status = step_status index active_index }
    ∷ render_steps (suc index) active_index defs

unfoldable pub build_steps_for_profile : GenerationStepProfile → ℕ → List GenerationProgressStep
unfolding render_steps step_defs_for_profile
build_steps_for_profile profile active_index =
    render_steps 0 active_index (step_defs_for_profile profile)

unfoldable pub build_steps : GenerationPipeline → ℕ → List GenerationProgressStep
unfolding build_steps_for_profile default_profile
build_steps pipeline active_index = build_steps_for_profile (default_profile pipeline) active_index

unfoldable pub study_step_profile_for_mode : String → Bool → Bool → GenerationStepProfile
study_step_profile_for_mode mode has_reference external_research =
    if str_eq mode "regenerate" || str_eq mode "improve"
    then study_feedback_rework
    else if external_research
    then study_generate_with_external_research
    else if has_reference
    then study_generate_with_ref
    else study_generate_no_ref

unfoldable pub quiz_step_profile_for_mode : String → Bool → GenerationStepProfile
quiz_step_profile_for_mode mode is_question_rework =
    if is_question_rework
    then quiz_question_rework
    else if str_eq mode "regenerate"
    then quiz_regenerate
    else quiz_generate

unfoldable pub hint_step_profile_for_mode : String → GenerationStepProfile
hint_step_profile_for_mode mode =
    if str_eq mode "regenerate" then hint_regenerate else hint_generate
