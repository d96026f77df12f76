-- ===== src/Generation/Steps.antt =====
-- What the step profiles promise: src/api/utils/generation_progress/store.py.
use study_agent_service.Prelude.{
  ℕ, zero, suc, ◌+◌, ◌-◌, ◌<◌, ◌≡◌, refl, inl, inr, Bool, true, some, List, [], ◌∷◌, ◌++◌, arith,
  ltb, Bool-cases, length, all, ltb→lt,
}
use Prim.Native.String.{String}
use study_agent_service.Prelude.Dict.{Dict, lookup, Eq}
use study_agent_service.Generation.{
  GenerationStepProfile, GenerationProgressStepDef, profile_value, profile_of,
  step_defs_for_profile, profile_node_map, string_eq, study_generate_with_ref,
  study_generate_no_ref, study_generate_with_external_research, study_feedback_rework,
  quiz_generate, quiz_regenerate, quiz_question_rework, hint_generate, hint_regenerate,
}
use study_agent_service.Generation.Profiles.{
  node_to_step_for_profile, GenerationStepStatus, GenerationProgressStep, pending, active,
  completed, render_steps, build_steps_for_profile,
}

-- What all values of a dict satisfy, the value of a key satisfies.
lookup-all {ℓ κ} :
    {K : Type ℓ} {V : Type κ} ⦃e : Eq K⦄ (good : V → Bool) (k : K) (d : Dict K V) {v : V}
    → all (λ entry. good entry.1) d ≡ true
    → lookup k d ≡ some v
    → good v ≡ true
lookup-all good k [] h found = absurd (ground arith)
lookup-all ⦃e⦄ good k ((j, w) ∷ d) {v} h found = elim (Bool-cases (e.beq j k)) [
  | inl here ↦ ground arith
  | inr elsewhere ↦ ground (arith, lookup-all good k d {v = v})
]

-- Every index of a node map is the index of a step.
map-InRange :
    (p : GenerationStepProfile)
    → all (λ entry. ltb entry.1 (length (step_defs_for_profile p))) (profile_node_map p) ≡ true
unfolding profile_node_map step_defs_for_profile
map-InRange study_generate_with_ref = refl
map-InRange study_generate_no_ref = refl
map-InRange study_generate_with_external_research = refl
map-InRange study_feedback_rework = refl
map-InRange quiz_generate = refl
map-InRange quiz_regenerate = refl
map-InRange quiz_question_rework = refl
map-InRange hint_generate = refl
map-InRange hint_regenerate = refl

pub node_to_step-InRange :
    (p : GenerationStepProfile) (node_name : String) {i : ℕ}
    → node_to_step_for_profile p node_name ≡ some i
    → i < length (step_defs_for_profile p)
unfolding node_to_step_for_profile
node_to_step-InRange p node_name {i} found = ltb→lt i (length (step_defs_for_profile p)) (
    lookup-all (λ j. ltb j (length (step_defs_for_profile p))) node_name (profile_node_map p)
      {v = i} (map-InRange p) found)

abbrev pub times {ℓ} : {A : Type ℓ} → ℕ → A → List A
times zero a = []
times (suc n) a = a ∷ times n a

abbrev pub statuses : List GenerationProgressStep → List GenerationStepStatus
statuses [] = []
statuses (s ∷ steps) = s.status ∷ statuses steps

-- Behind the active index all steps wait.
render_steps-waits :
    (k a : ℕ) (defs : List GenerationProgressStepDef)
    → a < k
    → statuses (render_steps k a defs) ≡ times (length defs) pending
unfolding render_steps
render_steps-waits k a [] h = refl
render_steps-waits k a (s ∷ defs) h = ground (arith, render_steps-waits (suc k) a defs)

render_steps-shape :
    (k a j : ℕ) (defs : List GenerationProgressStepDef)
    → a ≡ k + j
    → j < length defs
    → statuses (render_steps k a defs)
      ≡ times j completed ++ active ∷ times (length defs - suc j) pending
unfolding render_steps
render_steps-shape k a j [] e h = absurd (ground arith)
render_steps-shape k a zero (s ∷ defs) e h = ground (arith, render_steps-waits (suc k) a defs)
render_steps-shape k a (suc j) (s ∷ defs) e h = ground (arith, render_steps-shape (suc k) a j defs)

-- A node that a profile maps to a step: when it runs, the progress of its profile shows all steps
-- before that step as completed, that step as active and all steps behind it as pending.
pub node_step-shows :
    (profile : GenerationStepProfile) (node_name : String) {i : ℕ}
    → node_to_step_for_profile profile node_name ≡ some i
    → statuses (build_steps_for_profile profile i)
      ≡ times i completed ++ active ∷ times (length (step_defs_for_profile profile) - suc i) pending
unfolding build_steps_for_profile
node_step-shows profile node_name {i} found =
    render_steps-shape 0 i i (step_defs_for_profile profile) (omega arith)
      (node_to_step-InRange profile node_name found)

pub value_of_profile : (p : GenerationStepProfile) → profile_of (profile_value p) ≡ some p
unfolding profile_of profile_value
value_of_profile study_generate_with_ref = refl
value_of_profile study_generate_no_ref = refl
value_of_profile study_generate_with_external_research = refl
value_of_profile study_feedback_rework = refl
value_of_profile quiz_generate = refl
value_of_profile quiz_regenerate = refl
value_of_profile quiz_question_rework = refl
value_of_profile hint_generate = refl
value_of_profile hint_regenerate = refl
