-- ===== src/Attempt/Starting.antt =====
-- The begin of an attempt: `start_attempt` of
-- src/api/core/services/trainee_quiz_services/trainee_quiz_service.py, with the check of
-- src/api/utils/quiz_utils/study_material_link.py.
use study_agent_service.Prelude.{
  ℕ, ◌⊎◌, inr, Bool, true, false, not, ◌&&◌, Option, none, some, List, [], ◌∷◌, ltb, ◌==◌,
  if◌then◌else◌, is_some, keep,
}
use study_agent_service.Prelude.Result.{◌>>=◌, guard, present, Done}
use study_agent_service.Prelude.Dict.{nat_eq}
use study_agent_service.Guards.{
  ServiceException, Role, assert_trainee, assert_space_access, get_node_and_assert_space_access,
  quiz_not_found, quiz_not_published, attempt_already_in_progress, no_published_study_material,
  version_mismatch, material_not_current,
}
use study_agent_service.Lifecycle.Model.{Quiz, StudyMaterialVersion}
use study_agent_service.Progress.Store.{Db}
use study_agent_service.Progress.Unlocking.Granting.{assert_trainee_node_unlocked}
use study_agent_service.Progress.Service.{get_published_quiz_by_node, unlocked}
use study_agent_service.Attempt.Tables.{
  Tables, get_active_attempt_by_quiz_and_trainee, get_active_questions_by_quiz, get_responses_map,
  new_attempt, create_attempt,
}
use study_agent_service.Attempt.Submission.{QuizDb}
use study_agent_service.Attempt.Views.{
  QuizOut, build_trainee_quiz_out, get_best_submitted_score, get_quiz_by_id,
}

abbrev later : StudyMaterialVersion → Option StudyMaterialVersion → Option StudyMaterialVersion
later v none = some v
later v (some w) = if ltb v.version_number w.version_number then some w else some v

-- The row of the highest version number.
abbrev pub latest_of : List StudyMaterialVersion → Option StudyMaterialVersion
latest_of [] = none
latest_of (v ∷ vs) = later v (latest_of vs)

-- `TraineeStudyRepository.get_published_study_material`
unfoldable pub get_published_study_material : ℕ → Db → Option StudyMaterialVersion
get_published_study_material node db =
    latest_of (keep (λ v. v.node_id == node && v.is_published) db.versions)

-- `version_id is not None and published_version.version_id != version_id`, the other way round.
abbrev pub matches_version : Option ℕ → ℕ → Bool
matches_version none id = true
matches_version (some v) id = id == v

unfoldable pub validate_study_material_is_currently_published_for_node :
    ℕ → Option ℕ → Option StudyMaterialVersion → ServiceException ⊎ Done
validate_study_material_is_currently_published_for_node node version published = do
  p ← present published no_published_study_material
  _ ← guard (p.node_id == node) version_mismatch
  guard (matches_version version p.version_id) material_not_current

-- The guards of `start_attempt` behind the unlock: the quiz that is attempted.
unfoldable pub startable_quiz : ℕ → ℕ → ℕ → Db → Tables → ServiceException ⊎ Quiz
unfolding get_published_quiz_by_node get_quiz_by_id get_active_attempt_by_quiz_and_trainee
    get_published_study_material validate_study_material_is_currently_published_for_node
startable_quiz node quiz_id user study t = do
  live ← present (get_published_quiz_by_node node study) quiz_not_found
  _ ← guard (live.quiz_id == quiz_id) quiz_not_found
  quiz ← present (get_quiz_by_id quiz_id study.quizzes) quiz_not_found
  _ ← guard (quiz.node_id == node) quiz_not_found
  _ ← guard quiz.is_published quiz_not_published
  _ ←
      guard (not (is_some (get_active_attempt_by_quiz_and_trainee quiz_id user t)))
        attempt_already_in_progress
  _ ←
      validate_study_material_is_currently_published_for_node node quiz.study_material_version_id
        (get_published_study_material node study)
  inr quiz

-- `id` is the generated id of the attempt.
unfoldable pub start_attempt :
    ℕ → ℕ → ℕ → ℕ → ℕ → ℕ → Role → QuizDb → ServiceException ⊎ (QuizOut × QuizDb)
unfolding startable_quiz new_attempt create_attempt get_active_questions_by_quiz get_responses_map
    build_trainee_quiz_out get_best_submitted_score unlocked
start_attempt limit id now node quiz_id user role db = do
  _ ← assert_trainee role
  n ← get_node_and_assert_space_access node user false db.study.topic_nodes db.spaces
  _ ← assert_space_access n.space_id user role db.spaces
  study' ← unlocked (assert_trainee_node_unlocked limit user node n.space_id db.study)
  quiz ← startable_quiz node quiz_id user study' db.tables
  let a = new_attempt id quiz_id node n.space_id user now
  let t' = create_attempt a db.tables
  inr (
    build_trainee_quiz_out quiz a (get_active_questions_by_quiz quiz_id t')
        (get_responses_map id t') (get_best_submitted_score quiz_id user t'),
    record db { study = study'; tables = t' },
  )
