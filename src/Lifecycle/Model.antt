-- ===== src/Lifecycle/Model.antt =====
-- Rows and constants: src/api/utils/content_lifecycle/constants.py and the models
-- study_material_versions.py, quizzes.py and quiz_attempts.py of src/api/data/models/postgres.
use study_agent_service.Prelude.{ℕ, Bool, true, false, Option}
use study_agent_service.Progress.Completion.{Score}

-- `LifecycleStatus`
pub data LifecycleStatus : Type 0 where
  draft active archived hidden discarded : LifecycleStatus

abbrev pub is_draft : LifecycleStatus → Bool
is_draft draft = true
is_draft _ = false

abbrev pub is_active_status : LifecycleStatus → Bool
is_active_status active = true
is_active_status _ = false

abbrev pub is_archived_status : LifecycleStatus → Bool
is_archived_status archived = true
is_archived_status _ = false

abbrev pub is_hidden : LifecycleStatus → Bool
is_hidden hidden = true
is_hidden _ = false

abbrev pub is_discarded_status : LifecycleStatus → Bool
is_discarded_status discarded = true
is_discarded_status _ = false

-- The columns of `studymaterialversions` that the lifecycle reads and writes; a time is a number.
pub record StudyMaterialVersion : Type 0 where
  pub version_id : ℕ
  pub version_number : ℕ
  pub node_id : ℕ
  pub space_id : ℕ
  pub is_active : Bool
  pub is_published : Bool
  pub published_at : Option ℕ
  pub published_by : Option ℕ
  pub is_archived : Bool
  pub archived_at : Option ℕ
  pub archived_by : Option ℕ
  pub lifecycle_status : LifecycleStatus
  pub superseded_at : Option ℕ

pub record Quiz : Type 0 where
  pub quiz_id : ℕ
  pub node_id : ℕ
  pub study_material_version_id : Option ℕ
  pub pass_threshold_percent : Option ℕ
  pub is_published : Bool
  pub published_at : Option ℕ
  pub lifecycle_status : LifecycleStatus
  pub superseded_at : Option ℕ
  pub updated_at : ℕ

pub data AttemptStatus : Type 0 where
  in_progress submitted abandoned : AttemptStatus

abbrev pub is_open : AttemptStatus → Bool
is_open in_progress = true
is_open _ = false

pub record QuizAttempt : Type 0 where
  pub attempt_id : ℕ
  pub quiz_id : ℕ
  pub node_id : ℕ
  pub space_id : ℕ
  pub trainee_id : ℕ
  pub status : AttemptStatus
  pub resume_question_id : Option ℕ
  pub score : Option Score
  pub total_correct : Option ℕ
  pub total_with_hints : Option ℕ
  pub total_skipped : Option ℕ
  pub started_at : ℕ
  pub submitted_at : Option ℕ

-- `RetentionMode`
pub data RetentionMode : Type 0 where
  keep_for_review remove_completely : RetentionMode
