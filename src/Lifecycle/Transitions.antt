-- ===== src/Lifecycle/Transitions.antt =====
-- src/api/utils/content_lifecycle/transitions.py: a transition mutates a row, here it returns the
-- new row; `now` is the clock's answer. The shelf and workspace operations are those of
-- src/api/data/repositories/study_agent_repositories/study_material_repository.py.
use study_agent_service.Prelude.{ℕ, true, false, none, some}
use study_agent_service.Lifecycle.Model.{
  StudyMaterialVersion, Quiz, draft, active, archived, hidden, discarded,
}

unfoldable pub transition_sm_to_archived : ℕ → StudyMaterialVersion → StudyMaterialVersion
transition_sm_to_archived now v = record v {
  is_published = false;
  lifecycle_status = archived;
  superseded_at = some now;
  is_active = false;
}

unfoldable pub transition_sm_to_hidden : StudyMaterialVersion → StudyMaterialVersion
transition_sm_to_hidden v = record v {
  is_published = false;
  lifecycle_status = draft;
  superseded_at = none;
  is_active = false;
}

unfoldable pub transition_sm_to_active : ℕ → ℕ → StudyMaterialVersion → StudyMaterialVersion
transition_sm_to_active now published_by v = record v {
  is_published = true;
  published_at = some now;
  published_by = some published_by;
  lifecycle_status = active;
  superseded_at = none;
}

unfoldable pub transition_sm_to_discarded : StudyMaterialVersion → StudyMaterialVersion
transition_sm_to_discarded v = record v {
  lifecycle_status = discarded;
  is_published = false;
  is_active = false;
}

-- `archive_version`
unfoldable pub archive_version : ℕ → ℕ → StudyMaterialVersion → StudyMaterialVersion
archive_version now archived_by v = record v {
  is_archived = true;
  archived_at = some now;
  archived_by = some archived_by;
  is_active = false;
}

-- `unarchive_version`
unfoldable pub unarchive_version : StudyMaterialVersion → StudyMaterialVersion
unarchive_version v = record v { is_archived = false; archived_at = none; archived_by = none }

-- `deactivate_version`
unfoldable pub deactivate_version : StudyMaterialVersion → StudyMaterialVersion
deactivate_version v = record v { is_active = false }

-- `activate_version`
unfoldable pub activate_version : StudyMaterialVersion → StudyMaterialVersion
activate_version v = record v { is_active = true }

unfoldable pub transition_quiz_to_archived : ℕ → Quiz → Quiz
transition_quiz_to_archived now q = record q {
  is_published = false;
  lifecycle_status = archived;
  superseded_at = some now;
  updated_at = now;
}

unfoldable pub transition_quiz_to_hidden : ℕ → Quiz → Quiz
transition_quiz_to_hidden now q = record q {
  is_published = false;
  lifecycle_status = hidden;
  updated_at = now;
}

unfoldable pub transition_quiz_to_active : ℕ → Quiz → Quiz
transition_quiz_to_active now q = record q {
  is_published = true;
  published_at = some now;
  lifecycle_status = active;
  superseded_at = none;
  updated_at = now;
}

unfoldable pub transition_quiz_to_discarded : ℕ → Quiz → Quiz
transition_quiz_to_discarded now q = record q {
  lifecycle_status = discarded;
  is_published = false;
  updated_at = now;
}
