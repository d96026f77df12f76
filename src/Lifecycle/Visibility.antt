-- ===== src/Lifecycle/Visibility.antt =====
-- src/api/utils/content_lifecycle/visibility.py: who sees a version or a quiz.
use study_agent_service.Prelude.{
  Bool, true, false, not, ◌&&◌, ◌||◌, List, if◌then◌else◌, any, is_some,
}
use study_agent_service.Lifecycle.Model.{
  LifecycleStatus, StudyMaterialVersion, Quiz, is_draft, is_active_status, is_archived_status,
  is_hidden, is_discarded_status,
}

unfoldable pub is_discarded : LifecycleStatus → Bool
is_discarded status = is_discarded_status status

unfoldable pub is_trainee_live : LifecycleStatus → Bool → Bool
is_trainee_live status is_published = is_active_status status && is_published

unfoldable pub is_trainee_live_sm : StudyMaterialVersion → Bool
unfolding is_trainee_live
is_trainee_live_sm v = is_trainee_live v.lifecycle_status v.is_published

unfoldable pub is_trainee_live_quiz : Quiz → Bool
unfolding is_trainee_live
is_trainee_live_quiz q = is_trainee_live q.lifecycle_status q.is_published

unfoldable pub is_trainee_previous_sm : StudyMaterialVersion → Bool
is_trainee_previous_sm v = is_archived_status v.lifecycle_status

unfoldable pub is_mentor_discardable_sm : StudyMaterialVersion → Bool
unfolding is_discarded is_trainee_live_sm
is_mentor_discardable_sm v =
    if is_discarded v.lifecycle_status
    then false
    else (if v.is_archived
        then false
        else (if is_trainee_live_sm v
            then false
            else (if is_active_status v.lifecycle_status
                then not v.is_published
                else (is_draft v.lifecycle_status || is_hidden v.lifecycle_status))))

unfoldable pub is_mentor_accessible_sm : StudyMaterialVersion → Bool
unfolding is_discarded
is_mentor_accessible_sm v =
    if is_discarded v.lifecycle_status
    then false
    else (if v.is_archived
        then false
        else (if is_archived_status v.lifecycle_status
            then false
            else (is_draft v.lifecycle_status
                || (is_hidden v.lifecycle_status || is_active_status v.lifecycle_status))))

unfoldable pub is_mentor_openable_sm : StudyMaterialVersion → Bool
unfolding is_mentor_accessible_sm is_trainee_live_sm
is_mentor_openable_sm v =
    if not (is_mentor_accessible_sm v)
    then false
    else (if is_trainee_live_sm v
        then true
        else (is_draft v.lifecycle_status || is_hidden v.lifecycle_status))

unfoldable pub is_mentor_visible_sm : StudyMaterialVersion → Bool
unfolding is_discarded
is_mentor_visible_sm v = not (is_discarded v.lifecycle_status)

unfoldable pub is_removed_from_students_sm : StudyMaterialVersion → Bool
unfolding is_trainee_live_sm is_trainee_previous_sm
is_removed_from_students_sm v =
    if is_trainee_live_sm v
    then false
    else (if is_trainee_previous_sm v
        then false
        else (if v.is_archived
            then false
            else (if not (is_some v.published_at)
                then false
                else (is_draft v.lifecycle_status || is_hidden v.lifecycle_status))))

unfoldable pub is_workspace_draft_sm : StudyMaterialVersion → Bool
unfolding is_discarded is_trainee_previous_sm is_trainee_live_sm
is_workspace_draft_sm v =
    if is_discarded v.lifecycle_status
    then false
    else (if v.is_archived
        then false
        else (if is_trainee_previous_sm v
            then false
            else (if is_trainee_live_sm v
                then false
                else (if is_some v.published_at
                    then false
                    else (if is_draft v.lifecycle_status || is_hidden v.lifecycle_status
                        then true
                        else (is_active_status v.lifecycle_status && not v.is_published))))))

unfoldable pub node_has_live_sm : List StudyMaterialVersion → Bool
unfolding is_trainee_live_sm
node_has_live_sm versions = any is_trainee_live_sm versions

unfoldable pub node_has_workspace_draft_sm : List StudyMaterialVersion → Bool
unfolding is_workspace_draft_sm
node_has_workspace_draft_sm versions = any is_workspace_draft_sm versions
