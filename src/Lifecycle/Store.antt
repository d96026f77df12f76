-- ===== src/Lifecycle/Store.antt =====
-- The operations on the rows of a node: publishing and unpublishing of the two repositories
-- (src/api/data/repositories), attempt_freeze.py and node_delete_cascade.py of
-- src/api/utils/content_lifecycle. A query selects from the table; a mutation maps over it.
use study_agent_service.Prelude.{
  ℕ, Bool, not, ◌&&◌, ◌||◌, Option, none, some, ◌⊎◌, inl, inr, List, [], ◌∷◌, ◌++◌, map,
  if◌then◌else◌, contains, keep, count_if, is_some, ◌==◌,
}
use study_agent_service.Lifecycle.Model.{
  StudyMaterialVersion, Quiz, QuizAttempt, abandoned, is_open, RetentionMode, keep_for_review,
  remove_completely, is_draft, is_active_status, is_archived_status, is_hidden,
}
use study_agent_service.Lifecycle.Transitions.{
  archive_version, transition_sm_to_archived, transition_sm_to_hidden, transition_sm_to_active,
  transition_sm_to_discarded, transition_quiz_to_archived, transition_quiz_to_active,
  transition_quiz_to_discarded,
}

-- The branch on the retention mode, as in both cascades.
retire : RetentionMode → ℕ → StudyMaterialVersion → StudyMaterialVersion
unfolding transition_sm_to_archived transition_sm_to_hidden
retire keep_for_review now v = transition_sm_to_archived now v
retire remove_completely now v = transition_sm_to_hidden v

abbrev pub is_other_published : ℕ → ℕ → StudyMaterialVersion → Bool
is_other_published node except v =
    v.node_id == node && (v.is_published && not (v.version_id == except))

unfoldable pub unpublish_other_versions :
    ℕ → ℕ → RetentionMode → ℕ → List StudyMaterialVersion → List StudyMaterialVersion
unfolding retire
unpublish_other_versions node except mode now =
    map (λ v. if is_other_published node except v then retire mode now v else v)

-- A mutation of the row object, which the table shows after the flush.
abbrev pub update_version :
    ℕ
    → (StudyMaterialVersion → StudyMaterialVersion)
    → List StudyMaterialVersion
    → List StudyMaterialVersion
update_version id f = map (λ v. if v.version_id == id then f v else v)

unfoldable pub publish_version :
    StudyMaterialVersion
    → ℕ
    → RetentionMode
    → ℕ
    → List StudyMaterialVersion
    → List StudyMaterialVersion
unfolding unpublish_other_versions transition_sm_to_active
publish_version target published_by mode now versions =
    update_version target.version_id (transition_sm_to_active now published_by)
      (unpublish_other_versions target.node_id target.version_id mode now versions)

-- The row change of `execute_unpublish_version_cascade`.
unfoldable pub unpublish_version_cascade :
    StudyMaterialVersion → RetentionMode → ℕ → List StudyMaterialVersion → List StudyMaterialVersion
unfolding retire
unpublish_version_cascade target mode now = update_version target.version_id (retire mode now)

-- The filter of `discard_draft_versions_for_node`.
unfoldable pub discardable_filter : ℕ → StudyMaterialVersion → Bool
discardable_filter node v =
    v.node_id == node
    && (not v.is_archived
        && ((is_draft v.lifecycle_status || is_hidden v.lifecycle_status)
            || (is_active_status v.lifecycle_status && not v.is_published)))

-- The study material half of `discard_draft_versions_for_node`, with its row count.
unfoldable pub discard_draft_versions_for_node :
    ℕ → List StudyMaterialVersion → List StudyMaterialVersion × ℕ
unfolding discardable_filter transition_sm_to_discarded
discard_draft_versions_for_node node versions = (
  map (λ v. if discardable_filter node v then transition_sm_to_discarded v else v) versions,
  count_if (discardable_filter node) versions,
)

-- The bulk UPDATE of attempt_freeze.py.
abbrev pub abandon_one : List ℕ → ℕ → QuizAttempt → QuizAttempt
abandon_one quiz_ids now a =
    if contains a.quiz_id quiz_ids && is_open a.status
    then record a { status = abandoned; submitted_at = some now }
    else a

unfoldable pub abandon_in_progress_attempts_for_quizzes :
    List ℕ → ℕ → List QuizAttempt → List QuizAttempt × ℕ
abandon_in_progress_attempts_for_quizzes [] now attempts = (attempts, 0)
abandon_in_progress_attempts_for_quizzes (q ∷ qs) now attempts = (
  map (abandon_one (q ∷ qs) now) attempts,
  count_if (λ a. contains a.quiz_id (q ∷ qs) && is_open a.status) attempts,
)

abbrev pub is_other_quiz : ℕ → ℕ → Quiz → Bool
is_other_quiz node except q = q.node_id == node && (q.is_published && not (q.quiz_id == except))

unfoldable pub unpublish_other_quizzes :
    ℕ → ℕ → ℕ → List Quiz → List QuizAttempt → List Quiz × List QuizAttempt
unfolding transition_quiz_to_archived abandon_in_progress_attempts_for_quizzes
unpublish_other_quizzes node except now quizzes attempts =
    let archived_ids = map (λ (q : Quiz). q.quiz_id) (keep (is_other_quiz node except) quizzes) in
    (
      map (λ q. if is_other_quiz node except q then transition_quiz_to_archived now q else q)
          quizzes,
      (abandon_in_progress_attempts_for_quizzes archived_ids now attempts).0,
    )

unfoldable pub publish_quiz : Quiz → ℕ → List Quiz → List QuizAttempt → List Quiz × List QuizAttempt
unfolding unpublish_other_quizzes transition_quiz_to_active
publish_quiz quiz now quizzes attempts =
    let (others, remaining) =
      unpublish_other_quizzes quiz.node_id quiz.quiz_id now quizzes attempts in
    (
      map (λ q. if q.quiz_id == quiz.quiz_id then transition_quiz_to_active now q else q) others,
      remaining,
    )

-- The branches of `cascade_node_delete_content` for one version and for one quiz.
unfoldable pub delete_version : ℕ → StudyMaterialVersion → StudyMaterialVersion
unfolding transition_sm_to_archived transition_sm_to_discarded
delete_version now v =
    if is_active_status v.lifecycle_status && v.is_published
    then transition_sm_to_archived now v
    else (if is_hidden v.lifecycle_status && is_some v.published_at
        then transition_sm_to_archived now v
        else (if is_draft v.lifecycle_status || is_hidden v.lifecycle_status
            then transition_sm_to_discarded v
            else v))

unfoldable pub delete_quiz : ℕ → Quiz → Quiz
unfolding transition_quiz_to_archived transition_quiz_to_discarded
delete_quiz now q =
    if is_archived_status q.lifecycle_status
    then q
    else (if is_active_status q.lifecycle_status && q.is_published
        then transition_quiz_to_archived now q
        else (if is_hidden q.lifecycle_status && is_some q.published_at
            then transition_quiz_to_archived now q
            else (if is_draft q.lifecycle_status || is_hidden q.lifecycle_status
                then transition_quiz_to_discarded now q
                else q)))

-- The quizzes whose open attempts the cascade abandons.
abbrev pub is_frozen_by_delete : Quiz → Bool
is_frozen_by_delete q =
    not (is_archived_status q.lifecycle_status)
    && ((is_active_status q.lifecycle_status && q.is_published)
        || (is_hidden q.lifecycle_status && is_some q.published_at))

-- The loop over the deleted nodes.
unfoldable pub delete_nodes :
    List ℕ
    → ℕ
    → List StudyMaterialVersion
    → List Quiz
    → List ℕ
    → List StudyMaterialVersion × List Quiz × List ℕ
unfolding delete_version delete_quiz
delete_nodes [] now versions quizzes frozen = (versions, quizzes, frozen)
delete_nodes (n ∷ ns) now versions quizzes frozen =
    delete_nodes ns now (map (λ v. if v.node_id == n then delete_version now v else v) versions)
      (map (λ q. if q.node_id == n then delete_quiz now q else q) quizzes)
      (frozen
        ++ map (λ (q : Quiz). q.quiz_id)
            (keep (λ q. q.node_id == n && is_frozen_by_delete q) quizzes))

unfoldable pub cascade_node_delete_content :
    List ℕ
    → ℕ
    → List StudyMaterialVersion
    → List Quiz
    → List QuizAttempt
    → List StudyMaterialVersion × List Quiz × List QuizAttempt
unfolding delete_nodes abandon_in_progress_attempts_for_quizzes
cascade_node_delete_content node_ids now versions quizzes attempts =
    let (vs, qs, frozen) = delete_nodes node_ids now versions quizzes [] in
    (vs, qs, (abandon_in_progress_attempts_for_quizzes frozen now attempts).0)

-- The errors of `_load_publish_target` and `archive_study_material_version` in
-- src/api/core/services/study_agent_services/study_material_service.py.
pub data PublishError : Type 0 where
  space_unpublished version_mismatch already_published reference_required : PublishError
  already_archived cannot_archive_published cannot_archive_non_draft : PublishError

-- The guards of `_load_publish_target` behind the role and ownership checks. The last argument
-- says whether the version's content holds the marker for missing reference material.
unfoldable pub load_publish_target :
    Bool → ℕ → Option StudyMaterialVersion → Bool → PublishError ⊎ StudyMaterialVersion
load_publish_target space_is_published node none marked =
    if not space_is_published then inl space_unpublished else inl version_mismatch
load_publish_target space_is_published node (some v) marked =
    if not space_is_published
    then inl space_unpublished
    else (if not (v.node_id == node)
        then inl version_mismatch
        else (if v.is_published
            then inl already_published
            else (if marked then inl reference_required else inr v)))

-- The guards of `archive_study_material_version`, and the write.
unfoldable pub archive_study_material_version :
    ℕ → ℕ → ℕ → Option StudyMaterialVersion → PublishError ⊎ StudyMaterialVersion
unfolding archive_version
archive_study_material_version node now user none = inl version_mismatch
archive_study_material_version node now user (some v) =
    if not (v.node_id == node)
    then inl version_mismatch
    else (if v.is_archived
        then inl already_archived
        else (if v.is_published
            then inl cannot_archive_published
            else (if not (is_draft v.lifecycle_status)
                then inl cannot_archive_non_draft
                else inr (archive_version now user v))))
