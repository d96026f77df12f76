-- ===== src/Lifecycle/Tests.antt =====
-- Concrete rows on which the theorems about the content lifecycle are applied.
use study_agent_service.Prelude.{
  ℕ, ◌≤◌, ◌≡◌, refl, ◌≢◌, inr, true, false, none, some, List, [], ◌∷◌, arith, any, count_if,
}
use study_agent_service.Lifecycle.Model.{
  StudyMaterialVersion, Quiz, QuizAttempt, keep_for_review, in_progress, draft, active,
}
use study_agent_service.Lifecycle.Transitions.{transition_sm_to_active, transition_sm_to_hidden}
use study_agent_service.Lifecycle.Visibility.{is_trainee_live_sm, is_mentor_accessible_sm}
use study_agent_service.Lifecycle.Store.{
  publish_version, load_publish_target, publish_quiz, cascade_node_delete_content,
}
use study_agent_service.Lifecycle.Layers.{
  Reach, here, next, publish, unpublish, IsFresh, IsCoherent, layers, layers-Reach,
}
use study_agent_service.Lifecycle.Publish.{
  live_on, publish_version-one_live, shelved_version_publishes, open_at, publish_quiz-freezes,
}
use study_agent_service.Lifecycle.Delete.{live_version_in, cascade_node_delete-hides}

-- A draft of node 5 as the generator inserts it, and the version that is live there.
abbrev fresh : StudyMaterialVersion
fresh = record {
  version_id = 2;
  version_number = 1;
  node_id = 5;
  space_id = 9;
  is_active = false;
  is_published = false;
  published_at = none;
  published_by = none;
  is_archived = false;
  archived_at = none;
  archived_by = none;
  lifecycle_status = draft;
  superseded_at = none;
}

abbrev live : StudyMaterialVersion
live = record fresh {
  version_id = 1;
  is_published = true;
  published_at = some 10;
  lifecycle_status = active;
}

abbrev versions : List StudyMaterialVersion
versions = live ∷ fresh ∷ []

abbrev quiz_live : Quiz
quiz_live = record {
  quiz_id = 50;
  node_id = 5;
  study_material_version_id = none;
  pass_threshold_percent = some 80;
  is_published = true;
  published_at = some 10;
  lifecycle_status = active;
  superseded_at = none;
  updated_at = 10;
}

abbrev quiz_draft : Quiz
quiz_draft = record quiz_live {
  quiz_id = 51;
  is_published = false;
  published_at = none;
  lifecycle_status = draft;
}

abbrev attempt : QuizAttempt
attempt = record {
  attempt_id = 80;
  quiz_id = 50;
  node_id = 5;
  space_id = 9;
  trainee_id = 7;
  status = in_progress;
  resume_question_id = none;
  score = none;
  total_correct = none;
  total_with_hints = none;
  total_skipped = none;
  started_at = 11;
  submitted_at = none;
}

abbrev published : StudyMaterialVersion
unfolding transition_sm_to_active
published = transition_sm_to_active 20 3 fresh

abbrev removed : StudyMaterialVersion
unfolding transition_sm_to_hidden
removed = transition_sm_to_hidden published

abbrev path : Reach fresh removed
unfolding transition_sm_to_active transition_sm_to_hidden
path = next (next here (publish fresh 20 3)) (unpublish published)

fresh-IsFresh : IsFresh fresh
fresh-IsFresh = record { unpublished = refl; never_published = refl; drafted = refl }

layers-Reach_example : (removed.is_archived ≡ false → layers removed ≡ 1) × (layers removed ≤ 1)
layers-Reach_example = layers-Reach {s = fresh} {v = removed} fresh-IsFresh path

fresh-IsCoherent : IsCoherent fresh
fresh-IsCoherent = ground arith

publish_version-one_live_example :
    let after = publish_version fresh 3 keep_for_review 20 versions in
    (count_if (live_on 5) after ≡ 1)
    × ((node : ℕ) → node ≢ 5 → count_if (live_on node) after ≡ count_if (live_on node) versions)
publish_version-one_live_example =
    publish_version-one_live fresh 3 20 keep_for_review versions refl refl

abbrev shelved : StudyMaterialVersion
shelved = record fresh { is_archived = true; archived_at = some 12; archived_by = some 3 }

shelved_version_publishes_example :
    let v = transition_sm_to_active 20 3 shelved in
    (load_publish_target true 5 (some shelved) false ≡ inr shelved)
    × (is_trainee_live_sm v ≡ true)
    × (is_mentor_accessible_sm v ≡ false)
shelved_version_publishes_example = shelved_version_publishes shelved 3 20 refl refl

publish_quiz-freezes_example :
    any (open_at 50) (publish_quiz quiz_draft 20 (quiz_live ∷ quiz_draft ∷ []) (attempt ∷ [])).1
    ≡ false
publish_quiz-freezes_example =
    (publish_quiz-freezes quiz_draft 20 50 (quiz_live ∷ quiz_draft ∷ []) (attempt ∷ [])).0

cascade_node_delete-hides_example :
    any
      (live_version_in (5 ∷ []))
      (cascade_node_delete_content (5 ∷ []) 20 versions (quiz_live ∷ []) (attempt ∷ [])).0
    ≡ false
cascade_node_delete-hides_example =
    (cascade_node_delete-hides (5 ∷ []) 20 5 versions (quiz_live ∷ []) (attempt ∷ []) refl).0
