-- ===== src/Lifecycle/Publish.antt =====
-- Publishing leaves one live layer on a node, and freezes the attempts at what it replaces.
use study_agent_service.Prelude.{
  refl, keep, map, some, false, contains, ℕ, ◌+◌, ◌≡◌, ◌≢◌, ap, ==_iff, Bool, true, not, ◌&&◌, ◌||◌,
  List, [], ◌∷◌, if◌then◌else◌, arith, any, all, count_if, ◌==◌, Bool-cases, inl, inr,
}
use study_agent_service.Lifecycle.Model.{
  is_discarded_status, draft, is_open, QuizAttempt, Quiz, StudyMaterialVersion, RetentionMode,
  keep_for_review, remove_completely,
}
use study_agent_service.Lifecycle.Store.{
  is_other_quiz, publish_quiz, abandon_in_progress_attempts_for_quizzes,
  discard_draft_versions_for_node, discardable_filter, load_publish_target,
  archive_study_material_version, publish_version,
}
use study_agent_service.Lifecycle.Transitions.{transition_sm_to_active}
use study_agent_service.Lifecycle.Visibility.{
  is_mentor_discardable_sm, is_trainee_previous_sm, is_mentor_accessible_sm, is_trainee_live_sm,
}

abbrev has_version_id : ℕ → StudyMaterialVersion → Bool
has_version_id id v = v.version_id == id

-- `version_id` is the primary key.
abbrev pub distinct_versions : List StudyMaterialVersion → Bool
distinct_versions [] = true
distinct_versions (v ∷ vs) = not (any (has_version_id v.version_id) vs) && distinct_versions vs

-- The target is a row of the table.
abbrev pub is_row_of : StudyMaterialVersion → List StudyMaterialVersion → Bool
is_row_of target vs =
    any (has_version_id target.version_id) vs
    && all (λ v. not (v.version_id == target.version_id) || v.node_id == target.node_id) vs

abbrev pub live_on : ℕ → StudyMaterialVersion → Bool
live_on node v = v.node_id == node && v.is_published

-- One row more, by the branch that it takes.
one_row :
    (target : StudyMaterialVersion) (mentor now : ℕ) (mode : RetentionMode) (node : ℕ)
    (v : StudyMaterialVersion) (vs : List StudyMaterialVersion)
    → (not (v.version_id == target.version_id) || v.node_id == target.node_id) ≡ true
    → count_if (live_on node) (publish_version target mentor mode now (v ∷ vs))
      ≡ (if node == target.node_id
          then (if v.version_id == target.version_id then 1 else 0)
          else (if live_on node v then 1 else 0))
        + count_if (live_on node) (publish_version target mentor mode now vs)
unfolding publish_version
one_row target mentor now keep_for_review node v vs h = ground arith
one_row target mentor now remove_completely node v vs h = ground arith

count-publish_version :
    (target : StudyMaterialVersion) (mentor now : ℕ) (mode : RetentionMode) (node : ℕ)
    (vs : List StudyMaterialVersion)
    → distinct_versions vs ≡ true
    → all (λ v. not (v.version_id == target.version_id) || v.node_id == target.node_id) vs ≡ true
    → count_if (live_on node) (publish_version target mentor mode now vs) ≡ (
        if node == target.node_id
        then (if any (has_version_id target.version_id) vs then 1 else 0)
        else count_if (live_on node) vs)
count-publish_version target mentor now mode node [] h r = unfold publish_version in ground arith
count-publish_version target mentor now mode node (v ∷ vs) h r =
    elim (Bool-cases (v.version_id == target.version_id)) [
      | inl same ↦ ground (
        arith,
        one_row target mentor now mode node v vs,
        count-publish_version target mentor now mode node vs,
        ap (λ k. any (has_version_id k) vs) ((==_iff v.version_id target.version_id).0 same),
      )
      | inr other ↦ ground (
        arith,
        one_row target mentor now mode node v vs,
        count-publish_version target mentor now mode node vs,
      )
    ]

-- Publishing a row of the table, with distinct version ids, leaves exactly one published version on
-- its node, whatever was published there before, and as many as before on every other node.
pub publish_version-one_live :
    (target : StudyMaterialVersion) (mentor now : ℕ) (mode : RetentionMode)
    (vs : List StudyMaterialVersion)
    → distinct_versions vs ≡ true
    → is_row_of target vs ≡ true
    → let after = publish_version target mentor mode now vs in
      (count_if (live_on target.node_id) after ≡ 1)
      × ((node : ℕ)
          → node ≢ target.node_id
          → count_if (live_on node) after ≡ count_if (live_on node) vs)
publish_version-one_live target mentor now mode vs h r = (
  ground (arith, count-publish_version target mentor now mode target.node_id vs h),
  λ node other. ground (arith, count-publish_version target mentor now mode node vs h),
)

-- The publish operation does not look at the mentor's shelf: a shelf-archived version that passes the
-- other guards is accepted, and becomes live for trainees while the mentor cannot open it.
pub shelved_version_publishes :
    (v : StudyMaterialVersion) (mentor now : ℕ)
    → v.is_archived ≡ true
    → v.is_published ≡ false
    → let live = transition_sm_to_active now mentor v in
      (load_publish_target true v.node_id (some v) false ≡ inr v)
      × (is_trainee_live_sm live ≡ true)
      × (is_mentor_accessible_sm live ≡ false)
unfolding load_publish_target transition_sm_to_active is_trainee_live_sm is_mentor_accessible_sm
shelved_version_publishes v mentor now s u = ground (arith, (==_iff v.node_id v.node_id).1 refl)

-- The mentor's shelf takes only an unpublished draft, and what it takes is not live, not in
-- the trainees' history and not among the mentor's working versions.
pub archive_study_material_version-hides :
    (node now user : ℕ) (v : StudyMaterialVersion) {w : StudyMaterialVersion}
    → archive_study_material_version node now user (some v) ≡ inr w
    → (v.is_published ≡ false)
      × (v.lifecycle_status ≡ draft)
      × (is_trainee_live_sm w ≡ false)
      × (is_trainee_previous_sm w ≡ false)
      × (is_mentor_accessible_sm w ≡ false)
unfolding archive_study_material_version is_trainee_live_sm is_trainee_previous_sm
    is_mentor_accessible_sm
archive_study_material_version-hides node now user v h = ground arith

discardable_filter-predicate :
    (node : ℕ) (v : StudyMaterialVersion)
    → discardable_filter node v ≡ (v.node_id == node && is_mentor_discardable_sm v)
unfolding discardable_filter is_mentor_discardable_sm
discardable_filter-predicate node v = ground arith

-- Clearing the drafts of a node discards exactly its versions that the Python predicate calls
-- discardable: it reports their number, leaves none behind, and the rows that are not discarded
-- afterwards are the others as they were.
pub discard_draft_versions-clears :
    (node : ℕ) (vs : List StudyMaterialVersion)
    → let (after, discarded_rows) = discard_draft_versions_for_node node vs in
      (discarded_rows ≡ count_if (λ v. v.node_id == node && is_mentor_discardable_sm v) vs)
      × (any (λ v. v.node_id == node && is_mentor_discardable_sm v) after ≡ false)
      × (keep (λ v. not (is_discarded_status v.lifecycle_status)) after
          ≡ keep
              (λ v.
                not (is_discarded_status v.lifecycle_status)
                && not (v.node_id == node && is_mentor_discardable_sm v))
              vs)
unfolding discard_draft_versions_for_node is_mentor_discardable_sm
discard_draft_versions-clears node [] = (refl, refl, refl)
discard_draft_versions-clears node (v ∷ vs) =
    ground (arith, discardable_filter-predicate node v, discard_draft_versions-clears node vs)

pub contains-archived_ids :
    (p : Quiz → Bool) (k : ℕ) (qs : List Quiz)
    → contains k (map (λ (q : Quiz). q.quiz_id) (keep p qs)) ≡ any (λ q. p q && k == q.quiz_id) qs
contains-archived_ids p k [] = refl
contains-archived_ids p k (q ∷ qs) = ground (arith, contains-archived_ids p k qs)

abbrev pub open_at : ℕ → QuizAttempt → Bool
open_at k a = k == a.quiz_id && is_open a.status

abandon-map :
    (id : ℕ) (ids : List ℕ) (now k : ℕ) (attempts : List QuizAttempt)
    → any (open_at k) (abandon_in_progress_attempts_for_quizzes (id ∷ ids) now attempts).0
      ≡ (not (contains k (id ∷ ids)) && any (open_at k) attempts)
unfolding abandon_in_progress_attempts_for_quizzes
abandon-map id ids now k [] = ground arith
abandon-map id ids now k (a ∷ attempts) = elim (Bool-cases (k == a.quiz_id)) [
  | inl same ↦ ground (
    arith,
    abandon-map id ids now k attempts,
    ap (λ j. contains j (id ∷ ids)) ((==_iff k a.quiz_id).0 same),
  )
  | inr other ↦ ground (arith, abandon-map id ids now k attempts)
]

pub abandon-open_at :
    (ids : List ℕ) (now k : ℕ) (attempts : List QuizAttempt)
    → any (open_at k) (abandon_in_progress_attempts_for_quizzes ids now attempts).0
      ≡ (not (contains k ids) && any (open_at k) attempts)
abandon-open_at [] now k attempts = unfold abandon_in_progress_attempts_for_quizzes in ground arith
abandon-open_at (id ∷ ids) now k attempts = abandon-map id ids now k attempts

-- Publishing a quiz closes the open attempts at exactly the quizzes that it replaces, and leaves
-- at most its own quiz published on the node.
pub publish_quiz-freezes :
    (quiz : Quiz) (now k : ℕ) (quizzes : List Quiz) (attempts : List QuizAttempt)
    → let (after, remaining) = publish_quiz quiz now quizzes attempts in
      (any (open_at k) remaining ≡ (
        not (any (λ q. is_other_quiz quiz.node_id quiz.quiz_id q && k == q.quiz_id) quizzes)
        && any (open_at k) attempts))
      × (any (is_other_quiz quiz.node_id quiz.quiz_id) after ≡ false)
unfolding publish_quiz
publish_quiz-freezes quiz now k quizzes attempts = (
  ground (
    arith,
    abandon-open_at
        (map (λ (q : Quiz). q.quiz_id) (keep (is_other_quiz quiz.node_id quiz.quiz_id) quizzes)) now
        k attempts,
    contains-archived_ids (is_other_quiz quiz.node_id quiz.quiz_id) k quizzes,
  ),
  rest quizzes,
)
  where
    rest :
        (qs : List Quiz)
        → any (is_other_quiz quiz.node_id quiz.quiz_id) (publish_quiz quiz now qs attempts).0
          ≡ false
    rest [] = refl
    rest (q ∷ qs) = ground (arith, rest qs)
