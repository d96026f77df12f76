-- ===== src/Progress/Service.antt =====
-- The writes of src/api/core/services/progress_services/trainee_progress_service.py. `limit` is the
-- interpreter's recursion limit. A call that raises leaves the tables as they were; the failure of the
-- recomputation of the counters, which is the database's, is not modelled.
use study_agent_service.Prelude.{
  ℕ, suc, ◌⊎◌, inl, inr, Bool, true, false, not, ◌&&◌, Option, none, some, List, [], ltb, ◌==◌,
  if◌then◌else◌, is_some, find_first,
}
use study_agent_service.Prelude.Result.{◌>>=◌, guard, present}
use study_agent_service.Guards.{
  ServiceException, Role, Spaces, assert_trainee, assert_space_access,
  get_node_and_assert_space_access, get_node_by_id, get_space_by_id, is_active_member,
  node_not_active, space_not_published, not_enrolled, material_not_published, prerequisite_locked,
  recursion_limit, read_percent_out_of_range, read_percent_regression,
}
use study_agent_service.Lifecycle.Model.{Quiz}
use study_agent_service.Progress.Completion.{
  Score, Components, compute_completion_status, is_completed, score_meets_pass_threshold,
}
use study_agent_service.Progress.Store.{ProgressRow, Db}
use study_agent_service.Progress.Unlocking.Granting.{
  Verdict, granted, locked, assert_trainee_node_unlocked, grant_unlocks_after_node_completed,
}
use study_agent_service.Progress.Writes.{
  components_of, get_by_trainee_and_node, best_score_of, mark_study_material_viewed,
  upsert_node_progress, store_quiz_attempt_submission,
}
use study_agent_service.Progress.Rollup.{
  node_has_published_study_material, recompute_after_node_update,
}

-- `TraineeQuizRepository.get_published_quiz_by_node`
unfoldable pub get_published_quiz_by_node : ℕ → Db → Option Quiz
get_published_quiz_by_node node db =
    find_first (λ q. q.node_id == node && q.is_published) db.quizzes

abbrev pub prior_best_of : Option ProgressRow → Option Score
prior_best_of none = none
prior_best_of (some r) = r.quiz_best_score

-- Without a row the prior status is "not_started".
abbrev pub was_completed : Option ProgressRow → Bool → Bool
was_completed none has_published_quiz = false
was_completed (some r) has_published_quiz =
    is_completed (compute_completion_status r.components has_published_quiz)

abbrev pub threshold_of : Option Quiz → Option ℕ
threshold_of none = none
threshold_of (some q) = q.pass_threshold_percent

-- The grants where the write has completed the unit, and the counters.
unfoldable pub grant_if_flipped : ℕ → ℕ → ℕ → ℕ → Bool → Db → ServiceException ⊎ (List ℕ × Db)
unfolding grant_unlocks_after_node_completed recompute_after_node_update
grant_if_flipped limit trainee node space flipped db = do
  (newly, db') ←
      if flipped
      then present (grant_unlocks_after_node_completed limit trainee node space db) recursion_limit
      else inr ([], db)
  inr (newly, recompute_after_node_update trainee space db')

-- The status that `record_quiz_attempt_submission` computes before the write.
unfoldable pub status_after_submission : Option ProgressRow → Score → Option Quiz → Components
unfolding best_score_of
status_after_submission existing score quiz =
    let c = components_of existing in
    record c {
      quiz_passed =
          if score_meets_pass_threshold (some (best_score_of (prior_best_of existing) score))
            (threshold_of quiz)
          then true
          else c.quiz_passed;
      quiz_attempt_count = suc c.quiz_attempt_count;
    }

unfoldable pub record_quiz_attempt_submission :
    ℕ → ℕ → ℕ → ℕ → Score → Db → ServiceException ⊎ (List ℕ × Db)
unfolding get_by_trainee_and_node get_published_quiz_by_node status_after_submission
    store_quiz_attempt_submission grant_if_flipped
record_quiz_attempt_submission limit trainee node space score db =
    let existing = get_by_trainee_and_node trainee node db in
    let quiz = get_published_quiz_by_node node db in
    let status =
      compute_completion_status (status_after_submission existing score quiz) (is_some quiz) in
    grant_if_flipped limit trainee node space
      (is_completed status && not (was_completed existing (is_some quiz)))
      (store_quiz_attempt_submission trainee node space score (threshold_of quiz) status db)

-- `TraineeProgressService.mark_study_material_viewed`
unfoldable pub view_study_material : ℕ → ℕ → Role → ℕ → Spaces → Db → ServiceException ⊎ Db
unfolding get_by_trainee_and_node get_published_quiz_by_node
view_study_material node user role now spaces db = do
  n ← get_node_and_assert_space_access node user false db.topic_nodes spaces
  _ ← assert_space_access n.space_id user role spaces
  let existing = get_by_trainee_and_node user node db
  inr (
      mark_study_material_viewed user node n.space_id
        (compute_completion_status (components_of existing)
          (is_some (get_published_quiz_by_node node db)))
        now db)

-- NodePrerequisiteLockedException, or the tables after a lazy grant.
unfoldable pub unlocked : Option (Verdict × Db) → ServiceException ⊎ Db
unlocked none = inl recursion_limit
unlocked (some (granted _, db)) = inr db
unlocked (some (locked _ _ _, db)) = inl prerequisite_locked

abbrev pub regresses : Option ProgressRow → ℕ → Bool
regresses none percent = false
regresses (some r) percent = ltb percent r.components.study_material_read_percent

-- The part of `update_study_material_progress` behind the guards of the node, the space and the
-- trainee; a request below 0 is no number here.
unfoldable pub store_reading : ℕ → ℕ → ℕ → ℕ → ℕ → ℕ → Db → ServiceException ⊎ (List ℕ × Db)
unfolding get_by_trainee_and_node get_published_quiz_by_node upsert_node_progress grant_if_flipped
store_reading limit node space percent user now db = do
  _ ← guard (not (ltb 100 percent)) read_percent_out_of_range
  let prior = get_by_trainee_and_node user node db
  _ ← guard (not (regresses prior percent)) read_percent_regression
  let has_quiz = is_some (get_published_quiz_by_node node db)
  let db' = upsert_node_progress user node space percent (percent == 100) has_quiz now db
  let after = components_of (get_by_trainee_and_node user node db')
  grant_if_flipped limit user node space
      (is_completed (compute_completion_status after has_quiz)
        && not (was_completed prior has_quiz))
      db'

unfoldable pub update_study_material_progress :
    ℕ → ℕ → ℕ → ℕ → Role → ℕ → Spaces → Db → ServiceException ⊎ (List ℕ × Db)
unfolding get_node_by_id get_space_by_id is_active_member node_has_published_study_material unlocked
    store_reading
update_study_material_progress limit node percent user role now spaces db = do
  _ ← assert_trainee role
  n ← present (get_node_by_id node db.topic_nodes) node_not_active
  _ ← guard n.is_active node_not_active
  s ← present (get_space_by_id n.space_id spaces) space_not_published
  _ ← guard (s.is_published && s.is_active) space_not_published
  _ ← guard (is_active_member n.space_id user spaces) not_enrolled
  _ ← guard (node_has_published_study_material node db) material_not_published
  db' ← unlocked (assert_trainee_node_unlocked limit user node n.space_id db)
  store_reading limit node n.space_id percent user now db'
