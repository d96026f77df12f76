-- ===== src/Progress/Resets/Agreement.antt =====
-- The status that a reset stores beside the status that completion.py computes.
use study_agent_service.Prelude.{ℕ, ◌≡◌, ◌↔◌, Bool, true, false, not, ◌&&◌, some, arith, ltb, ◌==◌}
use study_agent_service.Progress.Completion.{
  Status, score_meets_pass_threshold, compute_completion_status, in_progress, not_started,
  completed,
}
use study_agent_service.Progress.Store.{ProgressRow}
use study_agent_service.Progress.Resets.{
  completion_after_read_reset, completion_after_quiz_passed_reset, completion_after_threshold,
  reset_read, reset_quiz_passed, rescore, after_unpublish,
}

abbrev pub same_status : Status → Status → Bool
same_status not_started not_started = true
same_status in_progress in_progress = true
same_status completed completed = true
same_status _ _ = false

-- The stored status is the one that the live derivation gives.
abbrev pub is_current : Bool → ProgressRow → Bool
unfolding compute_completion_status
is_current has_quiz r =
    same_status r.completion_status (compute_completion_status r.components has_quiz)

-- A read reset leaves the read fields cleared and a stored status that agrees with the live
-- derivation, whether or not the node has a published quiz; the quiz fields stay.
pub reset_read_agrees :
    (has_quiz : Bool) (r : ProgressRow)
    → (is_current has_quiz (reset_read r) ≡ true)
      × ((reset_read r).components.quiz_passed ≡ r.components.quiz_passed)
      × ((reset_read r).quiz_best_score ≡ r.quiz_best_score)
unfolding compute_completion_status completion_after_read_reset
reset_read_agrees has_quiz r = ground arith

-- With a published quiz, clearing `quiz_passed` stores the live status except on a row that is
-- marked as read with a read percentage of 0 and no attempt.
pub reset_quiz_passed_agrees :
    (r : ProgressRow)
    → let c = r.components in
      (is_current true (reset_quiz_passed true r) ≡ true) ↔ (
        (c.study_material_completed
          && ((c.study_material_read_percent == 0) && (c.quiz_attempt_count == 0)))
        ≡ false)
unfolding compute_completion_status completion_after_quiz_passed_reset
reset_quiz_passed_agrees r = ground arith

-- After a quiz is unpublished the stored status is the live one except on an unread row with an
-- earlier attempt, for which the live derivation says in_progress and the stored one not_started.
pub after_unpublish_agrees :
    (r : ProgressRow)
    → let c = r.components in
      (is_current false (after_unpublish r) ≡ true) ↔ (
        (not c.study_material_completed
          && ((c.study_material_read_percent == 0) && ltb 0 c.quiz_attempt_count))
        ≡ false)
unfolding compute_completion_status completion_after_quiz_passed_reset
after_unpublish_agrees r = ground arith

-- After a threshold change a row has passed exactly when its best score meets the new threshold;
-- the stored status says completed exactly when the live derivation does.
pub rescore_agrees :
    (threshold : ℕ) (r : ProgressRow)
    → let r' = rescore threshold r in
      (r'.components.quiz_passed ≡ score_meets_pass_threshold r.quiz_best_score (some threshold))
      × (same_status r'.completion_status completed
          ≡ same_status (compute_completion_status r'.components true) completed)
unfolding compute_completion_status completion_after_threshold
rescore_agrees threshold r = ground arith
