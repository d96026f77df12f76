-- ===== src/Progress/Submitted.antt =====
-- The row of a trainee and a node after a submission and after a reading.
use study_agent_service.Prelude.{
  ℕ, suc, ◌≤◌, ◌≡◌, refl, sym, ap, ◌∙◌, subst, inl, inr, Bool, true, false, not, ◌&&◌, ◌||◌, Option,
  none, some, List, arith, ltb, ◌==◌, ==_iff, Bool-cases, is_some, or_else, find_first,
}
use study_agent_service.Prelude.{find_first-is_some}
use mathlib.Core.Option.{some_inj}
use study_agent_service.Prelude.Result.{bind-ok, guard-ok, guard}
use study_agent_service.Guards.{read_percent_out_of_range, read_percent_regression}
use study_agent_service.Lifecycle.Model.{Quiz}
use study_agent_service.Progress.Completion.{
  Score, Status, compute_completion_status, is_completed, score_meets_pass_threshold,
}
use study_agent_service.Progress.Store.{ProgressRow, Db}
use study_agent_service.Progress.Writes.{
  is_row_for, new_row, change_row, get_by_trainee_and_node, components_of, scored_row,
  best_score_of, max_score, score_below, read_row, first_read_row, upsert_node_progress,
  store_quiz_attempt_submission,
}
use study_agent_service.Progress.Service.{
  get_published_quiz_by_node, record_quiz_attempt_submission, status_after_submission,
  store_reading, regresses, threshold_of, prior_best_of, was_completed,
}
use study_agent_service.Progress.Written.{
  grant_if_flipped-progress, change_row-found, found_changed, found_append,
}

score_below_irrefl : (a : Score) → score_below a a ≡ false
score_below_irrefl a = ground arith

max_score-above :
    (a b : Score)
    → (score_below (max_score a b) a ≡ false) × (score_below (max_score a b) b ≡ false)
unfolding max_score
max_score-above a b = elim (Bool-cases (score_below a b)) [
  | inl below ↦ ground arith
  | inr above ↦ ground (arith, score_below_irrefl a)
]

best_score_of-above :
    (prior : Option Score) (score : Score)
    → (score_below (best_score_of prior score) score ≡ false)
      × ((p : Score) → prior ≡ some p → score_below (best_score_of prior score) p ≡ false)
unfolding best_score_of
best_score_of-above none score = (score_below_irrefl score, λ p e. absurd (ground arith))
best_score_of-above (some a) score = (
  (max_score-above a score).1,
  λ p e.
      subst (λ x. score_below (max_score a score) x ≡ false) (some_inj.0 e)
        (max_score-above a score).0,
)

-- The two places that work out the outcome of a submission, the service and the repository, agree.
submission_agrees :
    (existing : Option ProgressRow) (trainee node space : ℕ) (score : Score) (quiz : Option Quiz)
    (status : Status)
    → (scored_row score
        (threshold_of quiz)
        status
        (or_else existing (new_row trainee node space))).components
      ≡ status_after_submission existing score quiz
unfolding status_after_submission best_score_of
submission_agrees none trainee node space score quiz status = ground arith
submission_agrees (some r) trainee node space score quiz status = ground arith

-- The row after a submission.
pub record IsScored (before : Option ProgressRow) (score : Score) (quiz : Option Quiz)
    (row : ProgressRow) : Type 0 where
  pub status_current :
      row.completion_status ≡ compute_completion_status row.components (is_some quiz)
  pub counted : row.components.quiz_attempt_count ≡ suc (components_of before).quiz_attempt_count
  pub still_passed : (components_of before).quiz_passed ≡ true → row.components.quiz_passed ≡ true
  pub reading_kept :
      (row.components.study_material_completed ≡ (components_of before).study_material_completed)
      × (row.components.study_material_read_percent
          ≡ (components_of before).study_material_read_percent)
  pub best : Score
  pub best_stored : row.quiz_best_score ≡ some best
  pub best_of_all :
      (score_below best score ≡ false)
      × ((prior : Score) → prior_best_of before ≡ some prior → score_below best prior ≡ false)
  pub passed_by_best :
      score_meets_pass_threshold (some best) (threshold_of quiz) ≡ true
      → row.components.quiz_passed ≡ true

scored_row-IsScored :
    (before : Option ProgressRow) (trainee node space : ℕ) (score : Score) (quiz : Option Quiz)
    → IsScored before score quiz (
        scored_row score
          (threshold_of quiz)
          (compute_completion_status (status_after_submission before score quiz) (is_some quiz))
          (or_else before (new_row trainee node space)))
unfolding best_score_of
scored_row-IsScored before trainee node space score quiz = record {
  status_current =
      ap (λ c. compute_completion_status c (is_some quiz))
        (sym (
          submission_agrees before trainee node space score quiz (
            compute_completion_status (status_after_submission before score quiz) (is_some quiz))));
  counted = ground arith;
  still_passed = λ h. ground arith;
  reading_kept = ground arith;
  best = best_score_of (prior_best_of before) score;
  best_stored = ground arith;
  best_of_all = best_score_of-above (prior_best_of before) score;
  passed_by_best = λ h. ground arith;
}

get_by-progress :
    (trainee node : ℕ) (db db' : Db)
    → db'.progress ≡ db.progress
    → get_by_trainee_and_node trainee node db' ≡ get_by_trainee_and_node trainee node db
unfolding get_by_trainee_and_node
get_by-progress trainee node db db' h = ap (find_first (is_row_for trainee node)) h

-- A submission that is recorded leaves a row for the trainee and the node, whose status is the one that
-- the live derivation gives for its columns; it counts one attempt more, keeps the reading, never
-- takes back a pass, stores a best score below neither the new nor the prior one, and passes if that
-- best score meets the threshold of the published quiz.
pub record_submission-IsScored :
    (limit trainee node space : ℕ) (score : Score) (db : Db) (out : List ℕ × Db)
    → record_quiz_attempt_submission limit trainee node space score db ≡ inr out
    → (row : ProgressRow) × (get_by_trainee_and_node trainee node out.1 ≡ some row)
      × IsScored
          (get_by_trainee_and_node trainee node db)
          score
          (get_published_quiz_by_node node db)
          row
unfolding record_quiz_attempt_submission store_quiz_attempt_submission
record_submission-IsScored limit trainee node space score db out h =
    let before = get_by_trainee_and_node trainee node db in
    let quiz = get_published_quiz_by_node node db in
    let status =
      compute_completion_status (status_after_submission before score quiz) (is_some quiz) in
    let change = scored_row score (threshold_of quiz) status in
    let stored = change_row trainee node space change db in
    (
      change (or_else before (new_row trainee node space)),
      get_by-progress trainee node stored out.1 (
            grant_if_flipped-progress limit trainee node space
              (is_completed status && not (was_completed before (is_some quiz))) stored {out = out}
              h)
          ∙ change_row-found trainee node space change db (λ r. (refl, refl)),
      scored_row-IsScored before trainee node space score quiz,
    )

-- The row after a reading.
pub record IsRead (before : Option ProgressRow) (percent : ℕ) (has_quiz : Bool) (row : ProgressRow)
    : Type 0 where
  pub read_stored : row.components.study_material_read_percent ≡ percent
  pub in_range : (components_of before).study_material_read_percent ≤ percent × percent ≤ 100
  pub completed_by :
      row.components.study_material_completed
      ≡ ((components_of before).study_material_completed || percent == 100)
  pub quiz_kept :
      (row.components.quiz_passed ≡ (components_of before).quiz_passed)
      × (row.components.quiz_attempt_count ≡ (components_of before).quiz_attempt_count)
      × (row.quiz_best_score ≡ prior_best_of before)
  pub status_current : row.completion_status ≡ compute_completion_status row.components has_quiz

upsert-found :
    (trainee node space percent : ℕ) (completed has_quiz : Bool) (now : ℕ) (db : Db)
    → get_by_trainee_and_node trainee node
        (upsert_node_progress trainee node space percent completed has_quiz now db)
      ≡ some (elim (get_by_trainee_and_node trainee node db) [
        | none ↦ first_read_row trainee node space percent completed has_quiz now
        | some r ↦ read_row percent completed has_quiz now r
      ])
unfolding upsert_node_progress get_by_trainee_and_node
upsert-found trainee node space percent completed has_quiz now db = ground (
  arith,
  find_first-is_some (is_row_for trainee node) db.progress,
  found_changed trainee node (read_row percent completed has_quiz now) db.progress
      (λ r. (refl, refl)),
  found_append (is_row_for trainee node) db.progress
      (first_read_row trainee node space percent completed has_quiz now),
  (==_iff trainee trainee).1 refl,
  (==_iff node node).1 refl,
)

read_row-IsRead :
    (before : Option ProgressRow) (trainee node space percent now : ℕ) (has_quiz : Bool)
    → ltb 100 percent ≡ false
    → regresses before percent ≡ false
    → IsRead before percent has_quiz (elim before [
      | none ↦ first_read_row trainee node space percent (percent == 100) has_quiz now
      | some r ↦ read_row percent (percent == 100) has_quiz now r
    ])
read_row-IsRead none trainee node space percent now has_quiz high back = ground arith
read_row-IsRead (some r) trainee node space percent now has_quiz high back = ground arith

-- A reading that is stored leaves a row with the percentage that was sent, which is at most 100 and not
-- below the prior one; the material is completed if it was or if all is read; the quiz columns are
-- kept, and the status is the one of the live derivation.
pub store_reading-IsRead :
    (limit node space percent user now : ℕ) (db : Db) (out : List ℕ × Db)
    → store_reading limit node space percent user now db ≡ inr out
    → (row : ProgressRow) × (get_by_trainee_and_node user node out.1 ≡ some row)
      × IsRead
          (get_by_trainee_and_node user node db)
          percent
          (is_some (get_published_quiz_by_node node db))
          row
unfolding store_reading
store_reading-IsRead limit node space percent user now db out h =
    let before = get_by_trainee_and_node user node db in
    let has_quiz = is_some (get_published_quiz_by_node node db) in
    let (_, eh, h1) = bind-ok (guard (not (ltb 100 percent)) read_percent_out_of_range) _ h in
    let (_, eb, h2) =
      bind-ok (guard (not (regresses before percent)) read_percent_regression) _ h1 in
    let db' = upsert_node_progress user node space percent (percent == 100) has_quiz now db in
    let flipped =
      is_completed
        (compute_completion_status (components_of (get_by_trainee_and_node user node db')) has_quiz)
      && not (was_completed before has_quiz) in
    (
      elim before [
        | none ↦ first_read_row user node space percent (percent == 100) has_quiz now
        | some r ↦ read_row percent (percent == 100) has_quiz now r
      ],
      get_by-progress user node db' out.1
            (grant_if_flipped-progress limit user node space flipped db' {out = out} h2)
          ∙ upsert-found user node space percent (percent == 100) has_quiz now db,
      read_row-IsRead before user node space percent now has_quiz (ground (arith, guard-ok _ _ eh))
          (ground (arith, guard-ok _ _ eb)),
    )
