-- ===== src/Attempt/Submission.antt =====
-- The end of an attempt: `submit_attempt` and `_finalize_skipped_responses` of
-- src/api/core/services/trainee_quiz_services/trainee_quiz_service.py. The score is the fraction that
-- the source divides out.
use study_agent_service.Prelude.{
  ℕ, ◌⊎◌, inr, Bool, true, false, not, ◌&&◌, Option, none, some, List, [], ◌∷◌, ltb, if◌then◌else◌,
  length, count_if,
}
use study_agent_service.Prelude.Result.{◌>>=◌, present}
use study_agent_service.Prelude.Dict.{Dict, lookup, nat_eq}
use study_agent_service.Guards.{ServiceException, Spaces, attempt_not_found}
use study_agent_service.Lifecycle.Model.{QuizAttempt}
use study_agent_service.Progress.Completion.{Score}
use study_agent_service.Progress.Store.{Db}
use study_agent_service.Progress.Service.{record_quiz_attempt_submission}
use study_agent_service.Attempt.{
  QuizQuestion, QuizQuestionResponse, is_question_skipped_at_submit, count_skipped_at_submit,
}
use study_agent_service.Attempt.Tables.{
  Tables, get_attempt_by_id, get_active_questions_by_quiz, get_all_responses_for_attempt,
  by_question, upsert_response, submit_row,
}
use study_agent_service.Attempt.Answers.{assert_trainee_owns_attempt, assert_running}

-- All the tables that the attempt handlers touch.
pub record QuizDb : Type 0 where
  pub study : Db
  pub spaces : Spaces
  pub tables : Tables

abbrev pub same : Bool → Bool → Bool
same true b = b
same false b = not b

-- One round of the loop.
unfoldable pub finalize_one : ℕ → QuizQuestion → Option QuizQuestionResponse → Tables → Tables
unfolding is_question_skipped_at_submit upsert_response
finalize_one attempt q none t =
    if not (is_question_skipped_at_submit q none)
    then t
    else (upsert_response attempt q.question_id none none 0 true false t).1
finalize_one attempt q (some r) t =
    let skipped = is_question_skipped_at_submit q (some r) in
    if same r.was_skipped skipped
    then t
    else (upsert_response attempt q.question_id r.selected_option r.is_correct r.hint_level_reached
        skipped r.was_locked t).1

-- The map is the one that was read before the loop.
unfoldable pub finalize_skipped_responses :
    ℕ → List QuizQuestion → Dict ℕ QuizQuestionResponse → Tables → Tables
unfolding finalize_one
finalize_skipped_responses attempt [] responses t = t
finalize_skipped_responses attempt (q ∷ qs) responses t =
    finalize_skipped_responses attempt qs responses
      (finalize_one attempt q (lookup q.question_id responses) t)

abbrev pub is_right : QuizQuestionResponse → Bool
is_right r = elim r.is_correct [ none ↦ false | some b ↦ b ]

-- The four numbers that a submission writes.
pub record Totals : Type 0 where
  pub score : Score
  pub total_correct : ℕ
  pub total_with_hints : ℕ
  pub total_skipped : ℕ

-- `total_correct / total_questions if total_questions > 0 else 0.0`
unfoldable pub score_of : ℕ → ℕ → Score
score_of correct total =
    if ltb 0 total
    then record { correct = correct; total = total }
    else record { correct = 0; total = 1 }

-- The tables behind the loop, and the totals over them.
unfoldable pub finalized : QuizAttempt → Tables → Tables
unfolding finalize_skipped_responses by_question get_all_responses_for_attempt
    get_active_questions_by_quiz
finalized a t =
    finalize_skipped_responses a.attempt_id (get_active_questions_by_quiz a.quiz_id t)
      (by_question (get_all_responses_for_attempt a.attempt_id t) []) t

unfoldable pub totals_of : QuizAttempt → List QuizQuestion → Tables → Totals
unfolding score_of get_all_responses_for_attempt by_question count_skipped_at_submit
totals_of a questions t =
    let responses = get_all_responses_for_attempt a.attempt_id t in
    let correct = count_if is_right responses in
    record {
      score = score_of correct (length questions);
      total_correct = correct;
      total_with_hints = count_if (λ r. is_right r && ltb 0 r.hint_level_reached) responses;
      total_skipped = count_skipped_at_submit questions (by_question responses []);
    }

-- What the submission does to the attempts and the responses.
unfoldable pub close_attempt : QuizAttempt → ℕ → Tables → Totals × Tables
unfolding finalized totals_of submit_row get_active_questions_by_quiz
close_attempt a now t =
    let t' = finalized a t in
    let totals = totals_of a (get_active_questions_by_quiz a.quiz_id t) t' in
    (
      totals,
      submit_row a.attempt_id totals.score totals.total_correct totals.total_with_hints
          totals.total_skipped now t',
    )

-- The ids that were newly unlocked, and all tables.
unfoldable pub submit_attempt : ℕ → ℕ → ℕ → ℕ → QuizDb → ServiceException ⊎ (List ℕ × QuizDb)
unfolding get_attempt_by_id assert_trainee_owns_attempt assert_running close_attempt
submit_attempt limit id user now db = do
  a ← present (get_attempt_by_id id db.tables) attempt_not_found
  _ ← assert_trainee_owns_attempt a.trainee_id user
  _ ← assert_running a.status
  let (totals, t') = close_attempt a now db.tables
  (newly, study') ←
      record_quiz_attempt_submission limit a.trainee_id a.node_id a.space_id totals.score db.study
  inr (newly, record db { study = study'; tables = t' })
