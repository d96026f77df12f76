-- ===== src/Attempt/Views.antt =====
-- What a trainee sees of an attempt: `_build_question_out`, `_build_trainee_quiz_out`,
-- `_get_quiz_for_attempt` and `get_attempt` of
-- src/api/core/services/trainee_quiz_services/trainee_quiz_service.py. Titles and texts that are
-- passed through are left out.
use Prim.Native.String.{String}
use study_agent_service.Prelude.{
  ℕ, ◌⊎◌, inl, inr, Bool, true, false, ◌&&◌, ◌||◌, Option, none, some, List, [], ◌∷◌, map, ◌==◌,
  if◌then◌else◌, is_some, any, keep, find_first,
}
use study_agent_service.Prelude.Result.{◌>>=◌, guard, present, Done, done}
use study_agent_service.Prelude.Dict.{Dict, lookup, nat_eq}
use study_agent_service.Guards.{
  ServiceException, attempt_not_found, attempt_abandoned, quiz_not_found,
}
use study_agent_service.Lifecycle.Model.{
  Quiz, QuizAttempt, AttemptStatus, submitted, in_progress, abandoned, is_hidden,
  is_archived_status, is_active_status, is_open,
}
use study_agent_service.Progress.Completion.{Score, score_meets_pass_threshold}
use study_agent_service.Progress.Writes.{max_score}
use study_agent_service.Progress.Rollup.{round_percent}
use study_agent_service.Attempt.{
  QuizQuestion, QuizQuestionResponse, QuestionNavStatus, is_question_skipped_at_submit,
  compute_nav_status, can_answer_question, can_skip_question, compute_resume_question_id,
}
use study_agent_service.Attempt.Tables.{
  Tables, get_attempt_by_id, get_all_questions_by_quiz, get_responses_map, is_attempt_of,
}
use study_agent_service.Attempt.Answers.{assert_trainee_owns_attempt, hint_at}
use study_agent_service.Attempt.Submission.{QuizDb}

abbrev pub is_submitted : AttemptStatus → Bool
is_submitted submitted = true
is_submitted _ = false

-- `TraineeQuizQuestionOut`
pub record QuestionOut : Type 0 where
  pub question_id : ℕ
  pub is_active : Bool
  pub hint_1 : Option String
  pub hint_2 : Option String
  pub hint_3 : Option String
  pub hint_level_reached : ℕ
  pub was_skipped : Bool
  pub is_flagged : Bool
  pub was_locked : Bool
  pub selected_option : Option ℕ
  pub is_correct : Option Bool
  pub correct_option : Option ℕ
  pub explanation : Option String
  pub nav_status : QuestionNavStatus
  pub can_answer : Bool
  pub can_skip : Bool

-- `response.column if response is not None else default`
abbrev from_response :
    {A : Type 0} → (QuizQuestionResponse → A) → A → Option QuizQuestionResponse → A
from_response column default none = default
from_response column default (some r) = column r

unfoldable pub build_question_out :
    QuizQuestion → Option QuizQuestionResponse → Bool → Bool → QuestionOut
unfolding is_question_skipped_at_submit compute_nav_status can_answer_question can_skip_question
    hint_at
build_question_out q response attempt_submitted reveal_answers =
    let level = from_response (λ r. r.hint_level_reached) 0 response in
    let was_locked = from_response (λ r. r.was_locked) false response in
    let skipped_at_submit = is_question_skipped_at_submit q response in
    record {
      question_id = q.question_id;
      is_active = q.is_active;
      hint_1 = hint_at 1 level q.hint_1;
      hint_2 = hint_at 2 level q.hint_2;
      hint_3 = hint_at 3 level q.hint_3;
      hint_level_reached = level;
      was_skipped = if attempt_submitted then skipped_at_submit else false;
      is_flagged = from_response (λ r. r.is_flagged) false response;
      was_locked = was_locked;
      selected_option = from_response (λ r. r.selected_option) none response;
      is_correct = from_response (λ r. r.is_correct) none response;
      correct_option = if reveal_answers then some q.correct_option else none;
      explanation = if reveal_answers then q.explanation else none;
      nav_status = compute_nav_status response attempt_submitted skipped_at_submit;
      can_answer = can_answer_question q.is_active attempt_submitted was_locked;
      can_skip = can_skip_question q.is_active attempt_submitted was_locked;
    }

-- `TraineeQuizOut`
pub record QuizOut : Type 0 where
  pub quiz_id : ℕ
  pub attempt_id : ℕ
  pub attempt_status : AttemptStatus
  pub resume_question_id : Option ℕ
  pub score_percent : Option ℕ
  pub best_score_percent : Option ℕ
  pub has_met_pass_threshold : Bool
  pub total_correct : Option ℕ
  pub total_skipped : Option ℕ
  pub questions : List QuestionOut

-- `_score_percent`
unfoldable pub score_percent_of : Option Score → Option ℕ
unfolding round_percent
score_percent_of none = none
score_percent_of (some s) = some (round_percent s.correct s.total)

-- `attempt.resume_question_id in active_question_ids`
abbrev pub is_active_id : List QuizQuestion → Option ℕ → Bool
is_active_id questions none = false
is_active_id questions (some id) = any (λ q. q.is_active && q.question_id == id) questions

unfoldable pub resume_position :
    QuizAttempt → List QuizQuestion → Dict ℕ QuizQuestionResponse → Option ℕ
resume_position a questions responses =
    if is_open a.status
    then (if is_active_id questions a.resume_question_id
        then a.resume_question_id
        else compute_resume_question_id questions responses)
    else none

unfoldable pub build_trainee_quiz_out :
    Quiz → QuizAttempt → List QuizQuestion → Dict ℕ QuizQuestionResponse → Option Score → QuizOut
unfolding build_question_out resume_position score_percent_of
build_trainee_quiz_out quiz a questions responses best =
    let attempt_submitted = is_submitted a.status in
    let effective = if is_some best then best else a.score in
    let met = score_meets_pass_threshold effective quiz.pass_threshold_percent in
    record {
      quiz_id = quiz.quiz_id;
      attempt_id = a.attempt_id;
      attempt_status = a.status;
      resume_question_id = resume_position a questions responses;
      score_percent = score_percent_of a.score;
      best_score_percent = score_percent_of effective;
      has_met_pass_threshold = met;
      total_correct = if attempt_submitted then a.total_correct else none;
      total_skipped = if attempt_submitted then a.total_skipped else none;
      questions =
          map
            (λ q.
              build_question_out q (lookup q.question_id responses) attempt_submitted
                (attempt_submitted && met))
            questions;
    }

abbrev pub larger : Option Score → Option Score → Option Score
unfolding max_score
larger none b = b
larger (some a) none = some a
larger (some a) (some b) = some (max_score a b)

-- SQL's MAX over a nullable column.
abbrev pub max_of : List QuizAttempt → Option Score
max_of [] = none
max_of (a ∷ rest) = larger a.score (max_of rest)

unfoldable pub get_best_submitted_score : ℕ → ℕ → Tables → Option Score
get_best_submitted_score quiz trainee t =
    max_of (keep (λ a. is_attempt_of quiz trainee a && is_submitted a.status) t.attempts)

-- `TraineeQuizRepository.get_quiz_by_id`
unfoldable pub get_quiz_by_id : ℕ → List Quiz → Option Quiz
get_quiz_by_id id quizzes = find_first (λ q. q.quiz_id == id) quizzes

-- Whether a trainee with or without attempts on a quiz may see it.
unfoldable pub may_see_quiz : Quiz → Bool → Bool
may_see_quiz quiz attempted =
    (quiz.is_published && is_active_status quiz.lifecycle_status)
    || ((is_hidden quiz.lifecycle_status || is_archived_status quiz.lifecycle_status) && attempted)

-- `_get_quiz_for_attempt`
unfoldable pub get_quiz_for_attempt : QuizAttempt → QuizDb → ServiceException ⊎ Quiz
unfolding get_quiz_by_id may_see_quiz
get_quiz_for_attempt a db = do
  quiz ← present (get_quiz_by_id a.quiz_id db.study.quizzes) quiz_not_found
  _ ←
      guard (may_see_quiz quiz (any (is_attempt_of quiz.quiz_id a.trainee_id) db.tables.attempts))
        quiz_not_found
  inr quiz

-- The status test of `get_attempt`.
abbrev pub refuse_abandoned : AttemptStatus → ServiceException ⊎ Done
refuse_abandoned abandoned = inl attempt_abandoned
refuse_abandoned in_progress = inr done
refuse_abandoned submitted = inr done

unfoldable pub get_attempt : ℕ → ℕ → QuizDb → ServiceException ⊎ QuizOut
unfolding get_attempt_by_id assert_trainee_owns_attempt get_quiz_for_attempt
    get_all_questions_by_quiz get_responses_map build_trainee_quiz_out get_best_submitted_score
get_attempt id user db = do
  a ← present (get_attempt_by_id id db.tables) attempt_not_found
  _ ← assert_trainee_owns_attempt a.trainee_id user
  _ ← refuse_abandoned a.status
  quiz ← get_quiz_for_attempt a db
  inr (
      build_trainee_quiz_out quiz a (get_all_questions_by_quiz a.quiz_id db.tables)
        (get_responses_map id db.tables)
        (get_best_submitted_score a.quiz_id a.trainee_id db.tables))
