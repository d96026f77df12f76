-- ===== src/Attempt/Answers.antt =====
-- The answers and the navigation of a running attempt: `patch_attempt_state` and `submit_response` of
-- src/api/core/services/trainee_quiz_services/trainee_quiz_service.py. A handler that raises leaves
-- the tables as they were: its session is rolled back.
use Prim.Native.String.{String}
use study_agent_service.Prelude.{
  ℕ, suc, ◌⊎◌, inl, inr, Bool, true, false, not, ◌&&◌, ◌||◌, Option, none, some, List, [], ◌∷◌, ltb,
  leb, ◌==◌, if◌then◌else◌,
}
use study_agent_service.Prelude.Result.{◌>>=◌, guard, present, forget, Done, done}
use study_agent_service.Prelude.Dict.{nat_eq}
use study_agent_service.Guards.{
  ServiceException, Role, Spaces, assert_trainee, assert_space_access, attempt_forbidden,
  attempt_not_found, attempt_already_submitted, attempt_abandoned, question_of_another_attempt,
  question_already_locked, invalid_skip_payload,
}
use study_agent_service.Lifecycle.Model.{
  QuizAttempt, AttemptStatus, in_progress, submitted, abandoned,
}
use study_agent_service.Attempt.{
  QuizQuestion, QuizQuestionResponse, compute_resume_question_id, active_questions,
}
use study_agent_service.Attempt.Tables.{
  Tables, get_attempt_by_id, get_question_by_id, get_active_questions_by_quiz, get_response,
  get_responses_map, upsert_response, patch_navigation_state,
}

-- `_assert_trainee_owns_attempt`
unfoldable pub assert_trainee_owns_attempt : ℕ → ℕ → ServiceException ⊎ Done
assert_trainee_owns_attempt owner user = guard (owner == user) attempt_forbidden

-- The two tests of the status that every write begins with.
unfoldable pub assert_running : AttemptStatus → ServiceException ⊎ Done
assert_running in_progress = inr done
assert_running submitted = inl attempt_already_submitted
assert_running abandoned = inl attempt_abandoned

-- A question of the attempt's quiz; the flag says whether it must be active.
unfoldable pub question_in : ℕ → Bool → ℕ → Tables → ServiceException ⊎ QuizQuestion
unfolding get_question_by_id
question_in quiz active_only id t = do
  q ← present (get_question_by_id id t) question_of_another_attempt
  _ ← guard (q.quiz_id == quiz && (not active_only || q.is_active)) question_of_another_attempt
  inr q

unfoldable pub resume_in : ℕ → Option ℕ → Tables → ServiceException ⊎ Done
unfolding question_in
resume_in quiz none t = inr done
resume_in quiz (some id) t = forget (question_in quiz true id t)

-- `QuizAttemptStatePatch`
pub record StatePatch : Type 0 where
  pub question_id : ℕ
  pub is_visited : Option Bool
  pub is_flagged : Option Bool
  pub was_skipped : Option Bool
  pub resume_question_id : Option ℕ

unfoldable pub patch_attempt_state :
    ℕ → StatePatch → ℕ → Role → Spaces → Tables → ServiceException ⊎ (QuizQuestionResponse × Tables)
unfolding get_attempt_by_id assert_trainee_owns_attempt assert_running question_in resume_in
    patch_navigation_state
patch_attempt_state id request user role spaces t = do
  _ ← assert_trainee role
  a ← present (get_attempt_by_id id t) attempt_not_found
  _ ← assert_trainee_owns_attempt a.trainee_id user
  _ ← assert_space_access a.space_id user role spaces
  _ ← assert_running a.status
  q ← question_in a.quiz_id true request.question_id t
  _ ← resume_in a.quiz_id request.resume_question_id t
  inr (
      patch_navigation_state a.attempt_id q.question_id request.is_visited request.is_flagged
        request.was_skipped request.resume_question_id t)

-- `QuizQuestionResponseOut`
pub record AnswerOut : Type 0 where
  pub question_id : ℕ
  pub selected_option : Option ℕ
  pub is_correct : Option Bool
  pub hint_level_reached : ℕ
  pub was_skipped : Bool
  pub was_locked : Bool
  pub hint_1 : Option String
  pub hint_2 : Option String
  pub hint_3 : Option String
  pub next_question_id : Option ℕ
  pub resume_question_id : Option ℕ

-- `hint if hint_level >= n else None`
unfoldable pub hint_at : ℕ → ℕ → Option String → Option String
hint_at n level hint = if leb n level then hint else none

abbrev first_id : List QuizQuestion → Option ℕ
first_id [] = none
first_id (q ∷ _) = some q.question_id

-- The question behind the first one with the id.
unfoldable pub next_after : ℕ → List QuizQuestion → Option ℕ
next_after id [] = none
next_after id (q ∷ qs) =
    let rest = next_after id qs in if q.question_id == id then first_id qs else rest

-- `min(hint_level + 1, 3)` after a wrong answer.
unfoldable pub next_hint_level : Bool → ℕ → ℕ
next_hint_level correct level =
    if correct then level else (if ltb (suc level) 3 then suc level else 3)

abbrev pub level_of : Option QuizQuestionResponse → ℕ
level_of none = 0
level_of (some r) = r.hint_level_reached

abbrev pub is_locked_response : Option QuizQuestionResponse → Bool
is_locked_response none = false
is_locked_response (some r) = r.was_locked

-- `submit_response` behind its guards.
unfoldable pub record_answer :
    QuizAttempt → QuizQuestion → ℕ → Option QuizQuestionResponse → Tables → AnswerOut × Tables
unfolding upsert_response hint_at next_after next_hint_level get_active_questions_by_quiz
    get_responses_map
record_answer a q selected existing t =
    let correct = selected == q.correct_option in
    let level = next_hint_level correct (level_of existing) in
    let (row, t') =
      upsert_response a.attempt_id q.question_id (some selected) (some correct) level false correct
        t in
    let questions = get_active_questions_by_quiz a.quiz_id t' in
    let resume = compute_resume_question_id questions (get_responses_map a.attempt_id t') in
    (
      record {
        question_id = q.question_id;
        selected_option = row.selected_option;
        is_correct = row.is_correct;
        hint_level_reached = level;
        was_skipped = row.was_skipped;
        was_locked = row.was_locked;
        hint_1 = hint_at 1 level q.hint_1;
        hint_2 = hint_at 2 level q.hint_2;
        hint_3 = hint_at 3 level q.hint_3;
        next_question_id =
            if correct then next_after q.question_id (active_questions questions) else none;
        resume_question_id = if correct then resume else some q.question_id;
      },
      t',
    )

unfoldable pub submit_response :
    ℕ → ℕ → Option ℕ → ℕ → Tables → ServiceException ⊎ (AnswerOut × Tables)
unfolding get_attempt_by_id assert_trainee_owns_attempt assert_running question_in get_response
    record_answer
submit_response id question selected user t = do
  a ← present (get_attempt_by_id id t) attempt_not_found
  _ ← assert_trainee_owns_attempt a.trainee_id user
  _ ← assert_running a.status
  option ← present selected invalid_skip_payload
  q ← question_in a.quiz_id false question t
  _ ← guard (not (is_locked_response (get_response id question t))) question_already_locked
  inr (record_answer a q option (get_response id question t) t)
