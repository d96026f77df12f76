-- ===== src/Attempt/Tables.antt =====
-- The tables behind the quiz attempts, and the reads and writes of
-- src/api/data/repositories/trainee_quiz_repositories/trainee_quiz_repository.py. A row that the
-- database generates an id for gets it as an argument, and so does the time of a write.
use study_agent_service.Prelude.{
  ℕ, Bool, true, false, ◌&&◌, Option, none, some, List, [], ◌∷◌, ◌++◌, map, ◌==◌, if◌then◌else◌,
  is_some, or_else, any, keep, find_first,
}
use study_agent_service.Prelude.Dict.{Dict, insert, nat_eq}
use study_agent_service.Lifecycle.Model.{QuizAttempt, in_progress, submitted, is_open}
use study_agent_service.Progress.Completion.{Score}
use study_agent_service.Attempt.{QuizQuestion, QuizQuestionResponse}
use study_agent_service.Prelude.{
  ◌∷◌, ◌++◌, false, map, ◌&&◌, true, any, ◌==◌, find_first, if◌then◌else◌, [], keep, order_by, Bool,
  Option, ℕ, List,
}

-- The rows of `quizquestions`, `quizattempts` and `quizquestionresponses`.
pub record Tables : Type 0 where
  pub questions : List QuizQuestion
  pub attempts : List QuizAttempt
  pub responses : List QuizQuestionResponse

-- `TraineeQuizRepository.get_attempt_by_id`, and with FOR UPDATE.
unfoldable pub get_attempt_by_id : ℕ → Tables → Option QuizAttempt
get_attempt_by_id id t = find_first (λ a. a.attempt_id == id) t.attempts

abbrev pub is_attempt_of : ℕ → ℕ → QuizAttempt → Bool
is_attempt_of quiz trainee a = a.quiz_id == quiz && a.trainee_id == trainee

unfoldable pub get_active_attempt_by_quiz_and_trainee : ℕ → ℕ → Tables → Option QuizAttempt
get_active_attempt_by_quiz_and_trainee quiz trainee t =
    find_first (λ a. is_attempt_of quiz trainee a && is_open a.status) t.attempts

unfoldable pub get_question_by_id : ℕ → Tables → Option QuizQuestion
get_question_by_id id t = find_first (λ q. q.question_id == id) t.questions

unfoldable pub get_all_questions_by_quiz : ℕ → Tables → List QuizQuestion
get_all_questions_by_quiz quiz t =
    order_by (λ q. q.order_index) (keep (λ q. q.quiz_id == quiz) t.questions)

unfoldable pub get_active_questions_by_quiz : ℕ → Tables → List QuizQuestion
get_active_questions_by_quiz quiz t =
    order_by (λ q. q.order_index) (keep (λ q. q.quiz_id == quiz && q.is_active) t.questions)

-- The unique key `uq_quizquestionresponses_attempt_question`.
abbrev pub is_response_to : ℕ → ℕ → QuizQuestionResponse → Bool
is_response_to attempt question r = r.attempt_id == attempt && r.question_id == question

unfoldable pub get_response : ℕ → ℕ → Tables → Option QuizQuestionResponse
get_response attempt question t = find_first (is_response_to attempt question) t.responses

unfoldable pub get_all_responses_for_attempt : ℕ → Tables → List QuizQuestionResponse
get_all_responses_for_attempt attempt t = keep (λ r. r.attempt_id == attempt) t.responses

-- `{r.question_id: r for r in rows}`
unfoldable pub by_question :
    List QuizQuestionResponse → Dict ℕ QuizQuestionResponse → Dict ℕ QuizQuestionResponse
by_question [] d = d
by_question (r ∷ rs) d = by_question rs (insert r.question_id r d)

unfoldable pub get_responses_map : ℕ → Tables → Dict ℕ QuizQuestionResponse
unfolding by_question get_all_responses_for_attempt
get_responses_map attempt t = by_question (get_all_responses_for_attempt attempt t) []

-- The row of a key is changed in place, or the new row goes to the end.
unfoldable pub put_response :
    (QuizQuestionResponse → QuizQuestionResponse)
    → QuizQuestionResponse
    → List QuizQuestionResponse
    → List QuizQuestionResponse
put_response change new rows =
    if any (is_response_to new.attempt_id new.question_id) rows
    then map (λ r. if is_response_to new.attempt_id new.question_id r then change r else r) rows
    else rows ++ new ∷ []

-- The columns that an answer writes.
abbrev pub answer_row :
    Option ℕ → Option Bool → ℕ → Bool → Bool → QuizQuestionResponse → QuizQuestionResponse
answer_row selected correct level skipped locked r = record r {
  selected_option = selected;
  is_correct = correct;
  hint_level_reached = level;
  was_skipped = skipped;
  is_visited = true;
  was_locked = locked;
}

-- The row that is inserted before a column is set.
abbrev pub blank_response : ℕ → ℕ → QuizQuestionResponse
blank_response attempt question = record {
  attempt_id = attempt;
  question_id = question;
  selected_option = none;
  is_correct = none;
  was_locked = false;
  was_skipped = false;
  is_visited = false;
  is_flagged = false;
  hint_level_reached = 0;
}

-- `get_response` or a new row, changed: the row that is returned, and the tables.
unfoldable pub write_response :
    ℕ → ℕ → (QuizQuestionResponse → QuizQuestionResponse) → Tables → QuizQuestionResponse × Tables
unfolding put_response get_response
write_response attempt question change t = (
  change (or_else (get_response attempt question t) (blank_response attempt question)),
  record t {
    responses = put_response change (change (blank_response attempt question)) t.responses;
  },
)

-- `TraineeQuizRepository.upsert_response`, for an attempt that exists.
unfoldable pub upsert_response :
    ℕ → ℕ → Option ℕ → Option Bool → ℕ → Bool → Bool → Tables → QuizQuestionResponse × Tables
unfolding write_response
upsert_response attempt question selected correct level skipped locked t =
    write_response attempt question (answer_row selected correct level skipped locked) t

-- `if value is not None: column = value`
abbrev pub set_if {ℓ} : {A : Type ℓ} → Option A → A → A
set_if none old = old
set_if (some new) old = new

abbrev pub patch_row :
    Option Bool → Option Bool → Option Bool → QuizQuestionResponse → QuizQuestionResponse
patch_row visited flagged skipped r = record r {
  is_visited = set_if visited r.is_visited;
  is_flagged = set_if flagged r.is_flagged;
  was_skipped = if is_some r.selected_option then r.was_skipped else set_if skipped r.was_skipped;
}

unfoldable pub update_attempt : ℕ → (QuizAttempt → QuizAttempt) → Tables → Tables
update_attempt id change t = record t {
  attempts = map (λ a. if a.attempt_id == id then change a else a) t.attempts;
}

-- `TraineeQuizRepository.patch_navigation_state`
unfoldable pub patch_navigation_state :
    ℕ
    → ℕ
    → Option Bool
    → Option Bool
    → Option Bool
    → Option ℕ
    → Tables
    → QuizQuestionResponse × Tables
unfolding write_response update_attempt
patch_navigation_state attempt question visited flagged skipped resume t =
    let (row, t') = write_response attempt question (patch_row visited flagged skipped) t in
    (
      row,
      update_attempt attempt
          (λ a. record a {
            resume_question_id = if is_some resume then resume else a.resume_question_id;
          })
          t',
    )

-- `TraineeQuizRepository.submit_attempt`
abbrev pub submitted_row : Score → ℕ → ℕ → ℕ → ℕ → QuizAttempt → QuizAttempt
submitted_row score correct hinted skipped now a = record a {
  status = submitted;
  score = some score;
  total_correct = some correct;
  total_with_hints = some hinted;
  total_skipped = some skipped;
  submitted_at = some now;
}

unfoldable pub submit_row : ℕ → Score → ℕ → ℕ → ℕ → ℕ → Tables → Tables
unfolding update_attempt
submit_row attempt score correct hinted skipped now t =
    update_attempt attempt (submitted_row score correct hinted skipped now) t

-- `TraineeQuizRepository.create_attempt`; `id` is the generated id.
unfoldable pub new_attempt : ℕ → ℕ → ℕ → ℕ → ℕ → ℕ → QuizAttempt
new_attempt id quiz node space trainee now = record {
  attempt_id = id;
  quiz_id = quiz;
  node_id = node;
  space_id = space;
  trainee_id = trainee;
  status = in_progress;
  resume_question_id = none;
  score = none;
  total_correct = none;
  total_with_hints = none;
  total_skipped = none;
  started_at = now;
  submitted_at = none;
}

unfoldable pub create_attempt : QuizAttempt → Tables → Tables
create_attempt a t = record t { attempts = t.attempts ++ a ∷ [] }
