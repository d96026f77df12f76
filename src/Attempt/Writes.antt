-- ===== src/Attempt/Writes.antt =====
-- The writes of the handlers keep the rows of the responses sound.
use study_agent_service.Prelude.{
  is_some, if◌then◌else◌, refl, inr, false, inl, Option-cases, ◌==◌, Option, leb, Bool,
  find_first-all, ℕ, ◌≡◌, true, some, arith,
}
use study_agent_service.Lifecycle.Model.{QuizAttempt}
use study_agent_service.Attempt.{QuizQuestion, QuizQuestionResponse}
use study_agent_service.Attempt.Tables.{
  patch_row, update_attempt, is_response_to, answer_row, upsert_response, patch_navigation_state,
  get_response, Tables, write_response, blank_response,
}
use study_agent_service.Attempt.Rows.{KeepsKey, put_response-all, put_response-distinct}
use study_agent_service.Attempt.Sound.{
  IsClosing, closing-IsSound, IsSound, is_sound_row, is_sound_for, attempt_of, question_of,
}
use study_agent_service.Attempt.Answers.{level_of, record_answer, next_hint_level}

-- A row is written for an attempt and a question that are found.
pub write_response-IsSound :
    (t : Tables) (q : QuizQuestion) (a : QuizAttempt) (attempt question : ℕ)
    (change : QuizQuestionResponse → QuizQuestionResponse)
    → IsSound t
    → attempt_of t.attempts attempt ≡ some a
    → question_of t.questions question ≡ some q
    → KeepsKey change
    → is_sound_for q a (change (blank_response attempt question)) ≡ true
    → ((r : QuizQuestionResponse) → is_sound_for q a r ≡ true → is_sound_for q a (change r) ≡ true)
    → IsSound (write_response attempt question change t).1
unfolding write_response
write_response-IsSound t q a attempt question change s ea eq kept fresh good = record {
  questions = s.questions;
  rows =
      put_response-all (is_sound_row t.questions t.attempts) change
        (change (blank_response attempt question)) t.responses kept s.rows
        (ground (arith, kept (blank_response attempt question)))
        (λ r h k. ground (arith, kept r, good r, kept (blank_response attempt question)));
  keys =
      put_response-distinct change (change (blank_response attempt question)) t.responses kept
        s.keys;
  attempts = s.attempts;
}

next_hint_level-bound :
    (correct : Bool) (level : ℕ) → leb level 3 ≡ true → leb (next_hint_level correct level) 3 ≡ true
unfolding next_hint_level
next_hint_level-bound correct level h = ground arith

level_of-bound :
    (t : Tables) (attempt question : ℕ)
    → IsSound t
    → leb (level_of (get_response attempt question t)) 3 ≡ true
unfolding get_response
level_of-bound t attempt question s = elim (Option-cases (get_response attempt question t)) [
  | inl absent ↦ ground arith
  | inr (r, er) ↦ ground (
    arith,
    find_first-all (is_response_to attempt question) (is_sound_row t.questions t.attempts)
        t.responses {x = r} er s.rows,
  )
]

-- The answer to a question of the attempt's quiz.
pub record_answer-IsSound :
    (t : Tables) (a : QuizAttempt) (q : QuizQuestion) (chosen : ℕ)
    → IsSound t
    → attempt_of t.attempts a.attempt_id ≡ some a
    → question_of t.questions q.question_id ≡ some q
    → q.quiz_id ≡ a.quiz_id
    → IsSound (record_answer a q chosen (get_response a.attempt_id q.question_id t) t).1
unfolding record_answer upsert_response
record_answer-IsSound t a q chosen s ea eq same_quiz =
    let level =
      next_hint_level-bound (chosen == q.correct_option)
        (level_of (get_response a.attempt_id q.question_id t))
        (level_of-bound t a.attempt_id q.question_id s) in
    write_response-IsSound t q a a.attempt_id q.question_id
      (answer_row (some chosen) (some (chosen == q.correct_option))
        (next_hint_level (chosen == q.correct_option)
          (level_of (get_response a.attempt_id q.question_id t)))
        false (chosen == q.correct_option))
      s ea eq (λ r. (refl, refl)) (ground arith) (λ r h. ground arith)

one-IsClosing :
    (id : ℕ) (change : QuizAttempt → QuizAttempt)
    → IsClosing change
    → IsClosing (λ a. if a.attempt_id == id then change a else a)
one-IsClosing id change c = record {
  same_id = λ a. ground (arith, c.same_id a);
  same_quiz = λ a. ground (arith, c.same_quiz a);
  same_trainee = λ a. ground (arith, c.same_trainee a);
  opens_none = λ a h. ground (arith, c.opens_none a);
}

pub update_attempt-IsSound :
    (id : ℕ) (change : QuizAttempt → QuizAttempt) (t : Tables)
    → IsClosing change
    → IsSound t
    → IsSound (update_attempt id change t)
unfolding update_attempt
update_attempt-IsSound id change t c s =
    closing-IsSound (λ a. if a.attempt_id == id then change a else a) (one-IsClosing id change c) t
      s

pub patch_navigation_state-IsSound :
    (t : Tables) (a : QuizAttempt) (q : QuizQuestion) (visited flagged skipped : Option Bool)
    (resume : Option ℕ)
    → IsSound t
    → attempt_of t.attempts a.attempt_id ≡ some a
    → question_of t.questions q.question_id ≡ some q
    → q.quiz_id ≡ a.quiz_id
    → IsSound (patch_navigation_state a.attempt_id q.question_id visited flagged skipped resume t).1
unfolding patch_navigation_state
patch_navigation_state-IsSound t a q visited flagged skipped resume s ea eq same_quiz =
    update_attempt-IsSound a.attempt_id
      (λ a. record a {
        resume_question_id = if is_some resume then resume else a.resume_question_id;
      })
      (write_response a.attempt_id q.question_id (patch_row visited flagged skipped) t).1
      (record {
        same_id = λ a. refl;
        same_quiz = λ a. refl;
        same_trainee = λ a. refl;
        opens_none = λ a h. h;
      })
      (write_response-IsSound t q a a.attempt_id q.question_id (patch_row visited flagged skipped) s
        ea eq (λ r. (refl, refl)) (ground arith) (λ r h. ground arith))
