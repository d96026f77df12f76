-- ===== src/Attempt/Pending.antt =====
-- A right answer leaves one open question less.
use study_agent_service.Prelude.{
  ◌&&◌, ℕ, ◌<◌, ◌≡◌, refl, ap, inl, inr, Bool, true, false, not, ◌||◌, some, List, [], ◌∷◌, arith,
  ◌==◌, ==_iff, Bool-cases, count_if, find_first,
}
use study_agent_service.Prelude.Result.{done}
use mathlib.Core.Option.{some_inj}
use study_agent_service.Prelude.Matching.{count_if-weaken}
use study_agent_service.Prelude.Dict.{nat_eq}
use study_agent_service.Lifecycle.Model.{
  QuizAttempt, AttemptStatus, in_progress, submitted, abandoned, is_open,
}
use study_agent_service.Attempt.{can_answer_question, QuizQuestion}
use study_agent_service.Attempt.Tables.{
  get_responses_map, Tables, get_attempt_by_id, get_question_by_id, get_response, answer_row,
  upsert_response,
}
use study_agent_service.Attempt.Answers.{
  AnswerOut, submit_response, record_answer, question_in, assert_running,
  assert_trainee_owns_attempt, is_locked_response, next_hint_level, level_of,
}
use study_agent_service.Attempt.OneWrite.{get_response-write}
use study_agent_service.Attempt.Resume.{is_open_in}
use study_agent_service.Attempt.Sound.{question_of, IsSound}
use study_agent_service.Attempt.Writes.{record_answer-IsSound}
use study_agent_service.Attempt.History.{attempt_found}
use study_agent_service.Attempt.Lookup.{get_responses_map-lookup}

-- The question of an id is not yet answered right.
abbrev pub is_pending : ℕ → Tables → QuizQuestion → Bool
is_pending attempt t q = not (is_locked_response (get_response attempt q.question_id t))

count_if-less :
    {A : Type 0} (p q : A → Bool) (xs : List A) {x : A}
    → ((y : A) → q y ≡ true → p y ≡ true)
    → find_first p xs ≡ some x
    → q x ≡ false
    → count_if q xs < count_if p xs
count_if-less p q [] imp h off = absurd (ground arith)
count_if-less p q (y ∷ xs) {x} imp h off = elim (Bool-cases (p y)) [
  | inl hit ↦
      let e : y ≡ x = some_inj.0 (ground arith) in
      ground (arith, ap q e, count_if-weaken q p xs imp)
  | inr miss ↦ ground (arith, imp y, count_if-less p q xs {x = x} imp)
]

-- One answer: the question that was found by the id is locked, and no lock is lost.
record_answer-pending :
    (t : Tables) (a : QuizAttempt) (q : QuizQuestion) (k : ℕ)
    → let t' =
        (record_answer a q q.correct_option (get_response a.attempt_id q.question_id t) t).1 in
      is_locked_response (get_response a.attempt_id k t')
      ≡ (q.question_id == k || is_locked_response (get_response a.attempt_id k t))
unfolding record_answer upsert_response
record_answer-pending t a q k =
    let right = q.correct_option == q.correct_option in
    let level = next_hint_level right (level_of (get_response a.attempt_id q.question_id t)) in
    ground (
      arith,
      get_response-write a.attempt_id q.question_id a.attempt_id k
          (answer_row (some q.correct_option) (some right) level false right) t (λ r. (refl, refl)),
      (==_iff a.attempt_id a.attempt_id).1 refl,
      (==_iff q.correct_option q.correct_option).1 refl,
    )

running_passes : (s : AttemptStatus) → is_open s ≡ true → assert_running s ≡ inr done
unfolding assert_running
running_passes in_progress h = refl
running_passes submitted h = absurd (ground arith)
running_passes abandoned h = absurd (ground arith)

-- The guards of an answer to a question of the quiz that is pending.
pub submit_response-accepts :
    (t : Tables) (id user k : ℕ) (a : QuizAttempt) (q : QuizQuestion) (option : ℕ)
    → get_attempt_by_id id t ≡ some a
    → a.trainee_id ≡ user
    → is_open a.status ≡ true
    → get_question_by_id k t ≡ some q
    → q.quiz_id ≡ a.quiz_id
    → is_locked_response (get_response id k t) ≡ false
    → submit_response id k (some option) user t
      ≡ inr (record_answer a q option (get_response id k t) t)
unfolding submit_response assert_running assert_trainee_owns_attempt question_in
submit_response-accepts t id user k a q option fa owned running fq in_quiz free = ground (
  arith,
  running_passes a.status running,
  (==_iff a.trainee_id user).1 owned,
  (==_iff q.quiz_id a.quiz_id).1 in_quiz,
)

-- The questions that can still be answered.
abbrev pub open_questions : QuizAttempt → Tables → QuizQuestion → Bool
open_questions a t = is_open_in (get_responses_map a.attempt_id t)

pub open_questions-pending :
    (a : QuizAttempt) (t : Tables) (q : QuizQuestion)
    → IsSound t
    → open_questions a t q ≡ (q.is_active && is_pending a.attempt_id t q)
unfolding is_open_in can_answer_question
open_questions-pending a t q s =
    ground (arith, get_responses_map-lookup t a.attempt_id q.question_id s)

-- A running attempt of the user on sound tables.
pub record IsRunning (user : ℕ) (a : QuizAttempt) (t : Tables) : Type 0 where
  pub sound : IsSound t
  pub found : get_attempt_by_id a.attempt_id t ≡ some a
  pub owned : a.trainee_id ≡ user
  pub running : is_open a.status ≡ true

-- The tables after a right answer to the question that an id finds.
unfoldable pub right_after : QuizAttempt → QuizQuestion → Tables → AnswerOut × Tables
right_after a q t = record_answer a q q.correct_option (get_response a.attempt_id q.question_id t) t

pub right_after-IsRunning :
    (user : ℕ) (a : QuizAttempt) (q : QuizQuestion) (t : Tables)
    → IsRunning user a t
    → question_of t.questions q.question_id ≡ some q
    → q.quiz_id ≡ a.quiz_id
    → IsRunning user a (right_after a q t).1
unfolding right_after record_answer upsert_response get_attempt_by_id
right_after-IsRunning user a q t r fq in_quiz = record {
  sound =
      record_answer-IsSound t a q q.correct_option r.sound
        (attempt_found t a.attempt_id {a = a} r.found).1 fq in_quiz;
  found = r.found;
  owned = r.owned;
  running = r.running;
}

pub right_after-count :
    (user : ℕ) (a : QuizAttempt) (q x : QuizQuestion) (t : Tables) (qs : List QuizQuestion)
    → IsRunning user a t
    → question_of t.questions q.question_id ≡ some q
    → q.quiz_id ≡ a.quiz_id
    → find_first (open_questions a t) qs ≡ some x
    → q.question_id ≡ x.question_id
    → count_if (open_questions a (right_after a q t).1) qs < count_if (open_questions a t) qs
unfolding right_after
right_after-count user a q x t qs r fq in_quiz fx same_id =
    let t' = (right_after a q t).1 in
    let s' = (right_after-IsRunning user a q t r fq in_quiz).sound in
    count_if-less (open_questions a t) (open_questions a t') qs {x = x}
      (λ y h. ground (
        arith,
        open_questions-pending a t y r.sound,
        open_questions-pending a t' y s',
        record_answer-pending t a q y.question_id,
      ))
      fx
      (ground (
        arith,
        open_questions-pending a t' x s',
        record_answer-pending t a q x.question_id,
        (==_iff q.question_id x.question_id).1 same_id,
      ))
