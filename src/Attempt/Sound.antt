-- ===== src/Attempt/Sound.antt =====
-- The invariant of the attempt tables: what holds of every row whatever the trainees and the mentors
-- have done.
use study_agent_service.Prelude.{
  ℕ, ◌≡◌, refl, inl, inr, Bool, true, false, not, ◌&&◌, Option, none, some, List, [], ◌∷◌, map,
  arith, leb, ◌==◌, Option-cases, any, all, find_first,
}
use study_agent_service.Lifecycle.Model.{QuizAttempt, is_open}
use study_agent_service.Attempt.{QuizQuestion, QuizQuestionResponse}
use study_agent_service.Attempt.Submission.{same}
use study_agent_service.Attempt.Tables.{Tables, is_attempt_of}
use study_agent_service.Attempt.Rows.{distinct_responses}

-- The verdict and the lock agree with the option that was chosen: an unanswered row is not locked, an
-- answered one is right exactly if it chose the correct option, locked exactly if right, not skipped.
abbrev pub fits : ℕ → Option ℕ → Option Bool → Bool → Bool → Bool
fits correct none none locked skipped = not locked
fits correct none (some _) locked skipped = false
fits correct (some o) none locked skipped = false
fits correct (some o) (some b) locked skipped =
    same b (o == correct) && (same locked b && not skipped)

abbrev pub is_sound_for : QuizQuestion → QuizAttempt → QuizQuestionResponse → Bool
is_sound_for q a r =
    q.quiz_id == a.quiz_id
    && (leb r.hint_level_reached 3
        && fits q.correct_option r.selected_option r.is_correct r.was_locked r.was_skipped)

abbrev pub attempt_of : List QuizAttempt → ℕ → Option QuizAttempt
attempt_of attempts id = find_first (λ a. a.attempt_id == id) attempts

abbrev pub question_of : List QuizQuestion → ℕ → Option QuizQuestion
question_of questions id = find_first (λ q. q.question_id == id) questions

-- A response belongs to an attempt and to a question of the quiz that is attempted.
abbrev is_sound_among : Option QuizQuestion → Option QuizAttempt → QuizQuestionResponse → Bool
is_sound_among none a r = false
is_sound_among (some q) none r = false
is_sound_among (some q) (some a) r = is_sound_for q a r

abbrev pub is_sound_row : List QuizQuestion → List QuizAttempt → QuizQuestionResponse → Bool
is_sound_row questions attempts r =
    is_sound_among (question_of questions r.question_id) (attempt_of attempts r.attempt_id) r

abbrev pub open_for : ℕ → ℕ → QuizAttempt → Bool
open_for quiz trainee a = is_attempt_of quiz trainee a && is_open a.status

-- The ids are distinct, and no trainee has two running attempts at one quiz.
abbrev pub single_attempts : List QuizAttempt → Bool
single_attempts [] = true
single_attempts (a ∷ rest) =
    (not (any (λ b. b.attempt_id == a.attempt_id) rest)
      && not (is_open a.status && any (open_for a.quiz_id a.trainee_id) rest))
    && single_attempts rest

-- `question_id` is the primary key.
abbrev pub distinct_questions : List QuizQuestion → Bool
distinct_questions [] = true
distinct_questions (q ∷ qs) =
    not (any (λ p. p.question_id == q.question_id) qs) && distinct_questions qs

pub record IsSound (t : Tables) : Type 0 where
  pub questions : distinct_questions t.questions ≡ true
  pub rows : all (is_sound_row t.questions t.attempts) t.responses ≡ true
  pub keys : distinct_responses t.responses ≡ true
  pub attempts : single_attempts t.attempts ≡ true

-- A change of the attempts that keeps who attempts what, and opens none.
pub record IsClosing (change : QuizAttempt → QuizAttempt) : Type 0 where
  pub same_id : (a : QuizAttempt) → (change a).attempt_id ≡ a.attempt_id
  pub same_quiz : (a : QuizAttempt) → (change a).quiz_id ≡ a.quiz_id
  pub same_trainee : (a : QuizAttempt) → (change a).trainee_id ≡ a.trainee_id
  pub opens_none : (a : QuizAttempt) → is_open (change a).status ≡ true → is_open a.status ≡ true

module _ (change : QuizAttempt → QuizAttempt) (closing : IsClosing change) where
  any_id-closing :
      (id : ℕ) (xs : List QuizAttempt)
      → any (λ b. b.attempt_id == id) (map change xs) ≡ any (λ b. b.attempt_id == id) xs
  any_id-closing id [] = refl
  any_id-closing id (x ∷ xs) = ground (arith, closing.same_id x, any_id-closing id xs)

  any_open-closing :
      (quiz trainee : ℕ) (xs : List QuizAttempt)
      → any (open_for quiz trainee) xs ≡ false
      → any (open_for quiz trainee) (map change xs) ≡ false
  any_open-closing quiz trainee [] h = refl
  any_open-closing quiz trainee (x ∷ xs) h = ground (
    arith,
    closing.same_quiz x,
    closing.same_trainee x,
    closing.opens_none x,
    any_open-closing quiz trainee xs,
  )

  single-closing :
      (xs : List QuizAttempt) → single_attempts xs ≡ true → single_attempts (map change xs) ≡ true
  single-closing [] h = refl
  single-closing (x ∷ xs) h = ground (
    arith,
    closing.same_id x,
    closing.same_quiz x,
    closing.same_trainee x,
    closing.opens_none x,
    any_id-closing x.attempt_id xs,
    any_open-closing x.quiz_id x.trainee_id xs,
    single-closing xs,
  )

  attempt_of-closing :
      (id : ℕ) (xs : List QuizAttempt)
      → attempt_of (map change xs) id
        ≡ elim (attempt_of xs id) [ none ↦ none | some a ↦ some (change a) ]
  attempt_of-closing id [] = refl
  attempt_of-closing id (x ∷ xs) = ground (arith, closing.same_id x, attempt_of-closing id xs)

  is_sound_row-closing :
      (questions : List QuizQuestion) (xs : List QuizAttempt) (r : QuizQuestionResponse)
      → is_sound_row questions (map change xs) r ≡ is_sound_row questions xs r
  is_sound_row-closing questions xs r = elim (Option-cases (attempt_of xs r.attempt_id)) [
    | inl absent ↦ ground (arith, attempt_of-closing r.attempt_id xs)
    | inr (a, ea) ↦ ground (arith, attempt_of-closing r.attempt_id xs, closing.same_quiz a)
  ]

  all_sound-closing :
      (questions : List QuizQuestion) (xs : List QuizAttempt) (rs : List QuizQuestionResponse)
      → all (is_sound_row questions (map change xs)) rs ≡ all (is_sound_row questions xs) rs
  all_sound-closing questions xs [] = refl
  all_sound-closing questions xs (r ∷ rs) =
      ground (arith, is_sound_row-closing questions xs r, all_sound-closing questions xs rs)

  pub closing-IsSound :
      (t : Tables) → IsSound t → IsSound (record t { attempts = map change t.attempts })
  closing-IsSound t s = record {
    questions = s.questions;
    rows = ground (arith, all_sound-closing t.questions t.attempts t.responses, s.rows);
    keys = s.keys;
    attempts = single-closing t.attempts s.attempts;
  }
