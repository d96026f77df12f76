-- ===== src/Attempt/Opening.antt =====
-- A new attempt and a freeze keep the tables sound.
use study_agent_service.Prelude.{
  all-weaken, any-append, ℕ, ◌≡◌, inl, inr, Bool, true, false, not, some, List, [], ◌∷◌, ◌++◌,
  arith, ◌==◌, Option-cases, any,
}
use study_agent_service.Lifecycle.Model.{QuizAttempt}
use study_agent_service.Lifecycle.Store.{abandon_in_progress_attempts_for_quizzes, abandon_one}
use study_agent_service.Attempt.Tables.{Tables, create_attempt}
use study_agent_service.Attempt.Sound.{
  IsSound, closing-IsSound, is_sound_row, attempt_of, open_for, single_attempts,
}

single-append :
    (xs : List QuizAttempt) (a : QuizAttempt)
    → single_attempts xs ≡ true
    → any (λ b. b.attempt_id == a.attempt_id) xs ≡ false
    → any (open_for a.quiz_id a.trainee_id) xs ≡ false
    → single_attempts (xs ++ a ∷ []) ≡ true
single-append [] a h fresh none_open = ground arith
single-append (x ∷ xs) a h fresh none_open = ground (
  arith,
  any-append (λ b. b.attempt_id == x.attempt_id) xs (a ∷ []),
  any-append (open_for x.quiz_id x.trainee_id) xs (a ∷ []),
  single-append xs a,
)

pub attempt_of-append :
    (xs : List QuizAttempt) (a : QuizAttempt) (id : ℕ) {b : QuizAttempt}
    → attempt_of xs id ≡ some b
    → attempt_of (xs ++ a ∷ []) id ≡ some b
attempt_of-append [] a id h = absurd (ground arith)
attempt_of-append (x ∷ xs) a id {b} h = ground (arith, attempt_of-append xs a id {b = b})

-- A generated id is new.
abbrev pub is_fresh : ℕ → Tables → Bool
is_fresh id t = not (any (λ a. a.attempt_id == id) t.attempts)

pub create_attempt-IsSound :
    (t : Tables) (a : QuizAttempt)
    → IsSound t
    → is_fresh a.attempt_id t ≡ true
    → any (open_for a.quiz_id a.trainee_id) t.attempts ≡ false
    → IsSound (create_attempt a t)
unfolding create_attempt
create_attempt-IsSound t a s fresh none_open = record {
  questions = s.questions;
  rows =
      all-weaken (is_sound_row t.questions t.attempts)
        (is_sound_row t.questions (t.attempts ++ a ∷ [])) t.responses
        (λ r h. elim (Option-cases (attempt_of t.attempts r.attempt_id)) [
          | inl absent ↦ absurd (ground arith)
          | inr (b, eb) ↦ ground (arith, attempt_of-append t.attempts a r.attempt_id {b = b} eb)
        ])
        s.rows;
  keys = s.keys;
  attempts = single-append t.attempts a s.attempts (ground arith) none_open;
}

pub freeze-IsSound :
    (quizzes : List ℕ) (now : ℕ) (t : Tables)
    → IsSound t
    → IsSound (record t {
      attempts = (abandon_in_progress_attempts_for_quizzes quizzes now t.attempts).0;
    })
unfolding abandon_in_progress_attempts_for_quizzes
freeze-IsSound [] now t s = s
freeze-IsSound (q ∷ qs) now t s =
    closing-IsSound (abandon_one (q ∷ qs) now)
      (record {
        same_id = λ a. ground arith;
        same_quiz = λ a. ground arith;
        same_trainee = λ a. ground arith;
        opens_none = λ a h. ground arith;
      })
      t s
