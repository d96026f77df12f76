-- ===== src/Attempt/Closing.antt =====
-- The end of an attempt, a new attempt and a freeze keep the tables sound.
use study_agent_service.Prelude.{
  ◌||◌, all-weaken, keep-all, all-order_by, keep, any, ℕ, ◌≡◌, refl, ap, ◌∙◌, inl, inr, Bool, true,
  false, not, ◌&&◌, Option, none, some, List, [], ◌∷◌, arith, ◌==◌, if◌then◌else◌, ==_iff,
  Bool-cases, Option-cases, all,
}
use study_agent_service.Prelude.Dict.{Dict, lookup, insert, lookup-insert, nat_eq}
use study_agent_service.Lifecycle.Model.{QuizAttempt}
use study_agent_service.Attempt.{QuizQuestion, QuizQuestionResponse, is_question_skipped_at_submit}
use study_agent_service.Attempt.Submission.{
  close_attempt, finalized, same, finalize_one, finalize_skipped_responses,
}
use study_agent_service.Attempt.Tables.{
  submitted_row, submit_row, get_all_responses_for_attempt, get_active_questions_by_quiz, Tables,
  answer_row, upsert_response, by_question,
}
use study_agent_service.Attempt.Sound.{
  distinct_questions, IsSound, is_sound_row, is_sound_for, attempt_of, question_of,
}
use study_agent_service.Attempt.Writes.{update_attempt-IsSound, write_response-IsSound}

-- Whether the question that is found by the id of `q` is one of the quiz.
abbrev pub is_in_quiz : ℕ → Option QuizQuestion → Bool
is_in_quiz quiz none = false
is_in_quiz quiz (some q) = q.quiz_id == quiz

-- What the map of an attempt holds: rows of this attempt under the ids of their questions.
abbrev HoldsGood : (ℕ → QuizQuestionResponse → Bool) → Dict ℕ QuizQuestionResponse → Type 0
HoldsGood good d = (k : ℕ) (r : QuizQuestionResponse) → lookup k d ≡ some r → good k r ≡ true

by_question-HoldsGood :
    (good : ℕ → QuizQuestionResponse → Bool) (rows : List QuizQuestionResponse)
    (d : Dict ℕ QuizQuestionResponse)
    → all (λ r. good r.question_id r) rows ≡ true
    → HoldsGood good d
    → HoldsGood good (by_question rows d)
unfolding by_question
by_question-HoldsGood good [] d h old = old
by_question-HoldsGood good (x ∷ rows) d h old =
    by_question-HoldsGood good rows (insert x.question_id x d) (ground arith) (λ k r e.
      elim (Bool-cases (x.question_id == k)) [
        | inl hit ↦ ground (arith, lookup-insert k x.question_id x d)
        | inr miss ↦ ground (arith, lookup-insert k x.question_id x d, old k r)
      ])

if-IsSound :
    {t u : Tables} (b : Bool) → IsSound t → (b ≡ false → IsSound u) → IsSound (if b then t else u)
if-IsSound true s h = s
if-IsSound false s h = h refl

finalize_one-IsSound :
    (t : Tables) (a : QuizAttempt) (q found : QuizQuestion) (response : Option QuizQuestionResponse)
    → IsSound t
    → attempt_of t.attempts a.attempt_id ≡ some a
    → question_of t.questions q.question_id ≡ some found
    → found.quiz_id ≡ a.quiz_id
    → ((r : QuizQuestionResponse) → response ≡ some r → is_sound_for found a r ≡ true)
    → IsSound (finalize_one a.attempt_id q response t)
unfolding finalize_one upsert_response is_question_skipped_at_submit
finalize_one-IsSound t a q found none s ea eq same_quiz good =
    if-IsSound (not (is_question_skipped_at_submit q none)) s (λ skipped.
      write_response-IsSound t found a a.attempt_id q.question_id
        (answer_row none none 0 true false) s ea eq (λ r. (refl, refl)) (ground arith)
        (λ r h. ground arith))
finalize_one-IsSound t a q found (some r) s ea eq same_quiz good =
    let skipped = is_question_skipped_at_submit q (some r) in
    if-IsSound (same r.was_skipped skipped) s (λ differ.
      write_response-IsSound t found a a.attempt_id q.question_id
        (answer_row r.selected_option r.is_correct r.hint_level_reached skipped r.was_locked) s ea
        eq (λ x. (refl, refl)) (ground (arith, good r refl)) (λ x h. ground (arith, good r refl)))

-- A row of the attempt in the map, under its question's id.
abbrev is_good_entry : List QuizQuestion → List QuizAttempt → ℕ → ℕ → QuizQuestionResponse → Bool
is_good_entry questions attempts attempt k r =
    k == r.question_id && (r.attempt_id == attempt && is_sound_row questions attempts r)

good_entry_sound :
    (questions : List QuizQuestion) (attempts : List QuizAttempt) (a : QuizAttempt)
    (found : QuizQuestion) (k : ℕ) (r : QuizQuestionResponse)
    → attempt_of attempts a.attempt_id ≡ some a
    → question_of questions k ≡ some found
    → is_good_entry questions attempts a.attempt_id k r ≡ true
    → is_sound_for found a r ≡ true
good_entry_sound questions attempts a found k r ea ef g =
    let ek = (==_iff k r.question_id).0 (ground arith) in
    let er = (==_iff r.attempt_id a.attempt_id).0 (ground arith) in
    ground (arith, ap (question_of questions) ek, ap (attempt_of attempts) er)

pub finalize_one-tables :
    (attempt : ℕ) (q : QuizQuestion) (response : Option QuizQuestionResponse) (t : Tables)
    → ((finalize_one attempt q response t).questions ≡ t.questions)
      × ((finalize_one attempt q response t).attempts ≡ t.attempts)
unfolding finalize_one upsert_response
finalize_one-tables attempt q none t = ground arith
finalize_one-tables attempt q (some r) t = ground arith

finalize_all-IsSound :
    (questions : List QuizQuestion) (attempts : List QuizAttempt) (a : QuizAttempt)
    (qs : List QuizQuestion) (d : Dict ℕ QuizQuestionResponse) (t : Tables)
    → t.questions ≡ questions
    → t.attempts ≡ attempts
    → IsSound t
    → attempt_of attempts a.attempt_id ≡ some a
    → all (λ q. is_in_quiz a.quiz_id (question_of questions q.question_id)) qs ≡ true
    → HoldsGood (is_good_entry questions attempts a.attempt_id) d
    → let t' = finalize_skipped_responses a.attempt_id qs d t in
      IsSound t' × (t'.questions ≡ questions) × (t'.attempts ≡ attempts)
unfolding finalize_skipped_responses
finalize_all-IsSound questions attempts a [] d t kq ka s ea h g = (s, kq, ka)
finalize_all-IsSound questions attempts a (q ∷ qs) d t kq ka s ea h g =
    elim (Option-cases (question_of questions q.question_id)) [
      | inl absent ↦ absurd (ground arith)
      | inr (found, ef) ↦
          finalize_all-IsSound questions attempts a qs d
            (finalize_one a.attempt_id q (lookup q.question_id d) t)
            ((finalize_one-tables a.attempt_id q (lookup q.question_id d) t).0 ∙ kq)
            ((finalize_one-tables a.attempt_id q (lookup q.question_id d) t).1 ∙ ka)
            (finalize_one-IsSound t a q found (lookup q.question_id d) s
              (ap (λ xs. attempt_of xs a.attempt_id) ka ∙ ea)
              (ap (λ xs. question_of xs q.question_id) kq ∙ ef) (ground arith)
              (λ r e.
                good_entry_sound questions attempts a found q.question_id r ea ef
                  (g q.question_id r e)))
            ea (ground arith) g
    ]

-- Every question of a table with distinct ids is found by its id.
abbrev is_found_in : List QuizQuestion → QuizQuestion → Bool
is_found_in questions q = is_in_quiz q.quiz_id (question_of questions q.question_id)

is_found_in-shift :
    (x : QuizQuestion) (xs ys : List QuizQuestion)
    → any (λ p. p.question_id == x.question_id) ys ≡ false
    → all (is_found_in xs) ys ≡ true
    → all (is_found_in (x ∷ xs)) ys ≡ true
is_found_in-shift x xs [] h g = refl
is_found_in-shift x xs (y ∷ ys) h g = ground (arith, is_found_in-shift x xs ys)

distinct-found :
    (xs : List QuizQuestion) → distinct_questions xs ≡ true → all (is_found_in xs) xs ≡ true
distinct-found [] h = refl
distinct-found (x ∷ xs) h = ground (
  arith,
  (==_iff x.question_id x.question_id).1 refl,
  (==_iff x.quiz_id x.quiz_id).1 refl,
  is_found_in-shift x xs xs,
  distinct-found xs,
)

pub active_in_quiz :
    (t : Tables) (quiz : ℕ)
    → distinct_questions t.questions ≡ true
    → all
        (λ q. is_in_quiz quiz (question_of t.questions q.question_id))
        (get_active_questions_by_quiz quiz t)
      ≡ true
unfolding get_active_questions_by_quiz
active_in_quiz t quiz h =
    let good = λ (q : QuizQuestion). is_in_quiz quiz (question_of t.questions q.question_id) in
    let asked = λ (q : QuizQuestion). q.quiz_id == quiz && q.is_active in
    all-order_by good (λ (q : QuizQuestion). q.order_index) (keep asked t.questions)
    ∙ keep-all asked good t.questions (
        all-weaken (is_found_in t.questions) (λ q. not (asked q) || good q) t.questions
          (λ q g. elim (Bool-cases (q.quiz_id == quiz)) [
            | inl hit ↦ ground (
              arith,
              ap (λ k. is_in_quiz k (question_of t.questions q.question_id))
                  ((==_iff q.quiz_id quiz).0 hit),
            )
            | inr miss ↦ ground arith
          ])
          (distinct-found t.questions h))

good_entries :
    (questions : List QuizQuestion) (attempts : List QuizAttempt) (attempt : ℕ)
    (rows : List QuizQuestionResponse)
    → all (is_sound_row questions attempts) rows ≡ true
    → all
        (λ r. is_good_entry questions attempts attempt r.question_id r)
        (keep (λ r. r.attempt_id == attempt) rows)
      ≡ true
good_entries questions attempts attempt [] h = refl
good_entries questions attempts attempt (r ∷ rows) h = ground (
  arith,
  (==_iff r.question_id r.question_id).1 refl,
  good_entries questions attempts attempt rows,
)

pub finalized-IsSound :
    (t : Tables) (a : QuizAttempt)
    → IsSound t
    → attempt_of t.attempts a.attempt_id ≡ some a
    → IsSound (finalized a t)
      × ((finalized a t).questions ≡ t.questions)
      × ((finalized a t).attempts ≡ t.attempts)
unfolding finalized get_all_responses_for_attempt
finalized-IsSound t a s ea =
    finalize_all-IsSound t.questions t.attempts a (get_active_questions_by_quiz a.quiz_id t)
      (by_question (get_all_responses_for_attempt a.attempt_id t) []) t refl refl s ea
      (active_in_quiz t a.quiz_id s.questions)
      (by_question-HoldsGood (is_good_entry t.questions t.attempts a.attempt_id)
        (get_all_responses_for_attempt a.attempt_id t) []
        (good_entries t.questions t.attempts a.attempt_id t.responses s.rows)
        (λ k r e. absurd (ground arith)))

pub close_attempt-IsSound :
    (t : Tables) (a : QuizAttempt) (now : ℕ)
    → IsSound t
    → attempt_of t.attempts a.attempt_id ≡ some a
    → IsSound (close_attempt a now t).1
unfolding close_attempt submit_row
close_attempt-IsSound t a now s ea =
    let totals = (close_attempt a now t).0 in
    update_attempt-IsSound a.attempt_id
      (submitted_row totals.score totals.total_correct totals.total_with_hints totals.total_skipped
        now)
      (finalized a t)
      (record {
        same_id = λ a. refl;
        same_quiz = λ a. refl;
        same_trainee = λ a. refl;
        opens_none = λ a h. absurd (ground arith);
      })
      (finalized-IsSound t a s ea).0
