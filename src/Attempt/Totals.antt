-- ===== src/Attempt/Totals.antt =====
-- What a submission counts stays within the active questions.
use study_agent_service.Prelude.{
  ℕ, ◌+◌, ◌≤◌, ◌≡◌, refl, sym, ap, ◌∙◌, inl, inr, Bool, true, false, not, ◌&&◌, ◌||◌, some, List,
  [], ◌∷◌, arith, ◌==◌, ==_iff, Bool-cases, length, any, all, keep, find_first,
}
use study_agent_service.Prelude.{all_intro, count_if-keep, find_first-all}
use study_agent_service.Prelude.Dict.{lookup, nat_eq}
use study_agent_service.Prelude.Matching.{
  distinct_by, is_partner, count_if-partner, count_if-disjoint, count_if-weaken,
}
use study_agent_service.Lifecycle.Model.{QuizAttempt}
use study_agent_service.Attempt.{
  QuizQuestion, QuizQuestionResponse, is_question_skipped_at_submit, count_skipped_at_submit,
  active_questions,
}
use study_agent_service.Attempt.Tables.{
  Tables, is_response_to, get_response, get_responses_map, get_all_responses_for_attempt,
}
use study_agent_service.Attempt.Submission.{is_right, totals_of}
use study_agent_service.Attempt.Sound.{IsSound, is_sound_row}
use study_agent_service.Attempt.Lookup.{
  answers_to, sound-distinct, get_responses_map-lookup, find_first-keep,
}

-- With distinct keys the first response to a question is the only one.
any_right-none :
    (k : ℕ) (rows : List QuizQuestionResponse)
    → any (λ r. r.question_id == k) rows ≡ false
    → any (λ r. r.question_id == k && is_right r) rows ≡ false
any_right-none k [] h = refl
any_right-none k (r ∷ rows) h = ground (arith, any_right-none k rows)

any_right :
    (k : ℕ) (rows : List QuizQuestionResponse)
    → distinct_by (λ (r : QuizQuestionResponse). r.question_id) rows ≡ true
    → any (λ r. r.question_id == k && is_right r) rows ≡ true
    → (r : QuizQuestionResponse) × (find_first (answers_to k) rows ≡ some r) × (is_right r ≡ true)
any_right k [] d h = absurd (ground arith)
any_right k (r ∷ rows) d h = elim (Bool-cases (r.question_id == k)) [
  | inl hit ↦ (
    r,
    ground arith,
    ground (
      arith,
      any_right-none k rows,
      ap (λ j. any (λ (y : QuizQuestionResponse). y.question_id == j) rows)
          ((==_iff r.question_id k).0 hit),
    ),
  )
  | inr miss ↦
      let (x, fx, rx) = any_right k rows (ground arith) (ground arith) in (x, ground arith, rx)
]

-- A question with a right answer is not counted as skipped.
right_not_skipped :
    (t : Tables) (attempt : ℕ) (q : QuizQuestion)
    → IsSound t
    → any
        (λ r. r.question_id == q.question_id && is_right r)
        (get_all_responses_for_attempt attempt t)
      ≡ true
    → is_question_skipped_at_submit q (lookup q.question_id (get_responses_map attempt t)) ≡ false
unfolding get_all_responses_for_attempt is_question_skipped_at_submit get_response
right_not_skipped t attempt q s h =
    let (r, fr, right) =
      any_right q.question_id (get_all_responses_for_attempt attempt t) (sound-distinct t attempt s)
        h in
    let found = sym (find_first-keep attempt q.question_id t.responses) ∙ fr in
    let sound =
      find_first-all (is_response_to attempt q.question_id) (is_sound_row t.questions t.attempts)
        t.responses {x = r} found s.rows in
    ground (arith, get_responses_map-lookup t attempt q.question_id s)

-- Every right answer of an attempt is to one of the questions.
abbrev pub right_among : ℕ → List QuizQuestion → QuizQuestionResponse → Bool
right_among attempt qs r =
    not (r.attempt_id == attempt && is_right r) || any (λ q. q.question_id == r.question_id) qs

right_among-keep :
    (attempt : ℕ) (qs : List QuizQuestion) (rows : List QuizQuestionResponse)
    → all (right_among attempt qs) rows ≡ true
    → all
        (λ r. not (is_right r) || any (λ q. q.question_id == r.question_id) qs)
        (keep (λ r. r.attempt_id == attempt) rows)
      ≡ true
right_among-keep attempt qs [] h = refl
right_among-keep attempt qs (r ∷ rows) h = ground (arith, right_among-keep attempt qs rows)

pub totals_of-bounds :
    (t : Tables) (a : QuizAttempt) (qs : List QuizQuestion)
    → IsSound t
    → all (right_among a.attempt_id qs) t.responses ≡ true
    → let totals = totals_of a qs t in totals.total_correct + totals.total_skipped ≤ length qs
unfolding totals_of count_skipped_at_submit active_questions get_all_responses_for_attempt
    get_responses_map
totals_of-bounds t a qs s h =
    let rows = get_all_responses_for_attempt a.attempt_id t in
    let key = λ (r : QuizQuestionResponse). r.question_id in
    let id = λ (q : QuizQuestion). q.question_id in
    let answered = is_partner key id is_right rows in
    let skipped = λ (q : QuizQuestion).
      is_question_skipped_at_submit q (lookup q.question_id (get_responses_map a.attempt_id t)) in
    omega (
      arith,
      count_if-partner key id is_right rows qs (sound-distinct t a.attempt_id s)
          (right_among-keep a.attempt_id qs t.responses h),
      count_if-keep (λ q. q.is_active) skipped qs,
      count_if-weaken (λ q. q.is_active && skipped q) skipped qs (λ q e. ground arith),
      count_if-disjoint answered skipped qs (
          all_intro (λ q. not (answered q && skipped q)) qs
            (λ q. ground (arith, right_not_skipped t a.attempt_id q s))),
    )
