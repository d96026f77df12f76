-- ===== src/Attempt/Resume.antt =====
-- Which question `compute_resume_question_id` computes, and what is counted as skipped.
use study_agent_service.Prelude.{
  ℕ, ◌+◌, ◌≤◌, ◌≡◌, refl, inl, inr, Bool, true, false, some, List, [], ◌∷◌, arith, Bool-cases,
  Option-cases, is_some, length, any, count_if, find_first,
}
use study_agent_service.Prelude.Dict.{Dict, lookup, nat_eq}
use study_agent_service.Attempt.{
  QuizQuestion, QuizQuestionResponse, is_question_skipped_at_submit, active_questions,
  count_skipped_at_submit, is_locked_in, compute_resume_question_id, compute_nav_status,
  can_answer_question, QuestionNavStatus, answered, skipped,
}

-- The first question that a running attempt can answer, by the rule for answering.
unfoldable pub is_open_in : Dict ℕ QuizQuestionResponse → QuizQuestion → Bool
unfolding can_answer_question
is_open_in responses q = can_answer_question q.is_active false (is_locked_in responses q)

resume_first :
    (responses : Dict ℕ QuizQuestionResponse) (qs : List QuizQuestion) {q : QuizQuestion}
    → find_first (is_open_in responses) qs ≡ some q
    → compute_resume_question_id qs responses ≡ some q.question_id
unfolding compute_resume_question_id is_open_in
resume_first responses [] {q} h = absurd (ground arith)
resume_first responses (x ∷ qs) {q} h = elim (Bool-cases (is_open_in responses x)) [
  | inl opened ↦ ground arith
  | inr shut ↦ ground (arith, resume_first responses qs {q = q})
]

resume_none :
    (responses : Dict ℕ QuizQuestionResponse) (qs : List QuizQuestion)
    → is_some (compute_resume_question_id qs responses) ≡ any (λ q. q.is_active) qs
unfolding compute_resume_question_id
resume_none responses [] = refl
resume_none responses (q ∷ qs) = ground (arith, resume_none responses qs)

-- The computed question is the first that can still be answered, if there is one; and some question is
-- computed exactly if the quiz has an active one.
pub compute_resume_question_id-first :
    (questions : List QuizQuestion) (responses : Dict ℕ QuizQuestionResponse)
    → ((q : QuizQuestion)
        → find_first (is_open_in responses) questions ≡ some q
        → compute_resume_question_id questions responses ≡ some q.question_id)
      × (is_some (compute_resume_question_id questions responses)
          ≡ any (λ q. q.is_active) questions)
compute_resume_question_id-first questions responses =
    (λ q h. resume_first responses questions {q = q} h, resume_none responses questions)

-- A question is shown after the submission as skipped, answered or otherwise.
unfoldable pub shown : Dict ℕ QuizQuestionResponse → QuizQuestion → QuestionNavStatus
unfolding compute_nav_status is_question_skipped_at_submit
shown responses q =
    compute_nav_status (lookup q.question_id responses) true
      (is_question_skipped_at_submit q (lookup q.question_id responses))

abbrev pub is_skipped : QuestionNavStatus → Bool
is_skipped skipped = true
is_skipped _ = false

abbrev pub is_answered : QuestionNavStatus → Bool
is_answered answered = true
is_answered _ = false

-- After the submission every question that is counted as skipped is shown as skipped, the locked
-- active questions are those shown as answered, and the two kinds together are at most all active ones.
pub count_skipped_at_submit-bounds :
    (questions : List QuizQuestion) (responses : Dict ℕ QuizQuestionResponse)
    → let active = active_questions questions in
      let answered_count = count_if (λ q. is_answered (shown responses q)) active in
      (count_skipped_at_submit questions responses
        ≤ count_if (λ q. is_skipped (shown responses q)) active)
      × (answered_count ≡ count_if (is_locked_in responses) active)
      × (count_skipped_at_submit questions responses + answered_count ≤ length active)
unfolding count_skipped_at_submit active_questions shown
count_skipped_at_submit-bounds [] responses = (omega arith, refl, omega arith)
count_skipped_at_submit-bounds (q ∷ qs) responses =
    elim (Option-cases (lookup q.question_id responses)) [
      | inl absent ↦ ground (arith, count_skipped_at_submit-bounds qs responses)
      | inr (r, er) ↦ ground (arith, count_skipped_at_submit-bounds qs responses)
    ]
