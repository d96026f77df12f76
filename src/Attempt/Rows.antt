-- ===== src/Attempt/Rows.antt =====
-- What one write does to the rows of the responses.
use study_agent_service.Prelude.{
  any-append, all-append, ℕ, ◌≡◌, refl, inl, inr, Bool, true, false, not, ◌&&◌, List, [], ◌∷◌, ◌++◌,
  map, arith, if◌then◌else◌, Bool-cases, any, all,
}
use study_agent_service.Attempt.{QuizQuestionResponse}
use study_agent_service.Attempt.Tables.{is_response_to, put_response}

-- The unique key of the table.
abbrev pub distinct_responses : List QuizQuestionResponse → Bool
distinct_responses [] = true
distinct_responses (r ∷ rs) =
    not (any (is_response_to r.attempt_id r.question_id) rs) && distinct_responses rs

-- A change that leaves the key alone.
abbrev pub KeepsKey : (QuizQuestionResponse → QuizQuestionResponse) → Type 0
KeepsKey change =
    (r : QuizQuestionResponse)
    → ((change r).attempt_id ≡ r.attempt_id) × ((change r).question_id ≡ r.question_id)

module _ (change : QuizQuestionResponse → QuizQuestionResponse) (a q : ℕ)
    (kept : KeepsKey change) where
  abbrev changed : QuizQuestionResponse → QuizQuestionResponse
  changed r = if is_response_to a q r then change r else r

  any_key-changed :
      (b p : ℕ) (rows : List QuizQuestionResponse)
      → any (is_response_to b p) (map changed rows) ≡ any (is_response_to b p) rows
  any_key-changed b p [] = refl
  any_key-changed b p (r ∷ rows) = ground (arith, kept r, any_key-changed b p rows)

  distinct-changed :
      (rows : List QuizQuestionResponse)
      → distinct_responses (map changed rows) ≡ distinct_responses rows
  distinct-changed [] = refl
  distinct-changed (r ∷ rows) = ground (
    arith,
    kept r,
    any_key-changed r.attempt_id r.question_id rows,
    any_key-changed (changed r).attempt_id (changed r).question_id rows,
    distinct-changed rows,
  )

  all-changed :
      (p : QuizQuestionResponse → Bool) (rows : List QuizQuestionResponse)
      → all p rows ≡ true
      → ((r : QuizQuestionResponse)
          → p r ≡ true
          → is_response_to a q r ≡ true
          → p (change r) ≡ true)
      → all p (map changed rows) ≡ true
  all-changed p [] h good = refl
  all-changed p (r ∷ rows) h good = ground (arith, good r, all-changed p rows)

distinct-append :
    (rows : List QuizQuestionResponse) (new : QuizQuestionResponse)
    → any (is_response_to new.attempt_id new.question_id) rows ≡ false
    → distinct_responses (rows ++ new ∷ []) ≡ distinct_responses rows
distinct-append [] new h = refl
distinct-append (r ∷ rows) new h = ground (
  arith,
  any-append (is_response_to r.attempt_id r.question_id) rows (new ∷ []),
  distinct-append rows new,
)

pub put_response-distinct :
    (change : QuizQuestionResponse → QuizQuestionResponse) (new : QuizQuestionResponse)
    (rows : List QuizQuestionResponse)
    → KeepsKey change
    → distinct_responses rows ≡ true
    → distinct_responses (put_response change new rows) ≡ true
unfolding put_response
put_response-distinct change new rows kept h =
    elim (Bool-cases (any (is_response_to new.attempt_id new.question_id) rows)) [
      | inl old ↦ ground (arith, distinct-changed change new.attempt_id new.question_id kept rows)
      | inr fresh ↦ ground (arith, distinct-append rows new)
    ]

pub put_response-all :
    (p : QuizQuestionResponse → Bool) (change : QuizQuestionResponse → QuizQuestionResponse)
    (new : QuizQuestionResponse) (rows : List QuizQuestionResponse)
    → KeepsKey change
    → all p rows ≡ true
    → p new ≡ true
    → ((r : QuizQuestionResponse)
        → p r ≡ true
        → is_response_to new.attempt_id new.question_id r ≡ true
        → p (change r) ≡ true)
    → all p (put_response change new rows) ≡ true
unfolding put_response
put_response-all p change new rows kept h hn good =
    elim (Bool-cases (any (is_response_to new.attempt_id new.question_id) rows)) [
      | inl old ↦
          ground (arith, all-changed change new.attempt_id new.question_id kept p rows h good)
      | inr fresh ↦ ground (arith, all-append p rows (new ∷ []))
    ]
