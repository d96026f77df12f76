-- ===== src/Attempt/Lookup.antt =====
-- The map of an attempt's responses answers like the query for one response.
use study_agent_service.Prelude.{
  ℕ, ◌≡◌, refl, ap, inl, inr, Bool, true, false, none, List, [], ◌∷◌, arith, ◌==◌, if◌then◌else◌,
  ==_iff, Bool-cases, Option-cases, is_some, any, keep, find_first,
}
use study_agent_service.Prelude.Dict.{Dict, lookup, insert, lookup-insert, nat_eq}
use study_agent_service.Prelude.Matching.{distinct_by}
use study_agent_service.Attempt.{QuizQuestionResponse}
use study_agent_service.Attempt.Tables.{
  Tables, is_response_to, get_response, get_responses_map, by_question,
  get_all_responses_for_attempt,
}
use study_agent_service.Attempt.Rows.{distinct_responses}
use study_agent_service.Attempt.Sound.{IsSound}

abbrev pub answers_to : ℕ → QuizQuestionResponse → Bool
answers_to k r = r.question_id == k

find_first-none :
    (k : ℕ) (rows : List QuizQuestionResponse)
    → any (answers_to k) rows ≡ false
    → find_first (answers_to k) rows ≡ none
find_first-none k [] h = refl
find_first-none k (r ∷ rows) h = ground (arith, find_first-none k rows)

by_question-lookup :
    (k : ℕ) (rows : List QuizQuestionResponse) (d : Dict ℕ QuizQuestionResponse)
    → distinct_by (λ (r : QuizQuestionResponse). r.question_id) rows ≡ true
    → lookup k (by_question rows d) ≡ (
        if is_some (find_first (answers_to k) rows)
        then find_first (answers_to k) rows
        else lookup k d)
unfolding by_question
by_question-lookup k [] d h = refl
by_question-lookup k (r ∷ rows) d h = elim (Bool-cases (r.question_id == k)) [
  | inl hit ↦
      let e = (==_iff r.question_id k).0 hit in
      ground (
        arith,
        by_question-lookup k rows (insert r.question_id r d),
        lookup-insert k r.question_id r d,
        find_first-none k rows,
        ap (λ j. any (answers_to j) rows) e,
      )
  | inr miss ↦ ground (
    arith,
    by_question-lookup k rows (insert r.question_id r d),
    lookup-insert k r.question_id r d,
  )
]

pub find_first-keep :
    (attempt k : ℕ) (rows : List QuizQuestionResponse)
    → find_first (answers_to k) (keep (λ r. r.attempt_id == attempt) rows)
      ≡ find_first (is_response_to attempt k) rows
find_first-keep attempt k [] = refl
find_first-keep attempt k (r ∷ rows) = ground (arith, find_first-keep attempt k rows)

any-keep-attempt :
    (attempt k : ℕ) (rows : List QuizQuestionResponse)
    → any (answers_to k) (keep (λ r. r.attempt_id == attempt) rows)
      ≡ any (is_response_to attempt k) rows
any-keep-attempt attempt k [] = refl
any-keep-attempt attempt k (r ∷ rows) = ground (arith, any-keep-attempt attempt k rows)

distinct-keep :
    (attempt : ℕ) (rows : List QuizQuestionResponse)
    → distinct_responses rows ≡ true
    → distinct_by
        (λ (r : QuizQuestionResponse). r.question_id)
        (keep (λ r. r.attempt_id == attempt) rows)
      ≡ true
distinct-keep attempt [] h = refl
distinct-keep attempt (r ∷ rows) h = elim (Bool-cases (r.attempt_id == attempt)) [
  | inl hit ↦ ground (
    arith,
    any-keep-attempt attempt r.question_id rows,
    ap (λ j. any (is_response_to j r.question_id) rows) ((==_iff r.attempt_id attempt).0 hit),
    distinct-keep attempt rows,
  )
  | inr miss ↦ ground (arith, distinct-keep attempt rows)
]

pub sound-distinct :
    (t : Tables) (attempt : ℕ)
    → IsSound t
    → distinct_by
        (λ (r : QuizQuestionResponse). r.question_id)
        (get_all_responses_for_attempt attempt t)
      ≡ true
unfolding get_all_responses_for_attempt
sound-distinct t attempt s = distinct-keep attempt t.responses s.keys

pub get_responses_map-lookup :
    (t : Tables) (attempt k : ℕ)
    → IsSound t
    → lookup k (get_responses_map attempt t) ≡ get_response attempt k t
unfolding get_responses_map get_response get_all_responses_for_attempt
get_responses_map-lookup t attempt k s = elim (Option-cases (get_response attempt k t)) [
  | inl absent ↦ ground (
    arith,
    by_question-lookup k (get_all_responses_for_attempt attempt t) [] (sound-distinct t attempt s),
    find_first-keep attempt k t.responses,
  )
  | inr (r, er) ↦ ground (
    arith,
    by_question-lookup k (get_all_responses_for_attempt attempt t) [] (sound-distinct t attempt s),
    find_first-keep attempt k t.responses,
  )
]
