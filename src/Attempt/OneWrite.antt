-- ===== src/Attempt/OneWrite.antt =====
-- What one write does to one response.
use study_agent_service.Prelude.{
  ℕ, ◌≡◌, refl, ap, ◌∙◌, inl, inr, Bool, true, ◌&&◌, none, some, List, [], ◌∷◌, ◌++◌, map, arith,
  ◌==◌, if◌then◌else◌, ==_iff, Bool-cases, or_else, any, find_first,
}
use study_agent_service.Prelude.{find_first-is_some}
use study_agent_service.Prelude.Dict.{nat_eq}
use study_agent_service.Attempt.{QuizQuestionResponse}
use study_agent_service.Attempt.Tables.{
  Tables, is_response_to, get_response, write_response, put_response, blank_response,
}
use study_agent_service.Attempt.Rows.{KeepsKey}

find_first-changed :
    (a q b k : ℕ) (change : QuizQuestionResponse → QuizQuestionResponse)
    (rows : List QuizQuestionResponse)
    → KeepsKey change
    → find_first (is_response_to b k) (map (λ r. if is_response_to a q r then change r else r) rows)
      ≡ (if a == b && q == k
          then elim (find_first (is_response_to b k) rows) [
            | none ↦ none
            | some r ↦ some (change r)
          ]
          else find_first (is_response_to b k) rows)
find_first-changed a q b k change [] kept = ground arith
find_first-changed a q b k change (r ∷ rows) kept =
    ground (arith, kept r, find_first-changed a q b k change rows kept)

find_first-append :
    (p : QuizQuestionResponse → Bool) (rows : List QuizQuestionResponse)
    (new : QuizQuestionResponse)
    → find_first p (rows ++ new ∷ [])
      ≡ (if any p rows then find_first p rows else (if p new then some new else none))
find_first-append p [] new = refl
find_first-append p (r ∷ rows) new = ground (arith, find_first-append p rows new)

same_key :
    (a q b k : ℕ) (rows : List QuizQuestionResponse)
    → (a == b && q == k) ≡ true
    → any (is_response_to a q) rows ≡ any (is_response_to b k) rows
same_key a q b k rows h =
    let ea = (==_iff a b).0 (ground arith) in
    let eq = (==_iff q k).0 (ground arith) in
    ap (λ x. any (is_response_to x q) rows) ea ∙ ap (λ x. any (is_response_to b x) rows) eq

put-found :
    (change : QuizQuestionResponse → QuizQuestionResponse) (new : QuizQuestionResponse)
    (rows : List QuizQuestionResponse) (b k : ℕ)
    → KeepsKey change
    → find_first (is_response_to b k) (put_response change new rows) ≡ (
        if new.attempt_id == b && new.question_id == k
        then elim (find_first (is_response_to b k) rows) [
          | none ↦ some new
          | some r ↦ some (change r)
        ]
        else find_first (is_response_to b k) rows)
unfolding put_response
put-found change new rows b k kept =
    elim (Bool-cases (new.attempt_id == b && new.question_id == k)) [
      | inl hit ↦ ground (
        arith,
        same_key new.attempt_id new.question_id b k rows hit,
        find_first-is_some (is_response_to b k) rows,
        find_first-changed new.attempt_id new.question_id b k change rows kept,
        find_first-append (is_response_to b k) rows new,
      )
      | inr miss ↦ ground (
        arith,
        find_first-is_some (is_response_to b k) rows,
        find_first-changed new.attempt_id new.question_id b k change rows kept,
        find_first-append (is_response_to b k) rows new,
      )
    ]

-- A response after a write: the changed one of its key, every other as it was.
pub get_response-write :
    (a q b k : ℕ) (change : QuizQuestionResponse → QuizQuestionResponse) (t : Tables)
    → KeepsKey change
    → get_response b k (write_response a q change t).1 ≡ (
        if a == b && q == k
        then some (change (or_else (get_response b k t) (blank_response a q)))
        else get_response b k t)
unfolding write_response get_response
get_response-write a q b k change t kept =
    let new = change (blank_response a q) in
    let (ka, kq) = kept (blank_response a q) in
    ground
      (arith, put-found change new t.responses b k kept, ap (λ x. x == b) ka, ap (λ x. x == k) kq)
