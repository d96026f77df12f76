-- ===== src/Attempt/Position.antt =====
-- On which question a trainee finds an attempt again: the resume position of the view that
-- `get_attempt` of src/api/core/services/trainee_quiz_services/trainee_quiz_service.py builds.
use study_agent_service.Prelude.{
  ℕ, ◌≡◌, refl, ap, subst, inl, inr, true, false, Option, none, some, List, [], ◌∷◌, arith, ==_iff,
  Bool-cases, Option-cases, is_some, any, find_first,
}
use study_agent_service.Prelude.Dict.{Dict}
use study_agent_service.Lifecycle.Model.{QuizAttempt, is_open}
use study_agent_service.Attempt.{
  QuizQuestion, QuizQuestionResponse, resume_among, active_questions, compute_resume_question_id,
}
use study_agent_service.Attempt.Tables.{
  get_attempt_by_id, get_all_questions_by_quiz, get_responses_map,
}
use study_agent_service.Attempt.Submission.{QuizDb}
use study_agent_service.Attempt.Views.{
  QuizOut, is_active_id, resume_position, build_trainee_quiz_out, get_attempt,
}
use study_agent_service.Attempt.Reveal.{get_attempt-ok}
use study_agent_service.Attempt.Resume.{is_open_in, compute_resume_question_id-first}

-- Where the position is computed, it is an active question.
resume_active :
    (responses : Dict ℕ QuizQuestionResponse) (qs : List QuizQuestion) {id : ℕ}
    → compute_resume_question_id qs responses ≡ some id
    → is_active_id qs (some id) ≡ true
unfolding compute_resume_question_id active_questions resume_among
resume_active responses [] {id} h = absurd (ground arith)
resume_active responses (q ∷ qs) {id} h = elim (Bool-cases q.is_active) [
  | inr off ↦ ground (arith, resume_active responses qs {id = id})
  | inl on ↦ elim (Option-cases (compute_resume_question_id qs responses)) [
    | inl nothing ↦ ground (arith, ==_iff q.question_id id)
    | inr (k, ek) ↦ ground (arith, ==_iff q.question_id id, resume_active responses qs {id = k} ek)
  ]
]

active_exists :
    (qs : List QuizQuestion) (id : Option ℕ)
    → is_active_id qs id ≡ true
    → (is_some id ≡ true) × (any (λ q. q.is_active) qs ≡ true)
active_exists qs none h = absurd (ground arith)
active_exists qs (some id) h = (refl, active_among qs id h)
  where
    active_among :
        (xs : List QuizQuestion) (i : ℕ)
        → is_active_id xs (some i) ≡ true
        → any (λ q. q.is_active) xs ≡ true
    active_among [] i e = absurd (ground arith)
    active_among (x ∷ xs) i e = ground (arith, active_among xs i)

-- The trainee's view of an attempt that is not running has no resume position. A running one is
-- resumed on its stored question as long as that question is active, answered or not; otherwise on
-- the first question that can still be answered, if there is one. A running attempt has a
-- position exactly if the quiz has an active question, and a position is always an active question.
pub get_attempt-resumes :
    (id user : ℕ) (db : QuizDb) (out : QuizOut)
    → get_attempt id user db ≡ inr out
    → (a : QuizAttempt) × (get_attempt_by_id id db.tables ≡ some a)
      × let questions = get_all_questions_by_quiz a.quiz_id db.tables in
        (is_open a.status ≡ false → out.resume_question_id ≡ none)
        × (is_open a.status ≡ true
            → (is_active_id questions a.resume_question_id ≡ true
                → out.resume_question_id ≡ a.resume_question_id)
              × ((q : QuizQuestion)
                  → is_active_id questions a.resume_question_id ≡ false
                  → find_first (is_open_in (get_responses_map id db.tables)) questions ≡ some q
                  → out.resume_question_id ≡ some q.question_id)
              × (is_some out.resume_question_id ≡ any (λ q. q.is_active) questions))
        × ((q : ℕ) → out.resume_question_id ≡ some q → is_active_id questions (some q) ≡ true)
unfolding build_trainee_quiz_out resume_position
get_attempt-resumes id user db out h =
    let view = get_attempt-ok id user db {out = out} h in
    let a = view.attempt in
    let questions = get_all_questions_by_quiz a.quiz_id db.tables in
    let responses = get_responses_map id db.tables in
    let (first, exists) = compute_resume_question_id-first questions responses in
    let at : out.resume_question_id ≡ resume_position a questions responses =
      ap (λ (o : QuizOut). o.resume_question_id) view.shown in
    let stored = a.resume_question_id in
    (
      a,
      view.found,
      (
        λ closed. ground arith,
        λ running. (
          λ active. ground arith,
          λ q gone found. ground (arith, first q),
          elim (Bool-cases (is_active_id questions stored)) [
            | inl active ↦ ground (arith, active_exists questions stored active)
            | inr gone ↦ ground arith
          ],
        ),
        λ q e. elim (Bool-cases (is_open a.status)) [
          | inr closed ↦ absurd (ground arith)
          | inl running ↦ elim (Bool-cases (is_active_id questions stored)) [
            | inl active ↦
                let it : stored ≡ some q = ground arith in
                subst (λ o. is_active_id questions o ≡ true) it active
            | inr gone ↦ resume_active responses questions {id = q} (ground arith)
          ]
        ],
      ),
    )
