-- ===== src/Attempt/Reveal.antt =====
-- What a trainee is shown.
use study_agent_service.Prelude.{
  ℕ, ◌≡◌, refl, sym, ap, ◌∙◌, inl, inr, Bool, true, false, not, ◌&&◌, ◌||◌, Option, none, some,
  Option-cases, List, [], ◌∷◌, map, arith, leb, if◌then◌else◌, Bool-cases, is_some, any, all,
}
use study_agent_service.Prelude.Result.{ok-injective, bind-ok, present-ok, guard-ok, present}
use study_agent_service.Prelude.Dict.{Dict, lookup, nat_eq}
use study_agent_service.Guards.{attempt_not_found}
use study_agent_service.Progress.Completion.{score_meets_pass_threshold}
use study_agent_service.Lifecycle.Model.{Quiz, QuizAttempt}
use study_agent_service.Attempt.{QuizQuestion, QuizQuestionResponse}
use study_agent_service.Attempt.Tables.{
  get_attempt_by_id, get_all_questions_by_quiz, get_responses_map,
}
use study_agent_service.Attempt.Answers.{assert_trainee_owns_attempt, hint_at}
use study_agent_service.Attempt.Submission.{QuizDb}
use study_agent_service.Attempt.Views.{
  QuestionOut, QuizOut, build_question_out, build_trainee_quiz_out, get_attempt,
  get_best_submitted_score, get_quiz_for_attempt, refuse_abandoned, is_submitted,
}

abbrev pub keeps_secret : QuestionOut → Bool
keeps_secret o = not (is_some o.correct_option) && not (is_some o.explanation)

-- The level that the attempt's stored response to a question has reached: none without a response.
abbrev pub stored_level : Dict ℕ QuizQuestionResponse → ℕ → ℕ
stored_level responses question = elim (lookup question responses) [
  | none ↦ 0
  | some r ↦ r.hint_level_reached
]

-- A hint is shown only up to the stored level.
abbrev pub hints_earned : Dict ℕ QuizQuestionResponse → QuestionOut → Bool
hints_earned responses o =
    let level = stored_level responses o.question_id in
    (not (is_some o.hint_1) || leb 1 level)
    && ((not (is_some o.hint_2) || leb 2 level) && (not (is_some o.hint_3) || leb 3 level))

question_out-hints :
    (d : Dict ℕ QuizQuestionResponse) (q : QuizQuestion) (attempt_submitted reveal : Bool)
    → hints_earned d (build_question_out q (lookup q.question_id d) attempt_submitted reveal) ≡ true
unfolding build_question_out hint_at
question_out-hints d q attempt_submitted reveal = elim (Option-cases (lookup q.question_id d)) [
  | inl absent ↦ ground arith
  | inr (r, found) ↦ ground arith
]

question_out-secret :
    (q : QuizQuestion) (r : Option QuizQuestionResponse) (attempt_submitted reveal : Bool)
    → reveal ≡ false
    → keeps_secret (build_question_out q r attempt_submitted reveal) ≡ true
unfolding build_question_out
question_out-secret q r attempt_submitted reveal h = ground arith

questions_out :
    (d : Dict ℕ QuizQuestionResponse) (attempt_submitted met : Bool) (qs : List QuizQuestion)
    → (any
            (λ o. not (keeps_secret o))
            (map
              (λ q.
                build_question_out q
                  (lookup q.question_id d)
                  attempt_submitted
                  (attempt_submitted && met))
              qs)
          ≡ true
        → (attempt_submitted && met) ≡ true)
      × (all (hints_earned d) (
            map
              (λ q.
                build_question_out q
                  (lookup q.question_id d)
                  attempt_submitted
                  (attempt_submitted && met))
              qs)
          ≡ true)
questions_out d attempt_submitted met [] = (λ h. absurd (ground arith), refl)
questions_out d attempt_submitted met (q ∷ qs) =
    let (secret, hints) = questions_out d attempt_submitted met qs in
    (
      λ h. elim (Bool-cases (attempt_submitted && met)) [
        | inl revealed ↦ revealed
        | inr hidden ↦ secret (
            ground (
              arith,
              question_out-secret q (lookup q.question_id d) attempt_submitted
                  (attempt_submitted && met),
            ))
      ],
      ground (arith, question_out-hints d q attempt_submitted (attempt_submitted && met)),
    )

-- What is behind a view.
pub record IsView (id user : ℕ) (db : QuizDb) (out : QuizOut) : Type 0 where
  pub attempt : QuizAttempt
  pub quiz : Quiz
  pub found : get_attempt_by_id id db.tables ≡ some attempt
  pub owned : attempt.trainee_id ≡ user
  pub quiz_of_attempt : get_quiz_for_attempt attempt db ≡ inr quiz
  pub shown :
      out
      ≡ build_trainee_quiz_out quiz attempt
          (get_all_questions_by_quiz attempt.quiz_id db.tables)
          (get_responses_map id db.tables)
          (get_best_submitted_score attempt.quiz_id attempt.trainee_id db.tables)

pub get_attempt-ok :
    (id user : ℕ) (db : QuizDb) {out : QuizOut}
    → get_attempt id user db ≡ inr out
    → IsView id user db out
unfolding get_attempt
get_attempt-ok id user db {out} h =
    let (a, ea, h1) = bind-ok (present (get_attempt_by_id id db.tables) attempt_not_found) _ h in
    let (_, eo, h2) = bind-ok (assert_trainee_owns_attempt a.trainee_id user) _ h1 in
    let (_, _, h3) = bind-ok (refuse_abandoned a.status) _ h2 in
    let (quiz, eq, h4) = bind-ok (get_quiz_for_attempt a db) _ h3 in
    record {
      attempt = a;
      quiz = quiz;
      found = present-ok _ _ ea;
      owned = unfold assert_trainee_owns_attempt in ground (arith, guard-ok _ _ eo);
      quiz_of_attempt = eq;
      shown = sym (ok-injective h4);
    }

-- A view of an attempt is of the trainee's own; it shows a correct option or an explanation only if
-- the attempt is submitted and the view reports the pass threshold as met, and each hint only if the
-- attempt's stored response to the question has reached its level, so none without a response.
pub get_attempt-reveals :
    (id user : ℕ) (db : QuizDb) (out : QuizOut)
    → get_attempt id user db ≡ inr out
    → (a : QuizAttempt) × (get_attempt_by_id id db.tables ≡ some a)
      × (a.trainee_id ≡ user)
      × (any (λ o. not (keeps_secret o)) out.questions ≡ true
          → (is_submitted a.status ≡ true) × (out.has_met_pass_threshold ≡ true))
      × (all (hints_earned (get_responses_map id db.tables)) out.questions ≡ true)
unfolding build_trainee_quiz_out
get_attempt-reveals id user db out h =
    let view = get_attempt-ok id user db {out = out} h in
    let a = view.attempt in
    let best = get_best_submitted_score a.quiz_id a.trainee_id db.tables in
    let met =
      score_meets_pass_threshold (if is_some best then best else a.score)
        view.quiz.pass_threshold_percent in
    let (secret, hints) =
      questions_out (get_responses_map id db.tables) (is_submitted a.status) met
        (get_all_questions_by_quiz a.quiz_id db.tables) in
    (
      a,
      view.found,
      view.owned,
      λ e.
          let earned = secret (
            sym (ap (λ (o : QuizOut). any (λ q. not (keeps_secret q)) o.questions) view.shown)
            ∙ e) in
          (
            ground (arith, earned),
            ap (λ (o : QuizOut). o.has_met_pass_threshold) view.shown ∙ ground (arith, earned),
          ),
      ap (λ (o : QuizOut). all (hints_earned (get_responses_map id db.tables)) o.questions)
            view.shown
          ∙ hints,
    )
