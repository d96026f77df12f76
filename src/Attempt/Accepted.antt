-- ===== src/Attempt/Accepted.antt =====
-- What a handler that does not raise has tested, and what it has written.
use study_agent_service.Prelude.{
  List, ℕ, ◌≡◌, refl, inl, inr, Bool, true, false, not, ◌||◌, Option, some, arith, Option-cases,
}
use study_agent_service.Prelude.Result.{guard, present, Done}
use study_agent_service.Prelude.Result.{bind-ok, guard-ok, present-ok}
use study_agent_service.Guards.{
  assert_space_access, assert_trainee, Spaces, Role, question_already_locked, invalid_skip_payload,
  attempt_not_found,
}
use study_agent_service.Lifecycle.Model.{
  QuizAttempt, AttemptStatus, in_progress, submitted, abandoned, is_open,
}
use study_agent_service.Attempt.Submission.{QuizDb, submit_attempt, close_attempt}
use study_agent_service.Progress.Service.{record_quiz_attempt_submission}
use study_agent_service.Attempt.{QuizQuestionResponse, QuizQuestion}
use study_agent_service.Attempt.Tables.{
  patch_navigation_state, Tables, get_attempt_by_id, get_question_by_id, get_response,
}
use study_agent_service.Attempt.Answers.{
  resume_in, patch_attempt_state, StatePatch, AnswerOut, assert_running, question_in,
  submit_response, record_answer, assert_trainee_owns_attempt, is_locked_response,
}

running-ok : (s : AttemptStatus) {d : Done} → assert_running s ≡ inr d → is_open s ≡ true
unfolding assert_running
running-ok in_progress h = refl
running-ok submitted h = absurd (ground arith)
running-ok abandoned h = absurd (ground arith)

question_in-ok :
    (quiz : ℕ) (active_only : Bool) (id : ℕ) (t : Tables) {q : QuizQuestion}
    → question_in quiz active_only id t ≡ inr q
    → (get_question_by_id id t ≡ some q)
      × (q.quiz_id ≡ quiz)
      × ((not active_only || q.is_active) ≡ true)
unfolding question_in
question_in-ok quiz active_only id t {q} h = elim (Option-cases (get_question_by_id id t)) [
  | inl absent ↦ absurd (ground arith)
  | inr (x, ex) ↦ ground arith
]

-- An answer that is taken.
pub record IsAnswer (id question : ℕ) (selected : Option ℕ) (user : ℕ) (t : Tables)
    (out : AnswerOut × Tables) : Type 0 where
  pub attempt : QuizAttempt
  pub asked : QuizQuestion
  pub chosen : ℕ
  pub found : get_attempt_by_id id t ≡ some attempt
  pub owned : attempt.trainee_id ≡ user
  pub running : is_open attempt.status ≡ true
  pub question_found : get_question_by_id question t ≡ some asked
  pub in_quiz : asked.quiz_id ≡ attempt.quiz_id
  pub not_locked : is_locked_response (get_response id question t) ≡ false
  pub written : out ≡ record_answer attempt asked chosen (get_response id question t) t

pub submit_response-ok :
    (id question : ℕ) (selected : Option ℕ) (user : ℕ) (t : Tables) {out : AnswerOut × Tables}
    → submit_response id question selected user t ≡ inr out
    → IsAnswer id question selected user t out
unfolding submit_response
submit_response-ok id question selected user t h =
    let (a, ea, h1) = bind-ok (present (get_attempt_by_id id t) attempt_not_found) _ h in
    let (_, eo, h2) = bind-ok (assert_trainee_owns_attempt a.trainee_id user) _ h1 in
    let (_, er, h3) = bind-ok (assert_running a.status) _ h2 in
    let (o, es, h4) = bind-ok (present selected invalid_skip_payload) _ h3 in
    let (q, eq, h5) = bind-ok (question_in a.quiz_id false question t) _ h4 in
    let (_, el, h6) =
      bind-ok
        (guard (not (is_locked_response (get_response id question t))) question_already_locked) _
        h5 in
    let (found, quiz, _) = question_in-ok a.quiz_id false question t eq in
    record {
      attempt = a;
      asked = q;
      chosen = o;
      found = present-ok _ _ ea;
      owned = unfold assert_trainee_owns_attempt in ground (arith, guard-ok _ _ eo);
      running = running-ok a.status er;
      question_found = found;
      in_quiz = quiz;
      not_locked = ground (arith, guard-ok _ _ el);
      written = ground arith;
    }

-- A change of the navigation that is taken.
pub record IsPatch (id : ℕ) (p : StatePatch) (user : ℕ) (t : Tables)
    (out : QuizQuestionResponse × Tables) : Type 0 where
  pub attempt : QuizAttempt
  pub asked : QuizQuestion
  pub found : get_attempt_by_id id t ≡ some attempt
  pub owned : attempt.trainee_id ≡ user
  pub running : is_open attempt.status ≡ true
  pub question_found : get_question_by_id p.question_id t ≡ some asked
  pub in_quiz : asked.quiz_id ≡ attempt.quiz_id
  pub active : asked.is_active ≡ true
  pub written :
      out
      ≡ patch_navigation_state attempt.attempt_id asked.question_id p.is_visited p.is_flagged
          p.was_skipped p.resume_question_id t

pub patch_attempt_state-ok :
    (id : ℕ) (p : StatePatch) (user : ℕ) (role : Role) (spaces : Spaces) (t : Tables)
    {out : QuizQuestionResponse × Tables}
    → patch_attempt_state id p user role spaces t ≡ inr out
    → IsPatch id p user t out
unfolding patch_attempt_state
patch_attempt_state-ok id p user role spaces t h =
    let (_, _, h0) = bind-ok (assert_trainee role) _ h in
    let (a, ea, h1) = bind-ok (present (get_attempt_by_id id t) attempt_not_found) _ h0 in
    let (_, eo, h2) = bind-ok (assert_trainee_owns_attempt a.trainee_id user) _ h1 in
    let (_, _, h3) = bind-ok (assert_space_access a.space_id user role spaces) _ h2 in
    let (_, er, h4) = bind-ok (assert_running a.status) _ h3 in
    let (q, eq, h5) = bind-ok (question_in a.quiz_id true p.question_id t) _ h4 in
    let (_, _, h6) = bind-ok (resume_in a.quiz_id p.resume_question_id t) _ h5 in
    let (found, quiz, active) = question_in-ok a.quiz_id true p.question_id t eq in
    record {
      attempt = a;
      asked = q;
      found = present-ok _ _ ea;
      owned = unfold assert_trainee_owns_attempt in ground (arith, guard-ok _ _ eo);
      running = running-ok a.status er;
      question_found = found;
      in_quiz = quiz;
      active = ground arith;
      written = ground arith;
    }

-- A submission that is taken.
pub record IsSubmission (id user now : ℕ) (db : QuizDb) (out : List ℕ × QuizDb) : Type 0 where
  pub attempt : QuizAttempt
  pub found : get_attempt_by_id id db.tables ≡ some attempt
  pub owned : attempt.trainee_id ≡ user
  pub running : is_open attempt.status ≡ true
  pub closed : out.1.tables ≡ (close_attempt attempt now db.tables).1
  pub same_spaces : out.1.spaces ≡ db.spaces

pub submit_attempt-ok :
    (limit id user now : ℕ) (db : QuizDb) {out : List ℕ × QuizDb}
    → submit_attempt limit id user now db ≡ inr out
    → IsSubmission id user now db out
unfolding submit_attempt
submit_attempt-ok limit id user now db h =
    let (a, ea, h1) = bind-ok (present (get_attempt_by_id id db.tables) attempt_not_found) _ h in
    let (_, eo, h2) = bind-ok (assert_trainee_owns_attempt a.trainee_id user) _ h1 in
    let (_, er, h3) = bind-ok (assert_running a.status) _ h2 in
    let (_, _, h4) =
      bind-ok
        (record_quiz_attempt_submission limit a.trainee_id a.node_id a.space_id
          (close_attempt a now db.tables).0.score db.study)
        _ h3 in
    record {
      attempt = a;
      found = present-ok _ _ ea;
      owned = unfold assert_trainee_owns_attempt in ground (arith, guard-ok _ _ eo);
      running = running-ok a.status er;
      closed = ground arith;
      same_spaces = ground arith;
    }
