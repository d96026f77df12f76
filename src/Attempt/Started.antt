-- ===== src/Attempt/Started.antt =====
-- What a start that does not raise has tested, and what it has inserted.
use study_agent_service.Prelude.{◌==◌, is_some, ℕ, ◌≡◌, inr, true, false, not, some, arith}
use study_agent_service.Prelude.Result.{guard, present}
use study_agent_service.Prelude.Result.{bind-ok, guard-ok, present-ok}
use study_agent_service.Guards.{
  attempt_already_in_progress, quiz_not_published, quiz_not_found, get_node_and_assert_space_access,
  assert_space_access, assert_trainee, Role,
}
use study_agent_service.Lifecycle.Model.{Quiz}
use study_agent_service.Attempt.Submission.{QuizDb}
use study_agent_service.Progress.Service.{get_published_quiz_by_node, unlocked}
use study_agent_service.Attempt.Views.{get_quiz_by_id, QuizOut}
use study_agent_service.Attempt.Tables.{
  new_attempt, create_attempt, get_active_attempt_by_quiz_and_trainee, Tables,
}
use study_agent_service.Progress.Store.{Db}
use study_agent_service.Attempt.Starting.{
  get_published_study_material, validate_study_material_is_currently_published_for_node,
  start_attempt, startable_quiz,
}
use study_agent_service.Progress.Unlocking.Granting.{assert_trainee_node_unlocked}

-- A start that is taken.
pub record IsStart (id now node quiz user : ℕ) (db : QuizDb) (out : QuizOut × QuizDb) : Type 0 where
  pub space : ℕ
  pub granted : Db
  pub unlocked_node :
      (limit : ℕ) × (unlocked (assert_trainee_node_unlocked limit user node space db.study)
        ≡ inr granted)
  pub started : Quiz
  pub found : get_quiz_by_id quiz granted.quizzes ≡ some started
  pub published : (started.is_published ≡ true) × (started.node_id ≡ node)
  pub none_active : is_some (get_active_attempt_by_quiz_and_trainee quiz user db.tables) ≡ false
  pub inserted : out.1.tables ≡ create_attempt (new_attempt id quiz node space user now) db.tables

pub record IsStartable (node quiz user : ℕ) (study : Db) (t : Tables) (q : Quiz) : Type 0 where
  pub found : get_quiz_by_id quiz study.quizzes ≡ some q
  pub published : (q.is_published ≡ true) × (q.node_id ≡ node)
  pub none_active : is_some (get_active_attempt_by_quiz_and_trainee quiz user t) ≡ false

startable_quiz-ok :
    (node quiz user : ℕ) (study : Db) (t : Tables) {q : Quiz}
    → startable_quiz node quiz user study t ≡ inr q
    → IsStartable node quiz user study t q
unfolding startable_quiz
startable_quiz-ok node quiz user study t h =
    let (live, _, h1) =
      bind-ok (present (get_published_quiz_by_node node study) quiz_not_found) _ h in
    let (_, _, h2) = bind-ok (guard (live.quiz_id == quiz) quiz_not_found) _ h1 in
    let (q, eq, h3) = bind-ok (present (get_quiz_by_id quiz study.quizzes) quiz_not_found) _ h2 in
    let (_, en, h4) = bind-ok (guard (q.node_id == node) quiz_not_found) _ h3 in
    let (_, ep, h5) = bind-ok (guard q.is_published quiz_not_published) _ h4 in
    let (_, ea, h6) =
      bind-ok
        (guard (not (is_some (get_active_attempt_by_quiz_and_trainee quiz user t)))
          attempt_already_in_progress)
        _ h5 in
    let (_, _, h7) =
      bind-ok
        (validate_study_material_is_currently_published_for_node node q.study_material_version_id
          (get_published_study_material node study))
        _ h6 in
    record {
      found = ground (arith, present-ok _ _ eq);
      published = ground (arith, guard-ok _ _ en, guard-ok _ _ ep);
      none_active = ground (arith, guard-ok _ _ ea);
    }

pub start_attempt-ok :
    (limit id now node quiz user : ℕ) (role : Role) (db : QuizDb) {out : QuizOut × QuizDb}
    → start_attempt limit id now node quiz user role db ≡ inr out
    → IsStart id now node quiz user db out
unfolding start_attempt
start_attempt-ok limit id now node quiz user role db h =
    let (_, _, h1) = bind-ok (assert_trainee role) _ h in
    let (n, _, h2) =
      bind-ok (get_node_and_assert_space_access node user false db.study.topic_nodes db.spaces) _
        h1 in
    let (_, _, h3) = bind-ok (assert_space_access n.space_id user role db.spaces) _ h2 in
    let (study', eu, h4) =
      bind-ok (unlocked (assert_trainee_node_unlocked limit user node n.space_id db.study)) _ h3 in
    let (q, eq, h5) = bind-ok (startable_quiz node quiz user study' db.tables) _ h4 in
    let ok = startable_quiz-ok node quiz user study' db.tables eq in
    record {
      space = n.space_id;
      granted = study';
      unlocked_node = (limit, eu);
      started = q;
      found = ok.found;
      published = ok.published;
      none_active = ok.none_active;
      inserted = ground arith;
    }
