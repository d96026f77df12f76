-- ===== src/Attempt/History.antt =====
-- The histories of the attempt tables: every sequence of accepted calls of the trainees, of freezes,
-- and of any other changes of the study tables, with the questions fixed, as those of a published quiz
-- are.
use study_agent_service.Prelude.{
  none_length, find_first-is_some, find_first-holds, ℕ, ◌≡◌, sym, ap, ◌∙◌, subst, inr, Bool, true,
  ◌&&◌, Option, some, List, arith, ◌==◌, ==_iff, length, all,
}
use study_agent_service.Guards.{Role}
use study_agent_service.Lifecycle.Model.{QuizAttempt}
use study_agent_service.Lifecycle.Store.{abandon_in_progress_attempts_for_quizzes}
use study_agent_service.Progress.Store.{Db}
use study_agent_service.Attempt.{QuizQuestion, QuizQuestionResponse}
use study_agent_service.Attempt.Tables.{
  Tables, new_attempt, get_attempt_by_id, get_question_by_id,
  get_active_attempt_by_quiz_and_trainee, get_response,
}
use study_agent_service.Attempt.Answers.{
  StatePatch, AnswerOut, patch_attempt_state, submit_response, record_answer,
}
use study_agent_service.Attempt.Submission.{QuizDb, submit_attempt}
use study_agent_service.Attempt.Views.{QuizOut}
use study_agent_service.Attempt.Starting.{start_attempt}
use study_agent_service.Attempt.Accepted.{
  patch_attempt_state-ok, submit_response-ok, submit_attempt-ok,
}
use study_agent_service.Attempt.Started.{start_attempt-ok}
use study_agent_service.Attempt.Sound.{
  distinct_questions, IsSound, is_sound_row, attempt_of, question_of, open_for, single_attempts,
}
use study_agent_service.Attempt.Writes.{record_answer-IsSound, patch_navigation_state-IsSound}
use study_agent_service.Attempt.Opening.{is_fresh, create_attempt-IsSound, freeze-IsSound}
use study_agent_service.Attempt.Closing.{close_attempt-IsSound}
use study_agent_service.Attempt.Rows.{distinct_responses}

pub data Step (db : QuizDb) : QuizDb → Type 0 where
  start :
      (limit id now node quiz user : ℕ) (role : Role) {out : QuizOut × QuizDb}
      → is_fresh id db.tables ≡ true
      → start_attempt limit id now node quiz user role db ≡ inr out
      → Step db out.1
  patch :
      (id : ℕ) (p : StatePatch) (user : ℕ) (role : Role) {out : QuizQuestionResponse × Tables}
      → patch_attempt_state id p user role db.spaces db.tables ≡ inr out
      → Step db (record db { tables = out.1 })
  answer :
      (id question : ℕ) (selected : Option ℕ) (user : ℕ) {out : AnswerOut × Tables}
      → submit_response id question selected user db.tables ≡ inr out
      → Step db (record db { tables = out.1 })
  submit :
      (limit id user now : ℕ) {out : List ℕ × QuizDb}
      → submit_attempt limit id user now db ≡ inr out
      → Step db out.1
  freeze :
      (quizzes : List ℕ) (now : ℕ)
      → Step db (record db {
        tables = record (db.tables) {
          attempts = (abandon_in_progress_attempts_for_quizzes quizzes now db.tables.attempts).0;
        };
      })
  elsewhere : (study : Db) → Step db (record db { study = study })

pub data Reach (s : QuizDb) : QuizDb → Type 0 where
  here : Reach s s
  next : {d e : QuizDb} → Reach s d → Step d e → Reach s e

pub attempt_found :
    (t : Tables) (id : ℕ) {a : QuizAttempt}
    → get_attempt_by_id id t ≡ some a
    → (a.attempt_id ≡ id) × (attempt_of t.attempts a.attempt_id ≡ some a)
unfolding get_attempt_by_id
attempt_found t id {a} h =
    let e =
      (==_iff a.attempt_id id).0
        (find_first-holds (λ a. a.attempt_id == id) t.attempts {x = a} h) in
    (e, ap (attempt_of t.attempts) e ∙ h)

pub question_found :
    (t : Tables) (id : ℕ) {q : QuizQuestion}
    → get_question_by_id id t ≡ some q
    → (q.question_id ≡ id) × (question_of t.questions q.question_id ≡ some q)
unfolding get_question_by_id
question_found t id {q} h =
    let e =
      (==_iff q.question_id id).0
        (find_first-holds (λ q. q.question_id == id) t.questions {x = q} h) in
    (e, ap (question_of t.questions) e ∙ h)

answer-IsSound :
    (id question : ℕ) (selected : Option ℕ) (user : ℕ) (t : Tables) {out : AnswerOut × Tables}
    → submit_response id question selected user t ≡ inr out
    → IsSound t
    → IsSound out.1
answer-IsSound id question selected user t {out} h s =
    let ok = submit_response-ok id question selected user t {out = out} h in
    let (ea, fa) = attempt_found t id {a = ok.attempt} ok.found in
    let (eq, fq) = question_found t question {q = ok.asked} ok.question_found in
    subst (λ o. IsSound o.1) (sym ok.written)
      (subst
        (λ k. IsSound (record_answer ok.attempt ok.asked ok.chosen (get_response k question t) t).1)
        ea
        (subst
          (λ k.
            IsSound
              (record_answer ok.attempt ok.asked ok.chosen (get_response ok.attempt.attempt_id k t)
                t).1)
          eq (record_answer-IsSound t ok.attempt ok.asked ok.chosen s fa fq ok.in_quiz)))

start-IsSound :
    (limit id now node quiz user : ℕ) (role : Role) (db : QuizDb) {out : QuizOut × QuizDb}
    → start_attempt limit id now node quiz user role db ≡ inr out
    → is_fresh id db.tables ≡ true
    → IsSound db.tables
    → IsSound out.1.tables
unfolding new_attempt get_active_attempt_by_quiz_and_trainee
start-IsSound limit id now node quiz user role db {out} h fresh s =
    let ok = start_attempt-ok limit id now node quiz user role db {out = out} h in
    subst IsSound (sym ok.inserted) (
      create_attempt-IsSound db.tables (new_attempt id quiz node ok.space user now) s fresh
        (sym (find_first-is_some (open_for quiz user) db.tables.attempts) ∙ ok.none_active))

pub Step-IsSound : {d e : QuizDb} → Step d e → IsSound d.tables → IsSound e.tables
Step-IsSound {d} (start limit id now node quiz user role {out} fresh h) s =
    start-IsSound limit id now node quiz user role d {out = out} h fresh s
Step-IsSound {d} (patch id p user role {out} h) s =
    let ok = patch_attempt_state-ok id p user role d.spaces d.tables {out = out} h in
    subst (λ o. IsSound o.1) (sym ok.written)
      (patch_navigation_state-IsSound d.tables ok.attempt ok.asked p.is_visited p.is_flagged
        p.was_skipped p.resume_question_id s (attempt_found d.tables id {a = ok.attempt} ok.found).1
        (question_found d.tables p.question_id {q = ok.asked} ok.question_found).1 ok.in_quiz)
Step-IsSound {d} (answer id question selected user {out} h) s =
    answer-IsSound id question selected user d.tables {out = out} h s
Step-IsSound {d} (submit limit id user now {out} h) s =
    let ok = submit_attempt-ok limit id user now d {out = out} h in
    subst IsSound (sym ok.closed) (
      close_attempt-IsSound d.tables ok.attempt now s
        (attempt_found d.tables id {a = ok.attempt} ok.found).1)
Step-IsSound {d} (freeze quizzes now) s = freeze-IsSound quizzes now d.tables s
Step-IsSound (elsewhere study) s = s

-- A database before the first attempt; the ids of the questions are distinct.
abbrev pub has_no_attempts : QuizDb → Bool
has_no_attempts db =
    distinct_questions db.tables.questions
    && (length db.tables.attempts == 0 && length db.tables.responses == 0)

-- After any sequence of accepted starts, patches, answers and submissions, of freezes, and of changes
-- of the study tables, begun without attempts: no trainee has two running attempts at one quiz,
-- attempt ids and the pairs of attempt and question are unique, and every response is to a question
-- of the attempted quiz, has a hint level of at most 3, is marked right exactly if it chose the correct
-- option and locked exactly if right, and is not marked as skipped once answered.
pub attempt_history-IsSound :
    (s d : QuizDb) → has_no_attempts s ≡ true → Reach s d → IsSound d.tables
attempt_history-IsSound s d none_yet here = record {
  questions = ground arith;
  rows =
      ap (all (is_sound_row s.tables.questions s.tables.attempts))
        (none_length s.tables.responses (ground arith));
  keys = ap distinct_responses (none_length s.tables.responses (ground arith));
  attempts = ap single_attempts (none_length s.tables.attempts (ground arith));
}
attempt_history-IsSound s e none_yet (next {d} r st) =
    Step-IsSound st (attempt_history-IsSound s d none_yet r)
