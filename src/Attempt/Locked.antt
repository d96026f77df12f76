-- ===== src/Attempt/Locked.antt =====
-- A right answer is kept.
use study_agent_service.Attempt.History.{
  Step, start, patch, answer, submit, freeze, elsewhere, Reach, here, next, attempt_found,
  question_found, Step-IsSound,
}
use study_agent_service.Prelude.{sym, subst, ℕ, ◌≡◌, ap, ◌∙◌, true, some}
use study_agent_service.Prelude.Dict.{nat_eq}
use study_agent_service.Attempt.{QuizQuestionResponse}
use study_agent_service.Attempt.Tables.{create_attempt, get_response}
use study_agent_service.Attempt.Answers.{record_answer, is_locked_response}
use study_agent_service.Attempt.Submission.{QuizDb}
use study_agent_service.Attempt.Sound.{IsSound}
use study_agent_service.Attempt.Started.{start_attempt-ok}
use study_agent_service.Attempt.Accepted.{
  submit_attempt-ok, submit_response-ok, patch_attempt_state-ok,
}
use study_agent_service.Attempt.Kept.{
  IsKept, IsKeptIn, unchanged, patch-kept, record_answer-kept, close_attempt-kept,
}

Step-IsKeptIn :
    {d e : QuizDb} (b k : ℕ) {r : QuizQuestionResponse}
    → IsSound d.tables
    → Step d e
    → get_response b k d.tables ≡ some r
    → r.was_locked ≡ true
    → IsKeptIn b k r e.tables
unfolding create_attempt get_response
Step-IsKeptIn {d} b k {r} s (start limit id now node quiz user role {out} fresh h) found locked =
    let ok = start_attempt-ok limit id now node quiz user role d {out = out} h in
    (r, ap (get_response b k) ok.inserted ∙ found, unchanged r)
Step-IsKeptIn {d} b k {r} s (patch id p user role {out} h) found locked =
    let ok = patch_attempt_state-ok id p user role d.spaces d.tables {out = out} h in
    subst (λ o. IsKeptIn b k r o.1) (sym ok.written)
      (patch-kept ok.attempt.attempt_id ok.asked.question_id b k p.is_visited p.is_flagged
        p.was_skipped p.resume_question_id d.tables {r = r} found)
Step-IsKeptIn {d} b k {r} s (answer id question selected user {out} h) found locked =
    let ok = submit_response-ok id question selected user d.tables {out = out} h in
    let (ea, _) = attempt_found d.tables id {a = ok.attempt} ok.found in
    let (eq, _) = question_found d.tables question {q = ok.asked} ok.question_found in
    let e =
      ap (λ x. get_response x question d.tables) (sym ea)
      ∙ ap (λ x. get_response ok.attempt.attempt_id x d.tables) (sym eq) in
    subst (λ o. IsKeptIn b k r o.1) (sym ok.written)
      (subst (λ x. IsKeptIn b k r (record_answer ok.attempt ok.asked ok.chosen x d.tables).1)
        (sym e)
        (record_answer-kept ok.attempt ok.asked ok.chosen b k d.tables {r = r}
          (ap is_locked_response (sym e) ∙ ok.not_locked) found locked))
Step-IsKeptIn {d} b k {r} s (submit limit id user now {out} h) found locked =
    let ok = submit_attempt-ok limit id user now d {out = out} h in
    subst (IsKeptIn b k r) (sym ok.closed)
      (close_attempt-kept d.tables ok.attempt now b k {r = r} s found)
Step-IsKeptIn b k {r} s (freeze quizzes now) found locked = (r, found, unchanged r)
Step-IsKeptIn b k {r} s (elsewhere study) found locked = (r, found, unchanged r)

kept-trans : (r x y : QuizQuestionResponse) → IsKept r x → IsKept x y → IsKept r y
kept-trans r x y h k = record {
  same_option = k.same_option ∙ h.same_option;
  same_verdict = k.same_verdict ∙ h.same_verdict;
  same_hints = k.same_hints ∙ h.same_hints;
  same_lock = k.same_lock ∙ h.same_lock;
}

locked_in_reach :
    (d e : QuizDb) (b k : ℕ) (r : QuizQuestionResponse)
    → IsSound d.tables
    → get_response b k d.tables ≡ some r
    → r.was_locked ≡ true
    → Reach d e
    → IsSound e.tables × IsKeptIn b k r e.tables
locked_in_reach d e b k r s found locked here = (s, (r, found, unchanged r))
locked_in_reach d e b k r s found locked (next {d = x} h st) =
    let (sx, (rx, fx, kx)) = locked_in_reach d x b k r s found locked h in
    let (ry, fy, ky) = Step-IsKeptIn b k {r = rx} sx st fx (kx.same_lock ∙ locked) in
    (Step-IsSound st sx, (ry, fy, kept-trans r rx ry kx ky))

-- On sound tables a right answer is kept: whatever is called afterwards, its response has the same
-- option, verdict, hint level and lock.
pub right_answer_is_kept :
    (d e : QuizDb) (b k : ℕ) (r : QuizQuestionResponse)
    → IsSound d.tables
    → get_response b k d.tables ≡ some r
    → r.was_locked ≡ true
    → Reach d e
    → IsKeptIn b k r e.tables
right_answer_is_kept d e b k r s found locked h = (locked_in_reach d e b k r s found locked h).1
