-- ===== src/Attempt/Final.antt =====
-- An attempt that is over stays as it is.
use study_agent_service.Prelude.{
  ℕ, ◌≡◌, refl, sym, ap, ◌∙◌, subst, inl, inr, true, false, some, List, [], ◌∷◌, map, arith, ◌==◌,
  ==_iff, Bool-cases,
}
use study_agent_service.Lifecycle.Model.{QuizAttempt, is_open}
use study_agent_service.Lifecycle.Store.{abandon_in_progress_attempts_for_quizzes, abandon_one}
use study_agent_service.Attempt.Tables.{
  Tables, create_attempt, new_attempt, get_attempt_by_id, get_all_responses_for_attempt,
}
use study_agent_service.Attempt.Submission.{QuizDb}
use study_agent_service.Attempt.Accepted.{
  patch_attempt_state-ok, submit_response-ok, submit_attempt-ok,
}
use study_agent_service.Attempt.Started.{start_attempt-ok}
use study_agent_service.Attempt.Sound.{attempt_of}
use study_agent_service.Prelude.Dict.{nat_eq}
use study_agent_service.Attempt.History.{
  start, patch, answer, submit, freeze, elsewhere, Step, Reach, here, next, attempt_found,
}
use study_agent_service.Attempt.Opening.{attempt_of-append}
use study_agent_service.Attempt.Untouched.{
  IsUntouched, IsUntouched-trans, close_attempt-IsUntouched, record_answer-IsUntouched,
  patch-IsUntouched,
}

create_attempt-IsUntouched :
    (id : ℕ) (a : QuizAttempt) (t : Tables) {b : QuizAttempt}
    → get_attempt_by_id id t ≡ some b
    → IsUntouched id t (create_attempt a t)
unfolding create_attempt get_attempt_by_id get_all_responses_for_attempt
create_attempt-IsUntouched id a t {b} found = record {
  same_attempt = attempt_of-append t.attempts a id {b = b} found ∙ sym found;
  same_responses = refl;
}

frozen-other :
    (id : ℕ) (quizzes : List ℕ) (now : ℕ) (xs : List QuizAttempt) {a : QuizAttempt}
    → attempt_of xs id ≡ some a
    → is_open a.status ≡ false
    → attempt_of (map (abandon_one quizzes now) xs) id ≡ attempt_of xs id
frozen-other id quizzes now [] found over = absurd (ground arith)
frozen-other id quizzes now (x ∷ xs) {a} found over = elim (Bool-cases (x.attempt_id == id)) [
  | inl hit ↦ ground arith
  | inr miss ↦ ground (arith, frozen-other id quizzes now xs {a = a})
]

freeze-IsUntouched :
    (id : ℕ) (quizzes : List ℕ) (now : ℕ) (t : Tables) {a : QuizAttempt}
    → get_attempt_by_id id t ≡ some a
    → is_open a.status ≡ false
    → IsUntouched id t (record t {
      attempts = (abandon_in_progress_attempts_for_quizzes quizzes now t.attempts).0;
    })
unfolding abandon_in_progress_attempts_for_quizzes get_attempt_by_id get_all_responses_for_attempt
freeze-IsUntouched id [] now t found over = record { same_attempt = refl; same_responses = refl }
freeze-IsUntouched id (q ∷ qs) now t {a} found over = record {
  same_attempt = frozen-other id (q ∷ qs) now t.attempts {a = a} found over;
  same_responses = refl;
}

-- A running attempt is another one than an attempt that is over.
other_attempt :
    (t : Tables) (id id' : ℕ) {a b : QuizAttempt}
    → get_attempt_by_id id t ≡ some a
    → is_open a.status ≡ false
    → get_attempt_by_id id' t ≡ some b
    → is_open b.status ≡ true
    → (b.attempt_id == id) ≡ false
other_attempt t id id' {a} {b} fa over fb running = elim (Bool-cases (b.attempt_id == id)) [
  | inl same_id ↦
      let e = sym (attempt_found t id' {a = b} fb).0 ∙ (==_iff b.attempt_id id).0 same_id in
      absurd (ground (arith, ap (λ k. get_attempt_by_id k t) e))
  | inr other ↦ other
]

Step-IsUntouched :
    {d e : QuizDb} (id : ℕ) {a : QuizAttempt}
    → Step d e
    → get_attempt_by_id id d.tables ≡ some a
    → is_open a.status ≡ false
    → IsUntouched id d.tables e.tables
Step-IsUntouched {d} id {a} (start limit id' now node quiz user role {out} fresh h) found over =
    let ok = start_attempt-ok limit id' now node quiz user role d {out = out} h in
    subst (IsUntouched id d.tables) (sym ok.inserted) (
      create_attempt-IsUntouched id (new_attempt id' quiz node ok.space user now) d.tables {b = a}
        found)
Step-IsUntouched {d} id {a} (patch id' p user role {out} h) found over =
    let ok = patch_attempt_state-ok id' p user role d.spaces d.tables {out = out} h in
    subst (λ o. IsUntouched id d.tables o.1) (sym ok.written)
      (patch-IsUntouched id ok.attempt.attempt_id ok.asked.question_id p.is_visited p.is_flagged
        p.was_skipped p.resume_question_id d.tables
        (other_attempt d.tables id id' {a = a} {b = ok.attempt} found over ok.found ok.running))
Step-IsUntouched {d} id {a} (answer id' question selected user {out} h) found over =
    let ok = submit_response-ok id' question selected user d.tables {out = out} h in
    subst (λ o. IsUntouched id d.tables o.1) (sym ok.written)
      (record_answer-IsUntouched id ok.attempt ok.asked ok.chosen _ d.tables
        (other_attempt d.tables id id' {a = a} {b = ok.attempt} found over ok.found ok.running))
Step-IsUntouched {d} id {a} (submit limit id' user now {out} h) found over =
    let ok = submit_attempt-ok limit id' user now d {out = out} h in
    subst (IsUntouched id d.tables) (sym ok.closed) (
      close_attempt-IsUntouched id ok.attempt now d.tables
        (other_attempt d.tables id id' {a = a} {b = ok.attempt} found over ok.found ok.running))
Step-IsUntouched {d} id {a} (freeze quizzes now) found over =
    freeze-IsUntouched id quizzes now d.tables {a = a} found over
Step-IsUntouched id (elsewhere study) found over = record {
  same_attempt = refl;
  same_responses = refl;
}

-- An attempt that is submitted or abandoned never changes again, nor do its responses, whatever the
-- trainees, the freezes and the mentors do afterwards.
pub finished_attempt_is_final :
    (d e : QuizDb) (id : ℕ) (a : QuizAttempt)
    → get_attempt_by_id id d.tables ≡ some a
    → is_open a.status ≡ false
    → Reach d e
    → IsUntouched id d.tables e.tables
finished_attempt_is_final d e id a found over here = record {
  same_attempt = refl;
  same_responses = refl;
}
finished_attempt_is_final d e id a found over (next {d = x} r st) =
    let before = finished_attempt_is_final d x id a found over r in
    IsUntouched-trans d.tables x.tables e.tables before
      (Step-IsUntouched id {a = a} st (before.same_attempt ∙ found) over)
