-- ===== src/Attempt/Kept.antt =====
-- No handler writes over a right answer.
use mathlib.Core.Option.{some_inj}
use study_agent_service.Prelude.{
  not, Option, ℕ, ◌≡◌, refl, ap, ◌∙◌, inl, inr, Bool, true, false, ◌&&◌, none, some, List, [], ◌∷◌,
  arith, ◌==◌, if◌then◌else◌, ==_iff, Bool-cases,
}
use study_agent_service.Prelude.Dict.{lookup, Dict, nat_eq}
use study_agent_service.Lifecycle.Model.{QuizAttempt}
use study_agent_service.Attempt.{is_question_skipped_at_submit, QuizQuestion, QuizQuestionResponse}
use study_agent_service.Attempt.Tables.{
  get_active_questions_by_quiz, get_responses_map, answer_row, patch_row, submit_row,
  update_attempt, patch_navigation_state, Tables, get_response, write_response, upsert_response,
}
use study_agent_service.Attempt.Answers.{record_answer, is_locked_response}
use study_agent_service.Attempt.Rows.{KeepsKey}
use study_agent_service.Attempt.OneWrite.{get_response-write}
use study_agent_service.Attempt.Submission.{
  same, finalized, close_attempt, finalize_skipped_responses, finalize_one,
}
use study_agent_service.Attempt.Sound.{IsSound}
use study_agent_service.Attempt.Lookup.{get_responses_map-lookup}

-- The answer of a response: what it chose, the verdict, the hints and the lock.
pub record IsKept (r r' : QuizQuestionResponse) : Type 0 where
  pub same_option : r'.selected_option ≡ r.selected_option
  pub same_verdict : r'.is_correct ≡ r.is_correct
  pub same_hints : r'.hint_level_reached ≡ r.hint_level_reached
  pub same_lock : r'.was_locked ≡ r.was_locked

pub unchanged : (r : QuizQuestionResponse) → IsKept r r
unchanged r = record {
  same_option = refl;
  same_verdict = refl;
  same_hints = refl;
  same_lock = refl;
}

abbrev pub IsKeptIn : ℕ → ℕ → QuizQuestionResponse → Tables → Type 0
IsKeptIn a k r u = (r' : QuizQuestionResponse) × (get_response a k u ≡ some r') × IsKept r r'

-- A change that is refused, or leaves the answer, keeps it.
write-kept :
    (a q b k : ℕ) (change : QuizQuestionResponse → QuizQuestionResponse) (t : Tables)
    {r x : QuizQuestionResponse}
    → KeepsKey change
    → get_response b k t ≡ some x
    → IsKept r x
    → ((a == b && q == k) ≡ true → IsKept r (change x))
    → IsKeptIn b k r (write_response a q change t).1
write-kept a q b k change t {r} {x} kept found same_answer good =
    elim (Bool-cases (a == b && q == k)) [
      | inl hit ↦ (change x, ground (arith, get_response-write a q b k change t kept), good hit)
      | inr miss ↦ (x, ground (arith, get_response-write a q b k change t kept), same_answer)
    ]

pub record_answer-kept :
    (a : QuizAttempt) (q : QuizQuestion) (chosen b k : ℕ) (t : Tables) {r : QuizQuestionResponse}
    → is_locked_response (get_response a.attempt_id q.question_id t) ≡ false
    → get_response b k t ≡ some r
    → r.was_locked ≡ true
    → IsKeptIn b k r (record_answer a q chosen (get_response a.attempt_id q.question_id t) t).1
unfolding record_answer upsert_response
record_answer-kept a q chosen b k t {r} free found locked =
    write-kept a.attempt_id q.question_id b k _ t {r = r} {x = r} (λ r. (refl, refl)) found
      (unchanged r)
      (λ hit.
        let ea = (==_iff a.attempt_id b).0 (ground arith) in
        let eq = (==_iff q.question_id k).0 (ground arith) in
        absurd (
          ground
            (arith, ap (λ x. get_response x q.question_id t) ea, ap (λ x. get_response b x t) eq)))

if-kept :
    (b k : ℕ) (c : Bool) {r : QuizQuestionResponse} (t u : Tables)
    → IsKeptIn b k r t
    → IsKeptIn b k r u
    → IsKeptIn b k r (if c then t else u)
if-kept b k true t u h g = h
if-kept b k false t u h g = g

pub patch-kept :
    (a q b k : ℕ) (visited flagged skipped : Option Bool) (resume : Option ℕ) (t : Tables)
    {r : QuizQuestionResponse}
    → get_response b k t ≡ some r
    → IsKeptIn b k r (patch_navigation_state a q visited flagged skipped resume t).1
unfolding patch_navigation_state update_attempt get_response
patch-kept a q b k visited flagged skipped resume t {r} found =
    write-kept a q b k (patch_row visited flagged skipped) t {r = r} {x = r} (λ r. (refl, refl))
      found (unchanged r)
      (λ hit. record {
        same_option = refl;
        same_verdict = refl;
        same_hints = refl;
        same_lock = refl;
      })

-- The row that the loop writes for an answer of the map.
kept_row :
    (skipped : Bool) (x y : QuizQuestionResponse) {r : QuizQuestionResponse}
    → (s : QuizQuestionResponse) × (some y ≡ some s) × IsKept r s
    → IsKept r
        (answer_row y.selected_option y.is_correct y.hint_level_reached skipped y.was_locked x)
kept_row skipped x y (s, e, kept) =
    let ys = some_inj.0 e in
    record {
      same_option = ap (λ (z : QuizQuestionResponse). z.selected_option) ys ∙ kept.same_option;
      same_verdict = ap (λ (z : QuizQuestionResponse). z.is_correct) ys ∙ kept.same_verdict;
      same_hints = ap (λ (z : QuizQuestionResponse). z.hint_level_reached) ys ∙ kept.same_hints;
      same_lock = ap (λ (z : QuizQuestionResponse). z.was_locked) ys ∙ kept.same_lock;
    }

-- Where the loop comes to the question, the map holds the answer.
abbrev Holds : ℕ → ℕ → ℕ → ℕ → QuizQuestionResponse → Option QuizQuestionResponse → Type 0
Holds a q b k r response =
    (a == b && q == k) ≡ true → (s : QuizQuestionResponse) × (response ≡ some s) × IsKept r s

finalize_one-kept :
    (a : ℕ) (q : QuizQuestion) (b k : ℕ) (response : Option QuizQuestionResponse) (t : Tables)
    {r : QuizQuestionResponse}
    → IsKeptIn b k r t
    → Holds a q.question_id b k r response
    → IsKeptIn b k r (finalize_one a q response t)
unfolding finalize_one upsert_response is_question_skipped_at_submit
finalize_one-kept a q b k none t {r} (x, found, kept) held =
    if-kept b k (not (is_question_skipped_at_submit q none)) t
      (write_response a q.question_id (answer_row none none 0 true false) t).1 (x, found, kept)
      (write-kept a q.question_id b k (answer_row none none 0 true false) t {r = r} {x = x}
        (λ r. (refl, refl)) found kept
        (λ hit. let (s, none_s, _) = held hit in absurd (ground arith)))
finalize_one-kept a q b k (some y) t {r} (x, found, kept) held =
    let skipped = is_question_skipped_at_submit q (some y) in
    if-kept b k (same y.was_skipped skipped) t
      (write_response a q.question_id
        (answer_row y.selected_option y.is_correct y.hint_level_reached skipped y.was_locked) t).1
      (x, found, kept)
      (write-kept a q.question_id b k
        (answer_row y.selected_option y.is_correct y.hint_level_reached skipped y.was_locked) t
        {r = r} {x = x} (λ r. (refl, refl)) found kept (λ hit. kept_row skipped x y (held hit)))

finalize-kept :
    (a : ℕ) (qs : List QuizQuestion) (b k : ℕ) (d : Dict ℕ QuizQuestionResponse) (t : Tables)
    {r : QuizQuestionResponse}
    → IsKeptIn b k r t
    → ((a == b) ≡ true → (s : QuizQuestionResponse) × (lookup k d ≡ some s) × IsKept r s)
    → IsKeptIn b k r (finalize_skipped_responses a qs d t)
unfolding finalize_skipped_responses
finalize-kept a [] b k d t h held = h
finalize-kept a (q ∷ qs) b k d t {r} h held =
    finalize-kept a qs b k d (finalize_one a q (lookup q.question_id d) t) {r = r}
      (finalize_one-kept a q b k (lookup q.question_id d) t {r = r} h (λ hit.
        let (s, e, kept) = held (ground arith) in
        let ek = (==_iff q.question_id k).0 (ground arith) in
        (s, ap (λ x. lookup x d) ek ∙ e, kept)))
      held

pub close_attempt-kept :
    (t : Tables) (a : QuizAttempt) (now b k : ℕ) {r : QuizQuestionResponse}
    → IsSound t
    → get_response b k t ≡ some r
    → IsKeptIn b k r (close_attempt a now t).1
unfolding close_attempt submit_row update_attempt finalized get_responses_map get_response
close_attempt-kept t a now b k {r} s found =
    finalize-kept a.attempt_id (get_active_questions_by_quiz a.quiz_id t) b k
      (get_responses_map a.attempt_id t) t {r = r} (r, found, unchanged r)
      (λ hit. (
        r,
        get_responses_map-lookup t a.attempt_id k s
            ∙ ap (λ x. get_response x k t) ((==_iff a.attempt_id b).0 hit)
            ∙ found,
        unchanged r,
      ))
