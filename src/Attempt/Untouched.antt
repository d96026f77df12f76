-- ===== src/Attempt/Untouched.antt =====
-- A write for one attempt leaves the other attempts and their responses.
use study_agent_service.Prelude.{
  ℕ, ◌≡◌, refl, ◌∙◌, Bool, true, false, not, Option, none, some, List, [], ◌∷◌, ◌++◌, map, arith,
  ◌==◌, if◌then◌else◌, is_some, keep,
}
use study_agent_service.Lifecycle.Model.{QuizAttempt}
use study_agent_service.Attempt.{is_question_skipped_at_submit, QuizQuestion, QuizQuestionResponse}
use study_agent_service.Attempt.Tables.{
  answer_row, get_active_questions_by_quiz, by_question, Tables, is_response_to, get_attempt_by_id,
  get_all_responses_for_attempt, put_response, write_response, upsert_response, update_attempt,
  submit_row, submitted_row, patch_navigation_state, patch_row, blank_response,
}
use study_agent_service.Attempt.Answers.{next_hint_level, level_of, record_answer}
use study_agent_service.Attempt.Submission.{
  same, finalize_one, finalize_skipped_responses, finalized, close_attempt,
}
use study_agent_service.Attempt.Rows.{KeepsKey}
use study_agent_service.Attempt.Sound.{attempt_of}
use study_agent_service.Prelude.Dict.{Dict, lookup, nat_eq}

-- The attempt of an id and its responses are those of the tables before.
pub record IsUntouched (id : ℕ) (t u : Tables) : Type 0 where
  pub same_attempt : get_attempt_by_id id u ≡ get_attempt_by_id id t
  pub same_responses : get_all_responses_for_attempt id u ≡ get_all_responses_for_attempt id t

pub IsUntouched-trans :
    {id : ℕ} (t u v : Tables) → IsUntouched id t u → IsUntouched id u v → IsUntouched id t v
IsUntouched-trans t u v h k = record {
  same_attempt = k.same_attempt ∙ h.same_attempt;
  same_responses = k.same_responses ∙ h.same_responses;
}

-- A change of the rows of one key leaves the rows of another attempt.
keep-changed :
    (id attempt question : ℕ) (change : QuizQuestionResponse → QuizQuestionResponse)
    (rows : List QuizQuestionResponse)
    → KeepsKey change
    → (attempt == id) ≡ false
    → keep
        (λ r. r.attempt_id == id)
        (map (λ r. if is_response_to attempt question r then change r else r) rows)
      ≡ keep (λ r. r.attempt_id == id) rows
keep-changed id attempt question change [] kept other = refl
keep-changed id attempt question change (r ∷ rows) kept other =
    ground (arith, kept r, keep-changed id attempt question change rows kept other)

keep-append :
    (id : ℕ) (rows : List QuizQuestionResponse) (new : QuizQuestionResponse)
    → (new.attempt_id == id) ≡ false
    → keep (λ r. r.attempt_id == id) (rows ++ new ∷ []) ≡ keep (λ r. r.attempt_id == id) rows
keep-append id [] new other = ground arith
keep-append id (r ∷ rows) new other = ground (arith, keep-append id rows new)

write_response-IsUntouched :
    (id attempt question : ℕ) (change : QuizQuestionResponse → QuizQuestionResponse) (t : Tables)
    → KeepsKey change
    → (attempt == id) ≡ false
    → IsUntouched id t (write_response attempt question change t).1
unfolding write_response get_all_responses_for_attempt put_response get_attempt_by_id
write_response-IsUntouched id attempt question change t kept other = record {
  same_attempt = refl;
  same_responses = ground (
    arith,
    kept (blank_response attempt question),
    keep-changed id attempt question change t.responses kept other,
    keep-append id t.responses (change (blank_response attempt question)),
  );
}

attempt_of-other :
    (id attempt : ℕ) (change : QuizAttempt → QuizAttempt) (xs : List QuizAttempt)
    → ((a : QuizAttempt) → (change a).attempt_id ≡ a.attempt_id)
    → (attempt == id) ≡ false
    → attempt_of (map (λ a. if a.attempt_id == attempt then change a else a) xs) id
      ≡ attempt_of xs id
attempt_of-other id attempt change [] kept other = refl
attempt_of-other id attempt change (x ∷ xs) kept other =
    ground (arith, kept x, attempt_of-other id attempt change xs)

update_attempt-IsUntouched :
    (id attempt : ℕ) (change : QuizAttempt → QuizAttempt) (t : Tables)
    → ((a : QuizAttempt) → (change a).attempt_id ≡ a.attempt_id)
    → (attempt == id) ≡ false
    → IsUntouched id t (update_attempt attempt change t)
unfolding update_attempt get_attempt_by_id get_all_responses_for_attempt
update_attempt-IsUntouched id attempt change t kept other = record {
  same_attempt = attempt_of-other id attempt change t.attempts kept other;
  same_responses = refl;
}

if-elim : (P : Tables → Type 0) (b : Bool) {t u : Tables} → P t → P u → P (if b then t else u)
if-elim P true h k = h
if-elim P false h k = k

-- A round of the loop is nothing or one write.
pub finalize_one-elim :
    (P : Tables → Type 0) (attempt : ℕ) (q : QuizQuestion) (response : Option QuizQuestionResponse)
    (t : Tables)
    → P t
    → ((change : QuizQuestionResponse → QuizQuestionResponse)
        → KeepsKey change
        → P (write_response attempt q.question_id change t).1)
    → P (finalize_one attempt q response t)
unfolding finalize_one upsert_response is_question_skipped_at_submit
finalize_one-elim P attempt q none t h k =
    if-elim P (not (is_question_skipped_at_submit q none)) h
      (k (answer_row none none 0 true false) (λ r. (refl, refl)))
finalize_one-elim P attempt q (some r) t h k =
    let skipped = is_question_skipped_at_submit q (some r) in
    if-elim P (same r.was_skipped skipped) h (
      k (answer_row r.selected_option r.is_correct r.hint_level_reached skipped r.was_locked)
        (λ r. (refl, refl)))

finalize_skipped-IsUntouched :
    (id attempt : ℕ) (qs : List QuizQuestion) (d : Dict ℕ QuizQuestionResponse) (t : Tables)
    → (attempt == id) ≡ false
    → IsUntouched id t (finalize_skipped_responses attempt qs d t)
unfolding finalize_skipped_responses
finalize_skipped-IsUntouched id attempt [] d t other = record {
  same_attempt = refl;
  same_responses = refl;
}
finalize_skipped-IsUntouched id attempt (q ∷ qs) d t other =
    let t' = finalize_one attempt q (lookup q.question_id d) t in
    IsUntouched-trans t t' (finalize_skipped_responses attempt qs d t')
      (finalize_one-elim (IsUntouched id t) attempt q (lookup q.question_id d) t
        (record { same_attempt = refl; same_responses = refl })
        (λ change kept. write_response-IsUntouched id attempt q.question_id change t kept other))
      (finalize_skipped-IsUntouched id attempt qs d t' other)

pub close_attempt-IsUntouched :
    (id : ℕ) (a : QuizAttempt) (now : ℕ) (t : Tables)
    → (a.attempt_id == id) ≡ false
    → IsUntouched id t (close_attempt a now t).1
unfolding close_attempt submit_row finalized
close_attempt-IsUntouched id a now t other =
    let totals = (close_attempt a now t).0 in
    IsUntouched-trans t (finalized a t) (close_attempt a now t).1
      (finalize_skipped-IsUntouched id a.attempt_id (get_active_questions_by_quiz a.quiz_id t)
        (by_question (get_all_responses_for_attempt a.attempt_id t) []) t other)
      (update_attempt-IsUntouched id a.attempt_id
        (submitted_row totals.score totals.total_correct totals.total_with_hints
          totals.total_skipped now)
        (finalized a t) (λ a. refl) other)

pub record_answer-IsUntouched :
    (id : ℕ) (a : QuizAttempt) (q : QuizQuestion) (chosen : ℕ)
    (existing : Option QuizQuestionResponse) (t : Tables)
    → (a.attempt_id == id) ≡ false
    → IsUntouched id t (record_answer a q chosen existing t).1
unfolding record_answer upsert_response
record_answer-IsUntouched id a q chosen existing t other =
    write_response-IsUntouched id a.attempt_id q.question_id
      (answer_row (some chosen) (some (chosen == q.correct_option))
        (next_hint_level (chosen == q.correct_option) (level_of existing)) false
        (chosen == q.correct_option))
      t (λ r. (refl, refl)) other

pub patch-IsUntouched :
    (id attempt question : ℕ) (visited flagged skipped : Option Bool) (resume : Option ℕ)
    (t : Tables)
    → (attempt == id) ≡ false
    → IsUntouched id t (patch_navigation_state attempt question visited flagged skipped resume t).1
unfolding patch_navigation_state
patch-IsUntouched id attempt question visited flagged skipped resume t other =
    let t' = (write_response attempt question (patch_row visited flagged skipped) t).1 in
    IsUntouched-trans t t' _
      (write_response-IsUntouched id attempt question (patch_row visited flagged skipped) t
        (λ r. (refl, refl)) other)
      (update_attempt-IsUntouched id attempt
        (λ a. record a {
          resume_question_id = if is_some resume then resume else a.resume_question_id;
        })
        t' (λ a. refl) other)
