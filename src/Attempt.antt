-- ===== src/Attempt.antt =====
-- A trainee's way through a quiz attempt (src/api/utils/quiz_utils/trainee_attempt_navigation.py).
pub mod Position
pub mod Resume
pub mod Tables
pub mod Answers
pub mod Submission
pub mod Views
pub mod Starting
pub mod Accepted
pub mod Started
pub mod Rows
pub mod Sound
pub mod Writes
pub mod Closing
pub mod Opening
pub mod History
pub mod Lookup
pub mod Totals
pub mod Scoring
pub mod OneWrite
pub mod Kept
pub mod Locked
pub mod Pending
pub mod Completes
pub mod Reveal
pub mod Untouched
pub mod Final
mod Samples
mod FlowTests
use Prim.Native.String.{String}
use study_agent_service.Prelude.{
  ℕ, zero, suc, ◌+◌, ◌-◌, ◌*◌, ◌/◌, ◌%◌, ◌≤◌, ◌<◌, ◌≡◌, refl, sym, ap, ◌∙◌, subst, ◌≢◌, ◌↔◌, ◌⊎◌,
  inl, inr, Bool, true, false, not, ◌&&◌, ◌||◌, Option, none, some, List, [], ◌∷◌, ◌++◌, map, arith,
  ltb, leb, ◌==◌, if◌then◌else◌, ==_iff, Bool-cases, Option-cases, is_some, or_else, length, any,
  all, keep, count_if, find_first, contains, contains-append, contains-keep, ◌>>=◌,
}
use study_agent_service.Prelude.Dict.{Dict, lookup, nat_eq}

-- The question's text and its four options are passed through and left out; an option is a number.
pub record QuizQuestion : Type 0 where
  pub question_id : ℕ
  pub quiz_id : ℕ
  pub order_index : ℕ
  pub is_active : Bool
  pub correct_option : ℕ
  pub hint_1 : Option String
  pub hint_2 : Option String
  pub hint_3 : Option String
  pub explanation : Option String

-- The unique key of the table is the attempt with the question; the generated id, the trainee and the
-- time of the answer are left out.
pub record QuizQuestionResponse : Type 0 where
  pub attempt_id : ℕ
  pub question_id : ℕ
  pub selected_option : Option ℕ
  pub is_correct : Option Bool
  pub was_locked : Bool
  pub was_skipped : Bool
  pub is_visited : Bool
  pub is_flagged : Bool
  pub hint_level_reached : ℕ

-- `QuestionNavStatus`
pub data QuestionNavStatus : Type 0 where
  not_visited visited answered skipped : QuestionNavStatus

unfoldable pub is_question_skipped_at_submit : QuizQuestion → Option QuizQuestionResponse → Bool
is_question_skipped_at_submit q none = q.is_active
is_question_skipped_at_submit q (some r) =
    q.is_active && (not r.was_locked && not (is_some r.selected_option))

unfoldable pub active_questions : List QuizQuestion → List QuizQuestion
active_questions = keep (λ q. q.is_active)

unfoldable pub count_skipped_at_submit : List QuizQuestion → Dict ℕ QuizQuestionResponse → ℕ
unfolding is_question_skipped_at_submit active_questions
count_skipped_at_submit questions responses =
    count_if (λ q. is_question_skipped_at_submit q (lookup q.question_id responses))
      (active_questions questions)

abbrev pub is_locked_in : Dict ℕ QuizQuestionResponse → QuizQuestion → Bool
is_locked_in responses q = elim (lookup q.question_id responses) [
  | none ↦ false
  | some r ↦ r.was_locked
]

-- The loop of `compute_resume_question_id`, which passes over the locked questions, and `active[-1]`
-- behind it: the last question of the list, or none of an empty one.
unfoldable pub resume_among : Dict ℕ QuizQuestionResponse → List QuizQuestion → Option ℕ
resume_among responses [] = none
resume_among responses (q ∷ qs) =
    let rest = resume_among responses qs in
    if not (is_locked_in responses q)
    then some q.question_id
    else (elim rest [ none ↦ some q.question_id | some id ↦ some id ])

unfoldable pub compute_resume_question_id :
    List QuizQuestion → Dict ℕ QuizQuestionResponse → Option ℕ
unfolding resume_among active_questions
compute_resume_question_id questions responses = resume_among responses (active_questions questions)

unfoldable pub compute_nav_status : Option QuizQuestionResponse → Bool → Bool → QuestionNavStatus
compute_nav_status none attempt_submitted skipped_at_submit =
    if attempt_submitted && skipped_at_submit then skipped else not_visited
compute_nav_status (some r) attempt_submitted skipped_at_submit =
    if r.was_locked
    then answered
    else (if r.was_skipped
        then skipped
        else (if attempt_submitted && skipped_at_submit
            then skipped
            else (if r.is_visited
                  || (is_some r.selected_option
                      || (ltb 0 r.hint_level_reached
                          || elim r.is_correct [ none ↦ false | some b ↦ not b ]))
                then visited
                else not_visited)))

unfoldable pub can_answer_question : Bool → Bool → Bool → Bool
can_answer_question is_active attempt_submitted was_locked =
    is_active && (not attempt_submitted && not was_locked)

unfoldable pub can_skip_question : Bool → Bool → Bool → Bool
can_skip_question is_active attempt_submitted was_locked =
    is_active && (not attempt_submitted && not was_locked)
