-- ===== src/Progress/Completion.antt =====
-- Completion status and percentage (src/api/utils/trainee_progress_utils/completion.py).
pub mod Agreement
use study_agent_service.Prelude.{
  ℕ, ◌+◌, ◌*◌, Bool, true, false, ◌&&◌, ◌||◌, Option, none, some, ltb, leb, if◌then◌else◌,
}

-- `CompletionStatus`
pub data Status : Type 0 where
  not_started in_progress completed : Status

-- A normalised score is a float in the source; here it is a fraction, with no rounding.
pub record Score : Type 0 where
  pub correct : ℕ
  pub total : ℕ

-- The keyword arguments that both derivations share.
pub record Components : Type 0 where
  pub study_material_completed : Bool
  pub quiz_passed : Bool
  pub study_material_read_percent : ℕ
  pub quiz_attempt_count : ℕ

-- `score >= pass_threshold_percent / 100.0`, multiplied out.
abbrev at_least : Score → ℕ → Bool
at_least s threshold = leb (threshold * s.total) (100 * s.correct)

unfoldable pub score_meets_pass_threshold : Option Score → Option ℕ → Bool
score_meets_pass_threshold none _ = false
score_meets_pass_threshold (some s) none = false
score_meets_pass_threshold (some s) (some threshold) = at_least s threshold

unfoldable pub compute_progress_percentage : Components → Bool → ℕ
compute_progress_percentage c has_published_quiz =
    if has_published_quiz
    then (if c.study_material_completed then 50 else 0) + (if c.quiz_passed then 50 else 0)
    else (if c.study_material_completed then 100 else 0)

unfoldable pub compute_completion_status : Components → Bool → Status
compute_completion_status c has_published_quiz =
    if (if has_published_quiz
      then c.study_material_completed && c.quiz_passed
      else c.study_material_completed)
    then completed
    else (if ltb 0 c.study_material_read_percent || ltb 0 c.quiz_attempt_count
        then in_progress
        else not_started)

abbrev pub is_completed : Status → Bool
is_completed completed = true
is_completed _ = false

unfoldable pub is_learning_unit_complete : Components → Bool → Bool
unfolding compute_completion_status
is_learning_unit_complete c has_published_quiz =
    is_completed (compute_completion_status c has_published_quiz)
