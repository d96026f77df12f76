-- ===== src/Attempt/Scoring.antt =====
-- The score that an accepted submission stores.
use study_agent_service.Prelude.{ℕ, ◌+◌, ◌≤◌, ◌<◌, ◌≡◌, some}
use study_agent_service.Prelude.Dict.{Dict, nat_eq}
use study_agent_service.Lifecycle.Model.{submitted, QuizAttempt}
use study_agent_service.Attempt.Tables.{Tables}
use study_agent_service.Attempt.Submission.{Totals}

-- The numbers of a submission, against the number of active questions.
pub record IsWithin (n : ℕ) (totals : Totals) : Type 0 where
  pub correct_and_skipped : totals.total_correct + totals.total_skipped ≤ n
  pub with_hints : totals.total_with_hints ≤ totals.total_correct
  pub at_most_one : totals.score.correct ≤ totals.score.total
  pub a_fraction : 0 < totals.score.total

-- The row of a submitted attempt, with the numbers that the submission counted.
pub record IsStored (totals : Totals) (row : QuizAttempt) : Type 0 where
  pub is_over : row.status ≡ submitted
  pub score_stored : row.score ≡ some totals.score
  pub counts_stored :
      (row.total_correct ≡ some totals.total_correct)
      × (row.total_with_hints ≡ some totals.total_with_hints)
      × (row.total_skipped ≡ some totals.total_skipped)
