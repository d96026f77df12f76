-- ===== src/Progress/Completion/Agreement.antt =====
-- The status, the percentage and the threshold test of completion.py agree with one another.
use study_agent_service.Prelude.{ℕ, ◌≤◌, ◌≡◌, ◌↔◌, Bool, true, false, Option, none, some, arith}
use study_agent_service.Progress.Completion.{
  Score, Components, score_meets_pass_threshold, compute_progress_percentage,
  is_learning_unit_complete,
}

-- A unit is complete, by the status that the API reports, exactly when its percentage is 100,
-- with and without a published quiz; and the percentage is never above 100.
pub is_learning_unit_complete-percentage :
    (c : Components) (has_quiz : Bool)
    → ((is_learning_unit_complete c has_quiz ≡ true)
        ↔ (compute_progress_percentage c has_quiz ≡ 100))
      × (compute_progress_percentage c has_quiz ≤ 100)
unfolding is_learning_unit_complete compute_progress_percentage
is_learning_unit_complete-percentage c has_quiz = ground arith

-- Publishing a quiz never completes a unit: what is complete with a quiz required is complete
-- without it.
pub complete_without_quiz :
    (c : Components)
    → is_learning_unit_complete c true ≡ true
    → is_learning_unit_complete c false ≡ true
unfolding is_learning_unit_complete
complete_without_quiz c h = ground arith

-- A lower threshold accepts every score that a higher one accepts.
pub score_meets_lower_threshold :
    (s : Option Score) (low high : ℕ)
    → low ≤ high
    → score_meets_pass_threshold s (some high) ≡ true
    → score_meets_pass_threshold s (some low) ≡ true
unfolding score_meets_pass_threshold
score_meets_lower_threshold none low high h e = e
score_meets_lower_threshold (some s) low high h e = grind arith
