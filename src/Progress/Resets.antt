-- ===== src/Progress/Resets.antt =====
-- Resets of the stored progress when a node's material or quiz changes
-- (src/api/utils/trainee_progress_utils/progress_resets.py). Each operation is one UPDATE over the
-- rows of the node, then, where the source does so, the grants for the rows that it completed.
pub mod Agreement
pub mod Rows
pub mod Threshold
use study_agent_service.Prelude.{
  ℕ, zero, suc, ◌+◌, ◌-◌, ◌*◌, ◌/◌, ◌%◌, ◌≤◌, ◌<◌, ◌≡◌, refl, sym, ap, ◌∙◌, subst, ◌≢◌, ◌↔◌, ◌⊎◌,
  inl, inr, Bool, true, false, not, ◌&&◌, ◌||◌, Option, none, some, List, [], ◌∷◌, ◌++◌, map, arith,
  ltb, leb, ◌==◌, if◌then◌else◌, ==_iff, Bool-cases, Option-cases, is_some, or_else, length, any,
  all, keep, count_if, find_first, contains, contains-append, contains-keep, ◌>>=◌,
}
use study_agent_service.Progress.Completion.{
  Score, Components, Status, score_meets_pass_threshold, in_progress, not_started, completed,
}
use study_agent_service.Progress.Store.{ProgressRow, Db}
use study_agent_service.Progress.Unlocking.Granting.{grant_unlocks_for_completed_trainees_on_node}

-- `_completion_after_read_reset`
unfoldable pub completion_after_read_reset : Components → Status
completion_after_read_reset c = if ltb 0 c.quiz_attempt_count then in_progress else not_started

-- `_completion_after_quiz_passed_reset`
unfoldable pub completion_after_quiz_passed_reset : Bool → Components → Status
completion_after_quiz_passed_reset has_published_quiz c =
    if has_published_quiz
    then (if ltb 0 c.study_material_read_percent
          || (ltb 0 c.quiz_attempt_count || c.study_material_completed)
        then in_progress
        else not_started)
    else (if c.study_material_completed
        then completed
        else (if ltb 0 c.study_material_read_percent then in_progress else not_started))

-- The WHERE clause that the operations share.
abbrev pub is_on_node : ℕ → ℕ → ProgressRow → Bool
is_on_node node space r = r.node_id == node && r.space_id == space

-- UPDATE … WHERE: the number of rows that matched, and the tables afterwards.
unfoldable pub update_rows : (ProgressRow → Bool) → (ProgressRow → ProgressRow) → Db → ℕ × Db
update_rows matches change db = (
  count_if matches db.progress,
  record db { progress = map (λ r. if matches r then change r else r) db.progress },
)

abbrev pub reset_read : ProgressRow → ProgressRow
unfolding completion_after_read_reset
reset_read r = record r {
  components = record (r.components) {
    study_material_read_percent = 0;
    study_material_completed = false;
  };
  completion_status = completion_after_read_reset r.components;
}

unfoldable pub reset_node_read_progress_for_all_trainees : ℕ → ℕ → Db → ℕ × Db
reset_node_read_progress_for_all_trainees node space db =
    update_rows (is_on_node node space) reset_read db

abbrev pub reset_quiz_passed : Bool → ProgressRow → ProgressRow
reset_quiz_passed has_published_quiz r = record r {
  components = record (r.components) { quiz_passed = false };
  completion_status = completion_after_quiz_passed_reset has_published_quiz r.components;
}

unfoldable pub reset_node_quiz_passed_for_all_trainees : ℕ → ℕ → Bool → Db → ℕ × Db
reset_node_quiz_passed_for_all_trainees node space has_published_quiz db =
    update_rows (is_on_node node space) (reset_quiz_passed has_published_quiz) db

-- The CASE expression of the threshold change.
unfoldable pub completion_after_threshold : Bool → Components → Status
completion_after_threshold passed c =
    if c.study_material_completed && passed
    then completed
    else (if ltb 0 c.study_material_read_percent
          || (ltb 0 c.quiz_attempt_count || c.study_material_completed)
        then in_progress
        else not_started)

abbrev pub rescore : ℕ → ProgressRow → ProgressRow
rescore pass_threshold_percent r =
    let passed = score_meets_pass_threshold r.quiz_best_score (some pass_threshold_percent) in
    record r {
      components = record (r.components) { quiz_passed = passed };
      completion_status = completion_after_threshold passed r.components;
    }

-- The grants after an update, and the number of rows that the update matched.
abbrev pub then_grant : ℕ → ℕ → ℕ → ℕ × Db → Option (ℕ × Db)
then_grant limit node space (updated, db) = do
  (granted, db') ← grant_unlocks_for_completed_trainees_on_node limit node space db
  some (updated, db')

unfoldable pub recompute_node_quiz_passed_for_threshold : ℕ → ℕ → ℕ → ℕ → Db → Option (ℕ × Db)
recompute_node_quiz_passed_for_threshold limit node space pass_threshold_percent db =
    then_grant limit node space
      (update_rows (is_on_node node space) (rescore pass_threshold_percent) db)

abbrev pub after_unpublish : ProgressRow → ProgressRow
after_unpublish r = record r {
  completion_status = completion_after_quiz_passed_reset false r.components;
}

unfoldable pub recompute_node_completion_after_quiz_unpublish : ℕ → ℕ → ℕ → Db → Option (ℕ × Db)
recompute_node_completion_after_quiz_unpublish limit node space db =
    then_grant limit node space (update_rows (is_on_node node space) after_unpublish db)
