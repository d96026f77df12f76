-- ===== src/Progress/UnlockTests.antt =====
-- Concrete tables on which the theorems about unlocking and the resets are applied.
use study_agent_service.Progress.Tree.{build_tree}
use study_agent_service.Progress.Store.{ProgressRow, get_published_node_ids}
use study_agent_service.Progress.Unlocking.Total.{
  IsLow, completes_node, batch_grant_children_total, grant_unlocks_for_completed_total,
}
use study_agent_service.Progress.Unlocking.Granting.{
  row_of, grant_unlocks_for_completed_trainees_on_node,
}
use study_agent_service.Progress.Resets.{is_on_node}
use study_agent_service.Progress.Unlocking.Granting.{resolve_node_access_with_grant}
use study_agent_service.Progress.Store.{
  get_batch_by_trainee_and_nodes, get_published_node_ids, get_published_quiz_node_ids,
  get_unlocked_node_ids,
}
use study_agent_service.Prelude.{
  get_elem?, length, not, ◌&&◌, keep, ◌==◌, count_if, ◌||◌, if◌then◌else◌, List, arith, ℕ, ◌≡◌,
  refl, ◌↔◌, true, false, some, [], ◌∷◌, contains,
}
use study_agent_service.Prelude.Dict.{nat_eq, option_eq}
use study_agent_service.Progress.Completion.{is_learning_unit_complete}
use study_agent_service.Progress.Tree.{
  UnlockTreeContext, build_tree, collect_descendant_ids, has_accessible_learning_content,
}
use study_agent_service.Progress.Store.{Db, parent_completed}
use study_agent_service.Progress.Unlocking.{
  AccessResult, UnlockProgressContext, coming_soon, prerequisite_locked, available, plain,
  build_unlock_tree_context, build_unlock_progress_context, resolve_node_access, parent_of,
}
use study_agent_service.Progress.Unlocking.Access.{IsGated, resolve_node_access-cases}
use study_agent_service.Progress.Unlocking.Grants.{has_grant}
use study_agent_service.Progress.Unlocking.Granting.{
  granted, assert_trainee_node_unlocked, batch_grant_children_on_parent_completed,
  grant_unlocks_for_completed_trainees_on_node,
}
use study_agent_service.Progress.Unlocking.Batch.{is_eligible}
use study_agent_service.Progress.Unlocking.Durable.{earned_access_is_durable}
use study_agent_service.Progress.Resets.{after_unpublish, recompute_node_quiz_passed_for_threshold}
use study_agent_service.Progress.Resets.Agreement.{is_current, after_unpublish_agrees}
use study_agent_service.Progress.Resets.Threshold.{recompute_threshold-grants, IsRescored, earns}
use study_agent_service.Progress.Samples.{row, db, checked}

abbrev tree : UnlockTreeContext
unfolding build_unlock_tree_context
tree = build_unlock_tree_context 9 db

abbrev progress : UnlockProgressContext
unfolding build_unlock_progress_context
progress = build_unlock_progress_context 8 (2 ∷ 1 ∷ []) db

resolve_node_access-cases_example :
    (r : AccessResult) × (resolve_node_access 1000 2 tree progress ≡ some r)
    × ((r.status ≡ coming_soon) ↔ (true ≡ false))
    × ((r.status ≡ prerequisite_locked) ↔ ((true ≡ true) × IsGated 2 tree progress))
    × (r.status ≡ prerequisite_locked → r.blocked_by_node_id ≡ parent_of tree 2)
unfolding build_unlock_tree_context has_accessible_learning_content collect_descendant_ids
    build_tree get_published_node_ids
resolve_node_access-cases_example = resolve_node_access-cases 1000 2 tree progress true refl

abbrev height : ℕ → ℕ
height n = if n == 1 then 2 else 1

tree-IsLow : IsLow 1000 tree
unfolding build_unlock_tree_context build_tree get_published_node_ids
tree-IsLow = (height, λ r c m. ground arith, λ n. ground arith)

batch_grant_children_total_example :
    (newly : List ℕ) × (db' : Db) × (batch_grant_children_on_parent_completed 1000 7 1 9 tree
        parent_completed db
      ≡ some (newly, db'))
    × ((t n : ℕ)
        → (has_grant t n db' ≡ (has_grant t n db || (7 == t && is_eligible 1000 tree 1 n)))
          × (contains n newly ≡ (is_eligible 1000 tree 1 n && not (has_grant 7 n db))))
batch_grant_children_total_example =
    batch_grant_children_total 1000 7 1 9 tree parent_completed db tree-IsLow

db-IsLow : IsLow 1000 (build_unlock_tree_context 9 db)
unfolding build_unlock_tree_context build_tree get_published_node_ids
db-IsLow = (height, λ r c m. ground arith, λ n. ground arith)

grant_unlocks_for_completed_total_example :
    let has_quiz = contains 1 (get_published_quiz_node_ids (1 ∷ []) db) in
    (processed : ℕ) × (db' : Db) × (grant_unlocks_for_completed_trainees_on_node 1000 1 9 db
      ≡ some (processed, db'))
    × (processed
        ≡ count_if
            (λ r. is_learning_unit_complete r.components has_quiz)
            (keep (row_of 1 9) db.progress))
    × ((t n : ℕ)
        → has_grant t n db' ≡ (
            has_grant t n db
            || (completes_node 1 9 t db && is_eligible 1000 (build_unlock_tree_context 9 db) 1 n)))
grant_unlocks_for_completed_total_example = grant_unlocks_for_completed_total 1000 1 9 db db-IsLow

abbrev backfilled : AccessResult
backfilled = record (plain available) { newly_granted = true }

-- The progress row is gone, the grant is not.
abbrev later : Db
later = record checked { progress = [] }

earned_access_is_durable_example :
    assert_trainee_node_unlocked 1000 7 2 9 later ≡ some (granted (plain available), later)
unfolding assert_trainee_node_unlocked build_unlock_tree_context has_accessible_learning_content
    build_unlock_progress_context resolve_node_access build_tree get_published_node_ids
    resolve_node_access_with_grant collect_descendant_ids get_unlocked_node_ids
    get_batch_by_trainee_and_nodes is_learning_unit_complete get_published_quiz_node_ids
earned_access_is_durable_example =
    earned_access_is_durable 1000 7 2 9 1 db later {r = backfilled} {db' = checked} refl refl refl
      refl (λ t n h. h) refl

after_unpublish_agrees_example : (is_current false (after_unpublish row) ≡ true) ↔ (false ≡ false)
after_unpublish_agrees_example = after_unpublish_agrees row

recompute_threshold-grants_example :
    let has_quiz = contains 1 (get_published_quiz_node_ids (1 ∷ []) db) in
    (db' : Db) × (recompute_node_quiz_passed_for_threshold 1000 1 9 80 db
      ≡ some (count_if (is_on_node 1 9) db.progress, db'))
    × (length db'.progress ≡ length db.progress)
    × ((i : ℕ) (r : ProgressRow)
        → get_elem? db.progress i ≡ some r
        → (r' : ProgressRow) × (get_elem? db'.progress i ≡ some r')
          × (is_on_node 1 9 r ≡ true → IsRescored 80 r r')
          × (is_on_node 1 9 r ≡ false → r' ≡ r))
    × ((t n : ℕ)
        → has_grant t n db' ≡ (
            has_grant t n db
            || (earns 80 1 9 has_quiz t db.progress
                && is_eligible 1000 (build_unlock_tree_context 9 db) 1 n)))
recompute_threshold-grants_example = recompute_threshold-grants 1000 1 9 80 db db-IsLow
