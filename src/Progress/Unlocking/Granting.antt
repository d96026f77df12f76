-- ===== src/Progress/Unlocking/Granting.antt =====
-- The operations of unlocking.py that write grants, and the check of the trainee endpoints.
use Prim.Native.String.{String}
use study_agent_service.Prelude.{
  ℕ, suc, Bool, true, false, not, ◌&&◌, Option, none, some, List, [], ◌∷◌, ◌==◌, if◌then◌else◌,
  or_else, keep, contains, ◌>>=◌,
}
use study_agent_service.Prelude.Dict.{nat_eq}
use study_agent_service.Progress.Unlocking.{
  plain, prerequisite_message, parent_of, build_unlock_progress_context, resolve_node_access,
  eligible_children_for_unlock, build_unlock_tree_context, UnlockProgressContext, grant_node_unlock,
  AccessResult, parent_complete, AccessStatus, available, prerequisite_locked,
}
use study_agent_service.Progress.Store.{
  backfill, get_published_quiz_node_ids, parent_completed, ProgressRow, UnlockSource, Db,
  delete_unlocks_for_node, grant_unlock,
}
use study_agent_service.Progress.Tree.{has_accessible_learning_content, UnlockTreeContext}
use study_agent_service.Progress.Completion.{is_learning_unit_complete}

-- The part of `resolve_node_access_with_grant` behind the early returns, by the node's parent.
unfoldable pub grant_if_earned :
    ℕ
    → ℕ
    → ℕ
    → UnlockTreeContext
    → UnlockProgressContext
    → AccessResult
    → Option ℕ
    → Db
    → AccessResult × Db
unfolding parent_complete grant_node_unlock
grant_if_earned trainee node space tree progress result none db = (result, db)
grant_if_earned trainee node space tree progress result (some parent) db =
    if not (contains parent tree.published_node_ids)
    then (result, db)
    else (if contains node progress.unlocked_node_ids
        then (result, db)
        else (if not (parent_complete progress parent)
            then (result, db)
            else (let (written, db') =
                  grant_node_unlock trainee node space (some parent) backfill db in
                (record (plain available) { newly_granted = written }, db'))))

abbrev pub is_available : AccessStatus → Bool
is_available available = true
is_available _ = false

unfoldable pub resolve_node_access_with_grant :
    ℕ → ℕ → ℕ → ℕ → UnlockTreeContext → UnlockProgressContext → Db → Option (AccessResult × Db)
unfolding grant_if_earned
resolve_node_access_with_grant limit trainee node space tree progress db = do
  result ← resolve_node_access limit node tree progress
  some (
      if not (is_available result.status)
      then (result, db)
      else grant_if_earned trainee node space tree progress result (parent_of tree node) db)

-- The answer of `assert_trainee_node_unlocked`; `locked` is NodePrerequisiteLockedException.
pub data Verdict : Type 0 where
  granted : AccessResult → Verdict
  locked : String → Option ℕ → Option String → Verdict

abbrev pub is_locked : AccessStatus → Bool
is_locked prerequisite_locked = true
is_locked _ = false

-- An empty message is false in Python's `or`, and no message that is built is empty.
unfoldable pub verdict_of : AccessResult → Verdict
verdict_of result =
    if is_locked result.status
    then locked
        (or_else result.unlock_message
          (prerequisite_message (or_else result.blocked_by_title "the previous topic")))
        result.blocked_by_node_id result.blocked_by_title
    else granted result

abbrev pub relevant_ids : ℕ → Option ℕ → List ℕ
relevant_ids node none = node ∷ []
relevant_ids node (some parent) = node ∷ parent ∷ []

unfoldable pub assert_trainee_node_unlocked : ℕ → ℕ → ℕ → ℕ → Db → Option (Verdict × Db)
unfolding verdict_of
assert_trainee_node_unlocked limit trainee node space db = do
  let tree = build_unlock_tree_context space db
  let progress = build_unlock_progress_context trainee (relevant_ids node (parent_of tree node)) db
  (result, db') ← resolve_node_access_with_grant limit trainee node space tree progress db
  some (verdict_of result, db')

-- The loop of `batch_grant_children_on_parent_completed`.
unfoldable pub grant_each : ℕ → ℕ → ℕ → UnlockSource → List ℕ → Db → List ℕ × Db
unfolding grant_unlock
grant_each trainee parent space source [] db = ([], db)
grant_each trainee parent space source (c ∷ cs) db =
    let (written, db') =
      grant_unlock
        (record {
          trainee_id = trainee;
          node_id = c;
          space_id = space;
          gate_node_id = some parent;
          source = source;
        })
        db in
    let (newly, db'') = grant_each trainee parent space source cs db' in
    (if written then c ∷ newly else newly, db'')

-- The call with a tree given.
unfoldable pub batch_grant_children_on_parent_completed :
    ℕ → ℕ → ℕ → ℕ → UnlockTreeContext → UnlockSource → Db → Option (List ℕ × Db)
unfolding grant_each
batch_grant_children_on_parent_completed limit trainee parent space tree source db = do
  children ← eligible_children_for_unlock limit parent tree
  some (grant_each trainee parent space source children db)

-- Without one the tree is read from the tables.
unfoldable pub grant_unlocks_after_node_completed : ℕ → ℕ → ℕ → ℕ → Db → Option (List ℕ × Db)
grant_unlocks_after_node_completed limit trainee completed_node space db =
    batch_grant_children_on_parent_completed limit trainee completed_node space
      (build_unlock_tree_context space db) parent_completed db

-- The loop over the node's progress rows; the count goes up for a trainee who completes the node.
unfoldable pub grant_rows :
    ℕ → ℕ → ℕ → Bool → UnlockTreeContext → List ProgressRow → Db → Option (ℕ × Db)
grant_rows limit node space has_quiz tree [] db = some (0, db)
grant_rows limit node space has_quiz tree (r ∷ rs) db =
    let skip = grant_rows limit node space has_quiz tree rs db in
    if not (is_learning_unit_complete r.components has_quiz) then skip else (do
      (newly, db') ←
          batch_grant_children_on_parent_completed limit r.trainee_id node space tree
            parent_completed db
      (processed, db'') ← grant_rows limit node space has_quiz tree rs db'
      some (suc processed, db''))

abbrev pub row_of : ℕ → ℕ → ProgressRow → Bool
row_of node space r = r.node_id == node && r.space_id == space

-- Nothing is read when there is no row.
unfoldable pub grant_listed : ℕ → ℕ → ℕ → List ProgressRow → Db → Option (ℕ × Db)
unfolding grant_rows
grant_listed limit node space [] db = some (0, db)
grant_listed limit node space (r ∷ rs) db =
    grant_rows limit node space (contains node (get_published_quiz_node_ids (node ∷ []) db))
      (build_unlock_tree_context space db) (r ∷ rs) db

unfoldable pub grant_unlocks_for_completed_trainees_on_node : ℕ → ℕ → ℕ → Db → Option (ℕ × Db)
unfolding grant_listed
grant_unlocks_for_completed_trainees_on_node limit node space db =
    grant_listed limit node space (keep (row_of node space) db.progress) db

-- The gate of `grant_unlocks_after_child_content_published`, by the node's parent.
unfoldable pub grant_under : ℕ → ℕ → UnlockTreeContext → Option ℕ → Db → Option (ℕ × Db)
grant_under limit space tree none db = some (0, db)
grant_under limit space tree (some parent) db =
    if not (contains parent tree.published_node_ids)
    then some (0, db)
    else grant_unlocks_for_completed_trainees_on_node limit parent space db

unfoldable pub grant_unlocks_after_child_content_published : ℕ → ℕ → ℕ → Db → Option (ℕ × Db)
unfolding grant_under
grant_unlocks_after_child_content_published limit node space db = do
  accessible ←
      has_accessible_learning_content limit node
        (build_unlock_tree_context space db).published_node_ids
        (build_unlock_tree_context space db).children_by_parent
  (if not accessible
      then some (0, db)
      else grant_under limit space (build_unlock_tree_context space db)
          (parent_of (build_unlock_tree_context space db) node) db)

-- `clear_unlocks_for_reparented_node`
unfoldable pub clear_unlocks_for_reparented_node : ℕ → Db → ℕ × Db
unfolding delete_unlocks_for_node
clear_unlocks_for_reparented_node node db = delete_unlocks_for_node node db
