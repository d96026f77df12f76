-- ===== src/Progress/Unlocking.antt =====
-- src/api/utils/trainee_progress_utils/unlocking.py: who may open a node, and the durable grants.
-- `limit` is the interpreter's recursion limit; `none` is the RecursionError of a tree that is
-- deeper, which is raised before anything is written.
pub mod Granting
pub mod Access
pub mod Grants
pub mod Batch
pub mod Total
pub mod Durable
use Prim.Native.String.{String}
use study_agent_service.Prelude.{◌&&◌, suc, ◌==◌, true, [], ◌∷◌, ◌>>=◌}
use study_agent_service.Prelude.Dict.{nat_eq}
use Prim.Native.String.{◌++◌ as str_append}
use study_agent_service.Progress.Tree.{
  in_space, build_tree, children_of, has_accessible_learning_content, Snapshot, UnlockTreeContext,
}
use study_agent_service.Prelude.{
  keep, not, [], if◌then◌else◌, contains, some, false, or_else, Bool, List, none, ℕ, Option,
}
use study_agent_service.Prelude.Dict.{lookup, Dict}
use study_agent_service.Progress.Store.{
  delete_unlocks_for_node, parent_completed, backfill, get_unlocked_node_ids,
  get_published_node_ids, get_batch_by_trainee_and_nodes, get_published_quiz_node_ids, UnlockSource,
  Db, grant_unlock, ProgressRow,
}
use study_agent_service.Progress.Completion.{
  compute_progress_percentage, compute_completion_status, is_learning_unit_complete,
}

pub data AccessStatus : Type 0 where
  coming_soon prerequisite_locked available : AccessStatus

pub record AccessResult : Type 0 where
  pub status : AccessStatus
  pub blocked_by_node_id : Option ℕ
  pub blocked_by_title : Option String
  pub unlock_message : Option String
  pub newly_granted : Bool

pub record UnlockProgressContext : Type 0 where
  pub progress_by_node : Dict ℕ Snapshot
  pub quiz_published_node_ids : List ℕ
  pub unlocked_node_ids : List ℕ

pub prerequisite_message : String → String
prerequisite_message title = str_append "Finish " (str_append title " first")

unfoldable pub is_parent_learning_unit : Option ℕ → List ℕ → Bool
is_parent_learning_unit none published = false
is_parent_learning_unit (some p) published = contains p published

unfoldable pub is_progress_complete : Option Snapshot → ℕ → List ℕ → Bool
is_progress_complete none node quiz_published = false
is_progress_complete (some s) node quiz_published =
    is_learning_unit_complete s.components (contains node quiz_published)

-- `tree.parent_by_node.get(node_id)`
abbrev pub parent_of : UnlockTreeContext → ℕ → Option ℕ
parent_of tree node = or_else (lookup node tree.parent_by_node) none

abbrev pub plain : AccessStatus → AccessResult
plain s = record {
  status = s;
  blocked_by_node_id = none;
  blocked_by_title = none;
  unlock_message = none;
  newly_granted = false;
}

-- `AccessResult(status="prerequisite_locked", …)`
unfoldable pub locked_by : UnlockTreeContext → ℕ → AccessResult
locked_by tree parent =
    let title = or_else (lookup parent tree.node_titles) "the previous topic" in
    record {
      status = prerequisite_locked;
      blocked_by_node_id = some parent;
      blocked_by_title = some title;
      unlock_message = some (prerequisite_message title);
      newly_granted = false;
    }

-- Whether the parent's snapshot is complete now.
unfoldable pub parent_complete : UnlockProgressContext → ℕ → Bool
unfolding is_progress_complete
parent_complete progress parent =
    is_progress_complete (lookup parent progress.progress_by_node) parent
      progress.quiz_published_node_ids

-- The decision behind the first test, by the node's parent.
unfoldable pub gated_access :
    ℕ → UnlockTreeContext → UnlockProgressContext → Option ℕ → AccessResult
unfolding parent_complete locked_by
gated_access node tree progress none = plain available
gated_access node tree progress (some parent) =
    if not (contains parent tree.published_node_ids)
    then plain available
    else (if contains node progress.unlocked_node_ids
        then plain available
        else (if parent_complete progress parent then plain available else locked_by tree parent))

unfoldable pub resolve_node_access :
    ℕ → ℕ → UnlockTreeContext → UnlockProgressContext → Option AccessResult
unfolding gated_access
resolve_node_access limit node tree progress = do
  accessible ←
      has_accessible_learning_content limit node tree.published_node_ids tree.children_by_parent
  some (
      if not accessible
      then plain coming_soon
      else gated_access node tree progress (parent_of tree node))

-- The comprehension of `eligible_children_for_unlock`, over its filter.
unfoldable pub eligible_among : (ℕ → Option Bool) → List ℕ → Option (List ℕ)
eligible_among accessible [] = some []
eligible_among accessible (c ∷ cs) = do
  yes_c ← accessible c
  rest ← eligible_among accessible cs
  some (if yes_c then c ∷ rest else rest)

unfoldable pub eligible_children_for_unlock : ℕ → ℕ → UnlockTreeContext → Option (List ℕ)
unfolding eligible_among
eligible_children_for_unlock limit parent tree =
    eligible_among
      (λ c. has_accessible_learning_content limit c tree.published_node_ids tree.children_by_parent)
      (children_of tree.children_by_parent parent)

-- `_progress_snapshot_from_row`
unfoldable pub progress_snapshot_from_row : ProgressRow → Bool → Snapshot
progress_snapshot_from_row row has_published_quiz = record {
  components = row.components;
  completion_status = compute_completion_status row.components has_published_quiz;
  progress_percentage = compute_progress_percentage row.components has_published_quiz;
}

unfoldable pub build_unlock_tree_context : ℕ → Db → UnlockTreeContext
build_unlock_tree_context space db =
    build_tree (keep (in_space space) db.topic_nodes) (get_published_node_ids space db)

-- `list(dict.fromkeys(node_ids))`
unfoldable pub unique_ids : List ℕ → List ℕ → List ℕ
unique_ids seen [] = []
unique_ids seen (n ∷ ns) =
    let rest = unique_ids (n ∷ seen) ns in if contains n seen then rest else n ∷ rest

-- The loop over the unique ids.
unfoldable pub snapshots : Dict ℕ ProgressRow → List ℕ → List ℕ → Dict ℕ Snapshot
unfolding progress_snapshot_from_row
snapshots rows quiz_published [] = []
snapshots rows quiz_published (n ∷ ns) =
    let rest = snapshots rows quiz_published ns in
    elim (lookup n rows) [
      | none ↦ rest
      | some row ↦ (n, progress_snapshot_from_row row (contains n quiz_published)) ∷ rest
    ]

unfoldable pub build_unlock_progress_context : ℕ → List ℕ → Db → UnlockProgressContext
unfolding snapshots unique_ids
build_unlock_progress_context trainee node_ids db =
    let ids = unique_ids [] node_ids in
    let quiz_published = get_published_quiz_node_ids ids db in
    record {
      progress_by_node =
          snapshots (get_batch_by_trainee_and_nodes trainee ids db) quiz_published ids;
      quiz_published_node_ids = quiz_published;
      unlocked_node_ids = get_unlocked_node_ids trainee ids db;
    }

-- `grant_node_unlock`
unfoldable pub grant_node_unlock : ℕ → ℕ → ℕ → Option ℕ → UnlockSource → Db → Bool × Db
unfolding grant_unlock
grant_node_unlock trainee node space gate source db =
    grant_unlock
      (record {
        trainee_id = trainee;
        node_id = node;
        space_id = space;
        gate_node_id = gate;
        source = source;
      })
      db
