-- ===== src/Progress/Tree.antt =====
-- The tree of a space and its learning units (`build_unlock_tree_context` of
-- src/api/utils/trainee_progress_utils/unlocking.py, and learning_units.py beside it).
pub mod Shape
pub mod Descent
pub mod Units
use Prim.Native.String.{String}
use study_agent_service.Prelude.{
  ℕ, zero, suc, ◌+◌, Bool, true, false, ◌&&◌, ◌||◌, not, Option, none, some, List, [], ◌∷◌, ◌++◌,
  ltb, leb, if◌then◌else◌, or_else, contains, any, count_if, ◌==◌, ◌>>=◌,
}
use study_agent_service.Prelude.Dict.{Dict, lookup, insert, get_or, nat_eq, option_eq}
use study_agent_service.Progress.Completion.{
  Status, in_progress, Components, is_learning_unit_complete,
}

-- A row of `topicnodes`; `order_index` is only compared.
pub record TopicNode : Type 0 where
  pub node_id : ℕ
  pub parent_id : Option ℕ
  pub space_id : ℕ
  pub title : String
  pub order_index : ℕ
  pub is_active : Bool

pub record UnlockTreeContext : Type 0 where
  pub children_by_parent : Dict (Option ℕ) (List ℕ)
  pub published_node_ids : List ℕ
  pub node_titles : Dict ℕ String
  pub parent_by_node : Dict ℕ (Option ℕ)

-- A stable insertion, the step of `list.sort(key=…)`.
insert_sorted : (ℕ → ℕ) → ℕ → List ℕ → List ℕ
insert_sorted key a [] = a ∷ []
insert_sorted key a (b ∷ bs) =
    let rest = insert_sorted key a bs in if leb (key a) (key b) then a ∷ b ∷ bs else b ∷ rest

sort_by : (ℕ → ℕ) → List ℕ → List ℕ
unfolding insert_sorted
sort_by key [] = []
sort_by key (a ∷ bs) = insert_sorted key a (sort_by key bs)

-- `children_by_parent.setdefault(node.parent_id, []).append(node.node_id)`
add_child : Dict (Option ℕ) (List ℕ) → TopicNode → Dict (Option ℕ) (List ℕ)
add_child d n = insert n.parent_id (get_or n.parent_id d [] ++ n.node_id ∷ []) d

group_children : Dict (Option ℕ) (List ℕ) → List TopicNode → Dict (Option ℕ) (List ℕ)
unfolding add_child
group_children d [] = d
group_children d (n ∷ ns) = group_children (add_child d n) ns

index_nodes : {V : Type 0} → (TopicNode → V) → Dict ℕ V → List TopicNode → Dict ℕ V
index_nodes f d [] = d
index_nodes f d (n ∷ ns) = index_nodes f (insert n.node_id (f n) d) ns

sort_values : (ℕ → ℕ) → Dict (Option ℕ) (List ℕ) → Dict (Option ℕ) (List ℕ)
unfolding sort_by
sort_values key [] = []
sort_values key ((p, cs) ∷ d) = (p, sort_by key cs) ∷ sort_values key d

-- The query's filter: `space_id == space_id AND is_active IS TRUE`.
abbrev pub in_space : ℕ → TopicNode → Bool
in_space space n = n.space_id == space && n.is_active

-- `order_by_node.get(child_id, 0)`
pub order_of : List TopicNode → ℕ → ℕ
unfolding index_nodes
order_of nodes c = get_or c (index_nodes (λ n. n.order_index) [] nodes) 0

-- The four dicts that the loop over the space's active nodes fills; `published` is the answer of
-- `get_published_node_ids`.
unfoldable pub build_tree : List TopicNode → List ℕ → UnlockTreeContext
unfolding group_children index_nodes sort_values order_of
build_tree nodes published = record {
  children_by_parent = sort_values (order_of nodes) (group_children [] nodes);
  published_node_ids = published;
  node_titles = index_nodes (λ n. n.title) [] nodes;
  parent_by_node = index_nodes (λ n. n.parent_id) [] nodes;
}

-- `children_by_parent.get(parent_id, [])`
abbrev pub children_of : Dict (Option ℕ) (List ℕ) → ℕ → List ℕ
children_of d parent = get_or (some parent) d []

-- The loop in `walk`, over the call that it makes for each child.
walk_each : (ℕ → Option (List ℕ)) → List ℕ → Option (List ℕ)
walk_each descend [] = some []
walk_each descend (c ∷ cs) = do
  below ← descend c
  rest ← walk_each descend cs
  some (c ∷ (below ++ rest))

-- The nested `walk`. `depth` is what the interpreter's recursion limit leaves; `none` is the
-- RecursionError that Python raises past it.
walk : ℕ → (ℕ → List ℕ) → ℕ → Option (List ℕ)
unfolding walk_each
walk zero children parent = none
walk (suc depth) children parent = walk_each (walk depth children) (children parent)

unfoldable pub collect_descendant_ids : ℕ → ℕ → Dict (Option ℕ) (List ℕ) → Option (List ℕ)
unfolding walk
collect_descendant_ids limit root_id d = walk limit (children_of d) root_id

unfoldable pub count_learning_units : ℕ → ℕ → List ℕ → Dict (Option ℕ) (List ℕ) → Option ℕ
count_learning_units limit root_id published d = do
  below ← collect_descendant_ids limit root_id d
  some ((if contains root_id published then 1 else 0) + count_if (λ c. contains c published) below)

unfoldable pub has_accessible_learning_content :
    ℕ → ℕ → List ℕ → Dict (Option ℕ) (List ℕ) → Option Bool
unfolding count_learning_units
has_accessible_learning_content limit root_id published d = do
  units ← count_learning_units limit root_id published d
  some (ltb 0 units)

-- `TraineeNodeProgressBatchItemOut`, less the node id that its dict key repeats.
pub record Snapshot : Type 0 where
  pub components : Components
  pub completion_status : Status
  pub progress_percentage : ℕ

abbrev is_in_progress : Status → Bool
is_in_progress in_progress = true
is_in_progress _ = false

-- The tests of one iteration of `subtree_has_learning_activity`.
has_activity : List ℕ → Dict ℕ Snapshot → ℕ → Bool
has_activity published progress node =
    if contains node published
    then (elim (lookup node progress) [
      | none ↦ false
      | some s ↦
          let c = s.components in
          is_in_progress s.completion_status
          || (ltb 0 c.study_material_read_percent && not c.study_material_completed)
          || (ltb 0 c.quiz_attempt_count && not c.quiz_passed)
    ])
    else false

unfoldable pub subtree_has_learning_activity :
    ℕ → ℕ → List ℕ → Dict (Option ℕ) (List ℕ) → Dict ℕ Snapshot → Option Bool
unfolding has_activity
subtree_has_learning_activity limit root_id published d progress = do
  below ← collect_descendant_ids limit root_id d
  some (any (has_activity published progress) (root_id ∷ below))

-- What one candidate adds in `sum_subtree_progress_percentage`.
unit_percentage : List ℕ → Dict ℕ Snapshot → ℕ → ℕ
unit_percentage published progress node =
    if contains node published
    then (elim (lookup node progress) [ none ↦ 0 | some s ↦ s.progress_percentage ])
    else 0

sum_percentages : List ℕ → Dict ℕ Snapshot → List ℕ → ℕ
unfolding unit_percentage
sum_percentages published progress [] = 0
sum_percentages published progress (n ∷ ns) =
    unit_percentage published progress n + sum_percentages published progress ns

unfoldable pub sum_subtree_progress_percentage :
    ℕ → ℕ → List ℕ → Dict (Option ℕ) (List ℕ) → Dict ℕ Snapshot → Option ℕ
unfolding sum_percentages
sum_subtree_progress_percentage limit root_id published d progress = do
  below ← collect_descendant_ids limit root_id d
  some (sum_percentages published progress (root_id ∷ below))

-- The tests of one iteration of `count_completed_learning_units`.
is_completed_unit : List ℕ → Dict ℕ Snapshot → List ℕ → ℕ → Bool
is_completed_unit published progress quiz_nodes node =
    if contains node published
    then (elim (lookup node progress) [
      | none ↦ false
      | some s ↦ is_learning_unit_complete s.components (contains node quiz_nodes)
    ])
    else false

-- `quiz_published_node_ids or set()`: no set counts as the empty one.
unfoldable pub count_completed_learning_units :
    ℕ → ℕ → List ℕ → Dict (Option ℕ) (List ℕ) → Dict ℕ Snapshot → Option (List ℕ) → Option ℕ
unfolding is_completed_unit
count_completed_learning_units limit root_id published d progress quiz_published = do
  below ← collect_descendant_ids limit root_id d
  let quiz_nodes = or_else quiz_published []
  some (count_if (is_completed_unit published progress quiz_nodes) (root_id ∷ below))
