-- ===== src/Progress/Tests.antt =====
-- Concrete trees and components on which the theorems about completion and the tree are applied.
use study_agent_service.Prelude.{
  ℕ, ◌*◌, ◌≤◌, ◌≡◌, refl, ◌↔◌, Bool, true, Option, none, some, List, [], ◌∷◌, arith, ◌==◌,
  if◌then◌else◌, contains,
}
use study_agent_service.Prelude.Dict.{nat_eq, option_eq, Dict, lookup, get_or}
use study_agent_service.Progress.Completion.{completed, compute_progress_percentage}
use study_agent_service.Progress.Tree.{
  build_tree, children_of, collect_descendant_ids, count_learning_units,
  count_completed_learning_units, sum_subtree_progress_percentage, has_accessible_learning_content,
  Snapshot,
}
use study_agent_service.Progress.Tree.Shape.{build_tree_links}
use study_agent_service.Progress.Tree.Descent.{
  Descends, child, IsHeight, collect_descendant_ids_total, collect_descendant_ids_cycle,
}
use study_agent_service.Progress.Tree.Units.{
  IsWithin, IsConsistent, has_accessible_learning_content_correct, rollup_bounds,
}
use study_agent_service.Progress.Samples.{root, second, third, finished}

abbrev children : Dict (Option ℕ) (List ℕ)
children = (none, 1 ∷ []) ∷ (some 1, 3 ∷ 2 ∷ []) ∷ []

abbrev height : ℕ → ℕ
height n = if n == 1 then 2 else 1

children-IsHeight : IsHeight (children_of children) height
children-IsHeight r c m = ground arith

build_tree_links_example :
    (contains 2 (
        get_or
          (some 1)
          (build_tree (root ∷ second ∷ third ∷ []) (1 ∷ 2 ∷ [])).children_by_parent
          [])
      ≡ true)
    ↔ (lookup 2 (build_tree (root ∷ second ∷ third ∷ []) (1 ∷ 2 ∷ [])).parent_by_node
        ≡ some (some 1))
build_tree_links_example =
    build_tree_links (root ∷ second ∷ third ∷ []) (1 ∷ 2 ∷ []) 2 (some 1) refl

collect_descendant_ids_total_example :
    (l : List ℕ) × (collect_descendant_ids 1000 1 children ≡ some l)
    × ((n : ℕ) → (contains n l ≡ true) ↔ Descends (children_of children) 1 n)
collect_descendant_ids_total_example =
    collect_descendant_ids_total children height 1000 1 children-IsHeight (omega arith)

-- Node 4 below itself.
abbrev cyclic : Dict (Option ℕ) (List ℕ)
cyclic = (some 4, 4 ∷ []) ∷ []

collect_descendant_ids_cycle_example : collect_descendant_ids 1000 4 cyclic ≡ none
collect_descendant_ids_cycle_example = collect_descendant_ids_cycle cyclic 1000 4 (child refl)

has_accessible_learning_content_correct_example :
    (answer : Bool) × (has_accessible_learning_content 1000 1 (2 ∷ []) children ≡ some answer)
    × ((answer ≡ true) ↔ ((n : ℕ) × IsWithin children 1 n × (contains n (2 ∷ []) ≡ true)))
has_accessible_learning_content_correct_example =
    has_accessible_learning_content_correct children height 1000 1 (2 ∷ []) children-IsHeight
      (omega arith)

abbrev snapshot : Snapshot
snapshot = record {
  components = finished;
  completion_status = completed;
  progress_percentage = 100;
}

snapshot-IsConsistent : IsConsistent ((1, snapshot) ∷ []) (1 ∷ [])
unfolding compute_progress_percentage
snapshot-IsConsistent n s e = ground arith

rollup_bounds_example :
    (units done total : ℕ) × (count_learning_units 1000 1 (1 ∷ 2 ∷ []) children ≡ some units)
    × (count_completed_learning_units 1000 1
          (1 ∷ 2 ∷ [])
          children
          ((1, snapshot) ∷ [])
          (some (1 ∷ []))
        ≡ some done)
    × (sum_subtree_progress_percentage 1000 1 (1 ∷ 2 ∷ []) children ((1, snapshot) ∷ [])
        ≡ some total)
    × (done ≤ units)
    × (100 * done ≤ total)
    × (total ≤ 100 * units)
    × ((total ≡ 100 * units) ↔ (done ≡ units))
rollup_bounds_example =
    rollup_bounds children height 1000 1 (1 ∷ 2 ∷ []) (1 ∷ []) ((1, snapshot) ∷ [])
      children-IsHeight (omega arith) snapshot-IsConsistent
