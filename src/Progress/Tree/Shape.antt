-- ===== src/Progress/Tree/Shape.antt =====
-- The dicts of `build_unlock_tree_context` agree with the rows that they were built from.
use study_agent_service.Prelude.{
  ℕ, ◌≤◌, ◌≡◌, refl, ◌↔◌, ap, Bool, true, false, ◌&&◌, ◌||◌, not, Option, none, some, List, [], ◌∷◌,
  ◌++◌, arith, contains, any, contains-append, ◌==◌, ==_iff, Bool-cases, inl, inr,
}
use study_agent_service.Prelude.Dict.{
  Dict, lookup, insert, get_or, lookup-insert, nat_eq, option_eq, option_beq, option_beq_iff,
}
use study_agent_service.Progress.Tree.{
  TopicNode, insert_sorted, sort_by, add_child, group_children, index_nodes, sort_values, order_of,
  build_tree,
}

contains-insert_sorted :
    (key : ℕ → ℕ) (a c : ℕ) (xs : List ℕ)
    → contains c (insert_sorted key a xs) ≡ (c == a || contains c xs)
unfolding insert_sorted
contains-insert_sorted key a c [] = refl
contains-insert_sorted key a c (x ∷ xs) = ground (arith, contains-insert_sorted key a c xs)

contains-sort_by : (key : ℕ → ℕ) (c : ℕ) (xs : List ℕ) → contains c (sort_by key xs) ≡ contains c xs
unfolding sort_by
contains-sort_by key c [] = refl
contains-sort_by key c (x ∷ xs) =
    ground (arith, contains-insert_sorted key x c (sort_by key xs), contains-sort_by key c xs)

-- Every key is at least the one before it.
abbrev pub IsSortedBy : (ℕ → ℕ) → List ℕ → Type 0
IsSortedBy key [] = Unit
IsSortedBy key (x ∷ []) = Unit
IsSortedBy key (x ∷ y ∷ xs) = (key x ≤ key y) × IsSortedBy key (y ∷ xs)

insert_sorted-IsSortedBy :
    (key : ℕ → ℕ) (a : ℕ) (xs : List ℕ)
    → IsSortedBy key xs
    → IsSortedBy key (insert_sorted key a xs)
unfolding insert_sorted
insert_sorted-IsSortedBy key a [] h = tt
insert_sorted-IsSortedBy key a (x ∷ []) h = ground arith
insert_sorted-IsSortedBy key a (x ∷ y ∷ xs) h =
    ground (arith, insert_sorted-IsSortedBy key a (y ∷ xs) h.1)

sort_by-IsSortedBy : (key : ℕ → ℕ) (xs : List ℕ) → IsSortedBy key (sort_by key xs)
unfolding sort_by
sort_by-IsSortedBy key [] = tt
sort_by-IsSortedBy key (x ∷ xs) =
    insert_sorted-IsSortedBy key x (sort_by key xs) (sort_by-IsSortedBy key xs)

get_or-sort_values :
    (key : ℕ → ℕ) (p : Option ℕ) (d : Dict (Option ℕ) (List ℕ))
    → get_or p (sort_values key d) [] ≡ sort_by key (get_or p d [])
unfolding sort_values
get_or-sort_values key p [] = unfold sort_by in refl
get_or-sort_values key p ((q, cs) ∷ d) = ground (arith, get_or-sort_values key p d)

abbrev is_child : Option ℕ → ℕ → TopicNode → Bool
is_child p c n = option_beq n.parent_id p && c == n.node_id

contains-add_child :
    (p : Option ℕ) (c : ℕ) (d : Dict (Option ℕ) (List ℕ)) (n : TopicNode)
    → contains c (get_or p (add_child d n) []) ≡ (contains c (get_or p d []) || is_child p c n)
unfolding add_child
contains-add_child p c d n =
    let old = get_or n.parent_id d [] in
    ground (
      arith,
      lookup-insert p n.parent_id (old ++ n.node_id ∷ []) d,
      contains-append c old (n.node_id ∷ []),
      option_beq_iff n.parent_id p,
    )

contains-group_children :
    (p : Option ℕ) (c : ℕ) (d : Dict (Option ℕ) (List ℕ)) (ns : List TopicNode)
    → contains c (get_or p (group_children d ns) [])
      ≡ (contains c (get_or p d []) || any (is_child p c) ns)
unfolding group_children
contains-group_children p c d [] = ground arith
contains-group_children p c d (n ∷ ns) =
    ground (arith, contains-group_children p c (add_child d n) ns, contains-add_child p c d n)

abbrev has_id : ℕ → TopicNode → Bool
has_id c n = c == n.node_id

-- `node_id` is the primary key.
abbrev pub distinct_ids : List TopicNode → Bool
distinct_ids [] = true
distinct_ids (n ∷ ns) = not (any (has_id n.node_id) ns) && distinct_ids ns

lookup-index_nodes_absent :
    {V : Type 0} (f : TopicNode → V) (c : ℕ) (d : Dict ℕ V) (ns : List TopicNode)
    → any (has_id c) ns ≡ false
    → lookup c (index_nodes f d ns) ≡ lookup c d
unfolding index_nodes
lookup-index_nodes_absent f c d [] h = refl
lookup-index_nodes_absent f c d (n ∷ ns) h = ground (
  arith,
  lookup-index_nodes_absent f c (insert n.node_id (f n) d) ns,
  lookup-insert c n.node_id (f n) d,
)

not_child_of_absent :
    (p : Option ℕ) (c : ℕ) (ns : List TopicNode)
    → any (has_id c) ns ≡ false
    → any (is_child p c) ns ≡ false
not_child_of_absent p c [] h = refl
not_child_of_absent p c (n ∷ ns) h = ground (arith, not_child_of_absent p c ns)

lookup-index_parents :
    (c : ℕ) (p : Option ℕ) (d : Dict ℕ (Option ℕ)) (ns : List TopicNode)
    → distinct_ids ns ≡ true
    → lookup c d ≡ none
    → (any (is_child p c) ns ≡ true) ↔ (lookup c (index_nodes (λ n. n.parent_id) d ns) ≡ some p)
unfolding index_nodes
lookup-index_parents c p d [] h e = ground arith
lookup-index_parents c p d (n ∷ ns) h e = elim (Bool-cases (c == n.node_id)) [
  | inl same ↦ ground (
    arith,
    option_beq_iff n.parent_id p,
    not_child_of_absent p c ns,
    lookup-index_nodes_absent (λ m. m.parent_id) c (insert n.node_id n.parent_id d) ns,
    lookup-insert c n.node_id n.parent_id d,
    ap (λ k. any (has_id k) ns) ((==_iff c n.node_id).0 same),
  )
  | inr other ↦ ground (
    arith,
    lookup-index_parents c p (insert n.node_id n.parent_id d) ns,
    lookup-insert c n.node_id n.parent_id d,
  )
]

-- With distinct node ids, the two directions of the tree agree: a node stands in the list of
-- children under a key exactly when its own entry names that parent (or none, for the roots).
pub build_tree_links :
    (nodes : List TopicNode) (published : List ℕ) (c : ℕ) (p : Option ℕ)
    → distinct_ids nodes ≡ true
    → let tree = build_tree nodes published in
      (contains c (get_or p tree.children_by_parent []) ≡ true)
      ↔ (lookup c tree.parent_by_node ≡ some p)
unfolding build_tree
build_tree_links nodes published c p h = ground (
  arith,
  get_or-sort_values (order_of nodes) p (group_children [] nodes),
  contains-sort_by (order_of nodes) c (get_or p (group_children [] nodes) []),
  contains-group_children p c [] nodes,
  lookup-index_parents c p [] nodes h refl,
)

-- Every list of children stands in the order of the nodes' `order_index`.
pub build_tree_sorted :
    (nodes : List TopicNode) (published : List ℕ) (p : Option ℕ)
    → IsSortedBy (order_of nodes) (get_or p (build_tree nodes published).children_by_parent [])
unfolding build_tree
build_tree_sorted nodes published p =
    rw (get_or-sort_values (order_of nodes) p (group_children [] nodes))
      (sort_by-IsSortedBy (order_of nodes) (get_or p (group_children [] nodes) []))
