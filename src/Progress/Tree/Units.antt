-- ===== src/Progress/Tree/Units.antt =====
-- What the counts and sums over a subtree say about its nodes.
use study_agent_service.Prelude.{
  ℕ, ◌+◌, ◌*◌, ◌≤◌, ◌<◌, ◌≡◌, refl, ◌↔◌, ◌⊎◌, inl, inr, Bool, true, Option, some, List, [], ◌∷◌,
  arith, contains, any, count_if, count_if-pos, count_if-zero, Option-cases, Bool-cases, ◌==◌,
  ==_iff, subst, ltb, if◌then◌else◌,
}
use study_agent_service.Prelude.Dict.{Dict, lookup, nat_eq}
use study_agent_service.Progress.Completion.{compute_progress_percentage, is_learning_unit_complete}
use study_agent_service.Progress.Tree.{
  Snapshot, children_of, count_learning_units, has_accessible_learning_content, unit_percentage,
  sum_percentages, sum_subtree_progress_percentage, is_completed_unit,
  count_completed_learning_units,
}
use study_agent_service.Progress.Tree.Descent.{Descends, IsHeight, collect_descendant_ids_total}

any-witness :
    (p : ℕ → Bool) (xs : List ℕ) → any p xs ≡ true → (x : ℕ) × (contains x xs ≡ true) × (p x ≡ true)
any-witness p [] h = absurd (ground arith)
any-witness p (x ∷ xs) h = elim (Bool-cases (p x)) [
  | inl yes_x ↦ (x, ground arith, yes_x)
  | inr no_x ↦ let (y, m, e) = any-witness p xs (ground arith) in (y, ground arith, e)
]

witness-any :
    (p : ℕ → Bool) (x : ℕ) (xs : List ℕ) → contains x xs ≡ true → p x ≡ true → any p xs ≡ true
witness-any p x [] m e = absurd (ground arith)
witness-any p x (y ∷ xs) m e = elim (Bool-cases (x == y)) [
  | inl same ↦ let e' : p y ≡ true = subst (λ k. p k ≡ true) ((==_iff x y).0 same) e in ground arith
  | inr other ↦ ground (arith, witness-any p x xs)
]

-- The root or a node below it.
abbrev pub IsWithin : Dict (Option ℕ) (List ℕ) → ℕ → ℕ → Type 0
IsWithin d root n = (n ≡ root) ⊎ Descends (children_of d) root n

-- On a tree lower than the recursion limit the test for learning content returns, and says whether
-- the root or some descendant has published study material.
pub has_accessible_learning_content_correct :
    (d : Dict (Option ℕ) (List ℕ)) (height : ℕ → ℕ) (limit root : ℕ) (published : List ℕ)
    → IsHeight (children_of d) height
    → height root < limit
    → (answer : Bool) × (has_accessible_learning_content limit root published d ≡ some answer)
      × ((answer ≡ true) ↔ ((n : ℕ) × IsWithin d root n × (contains n published ≡ true)))
unfolding has_accessible_learning_content
has_accessible_learning_content_correct d height limit root published falls h =
    let (l, e, only) = collect_descendant_ids_total d height limit root falls h in
    let p = λ (c : ℕ). contains c published in
    (
      ltb 0 ((if p root then 1 else 0) + count_if p l),
      ground arith,
      (
        λ m. elim (Bool-cases (p root)) [
          | inl here ↦ (root, inl refl, here)
          | inr not_here ↦ elim (Bool-cases (any p l)) [
            | inl some_below ↦
                let (n, mn, pn) = any-witness p l some_below in (n, inr ((only n).0 mn), pn)
            | inr none_below ↦ absurd (ground (arith, count_if-zero p l))
          ]
        ],
        λ w. elim w.1 [
          | inl e_root ↦
              let here : p root ≡ true = subst (λ k. p k ≡ true) e_root w.2 in ground arith
          | inr desc ↦ grind (arith, count_if-pos p l (witness-any p w.0 l ((only w.0).1 desc) w.2))
        ],
      ),
    )

-- `progress_percentage` is recomputed from the same fields and quiz flag.
abbrev pub IsConsistent : Dict ℕ Snapshot → List ℕ → Type 0
IsConsistent progress quiz_nodes =
    (n : ℕ) (s : Snapshot)
    → lookup n progress ≡ some s
    → s.progress_percentage ≡ compute_progress_percentage s.components (contains n quiz_nodes)

abbrev bit : Bool → ℕ
bit b = if b then 1 else 0

module _ (published quiz_nodes : List ℕ) (progress : Dict ℕ Snapshot)
    (same : IsConsistent progress quiz_nodes) where
  -- A completed unit adds 100, an incomplete one at most 50, and an unpublished node nothing.
  one_unit :
      (n : ℕ)
      → let k = bit (is_completed_unit published progress quiz_nodes n) in
        let v = unit_percentage published progress n in
        let u = bit (contains n published) in (k ≤ u) × (100 * k ≤ v) × (v ≤ 50 * u + 50 * k)
  unfolding is_completed_unit unit_percentage is_learning_unit_complete compute_progress_percentage
  one_unit n = elim (Option-cases (lookup n progress)) [
    | inl absent ↦ ground arith
    | inr (s, e) ↦ ground (arith, same n s e)
  ]

  all_units :
      (ns : List ℕ)
      → let k = count_if (is_completed_unit published progress quiz_nodes) ns in
        let v = sum_percentages published progress ns in
        let u = count_if (λ n. contains n published) ns in
        (k ≤ u) × (100 * k ≤ v) × (v ≤ 50 * u + 50 * k)
  unfolding sum_percentages
  all_units [] = (omega arith, omega arith, omega arith)
  all_units (n ∷ ns) = ground (arith, one_unit n, all_units ns)

-- Over one subtree, in a tree (a height that falls from parent to child) whose root is lower than
-- the recursion limit, and when the trainee's rows are consistent (each stored percentage is the one recomputed
-- from the stored components with the set of published quizzes that is also used to count), the
-- number of units, the number of completed units and the sum of percentages are all returned, and
-- they fit together: at most all units are complete, the average is between the share of completed
-- units and 100, and it is 100 exactly when all units are complete.
pub rollup_bounds :
    (d : Dict (Option ℕ) (List ℕ)) (height : ℕ → ℕ) (limit root : ℕ) (published quiz_nodes : List ℕ)
    (progress : Dict ℕ Snapshot)
    → IsHeight (children_of d) height
    → height root < limit
    → IsConsistent progress quiz_nodes
    → (units done total : ℕ) × (count_learning_units limit root published d ≡ some units)
      × (count_completed_learning_units limit root published d progress (some quiz_nodes)
          ≡ some done)
      × (sum_subtree_progress_percentage limit root published d progress ≡ some total)
      × (done ≤ units)
      × (100 * done ≤ total)
      × (total ≤ 100 * units)
      × ((total ≡ 100 * units) ↔ (done ≡ units))
unfolding count_learning_units count_completed_learning_units sum_subtree_progress_percentage
rollup_bounds d height limit root published quiz_nodes progress falls low same =
    let (l, e, only) = collect_descendant_ids_total d height limit root falls low in
    let units : ℕ = count_if (λ n. contains n published) (root ∷ l) in
    let done : ℕ = count_if (is_completed_unit published progress quiz_nodes) (root ∷ l) in
    let total : ℕ = sum_percentages published progress (root ∷ l) in
    let (a, b, c) = all_units published quiz_nodes progress same (root ∷ l) in
    (
      units,
      done,
      total,
      ground arith,
      ground arith,
      ground arith,
      omega arith,
      omega arith,
      omega arith,
      (λ h. omega arith, λ h. omega arith),
    )
