-- ===== src/Progress/Tree/Descent.antt =====
-- `collect_descendant_ids` ends on every tree and returns exactly the descendants; on a cycle it
-- ends in Python's RecursionError.
use study_agent_service.Prelude.{
  ℕ, zero, suc, ◌<◌, ◌≡◌, refl, ◌↔◌, ◌⊎◌, inl, inr, true, ◌||◌, Option, none, some, List, [], ◌∷◌,
  ◌++◌, arith, contains, contains-append, Option-cases, Bool-cases, ◌==◌, ==_iff, subst, sym,
}
use study_agent_service.Prelude.Dict.{Dict}
use study_agent_service.Progress.Tree.{walk_each, walk, children_of, collect_descendant_ids}

-- `d` lies below `r` in the tree.
pub data Descends (children : ℕ → List ℕ) : ℕ → ℕ → Type 0 where
  child : {r c : ℕ} → contains c (children r) ≡ true → Descends children r c
  below :
      {r c d : ℕ} → contains c (children r) ≡ true → Descends children c d → Descends children r d

-- The length of a longest path down: a number for each node that is smaller at each child.
abbrev pub IsHeight : (ℕ → List ℕ) → (ℕ → ℕ) → Type 0
IsHeight children height = (r c : ℕ) → contains c (children r) ≡ true → height c < height r

-- What the loop returns is each child's own result behind the child, if all calls return.
walk_each-some :
    (descend : ℕ → Option (List ℕ)) (cs : List ℕ)
    → ((c : ℕ) → contains c cs ≡ true → (l : List ℕ) × (descend c ≡ some l))
    → (l : List ℕ) × (walk_each descend cs ≡ some l)
unfolding walk_each
walk_each-some descend [] h = ([], refl)
walk_each-some descend (c ∷ cs) h =
    let (l, e) = h c (ground arith) in
    let (rest, e') = walk_each-some descend cs (λ a m. h a (ground arith)) in
    (c ∷ (l ++ rest), ground arith)

walk_each-cons :
    (descend : ℕ → Option (List ℕ)) (x : ℕ) (cs l : List ℕ)
    → walk_each descend (x ∷ cs) ≡ some l
    → (lx rest : List ℕ) × (descend x ≡ some lx)
      × (walk_each descend cs ≡ some rest)
      × (l ≡ x ∷ (lx ++ rest))
unfolding walk_each
walk_each-cons descend x cs l e = elim (Option-cases (descend x)) [
  | inl stop ↦ absurd (ground arith)
  | inr (lx, ex) ↦ elim (Option-cases (walk_each descend cs)) [
    | inl stop ↦ absurd (ground arith)
    | inr (rest, er) ↦ (lx, rest, ex, er, ground arith)
  ]
]

contains-joined :
    (d x : ℕ) (lx rest : List ℕ)
    → contains d (x ∷ (lx ++ rest)) ≡ (d == x || (contains d lx || contains d rest))
contains-joined d x lx rest = ground (arith, contains-append d lx rest)

-- Each child stands in the result, and so does all that its own call returned.
walk_each-child :
    (descend : ℕ → Option (List ℕ)) (cs l : List ℕ) (c : ℕ)
    → walk_each descend cs ≡ some l
    → contains c cs ≡ true
    → (lc : List ℕ) × (descend c ≡ some lc)
      × (contains c l ≡ true)
      × ((d : ℕ) → contains d lc ≡ true → contains d l ≡ true)
walk_each-child descend [] l c e m = absurd (ground arith)
walk_each-child descend (x ∷ cs) l c e m =
    let (lx, rest, ex, er, el) = walk_each-cons descend x cs l e in
    elim (Bool-cases (c == x)) [
      | inl same ↦ (
        lx,
        subst (λ k. descend k ≡ some lx) (sym ((==_iff c x).0 same)) ex,
        rw el (ground arith),
        λ d md. rw el (ground (arith, contains-joined d x lx rest)),
      )
      | inr other ↦
          let (lc, ec, mc, sub) = walk_each-child descend cs rest c er (ground arith) in
          (
            lc,
            ec,
            rw el (ground (arith, contains-joined c x lx rest)),
            λ d md. rw el (ground (arith, contains-joined d x lx rest, sub d md)),
          )
    ]

-- Nothing else stands there.
walk_each-only :
    (descend : ℕ → Option (List ℕ)) (cs l : List ℕ) (d : ℕ)
    → walk_each descend cs ≡ some l
    → contains d l ≡ true
    → (contains d cs ≡ true)
      ⊎ ((c : ℕ) × (lc : List ℕ) × (contains c cs ≡ true)
          × (descend c ≡ some lc)
          × (contains d lc ≡ true))
walk_each-only descend [] l d e m = absurd (unfold walk_each in ground arith)
walk_each-only descend (x ∷ cs) l d e m =
    let (lx, rest, ex, er, el) = walk_each-cons descend x cs l e in
    let m' : contains d (x ∷ (lx ++ rest)) ≡ true = rw el at m in
    elim (Bool-cases (d == x)) [
      | inl same ↦ inl (ground arith)
      | inr other ↦ elim (Bool-cases (contains d lx)) [
        | inl inside ↦ inr (x, lx, ground arith, ex, inside)
        | inr outside ↦
            elim (walk_each-only descend cs rest d er
              (ground (arith, contains-joined d x lx rest))) [
                | inl there ↦ inl (ground arith)
                | inr (c, lc, mc, ec, md) ↦ inr (c, lc, ground arith, ec, md)
              ]
      ]
    ]

module _ (children : ℕ → List ℕ) where
  walk_total :
      (height : ℕ → ℕ) (depth root : ℕ)
      → IsHeight children height
      → height root < depth
      → (l : List ℕ) × (walk depth children root ≡ some l)
  unfolding walk
  walk_total height zero root falls h = absurd (omega arith)
  walk_total height (suc depth) root falls h =
      walk_each-some (walk depth children) (children root)
        (λ c m. walk_total height depth c falls (omega (arith, falls root c m)))

  walk_sound :
      (depth root : ℕ) (l : List ℕ) (d : ℕ)
      → walk depth children root ≡ some l
      → contains d l ≡ true
      → Descends children root d
  unfolding walk
  walk_sound zero root l d e m = absurd (ground arith)
  walk_sound (suc depth) root l d e m =
      elim (walk_each-only (walk depth children) (children root) l d e m) [
        | inl at ↦ child at
        | inr (c, lc, mc, ec, md) ↦ below mc (walk_sound depth c lc d ec md)
      ]

  -- A call below another one has less depth left.
  walk-Descends :
      (depth : ℕ) {root d : ℕ} (l : List ℕ)
      → walk depth children root ≡ some l
      → Descends children root d
      → (contains d l ≡ true)
        × ((less : ℕ) × (ld : List ℕ) × (less < depth) × (walk less children d ≡ some ld))
  unfolding walk
  walk-Descends zero l e p = absurd (ground arith)
  walk-Descends (suc depth) {root} {d} l e (child m) =
      let (lc, ec, mc, sub) = walk_each-child (walk depth children) (children root) l d e m in
      (mc, (depth, lc, omega arith, ec))
  walk-Descends (suc depth) {root} {d} l e (below {c = c} m p) =
      let (lc, ec, mc, sub) = walk_each-child (walk depth children) (children root) l c e m in
      let (md, (less, ld, lt, el)) = walk-Descends depth lc ec p in
      (sub d md, (less, ld, omega arith, el))

  walk_cycle :
      (bound depth : ℕ) (root : ℕ) (l : List ℕ)
      → depth < bound
      → Descends children root root
      → walk depth children root ≡ some l
      → ⊥
  walk_cycle zero depth root l h p e = omega arith
  walk_cycle (suc bound) depth root l h p e =
      let (m, (less, ld, lt, el)) = walk-Descends depth l e p in
      walk_cycle bound less root ld (omega arith) p el

-- On a tree (a height falls from every node to its children) that is lower than the interpreter's
-- recursion limit, the call returns, and what it returns is exactly the descendants of the root.
pub collect_descendant_ids_total :
    (d : Dict (Option ℕ) (List ℕ)) (height : ℕ → ℕ) (limit root : ℕ)
    → IsHeight (children_of d) height
    → height root < limit
    → (l : List ℕ) × (collect_descendant_ids limit root d ≡ some l)
      × ((n : ℕ) → (contains n l ≡ true) ↔ Descends (children_of d) root n)
unfolding collect_descendant_ids
collect_descendant_ids_total d height limit root falls h =
    let (l, e) = walk_total (children_of d) height limit root falls h in
    (
      l,
      e,
      λ n. (
        λ m. walk_sound (children_of d) limit root l n e m,
        λ p. (walk-Descends (children_of d) limit l e p).0,
      ),
    )

-- On a node that lies below itself no recursion limit is enough: the call always ends in the error.
pub collect_descendant_ids_cycle :
    (d : Dict (Option ℕ) (List ℕ)) (limit root : ℕ)
    → Descends (children_of d) root root
    → collect_descendant_ids limit root d ≡ none
unfolding collect_descendant_ids
collect_descendant_ids_cycle d limit root p =
    elim (Option-cases (walk limit (children_of d) root)) [
      | inl stop ↦ stop
      | inr (l, e) ↦ absurd (walk_cycle (children_of d) (suc limit) limit root l (omega arith) p e)
    ]
