-- ===== src/Progress/Unlocking/Batch.antt =====
-- What the granting operations store and report.
use study_agent_service.Prelude.{
  count_if, any, ℕ, ◌≡◌, refl, ap, inl, inr, Bool, false, not, ◌&&◌, ◌||◌, Option, some, List, [],
  ◌∷◌, arith, ◌==◌, ==_iff, Bool-cases, Option-cases, or_else, contains,
}
use study_agent_service.Progress.Unlocking.{eligible_children_for_unlock, eligible_among}
use study_agent_service.Progress.Unlocking.Granting.{
  grant_rows, batch_grant_children_on_parent_completed, grant_each,
}
use study_agent_service.Progress.Tree.{
  has_accessible_learning_content, children_of, UnlockTreeContext,
}
use study_agent_service.Progress.Store.{
  parent_completed, ProgressRow, grant_unlock, UnlockRow, Db, UnlockSource,
}
use study_agent_service.Progress.Unlocking.Grants.{grant_unlock-stores, has_grant}
use study_agent_service.Progress.Completion.{is_learning_unit_complete}

-- The grants after the loop are those before and the trainee's for the children.
grant_each-stores :
    (trainee parent space : ℕ) (source : UnlockSource) (cs : List ℕ) (db : Db) (t n : ℕ)
    → has_grant t n (grant_each trainee parent space source cs db).1
      ≡ (has_grant t n db || (trainee == t && contains n cs))
unfolding grant_each
grant_each-stores trainee parent space source [] db t n = ground arith
grant_each-stores trainee parent space source (c ∷ cs) db t n =
    let u : UnlockRow = record {
      trainee_id = trainee;
      node_id = c;
      space_id = space;
      gate_node_id = some parent;
      source = source;
    } in
    ground (
      arith,
      grant_unlock-stores u db t n,
      grant_each-stores trainee parent space source cs (grant_unlock u db).1 t n,
    )

-- What it reports are the children that had no grant.
grant_each-reports :
    (trainee parent space : ℕ) (source : UnlockSource) (cs : List ℕ) (db : Db) (n : ℕ)
    → contains n (grant_each trainee parent space source cs db).0
      ≡ (contains n cs && not (has_grant trainee n db))
unfolding grant_each
grant_each-reports trainee parent space source [] db n = refl
grant_each-reports trainee parent space source (c ∷ cs) db n =
    let u : UnlockRow = record {
      trainee_id = trainee;
      node_id = c;
      space_id = space;
      gate_node_id = some parent;
      source = source;
    } in
    elim (Bool-cases (n == c)) [
      | inl same ↦ ground (
        arith,
        grant_unlock-stores u db trainee n,
        grant_each-reports trainee parent space source cs (grant_unlock u db).1 n,
        ==_iff trainee trainee,
        ap (λ k. has_grant trainee k db) ((==_iff n c).0 same),
      )
      | inr other ↦ ground (
        arith,
        grant_unlock-stores u db trainee n,
        grant_each-reports trainee parent space source cs (grant_unlock u db).1 n,
      )
    ]

eligible_among-contains :
    (accessible : ℕ → Option Bool) (cs l : List ℕ) (c : ℕ)
    → eligible_among accessible cs ≡ some l
    → contains c l ≡ (contains c cs && or_else (accessible c) false)
unfolding eligible_among
eligible_among-contains accessible [] l c e = ground arith
eligible_among-contains accessible (x ∷ cs) l c e = elim (Option-cases (accessible x)) [
  | inl stop ↦ absurd (ground arith)
  | inr (b, ex) ↦ elim (Option-cases (eligible_among accessible cs)) [
    | inl stop ↦ absurd (ground arith)
    | inr (rest, er) ↦ elim (Bool-cases (c == x)) [
      | inl same ↦ ground (
        arith,
        eligible_among-contains accessible cs rest c er,
        ap accessible ((==_iff c x).0 same),
      )
      | inr other ↦ ground (arith, eligible_among-contains accessible cs rest c er)
    ]
  ]
]

-- The child has learning content, by the tree's own test.
abbrev pub is_eligible : ℕ → UnlockTreeContext → ℕ → ℕ → Bool
is_eligible limit tree parent c =
    contains c (children_of tree.children_by_parent parent)
    && or_else
        (has_accessible_learning_content limit c tree.published_node_ids tree.children_by_parent)
        false

-- When a batch grant returns, the trainee has a grant for exactly the parent's children with
-- learning content beside the grants that were there before; it reports those of these children
-- that had none; and no other trainee's grants change.
pub batch_grant_children-exact :
    (limit trainee parent space : ℕ) (tree : UnlockTreeContext) (source : UnlockSource) (db : Db)
    {newly : List ℕ} {db' : Db}
    → batch_grant_children_on_parent_completed limit trainee parent space tree source db
      ≡ some (newly, db')
    → (t n : ℕ)
    → (has_grant t n db' ≡ (has_grant t n db || (trainee == t && is_eligible limit tree parent n)))
      × (contains n newly ≡ (is_eligible limit tree parent n && not (has_grant trainee n db)))
unfolding batch_grant_children_on_parent_completed eligible_children_for_unlock
batch_grant_children-exact limit trainee parent space tree source db {newly} {db'} e t n =
    let accessible = λ (c : ℕ).
      has_accessible_learning_content limit c tree.published_node_ids tree.children_by_parent in
    elim (Option-cases (eligible_among accessible (children_of tree.children_by_parent parent))) [
      | inl stop ↦ absurd (ground arith)
      | inr (l, el) ↦ ground (
        arith,
        eligible_among-contains accessible (children_of tree.children_by_parent parent) l n el,
        grant_each-stores trainee parent space source l db t n,
        grant_each-reports trainee parent space source l db n,
      )
    ]

-- The trainee has a row that completes the node.
abbrev pub has_completed : Bool → ℕ → List ProgressRow → Bool
has_completed has_quiz t rows =
    any (λ r. r.trainee_id == t && is_learning_unit_complete r.components has_quiz) rows

-- Over the progress rows of a node, when the loop returns: it counts the rows that complete the
-- node, and the grants afterwards are those before and, for each trainee with such a row, those
-- for the node's eligible children. No progress row changes.
pub grant_rows-exact :
    (limit node space : ℕ) (has_quiz : Bool) (tree : UnlockTreeContext) (rows : List ProgressRow)
    (db : Db) {processed : ℕ} {db' : Db}
    → grant_rows limit node space has_quiz tree rows db ≡ some (processed, db')
    → (processed ≡ count_if (λ r. is_learning_unit_complete r.components has_quiz) rows)
      × ((t n : ℕ)
          → has_grant t n db' ≡ (
              has_grant t n db || (has_completed has_quiz t rows && is_eligible limit tree node n)))
unfolding grant_rows
grant_rows-exact limit node space has_quiz tree [] db {processed} {db'} e =
    (ground arith, λ t n. ground arith)
grant_rows-exact limit node space has_quiz tree (r ∷ rows) db {processed} {db'} e =
    elim (Bool-cases (is_learning_unit_complete r.components has_quiz)) [
      | inr incomplete ↦
          let (k, g) =
            grant_rows-exact limit node space has_quiz tree rows db {processed = processed}
              {db' = db'} (ground arith) in
          (ground arith, λ t n. ground (arith, g t n))
      | inl complete ↦
          elim (Option-cases (
            batch_grant_children_on_parent_completed limit r.trainee_id node space tree
              parent_completed db)) [
                | inl stop ↦ absurd (ground arith)
                | inr (pair, eb) ↦
                    elim (Option-cases (grant_rows limit node space has_quiz tree rows pair.1)) [
                      | inl stop ↦ absurd (ground arith)
                      | inr (rest, er) ↦
                          let (k, g) =
                            grant_rows-exact limit node space has_quiz tree rows pair.1
                              {processed = rest.0} {db' = rest.1} er in
                          let b =
                            batch_grant_children-exact limit r.trainee_id node space tree
                              parent_completed db {newly = pair.0} {db' = pair.1} eb in
                          (ground arith, λ t n. ground (arith, g t n, b t n))
                    ]
              ]
    ]
