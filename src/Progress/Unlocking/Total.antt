-- ===== src/Progress/Unlocking/Total.antt =====
-- On a tree that is lower than the interpreter's recursion limit the granting operations return,
-- and their results are as wanted.
use study_agent_service.Prelude.{
  ℕ, suc, ◌<◌, ◌≡◌, refl, inl, inr, Bool, not, ◌&&◌, ◌||◌, Option, some, List, [], ◌∷◌, arith, ◌==◌,
  if◌then◌else◌, Bool-cases, Option-cases, keep, count_if, contains,
}
use study_agent_service.Progress.Tree.{
  children_of, has_accessible_learning_content, UnlockTreeContext,
}
use study_agent_service.Progress.Tree.Descent.{IsHeight}
use study_agent_service.Progress.Tree.Units.{has_accessible_learning_content_correct}
use study_agent_service.Progress.Store.{
  parent_completed, ProgressRow, Db, UnlockSource, get_published_quiz_node_ids,
}
use study_agent_service.Progress.Completion.{is_learning_unit_complete}
use study_agent_service.Progress.Unlocking.{
  eligible_among, eligible_children_for_unlock, build_unlock_tree_context,
}
use study_agent_service.Progress.Unlocking.Granting.{
  batch_grant_children_on_parent_completed, grant_rows, grant_listed,
  grant_unlocks_for_completed_trainees_on_node, row_of,
}
use study_agent_service.Progress.Unlocking.Grants.{has_grant}
use study_agent_service.Progress.Unlocking.Batch.{
  is_eligible, has_completed, batch_grant_children-exact, grant_rows-exact,
}

-- Every path down is shorter than the recursion limit.
abbrev pub IsLow : ℕ → UnlockTreeContext → Type 0
IsLow limit tree =
    (height : ℕ → ℕ) × IsHeight (children_of tree.children_by_parent) height
    × ((n : ℕ) → height n < limit)

eligible_among_total :
    (accessible : ℕ → Option Bool) (cs : List ℕ)
    → ((c : ℕ) → (b : Bool) × (accessible c ≡ some b))
    → (l : List ℕ) × (eligible_among accessible cs ≡ some l)
unfolding eligible_among
eligible_among_total accessible [] h = ([], refl)
eligible_among_total accessible (c ∷ cs) h =
    let (b, eb) = h c in
    let (rest, er) = eligible_among_total accessible cs h in
    (if b then c ∷ rest else rest, ground arith)

-- On a tree that is lower than the recursion limit a batch grant returns. Afterwards the trainee has
-- a grant for exactly the parent's children with learning content beside the grants that were there
-- before; it reports those of these children that had none; no other trainee's grants change.
pub batch_grant_children_total :
    (limit trainee parent space : ℕ) (tree : UnlockTreeContext) (source : UnlockSource) (db : Db)
    → IsLow limit tree
    → (newly : List ℕ) × (db' : Db) × (batch_grant_children_on_parent_completed limit trainee parent
          space tree source db
        ≡ some (newly, db'))
      × ((t n : ℕ)
          → (has_grant t n db'
              ≡ (has_grant t n db || (trainee == t && is_eligible limit tree parent n)))
            × (contains n newly
                ≡ (is_eligible limit tree parent n && not (has_grant trainee n db))))
unfolding batch_grant_children_on_parent_completed eligible_children_for_unlock
batch_grant_children_total limit trainee parent space tree source db (height, falls, low) =
    let accessible = λ (c : ℕ).
      has_accessible_learning_content limit c tree.published_node_ids tree.children_by_parent in
    let answers : (c : ℕ) → (b : Bool) × (accessible c ≡ some b) = λ c.
      let (b, eb, means) =
        has_accessible_learning_content_correct tree.children_by_parent height limit c
          tree.published_node_ids falls (low c) in
      (b, eb) in
    let (l, el) =
      eligible_among_total accessible (children_of tree.children_by_parent parent) answers in
    elim (Option-cases
      (batch_grant_children_on_parent_completed limit trainee parent space tree source db)) [
        | inl stop ↦ absurd (ground arith)
        | inr (r, er) ↦ (
          r.0,
          r.1,
          er,
          λ t n.
              batch_grant_children-exact limit trainee parent space tree source db {newly = r.0}
                {db' = r.1} er t n,
        )
      ]

grant_rows-some :
    (limit node space : ℕ) (has_quiz : Bool) (tree : UnlockTreeContext) (rows : List ProgressRow)
    (db : Db)
    → IsLow limit tree
    → (r : ℕ × Db) × (grant_rows limit node space has_quiz tree rows db ≡ some r)
unfolding grant_rows
grant_rows-some limit node space has_quiz tree [] db low = ((0, db), refl)
grant_rows-some limit node space has_quiz tree (row ∷ rows) db low =
    elim (Bool-cases (is_learning_unit_complete row.components has_quiz)) [
      | inr incomplete ↦
          let (r, er) = grant_rows-some limit node space has_quiz tree rows db low in
          (r, ground arith)
      | inl complete ↦
          let (newly, db', eb, means) =
            batch_grant_children_total limit row.trainee_id node space tree parent_completed db
              low in
          let (r, er) = grant_rows-some limit node space has_quiz tree rows db' low in
          ((suc r.0, r.1), ground arith)
    ]

-- The progress rows of the node complete it for the trainee, with the quizzes that are published.
abbrev pub completes_node : ℕ → ℕ → ℕ → Db → Bool
completes_node node space t db =
    has_completed (contains node (get_published_quiz_node_ids (node ∷ []) db)) t
      (keep (row_of node space) db.progress)

grant_listed-total :
    (limit node space : ℕ) (rows : List ProgressRow) (db : Db)
    → IsLow limit (build_unlock_tree_context space db)
    → let has_quiz = contains node (get_published_quiz_node_ids (node ∷ []) db) in
      (processed : ℕ) × (db' : Db) × (grant_listed limit node space rows db ≡ some (processed, db'))
      × (processed ≡ count_if (λ r. is_learning_unit_complete r.components has_quiz) rows)
      × ((t n : ℕ)
          → has_grant t n db' ≡ (
              has_grant t n db
              || (has_completed has_quiz t rows
                  && is_eligible limit (build_unlock_tree_context space db) node n)))
unfolding grant_listed
grant_listed-total limit node space [] db low = (0, db, refl, refl, λ t n. ground arith)
grant_listed-total limit node space (row ∷ rows) db low =
    let has_quiz = contains node (get_published_quiz_node_ids (node ∷ []) db) in
    let tree = build_unlock_tree_context space db in
    let (r, er) = grant_rows-some limit node space has_quiz tree (row ∷ rows) db low in
    let (k, g) =
      grant_rows-exact limit node space has_quiz tree (row ∷ rows) db {processed = r.0} {db' = r.1}
        er in
    (r.0, r.1, er, k, g)

-- On a tree that is lower than the recursion limit the grant for all trainees of a node returns. It
-- counts the node's rows that complete it now; afterwards the grants are those before and, for each
-- trainee with such a row, those for the node's children with learning content: none is revoked.
pub grant_unlocks_for_completed_total :
    (limit node space : ℕ) (db : Db)
    → IsLow limit (build_unlock_tree_context space db)
    → let has_quiz = contains node (get_published_quiz_node_ids (node ∷ []) db) in
      (processed : ℕ) × (db' : Db) × (grant_unlocks_for_completed_trainees_on_node limit node space
          db
        ≡ some (processed, db'))
      × (processed
          ≡ count_if
              (λ r. is_learning_unit_complete r.components has_quiz)
              (keep (row_of node space) db.progress))
      × ((t n : ℕ)
          → has_grant t n db' ≡ (
              has_grant t n db
              || (completes_node node space t db
                  && is_eligible limit (build_unlock_tree_context space db) node n)))
unfolding grant_unlocks_for_completed_trainees_on_node
grant_unlocks_for_completed_total limit node space db low =
    grant_listed-total limit node space (keep (row_of node space) db.progress) db low
