-- ===== src/Progress/Unlocking/Durable.antt =====
-- Access that was earned once stays: `assert_trainee_node_unlocked` over time.
use study_agent_service.Prelude.{
  ℕ, ◌≡◌, refl, ◌∙◌, inl, inr, true, Option, none, some, [], ◌∷◌, arith, ==_iff, Option-cases,
  contains,
}
use study_agent_service.Progress.Unlocking.{
  unique_ids, parent_of, build_unlock_tree_context, available, plain, resolve_node_access,
  gated_access, build_unlock_progress_context, AccessResult, UnlockProgressContext,
}
use study_agent_service.Progress.Unlocking.Granting.{
  granted, is_available, verdict_of, relevant_ids, resolve_node_access_with_grant, grant_if_earned,
  assert_trainee_node_unlocked,
}
use study_agent_service.Progress.Store.{backfill, UnlockRow, Db}
use study_agent_service.Progress.Tree.{has_accessible_learning_content, UnlockTreeContext}
use study_agent_service.Progress.Unlocking.Grants.{
  grant_unlock-stores, contains-unique_ids, contains-unlocked, has_grant,
}

-- The context that the check builds knows of the node's grant.
context-unlocked :
    (trainee node : ℕ) (parent : Option ℕ) (db : Db)
    → contains node
        (build_unlock_progress_context trainee (relevant_ids node parent) db).unlocked_node_ids
      ≡ has_grant trainee node db
unfolding build_unlock_progress_context
context-unlocked trainee node none db = ground (
  arith,
  contains-unlocked trainee node (unique_ids [] (node ∷ [])) db,
  contains-unique_ids node [] (node ∷ []),
  ==_iff node node,
)
context-unlocked trainee node (some p) db = ground (
  arith,
  contains-unlocked trainee node (unique_ids [] (node ∷ p ∷ [])) db,
  contains-unique_ids node [] (node ∷ p ∷ []),
  ==_iff node node,
)

-- With a stored grant the decision is plain, and nothing is written.
granted_access :
    (trainee node space : ℕ) (tree : UnlockTreeContext) (progress : UnlockProgressContext)
    (parent : Option ℕ) (db : Db)
    → contains node progress.unlocked_node_ids ≡ true
    → (gated_access node tree progress parent ≡ plain available)
      × (grant_if_earned trainee node space tree progress (plain available) parent db
          ≡ (plain available, db))
unfolding gated_access grant_if_earned
granted_access trainee node space tree progress none db h = (refl, refl)
granted_access trainee node space tree progress (some p) db h = ground arith

-- Under a published parent an available decision leaves a stored grant behind.
earned_access :
    (trainee node space parent : ℕ) (tree : UnlockTreeContext) (progress : UnlockProgressContext)
    (db : Db)
    → contains parent tree.published_node_ids ≡ true
    → contains node progress.unlocked_node_ids ≡ has_grant trainee node db
    → let r = gated_access node tree progress (some parent) in
      is_available r.status ≡ true
      → has_grant trainee node
          (grant_if_earned trainee node space tree progress r (some parent) db).1
        ≡ true
unfolding gated_access grant_if_earned
earned_access trainee node space parent tree progress db p u a =
    let row : UnlockRow = record {
      trainee_id = trainee;
      node_id = node;
      space_id = space;
      gate_node_id = some parent;
      source = backfill;
    } in
    ground
      (arith, grant_unlock-stores row db trainee node, ==_iff trainee trainee, ==_iff node node)

-- A trainee with a stored grant is let in wherever the node has learning content, whatever became
-- of the parent's progress, and the check writes nothing.
pub stored_grant_opens :
    (limit trainee node space : ℕ) (db : Db)
    → has_grant trainee node db ≡ true
    → (let tree = build_unlock_tree_context space db in
        has_accessible_learning_content limit node tree.published_node_ids tree.children_by_parent)
      ≡ some true
    → assert_trainee_node_unlocked limit trainee node space db
      ≡ some (granted (plain available), db)
unfolding assert_trainee_node_unlocked resolve_node_access_with_grant resolve_node_access
stored_grant_opens limit trainee node space db h a =
    let tree = build_unlock_tree_context space db in
    let parent = parent_of tree node in
    let progress = build_unlock_progress_context trainee (relevant_ids node parent) db in
    let (same, kept) =
      granted_access trainee node space tree progress parent db
        (context-unlocked trainee node parent db ∙ h) in
    rw a (rw same (rw kept))

-- When the check lets a trainee in under a published parent, the grant is stored from then on.
pub available_leaves_grant :
    (limit trainee node space parent : ℕ) (db : Db) {r : AccessResult} {db' : Db}
    → parent_of (build_unlock_tree_context space db) node ≡ some parent
    → contains parent (build_unlock_tree_context space db).published_node_ids ≡ true
    → assert_trainee_node_unlocked limit trainee node space db ≡ some (granted r, db')
    → is_available r.status ≡ true
    → has_grant trainee node db' ≡ true
unfolding assert_trainee_node_unlocked resolve_node_access_with_grant resolve_node_access verdict_of
available_leaves_grant limit trainee node space parent db {r} {db'} ep pub_parent e a =
    let tree = build_unlock_tree_context space db in
    let progress =
      build_unlock_progress_context trainee (relevant_ids node (parent_of tree node)) db in
    elim (Option-cases (
      has_accessible_learning_content limit node tree.published_node_ids tree.children_by_parent)) [
        | inl stop ↦ absurd (ground arith)
        | inr (accessible, ea) ↦ ground (
          arith,
          earned_access trainee node space parent tree progress db pub_parent
              (context-unlocked trainee node (parent_of tree node) db),
        )
      ]

-- Access that was earned under a published parent is durable: after a check that let the trainee in,
-- every later check on tables that still hold the grants of that moment lets them in too, as long
-- as the node has learning content, and writes nothing, whatever became of the progress rows.
pub earned_access_is_durable :
    (limit trainee node space parent : ℕ) (db later : Db) {r : AccessResult} {db' : Db}
    → parent_of (build_unlock_tree_context space db) node ≡ some parent
    → contains parent (build_unlock_tree_context space db).published_node_ids ≡ true
    → assert_trainee_node_unlocked limit trainee node space db ≡ some (granted r, db')
    → is_available r.status ≡ true
    → ((t n : ℕ) → has_grant t n db' ≡ true → has_grant t n later ≡ true)
    → (let tree = build_unlock_tree_context space later in
        has_accessible_learning_content limit node tree.published_node_ids tree.children_by_parent)
      ≡ some true
    → assert_trainee_node_unlocked limit trainee node space later
      ≡ some (granted (plain available), later)
earned_access_is_durable limit trainee node space parent db later ep gate e a keeps content =
    stored_grant_opens limit trainee node space later
      (keeps trainee node (available_leaves_grant limit trainee node space parent db ep gate e a))
      content
