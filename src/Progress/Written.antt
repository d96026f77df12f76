-- ===== src/Progress/Written.antt =====
-- The row of a trainee and a node behind a write, and that the grants leave it.
use study_agent_service.Prelude.{
  ℕ, ◌≡◌, refl, sym, ap, ◌∙◌, inl, inr, Bool, true, false, none, some, List, [], ◌∷◌, ◌++◌, map,
  arith, if◌then◌else◌, ==_iff, Option-cases, or_else, any, find_first,
}
use study_agent_service.Prelude.{find_first-is_some}
use study_agent_service.Prelude.Result.{bind-ok, present-ok, ok-injective, present}
use study_agent_service.Guards.{recursion_limit}
use study_agent_service.Progress.Store.{
  parent_completed, ProgressRow, Db, UnlockRow, UnlockSource, grant_unlock,
}
use study_agent_service.Progress.Unlocking.{eligible_children_for_unlock, build_unlock_tree_context}
use study_agent_service.Progress.Unlocking.Granting.{
  grant_each, batch_grant_children_on_parent_completed,
}
use study_agent_service.Progress.Writes.{is_row_for, new_row, change_row, get_by_trainee_and_node}
use study_agent_service.Progress.Rollup.{recompute_after_node_update, upsert_space_progress}
use study_agent_service.Progress.Unlocking.Granting.{grant_unlocks_after_node_completed}
use study_agent_service.Progress.Service.{grant_if_flipped}

-- Grants and counters leave the rows of the progress.
grant_unlock-progress : (u : UnlockRow) (db : Db) → (grant_unlock u db).1.progress ≡ db.progress
unfolding grant_unlock
grant_unlock-progress u db = ground arith

grant_each-progress :
    (trainee parent space : ℕ) (source : UnlockSource) (cs : List ℕ) (db : Db)
    → (grant_each trainee parent space source cs db).1.progress ≡ db.progress
unfolding grant_each grant_unlock
grant_each-progress trainee parent space source [] db = refl
grant_each-progress trainee parent space source (c ∷ cs) db =
    let u : UnlockRow = record {
      trainee_id = trainee;
      node_id = c;
      space_id = space;
      gate_node_id = some parent;
      source = source;
    } in
    grant_each-progress trainee parent space source cs (grant_unlock u db).1
    ∙ grant_unlock-progress u db

after_grants-progress :
    (limit trainee node space : ℕ) (db : Db) {pair : List ℕ × Db}
    → grant_unlocks_after_node_completed limit trainee node space db ≡ some pair
    → pair.1.progress ≡ db.progress
unfolding grant_unlocks_after_node_completed batch_grant_children_on_parent_completed
after_grants-progress limit trainee node space db {pair} h =
    let tree = build_unlock_tree_context space db in
    elim (Option-cases (eligible_children_for_unlock limit node tree)) [
      | inl stop ↦ absurd (ground arith)
      | inr (cs, ec) ↦ ground (arith, grant_each-progress trainee node space parent_completed cs db)
    ]

pub grant_if_flipped-progress :
    (limit trainee node space : ℕ) (flipped : Bool) (db : Db) {out : List ℕ × Db}
    → grant_if_flipped limit trainee node space flipped db ≡ inr out
    → out.1.progress ≡ db.progress
unfolding grant_if_flipped recompute_after_node_update upsert_space_progress
grant_if_flipped-progress limit trainee node space true db {out} h =
    let granted = grant_unlocks_after_node_completed limit trainee node space db in
    let (pair, e, h') = bind-ok (present granted recursion_limit) _ h in
    ap (λ (o : List ℕ × Db). o.1.progress) (sym (ok-injective h'))
    ∙ after_grants-progress limit trainee node space db {pair = pair} (present-ok _ _ e)
grant_if_flipped-progress limit trainee node space false db {out} h =
    ap (λ (o : List ℕ × Db). o.1.progress) (sym (ok-injective h))

pub found_changed :
    (trainee node : ℕ) (change : ProgressRow → ProgressRow) (rows : List ProgressRow)
    → ((r : ProgressRow)
        → ((change r).trainee_id ≡ r.trainee_id) × ((change r).node_id ≡ r.node_id))
    → find_first
        (is_row_for trainee node)
        (map (λ r. if is_row_for trainee node r then change r else r) rows)
      ≡ elim (find_first (is_row_for trainee node) rows) [ none ↦ none | some r ↦ some (change r) ]
found_changed trainee node change [] kept = refl
found_changed trainee node change (r ∷ rows) kept =
    ground (arith, kept r, found_changed trainee node change rows kept)

pub found_append :
    (p : ProgressRow → Bool) (rows : List ProgressRow) (new : ProgressRow)
    → find_first p (rows ++ new ∷ [])
      ≡ (if any p rows then find_first p rows else (if p new then some new else none))
found_append p [] new = refl
found_append p (r ∷ rows) new = ground (arith, found_append p rows new)

pub change_row-found :
    (trainee node space : ℕ) (change : ProgressRow → ProgressRow) (db : Db)
    → ((r : ProgressRow)
        → ((change r).trainee_id ≡ r.trainee_id) × ((change r).node_id ≡ r.node_id))
    → get_by_trainee_and_node trainee node (change_row trainee node space change db)
      ≡ some
          (change (or_else (get_by_trainee_and_node trainee node db) (new_row trainee node space)))
unfolding change_row get_by_trainee_and_node
change_row-found trainee node space change db kept = ground (
  arith,
  find_first-is_some (is_row_for trainee node) db.progress,
  found_changed trainee node change db.progress kept,
  found_changed trainee node change (db.progress ++ new_row trainee node space ∷ []) kept,
  found_append (is_row_for trainee node) db.progress (new_row trainee node space),
  (==_iff trainee trainee).1 refl,
  (==_iff node node).1 refl,
)
