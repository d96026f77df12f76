-- ===== src/Progress/Resets/Threshold.antt =====
-- What a change of a quiz's pass threshold does to the rows of the node and to the grants:
-- `recompute_node_quiz_passed_for_threshold` of
-- src/api/utils/trainee_progress_utils/progress_resets.py.
use study_agent_service.Prelude.{
  suc, ℕ, ◌≡◌, refl, ap, ◌∙◌, subst, inl, inr, Bool, true, false, not, ◌&&◌, ◌||◌, some, List, [],
  ◌∷◌, map, arith, ◌==◌, if◌then◌else◌, Bool-cases, Option-cases, length, any, keep, count_if,
  contains, get_elem?,
}
use study_agent_service.Progress.Completion.{
  score_meets_pass_threshold, is_completed, is_learning_unit_complete,
}
use study_agent_service.Progress.Store.{
  ProgressRow, UnlockRow, UnlockSource, parent_completed, Db, grant_unlock,
  get_published_quiz_node_ids, get_published_node_ids,
}
use study_agent_service.Progress.Tree.{UnlockTreeContext}
use study_agent_service.Progress.Unlocking.{build_unlock_tree_context, eligible_children_for_unlock}
use study_agent_service.Progress.Unlocking.Granting.{
  grant_each, batch_grant_children_on_parent_completed, grant_rows, grant_listed, row_of,
  grant_unlocks_for_completed_trainees_on_node,
}
use study_agent_service.Progress.Unlocking.Grants.{has_grant, grant_unlock-stores}
use study_agent_service.Progress.Unlocking.Batch.{is_eligible, has_completed}
use study_agent_service.Progress.Unlocking.Total.{IsLow, grant_unlocks_for_completed_total}
use study_agent_service.Progress.Resets.{
  completion_after_threshold, update_rows, is_on_node, rescore,
  recompute_node_quiz_passed_for_threshold,
}
use study_agent_service.Progress.Resets.Rows.{updated_at}

grant_each-progress :
    (trainee parent space : ℕ) (source : UnlockSource) (cs : List ℕ) (db : Db)
    → (grant_each trainee parent space source cs db).1.progress ≡ db.progress
unfolding grant_each
grant_each-progress trainee parent space source [] db = refl
grant_each-progress trainee parent space source (c ∷ cs) db =
    let u : UnlockRow = record {
      trainee_id = trainee;
      node_id = c;
      space_id = space;
      gate_node_id = some parent;
      source = source;
    } in
    let (_, _, _, _, kept) = grant_unlock-stores u db trainee c in
    grant_each-progress trainee parent space source cs (grant_unlock u db).1 ∙ kept

batch-progress :
    (limit trainee parent space : ℕ) (tree : UnlockTreeContext) (source : UnlockSource) (db : Db)
    {newly : List ℕ} {db' : Db}
    → batch_grant_children_on_parent_completed limit trainee parent space tree source db
      ≡ some (newly, db')
    → db'.progress ≡ db.progress
unfolding batch_grant_children_on_parent_completed
batch-progress limit trainee parent space tree source db e =
    elim (Option-cases (eligible_children_for_unlock limit parent tree)) [
      | inl stop ↦ absurd (ground arith)
      | inr (l, el) ↦ ground (arith, grant_each-progress trainee parent space source l db)
    ]

grant_rows-progress :
    (limit node space : ℕ) (has_quiz : Bool) (tree : UnlockTreeContext) (rows : List ProgressRow)
    (db : Db) {processed : ℕ} {db' : Db}
    → grant_rows limit node space has_quiz tree rows db ≡ some (processed, db')
    → db'.progress ≡ db.progress
unfolding grant_rows
grant_rows-progress limit node space has_quiz tree [] db e = ground arith
grant_rows-progress limit node space has_quiz tree (r ∷ rows) db {processed} {db'} e =
    elim (Bool-cases (is_learning_unit_complete r.components has_quiz)) [
      | inr incomplete ↦
          grant_rows-progress limit node space has_quiz tree rows db {processed = processed}
            {db' = db'} (ground arith)
      | inl complete ↦
          elim (Option-cases (
            batch_grant_children_on_parent_completed limit r.trainee_id node space tree
              parent_completed db)) [
                | inl stop ↦ absurd (ground arith)
                | inr (pair, eb) ↦
                    elim (Option-cases (grant_rows limit node space has_quiz tree rows pair.1)) [
                      | inl stop ↦ absurd (ground arith)
                      | inr (rest, er) ↦
                          let first =
                            batch-progress limit r.trainee_id node space tree parent_completed db
                              {newly = pair.0} {db' = pair.1} eb in
                          let later =
                            grant_rows-progress limit node space has_quiz tree rows pair.1
                              {processed = rest.0} {db' = rest.1} er in
                          ground (arith, first, later)
                    ]
              ]
    ]

grants-progress :
    (limit node space : ℕ) (rows : List ProgressRow) (db : Db) {processed : ℕ} {db' : Db}
    → grant_listed limit node space rows db ≡ some (processed, db')
    → db'.progress ≡ db.progress
unfolding grant_listed
grants-progress limit node space [] db e = ground arith
grants-progress limit node space (r ∷ rows) db {processed} {db'} e =
    grant_rows-progress limit node space
      (contains node (get_published_quiz_node_ids (node ∷ []) db))
      (build_unlock_tree_context space db) (r ∷ rows) db {processed = processed} {db' = db'} e

-- A row after a change of the threshold: what the trainee has done stays, and the pass and the
-- completion are those of the best score against the new threshold.
pub record IsRescored (threshold : ℕ) (r r' : ProgressRow) : Type 0 where
  pub passed :
      r'.components.quiz_passed ≡ score_meets_pass_threshold r.quiz_best_score (some threshold)
  pub completes : is_completed r'.completion_status ≡ (
      r.components.study_material_completed
      && score_meets_pass_threshold r.quiz_best_score (some threshold))
  pub same_trainee : r'.trainee_id ≡ r.trainee_id
  pub same_score : r'.quiz_best_score ≡ r.quiz_best_score
  pub same_reading : r'.components.study_material_completed ≡ r.components.study_material_completed
  pub same_attempts : r'.components.quiz_attempt_count ≡ r.components.quiz_attempt_count

rescore-IsRescored :
    (threshold : ℕ) (r : ProgressRow) → IsRescored threshold r (rescore threshold r)
unfolding completion_after_threshold
rescore-IsRescored threshold r = record {
  passed = refl;
  completes = ground arith;
  same_trainee = refl;
  same_score = refl;
  same_reading = refl;
  same_attempts = refl;
}

-- The trainee has a row on the node that is complete under the threshold: the material is, and where
-- a quiz is published the best score meets the threshold.
abbrev pub earns : ℕ → ℕ → ℕ → Bool → ℕ → List ProgressRow → Bool
earns threshold node space has_quiz t = any (λ r.
    is_on_node node space r
    && (r.trainee_id == t
        && (r.components.study_material_completed
            && (not has_quiz || score_meets_pass_threshold r.quiz_best_score (some threshold)))))

rescored_complete :
    (threshold : ℕ) (r : ProgressRow) (has_quiz : Bool)
    → is_learning_unit_complete (rescore threshold r).components has_quiz ≡ (
        r.components.study_material_completed
        && (not has_quiz || score_meets_pass_threshold r.quiz_best_score (some threshold)))
unfolding is_learning_unit_complete
rescored_complete threshold r has_quiz = ground arith

rescored-earns :
    (threshold node space : ℕ) (has_quiz : Bool) (t : ℕ) (rows : List ProgressRow)
    → has_completed has_quiz t (
        keep
          (row_of node space)
          (map (λ r. if is_on_node node space r then rescore threshold r else r) rows))
      ≡ earns threshold node space has_quiz t rows
rescored-earns threshold node space has_quiz t [] = refl
rescored-earns threshold node space has_quiz t (r ∷ rows) =
    elim (Bool-cases (is_on_node node space r)) [
      | inl on ↦ ground (
        arith,
        rescored_complete threshold r has_quiz,
        rescored-earns threshold node space has_quiz t rows,
      )
      | inr off ↦ ground (arith, rescored-earns threshold node space has_quiz t rows)
    ]

length-updated :
    (matches : ProgressRow → Bool) (change : ProgressRow → ProgressRow) (rows : List ProgressRow)
    → length (map (λ r. if matches r then change r else r) rows) ≡ length rows
length-updated matches change [] = refl
length-updated matches change (r ∷ rows) = ap suc (length-updated matches change rows)

-- A change of the pass threshold of a node's quiz, on a tree that is lower than the recursion limit,
-- returns with the number of the node's rows. The table keeps its rows in place: each row of the
-- node carries the pass of its best score against the new threshold, is stored as completed exactly
-- if the material is completed too, and keeps its trainee, score, material and attempts; the other
-- rows are unchanged. The grants are those before and, for each trainee with a row of the node that
-- is complete under the new threshold, those for the node's children with learning content, so none
-- is revoked.
pub recompute_threshold-grants :
    (limit node space threshold : ℕ) (db : Db)
    → IsLow limit (build_unlock_tree_context space db)
    → let has_quiz = contains node (get_published_quiz_node_ids (node ∷ []) db) in
      (db' : Db) × (recompute_node_quiz_passed_for_threshold limit node space threshold db
        ≡ some (count_if (is_on_node node space) db.progress, db'))
      × (length db'.progress ≡ length db.progress)
      × ((i : ℕ) (r : ProgressRow)
          → get_elem? db.progress i ≡ some r
          → (r' : ProgressRow) × (get_elem? db'.progress i ≡ some r')
            × (is_on_node node space r ≡ true → IsRescored threshold r r')
            × (is_on_node node space r ≡ false → r' ≡ r))
      × ((t n : ℕ)
          → has_grant t n db' ≡ (
              has_grant t n db
              || (earns threshold node space has_quiz t db.progress
                  && is_eligible limit (build_unlock_tree_context space db) node n)))
unfolding recompute_node_quiz_passed_for_threshold update_rows build_unlock_tree_context
    get_published_node_ids get_published_quiz_node_ids grant_unlocks_for_completed_trainees_on_node
recompute_threshold-grants limit node space threshold db low =
    let matches = is_on_node node space in
    let rescored : Db = (update_rows matches (rescore threshold) db).1 in
    let (processed, db', e, _, grants) =
      grant_unlocks_for_completed_total limit node space rescored low in
    let kept : db'.progress ≡ rescored.progress =
      grants-progress limit node space (keep (row_of node space) rescored.progress) rescored
        {processed = processed} {db' = db'} e in
    (
      db',
      ground arith,
      ap length kept ∙ length-updated matches (rescore threshold) db.progress,
      λ i r at. (
        if matches r then rescore threshold r else r,
        ap (λ rows. get_elem? rows i) kept
            ∙ updated_at matches (rescore threshold) db.progress i at,
        λ on. subst (IsRescored threshold r) (ground arith) (rescore-IsRescored threshold r),
        λ off. ground arith,
      ),
      λ t n.
          grants t n
          ∙ ap
              (λ b.
                has_grant t n db
                || (b && is_eligible limit (build_unlock_tree_context space db) node n))
              (rescored-earns threshold node space
                (contains node (get_published_quiz_node_ids (node ∷ []) db)) t db.progress),
    )
