-- ===== src/Progress/Resets/Rows.antt =====
-- What the resets do to the tables: the rows of the node and the others.
use study_agent_service.Prelude.{
  get_elem?, ℕ, zero, suc, ◌≡◌, refl, Bool, true, false, ◌&&◌, some, List, [], ◌∷◌, map, arith,
  ◌==◌, if◌then◌else◌, count_if,
}
use study_agent_service.Progress.Store.{ProgressRow, Db}
use study_agent_service.Progress.Resets.{
  completion_after_read_reset, update_rows, is_on_node, reset_read,
  reset_node_read_progress_for_all_trainees,
}
use study_agent_service.Progress.Resets.Agreement.{is_current, reset_read_agrees}

-- An update that keeps the key of a row and makes every row good.
count_updated :
    (matches : ProgressRow → Bool) (change : ProgressRow → ProgressRow) (good : ProgressRow → Bool)
    (rows : List ProgressRow)
    → ((r : ProgressRow) → matches (change r) ≡ matches r)
    → ((r : ProgressRow) → good (change r) ≡ true)
    → let rows' = map (λ r. if matches r then change r else r) rows in
      count_if matches rows ≡ count_if (λ r. matches r && good r) rows'
count_updated matches change good [] kept made = refl
count_updated matches change good (r ∷ rows) kept made =
    ground (arith, kept r, made r, count_updated matches change good rows kept made)

-- The other rows are untouched, in place.
pub updated_at :
    (matches : ProgressRow → Bool) (change : ProgressRow → ProgressRow) (rows : List ProgressRow)
    (i : ℕ) {r : ProgressRow}
    → get_elem? rows i ≡ some r
    → get_elem? (map (λ r. if matches r then change r else r) rows) i
      ≡ some (if matches r then change r else r)
updated_at matches change [] i e = absurd (ground arith)
updated_at matches change (x ∷ rows) zero e = ground arith
updated_at matches change (x ∷ rows) (suc i) e = updated_at matches change rows i e

-- A read reset reports the number of the node's rows; all of them then carry the status of the live
-- derivation and no reading, every other row is unchanged, and so are the grants.
pub reset_node_read_progress-rows :
    (node space : ℕ) (has_quiz : Bool) (db : Db)
    → let (updated, db') = reset_node_read_progress_for_all_trainees node space db in
      (updated
        ≡ count_if
            (λ r.
              is_on_node node space r
              && (is_current has_quiz r && (r.components.study_material_read_percent == 0)))
            db'.progress)
      × ((i : ℕ) (r : ProgressRow)
          → get_elem? db.progress i ≡ some r
          → is_on_node node space r ≡ false
          → get_elem? db'.progress i ≡ some r)
      × (db'.unlocks ≡ db.unlocks)
unfolding reset_node_read_progress_for_all_trainees update_rows completion_after_read_reset
reset_node_read_progress-rows node space has_quiz db = (
  count_updated (is_on_node node space) reset_read
      (λ r. is_current has_quiz r && (r.components.study_material_read_percent == 0)) db.progress
      (λ r. refl) (λ r. ground (arith, reset_read_agrees has_quiz r)),
  λ i r e off. ground (arith, updated_at (is_on_node node space) reset_read db.progress i e),
  refl,
)
