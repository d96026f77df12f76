-- ===== src/Progress/Rollup.antt =====
-- The counters of a trainee in a space: space_progress_snapshot.py of
-- src/api/utils/trainee_progress_utils, recompute_after_node_update of
-- trainee_space_progress_service.py, and the queries of trainee_space_progress_repository.py. The
-- average of the scores is kept as a fraction; the time of the last activity is left out.
use study_agent_service.Prelude.{
  ℕ, suc, ◌+◌, ◌*◌, ◌/◌, ◌%◌, Bool, ◌&&◌, Option, none, some, List, [], ◌∷◌, ◌++◌, map, ltb, ◌==◌,
  if◌then◌else◌, is_some, length, any, keep, count_if, contains,
}
use study_agent_service.Prelude.Dict.{Dict, lookup, nat_eq}
use study_agent_service.Progress.Completion.{Score, compute_completion_status, is_completed}
use study_agent_service.Progress.Tree.{TopicNode, in_space}
use study_agent_service.Progress.Store.{
  ProgressRow, SpaceProgressRow, Db, get_batch_by_trainee_and_nodes, get_published_quiz_node_ids,
}
use study_agent_service.Progress.Unlocking.{unique_ids}
use study_agent_service.Progress.Writes.{components_of}

-- `MentorProgressRepository.node_has_published_study_material`
unfoldable pub node_has_published_study_material : ℕ → Db → Bool
node_has_published_study_material node db =
    any (λ v. v.node_id == node && v.is_published) db.versions

-- `MentorProgressRepository.get_published_study_material_node_ids`, a set.
unfoldable pub get_published_study_material_node_ids : ℕ → Db → List ℕ
unfolding node_has_published_study_material unique_ids
get_published_study_material_node_ids space db = unique_ids [] (
    map (λ (n : TopicNode). n.node_id)
      (keep (λ n. in_space space n && node_has_published_study_material n.node_id db)
        db.topic_nodes))

-- Whether the loop counts a node; a missing row is one without activity.
unfoldable pub counts_as_completed : Dict ℕ ProgressRow → List ℕ → ℕ → Bool
counts_as_completed rows quiz_nodes node =
    is_completed
      (compute_completion_status (components_of (lookup node rows)) (contains node quiz_nodes))

-- `round(100 * a / b)`: to the nearest, and to the even one of two.
unfoldable pub round_percent : ℕ → ℕ → ℕ
round_percent a b =
    let q = 100 * a / b in
    let r = 100 * a % b in if ltb (2 * r) b then q else (if ltb b (2 * r) then suc q else q + q % 2)

unfoldable pub compute_trainee_space_rollup : ℕ → ℕ → Db → ℕ × ℕ × ℕ
unfolding get_published_study_material_node_ids counts_as_completed round_percent
compute_trainee_space_rollup trainee space db =
    let ids = get_published_study_material_node_ids space db in
    let total = length ids in
    if total == 0
    then (0, 0, 0)
    else (let rows = get_batch_by_trainee_and_nodes trainee ids db in
        let completed =
          count_if (counts_as_completed rows (get_published_quiz_node_ids ids db)) ids in
        (total, completed, round_percent completed total))

-- The sum of fractions, and SQL's AVG: none of no rows.
abbrev pub add_score : Score → Score → Score
add_score a b = record {
  correct = a.correct * b.total + b.correct * a.total;
  total = a.total * b.total;
}

abbrev pub sum_scores : List ProgressRow → Score
sum_scores [] = record { correct = 0; total = 1 }
sum_scores (r ∷ rs) =
    let rest = sum_scores rs in elim r.quiz_best_score [ none ↦ rest | some s ↦ add_score s rest ]

abbrev pub mean_of : List ProgressRow → Option Score
mean_of [] = none
mean_of (r ∷ rs) =
    let sum = sum_scores (r ∷ rs) in
    some (record { correct = sum.correct; total = sum.total * length (r ∷ rs) })

unfoldable pub compute_score_average : ℕ → ℕ → Db → Option Score
compute_score_average trainee space db = mean_of (
    keep (λ r. r.trainee_id == trainee && (r.space_id == space && is_some r.quiz_best_score))
      db.progress)

abbrev pub is_space_row : ℕ → ℕ → SpaceProgressRow → Bool
is_space_row trainee space r = r.trainee_id == trainee && r.space_id == space

abbrev pub put_space_row : SpaceProgressRow → List SpaceProgressRow → List SpaceProgressRow
put_space_row row rows =
    if any (is_space_row row.trainee_id row.space_id) rows
    then map (λ r. if is_space_row row.trainee_id row.space_id r then row else r) rows
    else rows ++ row ∷ []

unfoldable pub upsert_space_progress : ℕ → ℕ → ℕ → ℕ → Option Score → Db → Db
upsert_space_progress trainee space total completed average db = record db {
  space_progress =
      put_space_row
        (record {
          trainee_id = trainee;
          space_id = space;
          total_nodes = total;
          completed_nodes = completed;
          overall_score_avg = average;
        })
        db.space_progress;
}

unfoldable pub recompute_after_node_update : ℕ → ℕ → Db → Db
unfolding compute_trainee_space_rollup compute_score_average upsert_space_progress
recompute_after_node_update trainee space db =
    let (total, completed, _) = compute_trainee_space_rollup trainee space db in
    upsert_space_progress trainee space total completed (compute_score_average trainee space db) db
