-- ===== src/Progress/Store.antt =====
-- The tables behind trainee progress, and the queries of
-- src/api/data/repositories/progress_repositories, trainee_quiz_repository.py and
-- trainee_study_repository.py. A set of ids is a list that is only asked for membership.
use study_agent_service.Prelude.{
  ℕ, Bool, true, false, not, ◌&&◌, Option, List, [], ◌∷◌, ◌++◌, map, if◌then◌else◌, any, keep,
  contains, count_if, ◌==◌,
}
use study_agent_service.Prelude.Dict.{Dict}
use study_agent_service.Lifecycle.Model.{StudyMaterialVersion, Quiz}
use study_agent_service.Progress.Completion.{Score, Components, Status}
use study_agent_service.Progress.Tree.{TopicNode}

-- A row of `traineenodeprogress`; the chat counter and `updated_at` are left out.
pub record ProgressRow : Type 0 where
  pub trainee_id : ℕ
  pub node_id : ℕ
  pub space_id : ℕ
  pub study_material_viewed : Bool
  pub first_viewed_at : Option ℕ
  pub last_viewed_at : Option ℕ
  pub components : Components
  pub quiz_best_score : Option Score
  pub completion_status : Status

pub data UnlockSource : Type 0 where
  parent_completed backfill : UnlockSource

-- A row of `traineenodeunlocks`, less its generated id and time.
pub record UnlockRow : Type 0 where
  pub trainee_id : ℕ
  pub node_id : ℕ
  pub space_id : ℕ
  pub gate_node_id : Option ℕ
  pub source : UnlockSource

-- A row of `traineespaceprogress`, less its times.
pub record SpaceProgressRow : Type 0 where
  pub trainee_id : ℕ
  pub space_id : ℕ
  pub total_nodes : ℕ
  pub completed_nodes : ℕ
  pub overall_score_avg : Option Score

pub record Db : Type 0 where
  pub topic_nodes : List TopicNode
  pub versions : List StudyMaterialVersion
  pub quizzes : List Quiz
  pub progress : List ProgressRow
  pub unlocks : List UnlockRow
  pub space_progress : List SpaceProgressRow

-- `TraineeStudyRepository.get_published_node_ids`
unfoldable pub get_published_node_ids : ℕ → Db → List ℕ
get_published_node_ids space db =
    map (λ (v : StudyMaterialVersion). v.node_id)
      (keep (λ v. v.space_id == space && v.is_published) db.versions)

-- `TraineeQuizRepository.get_published_quiz_node_ids`
unfoldable pub get_published_quiz_node_ids : List ℕ → Db → List ℕ
get_published_quiz_node_ids [] db = []
get_published_quiz_node_ids (n ∷ ns) db =
    map (λ (q : Quiz). q.node_id)
      (keep (λ q. contains q.node_id (n ∷ ns) && q.is_published) db.quizzes)

-- `TraineeNodeProgressRepository.get_batch_by_trainee_and_nodes`
unfoldable pub get_batch_by_trainee_and_nodes : ℕ → List ℕ → Db → Dict ℕ ProgressRow
get_batch_by_trainee_and_nodes trainee [] db = []
get_batch_by_trainee_and_nodes trainee (n ∷ ns) db =
    map (λ (r : ProgressRow). (r.node_id, r))
      (keep (λ r. r.trainee_id == trainee && contains r.node_id (n ∷ ns)) db.progress)

-- The unique key of the table: `uq_traineenodeunlocks_trainee_node`.
abbrev pub unlock_key : ℕ → ℕ → UnlockRow → Bool
unlock_key trainee node u = u.trainee_id == trainee && u.node_id == node

-- `TraineeNodeUnlockRepository.get_unlocked_node_ids`
unfoldable pub get_unlocked_node_ids : ℕ → List ℕ → Db → List ℕ
get_unlocked_node_ids trainee [] db = []
get_unlocked_node_ids trainee (n ∷ ns) db =
    map (λ (u : UnlockRow). u.node_id)
      (keep (λ u. u.trainee_id == trainee && contains u.node_id (n ∷ ns)) db.unlocks)

-- `TraineeNodeUnlockRepository.grant_unlock`: INSERT … ON CONFLICT DO NOTHING, and whether a row
-- was written.
unfoldable pub grant_unlock : UnlockRow → Db → Bool × Db
grant_unlock u db =
    if any (unlock_key u.trainee_id u.node_id) db.unlocks
    then (false, db)
    else (true, record db { unlocks = db.unlocks ++ u ∷ [] })

-- `TraineeNodeUnlockRepository.delete_unlocks_for_node`
unfoldable pub delete_unlocks_for_node : ℕ → Db → ℕ × Db
delete_unlocks_for_node node db = (
  count_if (λ u. u.node_id == node) db.unlocks,
  record db { unlocks = keep (λ u. not (u.node_id == node)) db.unlocks },
)
