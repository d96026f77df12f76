-- ===== src/Progress/Samples.antt =====
-- The rows that the tests of trainee progress use.
use study_agent_service.Prelude.{ℕ, true, false, none, some, [], ◌∷◌}
use study_agent_service.Lifecycle.Model.{StudyMaterialVersion, Quiz, active}
use study_agent_service.Prelude.Dict.{nat_eq, option_eq}
use study_agent_service.Progress.Completion.{Components, completed}
use study_agent_service.Progress.Tree.{TopicNode}
use study_agent_service.Progress.Store.{
  Db, ProgressRow, UnlockRow, UnlockSource, parent_completed, backfill,
}

-- Node 1 with the children 2 and 3, in space 9; 1 and 2 have published material, 1 a quiz.
abbrev pub root : TopicNode
root = record {
  node_id = 1;
  parent_id = none;
  space_id = 9;
  title = "Root";
  order_index = 0;
  is_active = true;
}

abbrev pub second : TopicNode
second = record root { node_id = 2; parent_id = some 1; title = "Second"; order_index = 2 }

abbrev pub third : TopicNode
third = record root { node_id = 3; parent_id = some 1; title = "Third"; order_index = 1 }

abbrev pub material : ℕ → StudyMaterialVersion
material n = record {
  version_id = n;
  version_number = 1;
  node_id = n;
  space_id = 9;
  is_active = true;
  is_published = true;
  published_at = some 10;
  published_by = some 3;
  is_archived = false;
  archived_at = none;
  archived_by = none;
  lifecycle_status = active;
  superseded_at = none;
}

abbrev pub quiz : Quiz
quiz = record {
  quiz_id = 50;
  node_id = 1;
  study_material_version_id = none;
  pass_threshold_percent = some 80;
  is_published = true;
  published_at = some 10;
  lifecycle_status = active;
  superseded_at = none;
  updated_at = 10;
}

abbrev pub finished : Components
finished = record {
  study_material_completed = true;
  quiz_passed = true;
  study_material_read_percent = 100;
  quiz_attempt_count = 1;
}

abbrev pub row : ProgressRow
row = record {
  trainee_id = 7;
  node_id = 1;
  space_id = 9;
  study_material_viewed = true;
  first_viewed_at = some 8;
  last_viewed_at = some 9;
  components = finished;
  quiz_best_score = some (record { correct = 8; total = 10 });
  completion_status = completed;
}

abbrev pub db : Db
db = record {
  topic_nodes = root ∷ second ∷ third ∷ [];
  versions = material 1 ∷ material 2 ∷ [];
  quizzes = quiz ∷ [];
  progress = row ∷ [];
  unlocks = [];
  space_progress = [];
}

abbrev pub grant : UnlockSource → UnlockRow
grant source = record {
  trainee_id = 7;
  node_id = 2;
  space_id = 9;
  gate_node_id = some 1;
  source = source;
}

-- The tables after a check of node 2, and after a batch grant for node 1.
abbrev pub checked : Db
checked = record db { unlocks = grant backfill ∷ [] }

abbrev pub batched : Db
batched = record db { unlocks = grant parent_completed ∷ [] }
