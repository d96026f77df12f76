-- ===== src/Progress/Writes.antt =====
-- What a trainee's reading and quiz submissions write: trainee_node_progress_repository.py and the
-- upsert of mentor_progress_repository.py in src/api/data/repositories/progress_repositories.
use study_agent_service.Prelude.{
  ℕ, suc, ◌*◌, Bool, true, false, ◌&&◌, ◌||◌, Option, none, some, [], ◌∷◌, ◌++◌, map, ltb, ◌==◌,
  if◌then◌else◌, any, find_first,
}
use study_agent_service.Progress.Completion.{
  Score, Components, Status, not_started, score_meets_pass_threshold, compute_completion_status,
}
use study_agent_service.Progress.Store.{ProgressRow, Db}

abbrev pub is_row_for : ℕ → ℕ → ProgressRow → Bool
is_row_for trainee node r = r.trainee_id == trainee && r.node_id == node

unfoldable pub get_by_trainee_and_node : ℕ → ℕ → Db → Option ProgressRow
get_by_trainee_and_node trainee node db = find_first (is_row_for trainee node) db.progress

abbrev pub no_components : Components
no_components = record {
  study_material_completed = false;
  quiz_passed = false;
  study_material_read_percent = 0;
  quiz_attempt_count = 0;
}

-- The columns of a row, or their defaults where there is none.
abbrev pub components_of : Option ProgressRow → Components
components_of none = no_components
components_of (some r) = r.components

-- The defaults of the columns.
abbrev pub new_row : ℕ → ℕ → ℕ → ProgressRow
new_row trainee node space = record {
  trainee_id = trainee;
  node_id = node;
  space_id = space;
  study_material_viewed = false;
  first_viewed_at = none;
  last_viewed_at = none;
  components = no_components;
  quiz_best_score = none;
  completion_status = not_started;
}

-- `get_or_create`, and a change of the row that it returns.
unfoldable pub change_row : ℕ → ℕ → ℕ → (ProgressRow → ProgressRow) → Db → Db
change_row trainee node space change db =
    let rows =
      if any (is_row_for trainee node) db.progress
      then db.progress
      else db.progress ++ new_row trainee node space ∷ [] in
    record db { progress = map (λ r. if is_row_for trainee node r then change r else r) rows }

abbrev pub viewed_row : Status → ℕ → ProgressRow → ProgressRow
viewed_row status now r = record r {
  study_material_viewed = true;
  first_viewed_at = if r.study_material_viewed then r.first_viewed_at else some now;
  last_viewed_at = some now;
  completion_status = status;
}

-- `TraineeNodeProgressRepository.mark_study_material_viewed`
unfoldable pub mark_study_material_viewed : ℕ → ℕ → ℕ → Status → ℕ → Db → Db
unfolding change_row
mark_study_material_viewed trainee node space status now db =
    change_row trainee node space (viewed_row status now) db

-- `a < b` on fractions, multiplied out.
abbrev pub score_below : Score → Score → Bool
score_below a b = ltb (a.correct * b.total) (b.correct * a.total)

-- `max(a, b)`
unfoldable pub max_score : Score → Score → Score
max_score a b = if score_below a b then b else a

-- `score if prior is None else max(prior, score)`
unfoldable pub best_score_of : Option Score → Score → Score
unfolding max_score
best_score_of none score = score
best_score_of (some prior) score = max_score prior score

abbrev pub scored_row : Score → Option ℕ → Status → ProgressRow → ProgressRow
unfolding best_score_of
scored_row score threshold status r =
    let best = best_score_of r.quiz_best_score score in
    let count = suc r.components.quiz_attempt_count in
    record r {
      quiz_best_score = some best;
      components = record (r.components) {
        quiz_attempt_count = if ltb count 1 then 1 else count;
        quiz_passed =
            if score_meets_pass_threshold (some best) threshold
            then true
            else r.components.quiz_passed;
      };
      completion_status = status;
    }

-- `TraineeNodeProgressRepository.record_quiz_attempt_submission`
unfoldable pub store_quiz_attempt_submission : ℕ → ℕ → ℕ → Score → Option ℕ → Status → Db → Db
unfolding change_row best_score_of
store_quiz_attempt_submission trainee node space score threshold status db =
    change_row trainee node space (scored_row score threshold status) db

-- What `MentorProgressRepository.upsert_node_progress` changes in a row that exists.
abbrev pub read_row : ℕ → Bool → Bool → ℕ → ProgressRow → ProgressRow
read_row percent completed has_published_quiz now r =
    let c = record (r.components) {
      study_material_completed = r.components.study_material_completed || completed;
      study_material_read_percent = percent;
    } in
    record r {
      study_material_viewed = true;
      last_viewed_at = some now;
      components = c;
      completion_status = compute_completion_status c has_published_quiz;
    }

-- The row that it inserts.
abbrev pub first_read_row : ℕ → ℕ → ℕ → ℕ → Bool → Bool → ℕ → ProgressRow
first_read_row trainee node space percent completed has_published_quiz now =
    let c = record no_components {
      study_material_completed = completed;
      study_material_read_percent = percent;
    } in
    record (new_row trainee node space) {
      study_material_viewed = true;
      first_viewed_at = some now;
      last_viewed_at = some now;
      components = c;
      completion_status = compute_completion_status c has_published_quiz;
    }

unfoldable pub upsert_node_progress : ℕ → ℕ → ℕ → ℕ → Bool → Bool → ℕ → Db → Db
upsert_node_progress trainee node space percent completed has_published_quiz now db = record db {
  progress =
      if any (is_row_for trainee node) db.progress
      then map
          (λ r.
            if is_row_for trainee node r
            then read_row percent completed has_published_quiz now r
            else r)
          db.progress
      else db.progress
        ++ first_read_row trainee node space percent completed has_published_quiz now ∷ [];
}
