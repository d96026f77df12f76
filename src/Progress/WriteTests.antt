-- ===== src/Progress/WriteTests.antt =====
-- A submission and a reading on the sample rows.
use study_agent_service.Progress.Completion.{compute_completion_status, score_meets_pass_threshold}
use study_agent_service.Prelude.{ℕ, ◌≡◌, refl, ◌⊎◌, inl, inr, some, List, [], is_some}
use study_agent_service.Prelude.Dict.{nat_eq, option_eq}
use study_agent_service.Guards.{ServiceException}
use study_agent_service.Progress.Completion.{Score}
use study_agent_service.Progress.Store.{Db, ProgressRow}
use study_agent_service.Progress.Samples.{db}
use study_agent_service.Progress.Writes.{get_by_trainee_and_node}
use study_agent_service.Progress.Service.{
  record_quiz_attempt_submission, store_reading, get_published_quiz_by_node,
}
use study_agent_service.Progress.Submitted.{
  record_submission-IsScored, IsScored, store_reading-IsRead, IsRead,
}

abbrev accepted : Db → ServiceException ⊎ (List ℕ × Db) → List ℕ × Db
accepted d (inl e) = ([], d)
accepted d (inr out) = out

abbrev full : Score
full = record { correct = 10; total = 10 }

abbrev submitted : List ℕ × Db
submitted = accepted db (record_quiz_attempt_submission 5 7 1 9 full db)

submits : record_quiz_attempt_submission 5 7 1 9 full db ≡ inr submitted
unfolding record_quiz_attempt_submission compute_completion_status score_meets_pass_threshold
submits = refl

record_submission-IsScored_example :
    (r : ProgressRow) × (get_by_trainee_and_node 7 1 submitted.1 ≡ some r)
    × IsScored (get_by_trainee_and_node 7 1 db) full (get_published_quiz_by_node 1 db) r
record_submission-IsScored_example = record_submission-IsScored 5 7 1 9 full db submitted submits

-- The first reading of node 2.
abbrev read : List ℕ × Db
read = accepted db (store_reading 5 2 9 40 7 12 db)

reads : store_reading 5 2 9 40 7 12 db ≡ inr read
unfolding store_reading compute_completion_status
reads = refl

store_reading-IsRead_example :
    (r : ProgressRow) × (get_by_trainee_and_node 7 2 read.1 ≡ some r)
    × IsRead (get_by_trainee_and_node 7 2 db) 40 (is_some (get_published_quiz_by_node 2 db)) r
store_reading-IsRead_example = store_reading-IsRead 5 2 9 40 7 12 db read reads
