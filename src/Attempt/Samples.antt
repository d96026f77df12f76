-- ===== src/Attempt/Samples.antt =====
-- A space with one node, its published material and a quiz of two questions, and a trainee's attempt.
use study_agent_service.Prelude.{List, ℕ, true, false, none, some, [], ◌∷◌, ◌⊎◌, inl, inr}
use study_agent_service.Prelude.Dict.{nat_eq, option_eq}
use study_agent_service.Guards.{ServiceException, trainee}
use study_agent_service.Lifecycle.Model.{
  in_progress, submitted, QuizAttempt, StudyMaterialVersion, Quiz, active,
}
use study_agent_service.Progress.Completion.{Score}
use study_agent_service.Progress.Completion
use study_agent_service.Progress.Store.{Db}
use study_agent_service.Progress.Tree.{TopicNode}
use study_agent_service.Attempt.{QuizQuestion, QuizQuestionResponse}
use study_agent_service.Attempt.Submission.{QuizDb}
use study_agent_service.Attempt.Answers.{AnswerOut}
use study_agent_service.Attempt.Views.{get_attempt, QuizOut}
use study_agent_service.Attempt.Starting.{start_attempt}
use study_agent_service.Attempt.Answers.{AnswerOut, submit_response}
use study_agent_service.Attempt.Tables.{Tables}

abbrev pub node : TopicNode
node = record {
  node_id = 1;
  parent_id = none;
  space_id = 9;
  title = "Root";
  order_index = 0;
  is_active = true;
}

abbrev pub material : StudyMaterialVersion
material = record {
  version_id = 4;
  version_number = 1;
  node_id = 1;
  space_id = 9;
  is_active = true;
  is_published = true;
  published_at = some 10;
  published_by = some 3;
  is_archived = false;
  archived_at = none;
  archived_by = none;
  lifecycle_status = active;
  superseded_at = none;
}

abbrev pub quiz : Quiz
quiz = record {
  quiz_id = 50;
  node_id = 1;
  study_material_version_id = some 4;
  pass_threshold_percent = some 80;
  is_published = true;
  published_at = some 10;
  lifecycle_status = active;
  superseded_at = none;
  updated_at = 10;
}

abbrev pub question : ℕ → QuizQuestion
question n = record {
  question_id = n;
  quiz_id = 50;
  order_index = n;
  is_active = true;
  correct_option = 2;
  hint_1 = some "Read it again";
  hint_2 = some "Think of the unit";
  hint_3 = some "It is the second";
  explanation = some "By definition";
}

abbrev pub study : Db
study = record {
  topic_nodes = node ∷ [];
  versions = material ∷ [];
  quizzes = quiz ∷ [];
  progress = [];
  unlocks = [];
  space_progress = [];
}

abbrev pub before : QuizDb
before = record {
  study = study;
  spaces = record {
    spaces =
        record {
          space_id = 9;
          mentor_id = 3;
          transferred_to_mentor_id = none;
          is_published = true;
          is_active = true;
        }
        ∷ [];
    space_trainees = record { space_id = 9; trainee_id = 7; is_active = true } ∷ [];
  };
  tables = record { questions = question 2 ∷ question 1 ∷ []; attempts = []; responses = [] };
}

-- What a call that is accepted returns beside the tables.
abbrev answer_of {ℓ κ} : {A : Type ℓ} {B : Type κ} → A → ServiceException ⊎ (A × B) → A
answer_of default (inl e) = default
answer_of default (inr (a, _)) = a

abbrev no_quiz : QuizOut
no_quiz = record {
  quiz_id = 0;
  attempt_id = 0;
  attempt_status = in_progress;
  resume_question_id = none;
  score_percent = none;
  best_score_percent = none;
  has_met_pass_threshold = false;
  total_correct = none;
  total_skipped = none;
  questions = [];
}

abbrev no_answer : AnswerOut
no_answer = record {
  question_id = 0;
  selected_option = none;
  is_correct = none;
  hint_level_reached = 0;
  was_skipped = false;
  was_locked = false;
  hint_1 = none;
  hint_2 = none;
  hint_3 = none;
  next_question_id = none;
  resume_question_id = none;
}

abbrev pub open_attempt : QuizAttempt
open_attempt = record {
  attempt_id = 80;
  quiz_id = 50;
  node_id = 1;
  space_id = 9;
  trainee_id = 7;
  status = in_progress;
  resume_question_id = none;
  score = none;
  total_correct = none;
  total_with_hints = none;
  total_skipped = none;
  started_at = 20;
  submitted_at = none;
}

abbrev pub half : Score
half = record { correct = 1; total = 2 }

abbrev pub done_attempt : QuizAttempt
done_attempt = record open_attempt {
  status = submitted;
  score = some half;
  total_correct = some 1;
  total_with_hints = some 1;
  total_skipped = some 1;
  submitted_at = some 30;
}

abbrev pub wrong_answer : QuizQuestionResponse
wrong_answer = record {
  attempt_id = 80;
  question_id = 1;
  selected_option = some 3;
  is_correct = some false;
  was_locked = false;
  was_skipped = false;
  is_visited = true;
  is_flagged = false;
  hint_level_reached = 1;
}

abbrev pub right_answer : QuizQuestionResponse
right_answer = record wrong_answer {
  selected_option = some 2;
  is_correct = some true;
  was_locked = true;
}

abbrev skipped_answer : QuizQuestionResponse
skipped_answer = record wrong_answer {
  question_id = 2;
  selected_option = none;
  is_correct = none;
  was_skipped = true;
  hint_level_reached = 0;
}

-- The tables once an attempt is started, once its first question is answered wrong, then right, and
-- once it is submitted with the other one skipped.
abbrev pub running : QuizDb
running = record before { tables = record (before.tables) { attempts = open_attempt ∷ [] } }

abbrev pub wrong : QuizDb
wrong = record running { tables = record (running.tables) { responses = wrong_answer ∷ [] } }

abbrev pub right : QuizDb
right = record running { tables = record (running.tables) { responses = right_answer ∷ [] } }

abbrev pub over : QuizDb
over = record right {
  study = record study {
    progress =
        record {
          trainee_id = 7;
          node_id = 1;
          space_id = 9;
          study_material_viewed = false;
          first_viewed_at = none;
          last_viewed_at = none;
          components = record {
            study_material_completed = false;
            quiz_passed = false;
            study_material_read_percent = 0;
            quiz_attempt_count = 1;
          };
          quiz_best_score = some half;
          completion_status = Completion.in_progress;
        }
        ∷ [];
    space_progress =
        record {
          trainee_id = 7;
          space_id = 9;
          total_nodes = 1;
          completed_nodes = 0;
          overall_score_avg = some half;
        }
        ∷ [];
  };
  tables = record (right.tables) {
    attempts = done_attempt ∷ [];
    responses = right_answer ∷ skipped_answer ∷ [];
  };
}

-- A second attempt.
abbrev pub again : QuizDb
again = record over {
  tables = record (over.tables) {
    attempts = done_attempt ∷ record open_attempt { attempt_id = 81; started_at = 31 } ∷ [];
  };
}

abbrev pub started : QuizOut × QuizDb
started = (answer_of no_quiz (start_attempt 5 80 20 1 50 7 trainee before), running)

abbrev pub missed : AnswerOut × Tables
missed = (answer_of no_answer (submit_response 80 1 (some 3) 7 running.tables), wrong.tables)

abbrev pub hit : AnswerOut × Tables
hit = (answer_of no_answer (submit_response 80 1 (some 2) 7 wrong.tables), right.tables)

abbrev pub closed : List ℕ × QuizDb
closed = ([], over)

abbrev view_of : ServiceException ⊎ QuizOut → QuizOut
view_of (inl e) = no_quiz
view_of (inr out) = out

abbrev pub shown : QuizOut
shown = view_of (get_attempt 80 7 over)

-- The view of the running attempt after a wrong answer.
abbrev pub opened : QuizOut
opened = view_of (get_attempt 80 7 wrong)

abbrev pub restarted : QuizOut × QuizDb
restarted = (answer_of no_quiz (start_attempt 5 81 31 1 50 7 trainee over), again)
