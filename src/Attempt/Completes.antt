-- ===== src/Attempt/Completes.antt =====
-- A trainee who answers right where the attempt resumes gets through it.
use study_agent_service.Prelude.{suc, ℕ, ◌≡◌, inr, true, some}
use study_agent_service.Prelude.{suc}
use study_agent_service.Prelude.Dict.{nat_eq}
use study_agent_service.Attempt.{compute_resume_question_id}
use study_agent_service.Attempt.Tables.{get_active_questions_by_quiz, get_responses_map, Tables}
use study_agent_service.Attempt.Answers.{AnswerOut, submit_response}

-- Answers that are right, each to the question where the attempt resumes at that moment.
pub data RightAnswers (id quiz user : ℕ) : Tables → ℕ → Tables → Type 0 where
  stop : {t : Tables} → RightAnswers id quiz user t 0 t
  right_at_resume :
      {t u : Tables} {n : ℕ} (k option : ℕ) (out : AnswerOut × Tables)
      → compute_resume_question_id (get_active_questions_by_quiz quiz t) (get_responses_map id t)
        ≡ some k
      → submit_response id k (some option) user t ≡ inr out
      → out.0.is_correct ≡ some true
      → RightAnswers id quiz user out.1 n u
      → RightAnswers id quiz user t (suc n) u
