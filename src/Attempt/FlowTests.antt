-- ===== src/Attempt/FlowTests.antt =====
-- An attempt from its start to its end, on which the theorems are applied.
use study_agent_service.Progress.Store.{get_batch_by_trainee_and_nodes, get_published_quiz_node_ids}
use study_agent_service.Progress.Completion.{score_meets_pass_threshold}
use study_agent_service.Progress.Completion.{compute_completion_status}
use study_agent_service.Progress.Service.{record_quiz_attempt_submission}
use study_agent_service.Progress.Store.{get_published_node_ids}
use study_agent_service.Progress.Tree.{
  build_tree, collect_descendant_ids, has_accessible_learning_content,
}
use study_agent_service.Progress.Unlocking.{build_unlock_tree_context, resolve_node_access}
use study_agent_service.Progress.Unlocking.Granting.{
  assert_trainee_node_unlocked, resolve_node_access_with_grant,
}
use study_agent_service.Prelude.{is_some, find_first, none, false, ℕ}
use study_agent_service.Attempt.Tables.{get_all_questions_by_quiz, get_responses_map, Tables}
use study_agent_service.Attempt.History.{
  Reach, here, next, start, answer, submit, has_no_attempts, attempt_history-IsSound,
}
use study_agent_service.Attempt.Opening.{is_fresh}
use study_agent_service.Attempt.Sound.{IsSound}
use study_agent_service.Attempt.Untouched.{IsUntouched}
use study_agent_service.Attempt.Final.{finished_attempt_is_final}
use study_agent_service.Attempt.Locked.{right_answer_is_kept}
use study_agent_service.Attempt.Kept.{IsKeptIn}
use study_agent_service.Attempt.Position.{get_attempt-resumes}
use study_agent_service.Attempt.Reveal.{get_attempt-reveals, keeps_secret, hints_earned}
use study_agent_service.Attempt.Views.{is_active_id, get_attempt, is_submitted}
use study_agent_service.Attempt.Tables.{get_attempt_by_id, get_response}
use study_agent_service.Attempt.{QuizQuestion, QuizQuestionResponse}
use study_agent_service.Lifecycle.Model.{is_open, QuizAttempt}
use study_agent_service.Guards.{
  assert_space_access, assert_trainee, get_node_and_assert_space_access,
}
use study_agent_service.Prelude.{◌≡◌, refl, inr, true, not, some, any, all}
use study_agent_service.Prelude.Dict.{nat_eq, option_eq}
use study_agent_service.Guards.{trainee}
use study_agent_service.Attempt.Samples.{
  opened, over, again, restarted, open_attempt, done_attempt, right_answer, shown, before, started,
  running, missed, wrong, hit, right, closed,
}
use study_agent_service.Attempt.Starting.{start_attempt}
use study_agent_service.Attempt.Answers.{submit_response}
use study_agent_service.Attempt.Submission.{submit_attempt}
use study_agent_service.Attempt.Resume.{is_open_in}

starts : start_attempt 5 80 20 1 50 7 trainee before ≡ inr started
unfolding start_attempt assert_trainee get_node_and_assert_space_access assert_space_access
    assert_trainee_node_unlocked resolve_node_access_with_grant resolve_node_access
    has_accessible_learning_content collect_descendant_ids build_unlock_tree_context build_tree
    get_published_node_ids
starts = refl

misses : submit_response 80 1 (some 3) 7 running.tables ≡ inr missed
unfolding submit_response
misses = refl

hits : submit_response 80 1 (some 2) 7 wrong.tables ≡ inr hit
unfolding submit_response
hits = refl

closes : submit_attempt 5 80 7 30 right ≡ inr closed
unfolding submit_attempt record_quiz_attempt_submission compute_completion_status
    score_meets_pass_threshold get_published_quiz_node_ids get_batch_by_trainee_and_nodes
closes = refl

shows : get_attempt 80 7 over ≡ inr shown
unfolding get_attempt
shows = refl

starts_again : start_attempt 5 81 31 1 50 7 trainee over ≡ inr restarted
unfolding start_attempt assert_trainee get_node_and_assert_space_access assert_space_access
    assert_trainee_node_unlocked resolve_node_access_with_grant resolve_node_access
    has_accessible_learning_content collect_descendant_ids build_unlock_tree_context build_tree
    get_published_node_ids
starts_again = refl

fresh_80 : is_fresh 80 before.tables ≡ true
fresh_80 = refl

fresh_81 : is_fresh 81 over.tables ≡ true
fresh_81 = refl

abbrev to_right : Reach before right
to_right =
    next
      (next (next here (start 5 80 20 1 50 7 trainee {out = started} fresh_80 starts))
        (answer 80 1 (some 3) 7 {out = missed} misses))
      (answer 80 1 (some 2) 7 {out = hit} hits)

abbrev right_to_over : Reach right over
right_to_over = next here (submit 5 80 7 30 {out = closed} closes)

none_yet : has_no_attempts before ≡ true
none_yet = refl

attempt_history-IsSound_example : IsSound right.tables
attempt_history-IsSound_example = attempt_history-IsSound before right none_yet to_right

right-IsSound : IsSound right.tables
right-IsSound = record { questions = refl; rows = refl; keys = refl; attempts = refl }

abbrev row : QuizAttempt
row = open_attempt

abbrev end_row : QuizAttempt
end_row = done_attempt

end_found : get_attempt_by_id 80 over.tables ≡ some end_row
unfolding get_attempt_by_id
end_found = refl

finished_attempt_is_final_example : IsUntouched 80 over.tables again.tables
finished_attempt_is_final_example =
    finished_attempt_is_final over again 80 end_row end_found refl
      (next here (start 5 81 31 1 50 7 trainee {out = restarted} fresh_81 starts_again))

abbrev kept_row : QuizQuestionResponse
kept_row = right_answer

response_found : get_response 80 1 right.tables ≡ some kept_row
unfolding get_response
response_found = refl

right_answer_is_kept_example : IsKeptIn 80 1 kept_row over.tables
right_answer_is_kept_example =
    right_answer_is_kept right over 80 1 kept_row right-IsSound response_found refl right_to_over

get_attempt-reveals_example :
    (a : QuizAttempt) × (get_attempt_by_id 80 over.tables ≡ some a)
    × (a.trainee_id ≡ 7)
    × (any (λ o. not (keeps_secret o)) shown.questions ≡ true
        → (is_submitted a.status ≡ true) × (shown.has_met_pass_threshold ≡ true))
    × (all (hints_earned (get_responses_map 80 over.tables)) shown.questions ≡ true)
get_attempt-reveals_example = get_attempt-reveals 80 7 over shown shows

opens : get_attempt 80 7 wrong ≡ inr opened
unfolding get_attempt
opens = refl

get_attempt-resumes_example :
    (a : QuizAttempt) × (get_attempt_by_id 80 wrong.tables ≡ some a)
    × let questions = get_all_questions_by_quiz a.quiz_id wrong.tables in
      (is_open a.status ≡ false → opened.resume_question_id ≡ none)
      × (is_open a.status ≡ true
          → (is_active_id questions a.resume_question_id ≡ true
              → opened.resume_question_id ≡ a.resume_question_id)
            × ((q : QuizQuestion)
                → is_active_id questions a.resume_question_id ≡ false
                → find_first (is_open_in (get_responses_map 80 wrong.tables)) questions ≡ some q
                → opened.resume_question_id ≡ some q.question_id)
            × (is_some opened.resume_question_id ≡ any (λ q. q.is_active) questions))
      × ((q : ℕ) → opened.resume_question_id ≡ some q → is_active_id questions (some q) ≡ true)
get_attempt-resumes_example = get_attempt-resumes 80 7 wrong opened opens
