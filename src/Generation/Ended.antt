-- ===== src/Generation/Ended.antt =====
-- A generation run that has ended, over every history of calls of
-- src/api/core/services/generation_run_service.py.
use study_agent_service.Prelude.{
  ℕ, ◌+◌, ◌≡◌, refl, sym, ap, ◌∙◌, subst, ◌≢◌, Bool, true, false, not, ◌&&◌, ◌||◌, Option, none,
  some, [], ◌∷◌, arith, ◌==◌, or_else, get_elem?,
}
use study_agent_service.Generation.{
  GenerationRunStatus, running, failed, completed, superseded, paused, abandoned,
}
use study_agent_service.Generation.Runs.{
  GenerationRun, Runs, counted, count_up, is_paused, is_failed_status, is_active_run_status,
  get_by_id, mark_running, increment_attempt_count,
}
use study_agent_service.Generation.Service.{Fingerprint}
use study_agent_service.Generation.Machine.{History, begin, next}
use study_agent_service.Generation.Rows.{Tame, same, write, has, update_where-has, append-has}
use study_agent_service.Generation.Calls.{Move, quiet, adds, revives, Step-Move}

abbrev status_code : GenerationRunStatus → ℕ
status_code running = 0
status_code failed = 1
status_code completed = 2
status_code superseded = 3
status_code paused = 4
status_code abandoned = 5

-- The row has this status, and the status is not an active one.
abbrev ended_as : GenerationRunStatus → GenerationRun → Bool
ended_as s r = status_code r.status == status_code s && not (is_active_run_status r.status)

module _ (s : GenerationRunStatus) (j : ℕ) where
  Tame-ended :
      {runs after : Runs}
      → Tame runs after
      → has (ended_as s) j runs ≡ true
      → has (ended_as s) j after ≡ true
  Tame-ended same good = good
  Tame-ended (write {between} test change same_id _ _ _ keeps past) good =
      update_where-has (ended_as s) test change j between same_id
        (λ r _ passes ended. ground (arith, keeps r)) (Tame-ended past good)

  count_row-ended :
      (run_id n now : ℕ) (runs : Runs)
      → has (ended_as s) j runs ≡ true
      → has (ended_as s) j (counted run_id n now runs) ≡ true
  count_row-ended run_id n now runs h =
      update_where-has (ended_as s) _ _ j runs (λ r. refl) (λ r _ _ good. good) h

  count_up-ended :
      (run_id now : ℕ) (runs : Runs) (found : Option GenerationRun)
      → has (ended_as s) j runs ≡ true
      → has (ended_as s) j (count_up run_id now runs found).0 ≡ true
  count_up-ended run_id now runs none h = h
  count_up-ended run_id now runs (some run) h =
      count_row-ended run_id (run.attempt_count + 1) now runs h

  increment_attempt_count-ended :
      (run_id now : ℕ) (runs : Runs)
      → has (ended_as s) j runs ≡ true
      → has (ended_as s) j (increment_attempt_count run_id now runs).0 ≡ true
  unfolding increment_attempt_count
  increment_attempt_count-ended run_id now runs h =
      count_up-ended run_id now runs (get_by_id run_id runs) h

  -- The one write without a test of the status spares a run with another id.
  mark_running-ended :
      (run_id : ℕ) (token : Option ℕ) (now : ℕ) (runs : Runs)
      → run_id ≢ j
      → has (ended_as s) j runs ≡ true
      → has (ended_as s) j (mark_running run_id token now runs) ≡ true
  unfolding mark_running
  mark_running-ended run_id token now runs other h =
      update_where-has (ended_as s) _ _ j runs (λ r. refl)
        (λ r e test good. absurd (ground (arith, other))) h

  -- The run that a resume names has not ended.
  resumed_other :
      (run_id : ℕ) (runs : Runs) (run : GenerationRun)
      → get_by_id run_id runs ≡ some run
      → (is_paused run.status || is_failed_status run.status) ≡ true
      → has (ended_as s) j runs ≡ true
      → run_id ≢ j
  unfolding get_by_id
  resumed_other run_id runs run found resumable h e =
      let here : get_by_id j runs ≡ some run = subst (λ i. get_by_id i runs ≡ some run) e found in
      ground arith

  Move-ended :
      {runs after : Runs}
      → Move runs after
      → has (ended_as s) j runs ≡ true
      → has (ended_as s) j after ≡ true
  Move-ended (quiet writes) good = Tame-ended writes good
  Move-ended (adds {between} made _ _ _ before behind) good =
      Tame-ended behind (append-has (ended_as s) j between (made ∷ []) (Tame-ended before good))
  Move-ended {runs} (revives run_id token now run found resumable _ behind) good =
      Tame-ended behind (
        mark_running-ended run_id token now _ (resumed_other run_id runs run found resumable good)
          (increment_attempt_count-ended run_id now runs good))

  History-ended :
      {fingerprint : Fingerprint} {runs after : Runs}
      → History fingerprint runs after
      → has (ended_as s) j runs ≡ true
      → has (ended_as s) j after ≡ true
  History-ended begin good = good
  History-ended (next past step) good = Move-ended (Step-Move step) (History-ended past good)

-- The codes of two statuses are equal only if the statuses are.
status_of_code : ℕ → GenerationRunStatus
status_of_code code =
    or_else (get_elem? (running ∷ failed ∷ completed ∷ superseded ∷ paused ∷ abandoned ∷ []) code)
      running

code_of_status : (s : GenerationRunStatus) → status_of_code (status_code s) ≡ s
unfolding status_of_code
code_of_status running = refl
code_of_status failed = refl
code_of_status completed = refl
code_of_status superseded = refl
code_of_status paused = refl
code_of_status abandoned = refl

ended_as_found :
    (s : GenerationRunStatus) (found : Option GenerationRun)
    → (elim found [ none ↦ false | some r ↦ ended_as s r ]) ≡ true
    → (r : GenerationRun) × (found ≡ some r) × (r.status ≡ s)
ended_as_found s none h = absurd (ground arith)
ended_as_found s (some r) h =
    let same : status_code r.status ≡ status_code s = ground arith in
    (r, refl, sym (code_of_status r.status) ∙ ap status_of_code same ∙ code_of_status s)

-- A run that is found with a status other than running, paused and failed, which is to say
-- completed, superseded or abandoned: after any history of calls of the mentor and of the workers,
-- on this run and on others, in which every new run has a new id, it is still found, with the same
-- status. No late pause, failure, checkpoint or resume brings it back.
pub ended_run_is_final :
    (fingerprint : Fingerprint) (run_id : ℕ) {runs after : Runs} (run : GenerationRun)
    → get_by_id run_id runs ≡ some run
    → is_active_run_status run.status ≡ false
    → History fingerprint runs after
    → (later : GenerationRun) × (get_by_id run_id after ≡ some later) × (later.status ≡ run.status)
unfolding get_by_id
ended_run_is_final fingerprint run_id {runs} {after} run found ended history =
    ended_as_found run.status (get_by_id run_id after)
      (History-ended run.status run_id history (ground (arith, found, ended)))
