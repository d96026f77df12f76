-- ===== src/Generation/Tries.antt =====
-- How often a generation run is resumed, over every history of calls of
-- src/api/core/services/generation_run_service.py.
use study_agent_service.Prelude.{
  all-append, ℕ, ◌+◌, ◌≤◌, ◌<◌, ◌≡◌, sym, subst, Bool, true, Option, some, [], ◌∷◌, arith, leb,
  ◌==◌, all,
}
use study_agent_service.Generation.Runs.{
  revived, counted_row, GenerationRun, Runs, counted, count_up, get_by_id, mark_running,
  increment_attempt_count,
}
use study_agent_service.Generation.Service.{Fingerprint, max_resume_attempts}
use study_agent_service.Generation.Machine.{History, begin, next}
use study_agent_service.Generation.Rows.{Tame, same, write, update_where-all}
use study_agent_service.Generation.Calls.{Move, quiet, adds, revives, Step-Move}

-- The row counts no more attempts than a resume allows.
abbrev pub is_within_attempts : GenerationRun → Bool
is_within_attempts r = leb r.attempt_count max_resume_attempts

Tame-tries :
    {runs after : Runs}
    → Tame runs after
    → all is_within_attempts runs ≡ true
    → all is_within_attempts after ≡ true
Tame-tries same good = good
Tame-tries (write {between} test change _ same_count _ _ _ past) good =
    update_where-all is_within_attempts test change between
      (λ r _ few. ground (arith, same_count r)) (Tame-tries past good)

counted-tries :
    (run_id n now : ℕ) (runs : Runs)
    → n ≤ 5
    → all is_within_attempts runs ≡ true
    → all is_within_attempts (counted run_id n now runs) ≡ true
counted-tries run_id n now runs few good =
    update_where-all is_within_attempts (λ r. r.run_id == run_id) (counted_row n now) runs
      (λ r _ _. ground arith) good

-- The run that is counted up is the one that was tested.
increment-tries :
    (run_id now : ℕ) (runs : Runs) (run : GenerationRun)
    → get_by_id run_id runs ≡ some run
    → run.attempt_count < 5
    → all is_within_attempts runs ≡ true
    → all is_within_attempts (increment_attempt_count run_id now runs).0 ≡ true
unfolding increment_attempt_count
increment-tries run_id now runs run found few good =
    subst (λ o. all is_within_attempts (count_up run_id now runs o).0 ≡ true) (sym found)
      (counted-tries run_id (run.attempt_count + 1) now runs (omega (arith, few)) good)

mark_running-tries :
    (run_id : ℕ) (token : Option ℕ) (now : ℕ) (runs : Runs)
    → all is_within_attempts runs ≡ true
    → all is_within_attempts (mark_running run_id token now runs) ≡ true
unfolding mark_running
mark_running-tries run_id token now runs good =
    update_where-all is_within_attempts (λ r. r.run_id == run_id) (revived token now) runs
      (λ r _ few. few) good

Move-tries :
    {runs after : Runs}
    → Move runs after
    → all is_within_attempts runs ≡ true
    → all is_within_attempts after ≡ true
Move-tries (quiet writes) good = Tame-tries writes good
Move-tries (adds {between} made fresh _ _ before behind) good = Tame-tries behind (
    ground
      (arith, fresh, all-append is_within_attempts between (made ∷ []), Tame-tries before good))
Move-tries {runs} (revives run_id token now run found _ few behind) good =
    Tame-tries behind
      (mark_running-tries run_id token now _ (increment-tries run_id now runs run found few good))

-- A table in which every run was resumed at most five times: after any history of calls of the
-- mentor and of the workers, in which every new run has a new id, every run, the new ones too, was
-- resumed at most five times.
pub resumes_are_bounded :
    (fingerprint : Fingerprint) {runs after : Runs}
    → all is_within_attempts runs ≡ true
    → History fingerprint runs after
    → all is_within_attempts after ≡ true
resumes_are_bounded fingerprint good begin = good
resumes_are_bounded fingerprint good (next past step) =
    Move-tries (Step-Move step) (resumes_are_bounded fingerprint good past)
