-- ===== src/Generation/Calls.antt =====
-- What the calls of src/api/core/services/generation_run_service.py do to the table of runs: all but
-- a start and a resume are sequences of tame statements.
use study_agent_service.Prelude.{
  any, count_if, refl, [], ◌∷◌, ◌++◌, ℕ, ◌<◌, ◌≡◌, sym, ap, subst, ◌⊎◌, inl, inr, Bool, true, false,
  not, ◌||◌, Option, none, some, arith, ltb, ◌==◌, if◌then◌else◌, ltb→lt, Bool-cases,
}
use study_agent_service.Prelude.Result.{guard, present, Done, done}
use Prim.Native.String.{String}
use study_agent_service.Prelude.Result.{bind-ok, guard-ok, present-ok, ok-injective}
use study_agent_service.Generation.{study_material, quiz, hint}
use study_agent_service.Generation.Runs.{
  is_active_on, increment_attempt_count, mark_running, GenerationRun, GenerationRunCreate, Runs,
  is_running, is_paused, is_failed_status, is_abandoned, is_active_run_status, create, get_by_id,
  get_active_run, supersede_stale_runs, pause_run, abandon_run,
}
use study_agent_service.Generation.Worker.{run_profile}
use study_agent_service.Generation.Profiles.{node_to_step_for_profile}
use text.Mathlib.Text.{◌==◌ as str_eq}
use study_agent_service.Generation.Service.{
  RunException, Fingerprint, lock_unavailable, run_not_found, run_conflict, run_not_pausable,
  run_not_abandonable, run_not_resumable, inputs_changed, fingerprints_match, start_run, resume_run,
  pause_for_mentor, abandon_for_mentor, pause_unless_paused, abandon_unless_abandoned,
  validate_resumable, get_run_for_mentor, assert_no_resume_conflict, sync_resume_progress_position,
}
use study_agent_service.Generation.Clear.{superseded-clear}
use study_agent_service.Generation.Rows.{Tame, same, found-holds, branch-holds}
use study_agent_service.Generation.Settled.{
  set_step-Tame, supersede_stale_runs-Tame, pause_run-Tame, abandon_run-Tame, on_node-Tame,
  checkpoint_node-Tame, fail_current-Tame, complete_progress-Tame, store_run_result-Tame,
  store_llamaparse_job_ids-Tame, recover_stale_runs-Tame,
}
use study_agent_service.Generation.Machine.{
  Step, starts, resumes, pauses, abandons, enters, checkpoints, fails, completes, stores, parses,
  recovers,
}

pub get_run_for_mentor-ok :
    (run_id mentor_id : ℕ) (runs : Runs) {run : GenerationRun}
    → get_run_for_mentor run_id mentor_id runs ≡ inr run
    → get_by_id run_id runs ≡ some run
unfolding get_run_for_mentor
get_run_for_mentor-ok run_id mentor_id runs h =
    let (run, found, h1) = bind-ok (present (get_by_id run_id runs) run_not_found) _ h in
    let (_, _, h2) = bind-ok (guard (run.mentor_id == mentor_id) run_not_found) _ h1 in
    subst (λ r. get_by_id run_id runs ≡ some r) (ok-injective h2) (present-ok _ _ found)

pub validate_resumable-ok :
    (fingerprint : Fingerprint) (now : ℕ) (run : GenerationRun) {d : Done}
    → validate_resumable fingerprint now run ≡ inr d
    → ((is_paused run.status || is_failed_status run.status) ≡ true) × (run.attempt_count < 5)
unfolding validate_resumable
validate_resumable-ok fingerprint now run h =
    let (_, resumable, h1) =
      bind-ok (guard (is_paused run.status || is_failed_status run.status) run_not_resumable) _ h in
    let (_, _, h2) = bind-ok (guard (fingerprints_match fingerprint run) inputs_changed) _ h1 in
    let (_, tries, _) = bind-ok (guard (ltb run.attempt_count 5) run_not_resumable) _ h2 in
    (guard-ok _ _ resumable, ltb→lt run.attempt_count 5 (guard-ok _ _ tries))

pause_for_mentor-cases :
    (run_id mentor_id now : ℕ) (runs : Runs) {after : Runs}
    → pause_for_mentor run_id mentor_id now runs ≡ inr after
    → (after ≡ runs) ⊎ ((id : ℕ) × (after ≡ (pause_run id "user" now runs).0))
unfolding pause_for_mentor pause_unless_paused
pause_for_mentor-cases run_id mentor_id now runs {after} h =
    let (run, _, h1) = bind-ok (get_run_for_mentor run_id mentor_id runs) _ h in
    elim (Bool-cases (is_paused run.status)) [
      | inl already ↦ inl (ground arith)
      | inr not_yet ↦
          let h2 : pause_unless_paused run now runs ≡ inr after = ground arith in
          let (_, _, h3) = bind-ok (guard (is_running run.status) run_not_pausable) _ h2 in
          let (_, _, h4) =
            bind-ok
              (elim (get_by_id run.run_id (pause_run run.run_id "user" now runs).0) [
                | none ↦ guard false (
                    if (pause_run run.run_id "user" now runs).1
                    then run_not_found
                    else run_not_pausable)
                | some r ↦
                    guard ((pause_run run.run_id "user" now runs).1 || is_paused r.status)
                      run_not_pausable
              ])
              _ h3 in
          inr (run.run_id, sym (ok-injective h4))
    ]

abandon_for_mentor-cases :
    (run_id mentor_id : ℕ) (reason : String) (discarded : RunException ⊎ Done) (now : ℕ)
    (runs : Runs) {after : Runs}
    → abandon_for_mentor run_id mentor_id reason discarded now runs ≡ inr after
    → (after ≡ runs) ⊎ ((id : ℕ) × (after ≡ (abandon_run id reason now runs).0))
unfolding abandon_for_mentor abandon_unless_abandoned
abandon_for_mentor-cases run_id mentor_id reason discarded now runs {after} h =
    let (run, _, h1) = bind-ok (get_run_for_mentor run_id mentor_id runs) _ h in
    elim (Bool-cases (is_abandoned run.status)) [
      | inl already ↦ inl (ground arith)
      | inr not_yet ↦
          let h2 : abandon_unless_abandoned run reason discarded now runs ≡ inr after =
            ground arith in
          let (_, _, h3) =
            bind-ok (guard (is_active_run_status run.status) run_not_abandonable) _ h2 in
          let (_, _, h4) =
            bind-ok
              (elim run.pipeline [ study_material ↦ discarded | quiz ↦ inr done | hint ↦ inr done ])
              _ h3 in
          let (_, _, h5) =
            bind-ok
              (elim (get_by_id run.run_id (abandon_run run.run_id reason now runs).0) [
                | none ↦ guard false (
                    if (abandon_run run.run_id reason now runs).1
                    then run_not_found
                    else run_not_abandonable)
                | some r ↦
                    guard ((abandon_run run.run_id reason now runs).1 || is_abandoned r.status)
                      run_not_abandonable
              ])
              _ h4 in
          inr (run.run_id, sym (ok-injective h5))
    ]

sync_resume-Tame :
    (start : Runs) (run : GenerationRun) (next_node : Option String) (now : ℕ) (runs : Runs)
    → Tame start runs
    → Tame start (sync_resume_progress_position run next_node now runs)
unfolding sync_resume_progress_position
sync_resume-Tame start run none now runs h = h
sync_resume-Tame start run (some next_node) now runs h =
    branch-holds (Tame start) (str_eq next_node "" || str_eq next_node "__end__") _ _ h (
      found-holds (Tame start) (node_to_step_for_profile (run_profile run) next_node) _ runs h
        (λ i. set_step-Tame start run.run_id i now runs h))

-- The three things that a call does to the table.
pub data Move (runs : Runs) : Runs → Type 0 where
  quiet : {after : Runs} → Tame runs after → Move runs after
  adds :
      {between after : Runs} (made : GenerationRun)
      → made.attempt_count ≡ 0
      → any (λ r. r.run_id == made.run_id) runs ≡ false
      → count_if (is_active_on made.resource_id made.pipeline) between ≡ 0
      → Tame runs between
      → Tame (between ++ made ∷ []) after
      → Move runs after
  revives :
      {after : Runs} (run_id : ℕ) (token : Option ℕ) (now : ℕ) (run : GenerationRun)
      → get_by_id run_id runs ≡ some run
      → (is_paused run.status || is_failed_status run.status) ≡ true
      → run.attempt_count < 5
      → Tame (mark_running run_id token now (increment_attempt_count run_id now runs).0) after
      → Move runs after

idle_of :
    (found : Option GenerationRun) {d : Done}
    → (elim found [
      | none ↦ inr done
      | some active ↦ guard {E = RunException} (not (is_running active.status)) run_conflict
    ])
      ≡ inr d
    → (a : GenerationRun) → found ≡ some a
    → is_running a.status ≡ false
idle_of none h a e = absurd (ground arith)
idle_of (some active) h a e = ground (arith, guard-ok _ _ h, e)

start_run-Move :
    (fingerprint : Fingerprint) (p : GenerationRunCreate) (lock : Bool) (fresh token now : ℕ)
    (runs : Runs) {after : Runs} {run : GenerationRun}
    → start_run fingerprint p true lock fresh token now runs ≡ inr (after, run)
    → any (λ r. r.run_id == run.run_id) runs ≡ false
    → Move runs after
unfolding start_run create
start_run-Move fingerprint p lock fresh token now runs {after} h new_id =
    let (_, _, h1) = bind-ok (guard lock lock_unavailable) _ h in
    let cleared : Runs = (supersede_stale_runs p.resource_id p.pipeline none now runs).0 in
    let (_, idle, h2) =
      bind-ok
        (elim (get_active_run p.resource_id p.pipeline cleared) [
          | none ↦ inr done
          | some active ↦ guard (not (is_running active.status)) run_conflict
        ])
        _ h1 in
    let returned = ok-injective h2 in
    subst (Move runs) (ap (λ x. x.0) returned) (
      adds _ refl
        (subst (λ r. any (λ x. x.run_id == r.run_id) runs ≡ false) (sym (ap (λ x. x.1) returned))
          new_id)
        (superseded-clear p.resource_id p.pipeline now runs
          (idle_of (get_active_run p.resource_id p.pipeline cleared) idle))
        (supersede_stale_runs-Tame runs p.resource_id p.pipeline none now runs same)
        (set_step-Tame _ _ 0 now _ same))

resume_run-Move :
    (fingerprint : Fingerprint) (run_id mentor_id : ℕ) (lock : Bool) (token : ℕ)
    (next_node : Option String) (now : ℕ) (runs : Runs) {after : Runs}
    → resume_run fingerprint run_id mentor_id lock token next_node now runs ≡ inr after
    → Move runs after
unfolding resume_run
resume_run-Move fingerprint run_id mentor_id lock token next_node now runs h =
    let (run, got, h1) = bind-ok (get_run_for_mentor run_id mentor_id runs) _ h in
    let (_, valid, h2) = bind-ok (validate_resumable fingerprint now run) _ h1 in
    let (_, _, h3) = bind-ok (assert_no_resume_conflict run run_id runs) _ h2 in
    let (_, _, h4) = bind-ok (guard lock lock_unavailable) _ h3 in
    let (resumable, few) = validate_resumable-ok fingerprint now run valid in
    subst (Move runs) (ok-injective h4) (
      revives run_id (some token) now run (get_run_for_mentor-ok run_id mentor_id runs got)
        resumable few (sync_resume-Tame _ run next_node now _ same))

pub Step-Move :
    {fingerprint : Fingerprint} {runs after : Runs} → Step fingerprint runs after → Move runs after
Step-Move {fingerprint} {runs} (starts p lock fresh token now run h new_id) =
    start_run-Move fingerprint p lock fresh token now runs h new_id
Step-Move {fingerprint} {runs} (resumes id mentor lock token node now h) =
    resume_run-Move fingerprint id mentor lock token node now runs h
Step-Move {fingerprint} {runs} (pauses id mentor now h) =
    elim (pause_for_mentor-cases id mentor now runs h) [
      | inl e ↦ quiet (subst (Tame runs) (sym e) same)
      | inr (i, e) ↦ quiet (subst (Tame runs) (sym e) (pause_run-Tame runs i "user" now runs same))
    ]
Step-Move {fingerprint} {runs} (abandons id mentor reason discarded now h) =
    elim (abandon_for_mentor-cases id mentor reason discarded now runs h) [
      | inl e ↦ quiet (subst (Tame runs) (sym e) same)
      | inr (i, e) ↦
          quiet (subst (Tame runs) (sym e) (abandon_run-Tame runs i reason now runs same))
    ]
Step-Move {fingerprint} {runs} (enters id node profile now) =
    quiet (on_node-Tame runs id node profile now runs same)
Step-Move {fingerprint} {runs} (checkpoints id node state artifact now) =
    quiet (checkpoint_node-Tame runs id node state artifact now runs same)
Step-Move {fingerprint} {runs} (fails id message error_type retry now) =
    quiet (fail_current-Tame runs id message error_type retry now runs same)
Step-Move {fingerprint} {runs} (completes id now) =
    quiet (complete_progress-Tame runs id now runs same)
Step-Move {fingerprint} {runs} (stores id payload now) =
    quiet (store_run_result-Tame runs id payload now runs same)
Step-Move {fingerprint} {runs} (parses id extract_id parse_id now) =
    quiet (store_llamaparse_job_ids-Tame runs id extract_id parse_id now runs same)
Step-Move {fingerprint} {runs} (recovers threshold now) =
    quiet (recover_stale_runs-Tame runs threshold now runs same)
