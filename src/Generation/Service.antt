-- ===== src/Generation/Service.antt =====
-- The handlers of a run that a mentor calls: src/api/core/services/generation_run_service.py. The
-- SHA-256 fingerprint of a request, the outcome of the advisory lock, the entry node of a resume and
-- the outcome of the clean-up of artifacts are arguments; a call that raises is rolled back.
use study_agent_service.Prelude.{
  ℕ, ◌⊎◌, inr, Bool, true, false, not, ◌||◌, Option, none, some, ltb, ◌==◌, if◌then◌else◌,
}
use study_agent_service.Prelude.Result.{◌>>=◌, guard, present, Done, done}
use Prim.Native.String.{String}
use text.Mathlib.Text.{◌==◌ as str_eq}
use study_agent_service.Generation.{GenerationPipeline, study_material, quiz, hint}
use study_agent_service.Generation.Profiles.{RequestParams, node_to_step_for_profile}
use study_agent_service.Generation.Runs.{
  GenerationRun, GenerationRunCreate, Runs, is_running, is_paused, is_failed_status, is_abandoned,
  is_active_run_status, create, get_by_id, get_active_run, mark_running, pause_run, abandon_run,
  increment_attempt_count, supersede_stale_runs,
}
use study_agent_service.Generation.Worker.{run_profile, set_step}

pub data RunException : Type 0 where
  run_not_found run_conflict run_not_resumable inputs_changed : RunException
  resume_too_early run_not_pausable run_not_abandonable : RunException
  lock_unavailable artifacts_not_discarded : RunException

abbrev pub Fingerprint : Type 0
Fingerprint = GenerationPipeline → ℕ → String → Option RequestParams → String

abbrev pub max_resume_attempts : ℕ
max_resume_attempts = 5

unfoldable pub fingerprints_match : Fingerprint → GenerationRun → Bool
fingerprints_match fingerprint run = elim run.request_fingerprint [
  | none ↦ true
  | some stored ↦
      str_eq stored ""
      || str_eq stored (fingerprint run.pipeline run.node_id run.generation_mode run.request_params)
]

-- `get_by_id` behind the test of the owner.
unfoldable pub get_run_for_mentor : ℕ → ℕ → Runs → RunException ⊎ GenerationRun
unfolding get_by_id
get_run_for_mentor run_id mentor_id runs = do
  run ← present (get_by_id run_id runs) run_not_found
  _ ← guard (run.mentor_id == mentor_id) run_not_found
  inr run

abbrev pub cooldown_over : ℕ → GenerationRun → Bool
cooldown_over now run = elim run.next_llm_retry_at [ none ↦ true | some t ↦ not (ltb now t) ]

unfoldable pub validate_resumable : Fingerprint → ℕ → GenerationRun → RunException ⊎ Done
unfolding fingerprints_match
validate_resumable fingerprint now run = do
  _ ← guard (is_paused run.status || is_failed_status run.status) run_not_resumable
  _ ← guard (fingerprints_match fingerprint run) inputs_changed
  _ ← guard (ltb run.attempt_count max_resume_attempts) run_not_resumable
  _ ← guard (not (is_failed_status run.status) || cooldown_over now run) resume_too_early
  inr done

unfoldable pub assert_no_resume_conflict : GenerationRun → ℕ → Runs → RunException ⊎ Done
unfolding get_active_run
assert_no_resume_conflict run run_id runs =
    elim (get_active_run run.resource_id run.pipeline runs) [
      | none ↦ inr done
      | some active ↦ guard (active.run_id == run_id || not (is_running active.status)) run_conflict
    ]

-- A `next_node` that is absent, empty or the end moves nothing, like one without a step.
unfoldable pub sync_resume_progress_position : GenerationRun → Option String → ℕ → Runs → Runs
unfolding run_profile node_to_step_for_profile set_step
sync_resume_progress_position run none now runs = runs
sync_resume_progress_position run (some next_node) now runs =
    if str_eq next_node "" || str_eq next_node "__end__"
    then runs
    else elim (node_to_step_for_profile (run_profile run) next_node) [
      | none ↦ runs
      | some i ↦ set_step run.run_id i now runs
    ]

unfoldable pub start_run :
    Fingerprint
    → GenerationRunCreate
    → Bool
    → Bool
    → ℕ
    → ℕ
    → ℕ
    → Runs
    → RunException ⊎ (Runs × GenerationRun)
unfolding supersede_stale_runs get_active_run create set_step
start_run fingerprint p supersede_existing lock fresh token now runs = do
  _ ← guard lock lock_unavailable
  let cleared =
      if supersede_existing
      then (supersede_stale_runs p.resource_id p.pipeline none now runs).0
      else runs
  _ ← elim (get_active_run p.resource_id p.pipeline cleared) [
    | none ↦ inr done
    | some active ↦ guard (not (is_running active.status)) run_conflict
  ]
  let made =
      create p fresh (some token)
        (some (fingerprint p.pipeline p.node_id p.generation_mode (some p.request_params))) now
        cleared
  inr (set_step made.1.run_id 0 now made.0, made.1)

unfoldable pub resume_run :
    Fingerprint → ℕ → ℕ → Bool → ℕ → Option String → ℕ → Runs → RunException ⊎ Runs
unfolding get_run_for_mentor validate_resumable assert_no_resume_conflict increment_attempt_count
    mark_running sync_resume_progress_position
resume_run fingerprint run_id mentor_id lock token next_node now runs = do
  run ← get_run_for_mentor run_id mentor_id runs
  _ ← validate_resumable fingerprint now run
  _ ← assert_no_resume_conflict run run_id runs
  _ ← guard lock lock_unavailable
  inr (
      sync_resume_progress_position run next_node now
        (mark_running run_id (some token) now (increment_attempt_count run_id now runs).0))

-- `pause_run` of the service. Nothing runs between the read and the write of one call here.
unfoldable pub pause_unless_paused : GenerationRun → ℕ → Runs → RunException ⊎ Runs
unfolding pause_run get_by_id
pause_unless_paused run now runs = do
  _ ← guard (is_running run.status) run_not_pausable
  let written = pause_run run.run_id "user" now runs
  _ ← elim (get_by_id run.run_id written.0) [
    | none ↦ guard false (if written.1 then run_not_found else run_not_pausable)
    | some r ↦ guard (written.1 || is_paused r.status) run_not_pausable
  ]
  inr written.0

unfoldable pub pause_for_mentor : ℕ → ℕ → ℕ → Runs → RunException ⊎ Runs
unfolding get_run_for_mentor pause_unless_paused
pause_for_mentor run_id mentor_id now runs = do
  run ← get_run_for_mentor run_id mentor_id runs
  if is_paused run.status then inr runs else pause_unless_paused run now runs

-- `abandon_run` of the service.
unfoldable pub abandon_unless_abandoned :
    GenerationRun → String → RunException ⊎ Done → ℕ → Runs → RunException ⊎ Runs
unfolding abandon_run get_by_id
abandon_unless_abandoned run reason discarded now runs = do
  _ ← guard (is_active_run_status run.status) run_not_abandonable
  _ ← elim run.pipeline [ study_material ↦ discarded | quiz ↦ inr done | hint ↦ inr done ]
  let written = abandon_run run.run_id reason now runs
  _ ← elim (get_by_id run.run_id written.0) [
    | none ↦ guard false (if written.1 then run_not_found else run_not_abandonable)
    | some r ↦ guard (written.1 || is_abandoned r.status) run_not_abandonable
  ]
  inr written.0

unfoldable pub abandon_for_mentor :
    ℕ → ℕ → String → RunException ⊎ Done → ℕ → Runs → RunException ⊎ Runs
unfolding get_run_for_mentor abandon_unless_abandoned
abandon_for_mentor run_id mentor_id reason discarded now runs = do
  run ← get_run_for_mentor run_id mentor_id runs
  (if is_abandoned run.status
      then inr runs
      else abandon_unless_abandoned run reason discarded now runs)
