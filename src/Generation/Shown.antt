-- ===== src/Generation/Shown.antt =====
-- What a mentor is shown of a run that was just started: `start_run` of
-- src/api/core/services/generation_run_service.py, the stored parameters, and
-- `to_progress_out_for_mentor` of src/api/utils/generation_progress/db_store.py.
use study_agent_service.Prelude.{
  ℕ, ◌≡◌, refl, sym, ap, ◌∙◌, subst, inr, Bool, true, false, not, none, some, [], ◌∷◌, ◌++◌, arith,
  ◌==◌, if◌then◌else◌, any, find_first, or_else, length, ◌-◌,
}
use study_agent_service.Prelude.Result.{guard, done, bind-ok, ok-injective}
use study_agent_service.Generation.{
  step_defs_for_profile, GenerationPipeline, GenerationStepProfile, running, profile_value,
  profile_of,
}
use study_agent_service.Generation.Profiles.{
  RequestParams, default_profile, step_profile_from_request_params, build_steps_for_profile,
}
use study_agent_service.Generation.Steps.{value_of_profile}
use study_agent_service.Generation.Runs.{
  GenerationRun, GenerationRunCreate, Runs, is_running, given, update_where, create, get_by_id,
  get_active_run, supersede_stale_runs, update_progress,
}
use study_agent_service.Generation.Worker.{
  GenerationProgressRecord, is_completed_job, job_running, run_profile, set_step, status_from_run,
  record_from_run, to_progress_out_for_mentor,
}
use study_agent_service.Generation.Service.{Fingerprint, start_run, lock_unavailable, run_conflict}

update_where-absent :
    (j : ℕ) (test : GenerationRun → Bool) (change : GenerationRun → GenerationRun) (runs : Runs)
    → ((r : GenerationRun) → (change r).run_id ≡ r.run_id)
    → any (λ r. r.run_id == j) runs ≡ false
    → any (λ r. r.run_id == j) (update_where test change runs) ≡ false
update_where-absent j test change [] same_id h = refl
update_where-absent j test change (r ∷ runs) same_id h =
    ground (arith, same_id r, update_where-absent j test change runs same_id)

-- A write to the one row of a new id, which stands at the end.
finds_new :
    (j : ℕ) (change : GenerationRun → GenerationRun) (runs : Runs) (made : GenerationRun)
    → any (λ r. r.run_id == j) runs ≡ false
    → made.run_id ≡ j
    → (change made).run_id ≡ j
    → find_first (λ r. r.run_id == j) (update_where (λ r. r.run_id == j) change (runs ++ made ∷ []))
      ≡ some (change made)
finds_new j change [] made absent e f = ground arith
finds_new j change (r ∷ runs) made absent e f =
    ground (arith, finds_new j change runs made (ground arith) e f)

if-not {ℓ} : {A : Type ℓ} (x y : A) (b : Bool) → (if not b then x else y) ≡ (if b then y else x)
if-not x y true = refl
if-not x y false = refl

-- The table shows this mentor the run at the first step of the profile, and no other mentor.
unfoldable IsShown : ℕ → GenerationStepProfile → Runs × GenerationRun → Type 0
unfolding to_progress_out_for_mentor
IsShown mentor_id profile (runs, run) =
    (rec : GenerationProgressRecord) × ((m : ℕ)
      → to_progress_out_for_mentor run.run_id m runs ≡ (if mentor_id == m then some rec else none))
    × (rec.steps ≡ build_steps_for_profile profile 0)
    × (rec.status ≡ job_running)
    × (rec.current_step_index ≡ 0)

-- What the mentor is shown of a running row of the table at its first step.
is_shown :
    (run : GenerationRun) (runs : Runs) (profile : GenerationStepProfile) (params : RequestParams)
    → get_by_id run.run_id runs ≡ some run
    → run.request_params ≡ some params
    → params.step_profile ≡ some (profile_value profile)
    → run.status ≡ running
    → run.progress_step_index ≡ 0
    → IsShown run.mentor_id profile (runs, run)
unfolding IsShown to_progress_out_for_mentor record_from_run status_from_run run_profile
    step_profile_from_request_params
is_shown run runs profile params found stored text state first =
    let known : run_profile run ≡ profile =
      ap (λ o. step_profile_from_request_params o run.pipeline) stored
      ∙ (ap
            (λ o. elim o [
              | none ↦ default_profile run.pipeline
              | some raw ↦ or_else (profile_of raw) (default_profile run.pipeline)
            ])
            text
          ∙ ap (λ o. or_else o (default_profile run.pipeline)) (value_of_profile profile)) in
    let live : status_from_run run.status ≡ job_running = ap status_from_run state in
    let at : (record_from_run run).current_step_index ≡ 0 =
      ap
        (λ t.
          if is_completed_job t
          then length (step_defs_for_profile (run_profile run)) - 1
          else run.progress_step_index)
        live
      ∙ first in
    let look : (m : ℕ)
        → to_progress_out_for_mentor run.run_id m runs
          ≡ (if not (run.mentor_id == m) then none else some (record_from_run run)) =
      λ m.
        ap
          (λ o. elim o [
            | none ↦ none
            | some r ↦ if not (r.mentor_id == m) then none else some (record_from_run r)
          ])
          found in
    (
      record_from_run run,
      (λ m. look m ∙ if-not _ _ (run.mentor_id == m)),
      (λ i. build_steps_for_profile (known i) (at i)),
      live,
      at,
    )

-- The rows that a start is checked against have the ids of the table.
absent_when_cleared :
    (j resource_id : ℕ) (pipeline : GenerationPipeline) (now : ℕ) (runs : Runs) (supersede : Bool)
    → any (λ r. r.run_id == j) runs ≡ false
    → any
        (λ r. r.run_id == j)
        (if supersede then (supersede_stale_runs resource_id pipeline none now runs).0 else runs)
      ≡ false
unfolding supersede_stale_runs
absent_when_cleared j resource_id pipeline now runs false absent = absent
absent_when_cleared j resource_id pipeline now runs true absent =
    update_where-absent j _ _ runs (λ r. refl) absent

-- When `start_run` succeeds, with an id that the table did not hold, for a request whose parameters
-- store the text of a profile, the progress read from the resulting table is that of a running job
-- at the first step of this profile (the profile is read back from the stored text), with the steps
-- rendered for it; it is shown to the mentor of the request and to no other mentor.
pub start_run-shows :
    (fingerprint : Fingerprint) (p : GenerationRunCreate) (profile : GenerationStepProfile)
    (supersede lock : Bool) (fresh token now : ℕ) (runs : Runs) {after : Runs} {run : GenerationRun}
    → p.request_params.step_profile ≡ some (profile_value profile)
    → start_run fingerprint p supersede lock fresh token now runs ≡ inr (after, run)
    → any (λ r. r.run_id == run.run_id) runs ≡ false
    → (rec : GenerationProgressRecord) × ((m : ℕ)
        → to_progress_out_for_mentor run.run_id m after
          ≡ (if p.mentor_id == m then some rec else none))
      × (rec.steps ≡ build_steps_for_profile profile 0)
      × (rec.status ≡ job_running)
      × (rec.current_step_index ≡ 0)
unfolding IsShown start_run create set_step update_progress get_by_id
start_run-shows fingerprint p profile supersede lock fresh token now runs {after} text h new_id =
    let (_, _, h1) = bind-ok (guard lock lock_unavailable) _ h in
    let cleared : Runs =
      if supersede then (supersede_stale_runs p.resource_id p.pipeline none now runs).0 else runs in
    let (_, _, h2) =
      bind-ok
        (elim (get_active_run p.resource_id p.pipeline cleared) [
          | none ↦ inr done
          | some active ↦ guard (not (is_running active.status)) run_conflict
        ])
        _ h1 in
    let returned = ok-injective h2 in
    let request_fingerprint =
      some (fingerprint p.pipeline p.node_id p.generation_mode (some p.request_params)) in
    let made : GenerationRun = (create p fresh (some token) request_fingerprint now cleared).1 in
    let first : GenerationRun → GenerationRun = λ r. record r {
      progress_step_index = 0;
      updated_at = now;
      error_message = given none r.error_message;
    } in
    subst (IsShown p.mentor_id profile) returned (
      is_shown made _ profile p.request_params
        (finds_new made.run_id first cleared made
          (absent_when_cleared made.run_id p.resource_id p.pipeline now runs supersede (
            subst (λ r. any (λ x. x.run_id == r.run_id) runs ≡ false) (sym (ap (λ x. x.1) returned))
              new_id))
          refl refl)
        refl text refl refl)
