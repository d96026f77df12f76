-- ===== src/Generation/Clear.antt =====
-- What a start finds after it has superseded the paused and the failed runs of a resource:
-- src/api/data/repositories/generation_run_repository.py.
use study_agent_service.Prelude.{
  keep-all, ℕ, ◌≡◌, refl, inl, inr, Bool, true, false, not, ◌||◌, none, some, [], ◌∷◌, arith, ltb,
  Bool-cases, Option-cases, all, keep, count_if,
}
use study_agent_service.Generation.{GenerationPipeline}
use study_agent_service.Generation.Runs.{
  is_superseded, superseded_row, GenerationRun, Runs, is_running, is_active_on, newest,
  update_where, get_active_run, supersede_stale_runs,
}

newest-none : (runs : Runs) → newest runs ≡ none → runs ≡ []
newest-none [] h = refl
newest-none (r ∷ runs) h = elim (Option-cases (newest runs)) [
  | inl last ↦ absurd (ground arith)
  | inr (s, e) ↦ absurd (ground arith)
]

newest-all :
    (good : GenerationRun → Bool) (runs : Runs) {a : GenerationRun}
    → all good runs ≡ true
    → newest runs ≡ some a
    → good a ≡ true
newest-all good [] h e = absurd (ground arith)
newest-all good (r ∷ runs) {a} h e = elim (Option-cases (newest runs)) [
  | inl last ↦ ground arith
  | inr (s, es) ↦ elim (Bool-cases (ltb r.created_at s.created_at)) [
    | inl later ↦ ground (arith, newest-all good runs {a = s})
    | inr sooner ↦ ground arith
  ]
]

update_where-makes :
    (good test : GenerationRun → Bool) (change : GenerationRun → GenerationRun) (runs : Runs)
    → ((r : GenerationRun) → test r ≡ true → good (change r) ≡ true)
    → ((r : GenerationRun) → test r ≡ false → good r ≡ true)
    → all good (update_where test change runs) ≡ true
update_where-makes good test change [] made kept = refl
update_where-makes good test change (r ∷ runs) made kept =
    ground (arith, made r, kept r, update_where-makes good test change runs made kept)

count_if-none : (p : GenerationRun → Bool) (runs : Runs) → keep p runs ≡ [] → count_if p runs ≡ 0
count_if-none p [] h = refl
count_if-none p (r ∷ runs) h = elim (Bool-cases (p r)) [
  | inl here ↦ absurd (ground arith)
  | inr gone ↦ ground (arith, count_if-none p runs)
]

supersede_stale_runs-leaves :
    (resource_id : ℕ) (pipeline : GenerationPipeline) (now : ℕ) (runs : Runs)
    → all
        (λ r. not (is_active_on resource_id pipeline r) || is_running r.status)
        (supersede_stale_runs resource_id pipeline none now runs).0
      ≡ true
unfolding supersede_stale_runs
supersede_stale_runs-leaves resource_id pipeline now runs =
    update_where-makes (λ r. not (is_active_on resource_id pipeline r) || is_running r.status)
      (is_superseded resource_id pipeline none) (superseded_row now) runs (λ r test. ground arith)
      (λ r test. ground arith)

-- When the newest active run of the resource is not running, there is none.
pub superseded-clear :
    (resource_id : ℕ) (pipeline : GenerationPipeline) (now : ℕ) (runs : Runs)
    → let cleared = (supersede_stale_runs resource_id pipeline none now runs).0 in
      ((a : GenerationRun)
        → get_active_run resource_id pipeline cleared ≡ some a
        → is_running a.status ≡ false)
      → count_if (is_active_on resource_id pipeline) cleared ≡ 0
unfolding get_active_run
superseded-clear resource_id pipeline now runs idle =
    let cleared = (supersede_stale_runs resource_id pipeline none now runs).0 in
    let active = keep (is_active_on resource_id pipeline) cleared in
    elim (Option-cases (newest active)) [
      | inl gone ↦
          count_if-none (is_active_on resource_id pipeline) cleared (newest-none active gone)
      | inr (a, e) ↦
          let runs_on : is_running a.status ≡ true =
            newest-all (λ r. is_running r.status) active
              (keep-all (is_active_on resource_id pipeline) (λ r. is_running r.status) cleared
                (supersede_stale_runs-leaves resource_id pipeline now runs))
              e in
          absurd (ground (arith, idle a e, runs_on))
    ]
