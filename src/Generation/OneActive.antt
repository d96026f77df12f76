-- ===== src/Generation/OneActive.antt =====
-- At most one active generation run for a resource and a pipeline, over every history of calls of
-- src/api/core/services/generation_run_service.py.
use study_agent_service.Prelude.{
  count_if-append, count_if-zero, ℕ, ◌+◌, ◌≤◌, ◌≡◌, refl, sym, ap, ◌∙◌, subst, inl, inr, true,
  false, ◌||◌, Option, some, [], ◌∷◌, ◌++◌, arith, ◌==◌, Bool-cases, any, count_if,
}
use study_agent_service.Generation.{GenerationPipeline}
use study_agent_service.Generation.Runs.{
  GenerationRun, Runs, counted_row, revived, counted, count_up, is_active_on, is_paused,
  is_failed_status, get_by_id, mark_running, increment_attempt_count, update_where,
}
use study_agent_service.Generation.Service.{Fingerprint}
use study_agent_service.Generation.Machine.{History, begin, next}
use study_agent_service.Generation.Rows.{Tame, same, write}
use study_agent_service.Generation.Calls.{Move, quiet, adds, revives, Step-Move}
use study_agent_service.Generation.Counts.{
  with_id, update_where-count, update_where-with_id, one_row-count, counted-finds, same_pipeline-eq,
}

-- Ids are distinct, and every resource has at most one active run of every pipeline.
pub record IsOneActive (runs : Runs) : Type 0 where
  pub distinct : (i : ℕ) → with_id i runs ≤ 1
  pub one_active :
      (resource_id : ℕ) (pipeline : GenerationPipeline)
      → count_if (is_active_on resource_id pipeline) runs ≤ 1

Tame-with_id : (i : ℕ) {runs after : Runs} → Tame runs after → with_id i after ≡ with_id i runs
Tame-with_id i same = refl
Tame-with_id i (write {between} test change same_id _ _ _ _ past) =
    update_where-with_id i test change between same_id ∙ Tame-with_id i past

Tame-count :
    (resource_id : ℕ) (pipeline : GenerationPipeline) {runs after : Runs}
    → Tame runs after
    → count_if (is_active_on resource_id pipeline) after
      ≤ count_if (is_active_on resource_id pipeline) runs
Tame-count resource_id pipeline same = omega arith
Tame-count resource_id pipeline
      (write {between} test change _ _ same_resource same_line keeps past) =
    let step =
      update_where-count (is_active_on resource_id pipeline) test change between
        (λ r passes active. ground (arith, keeps r, same_resource r, same_line r)) in
    omega (arith, step, Tame-count resource_id pipeline past)

Tame-IsOneActive : {runs after : Runs} → Tame runs after → IsOneActive runs → IsOneActive after
Tame-IsOneActive writes good = record {
  distinct = λ i. omega (arith, Tame-with_id i writes, good.distinct i);
  one_active = λ resource_id pipeline.
      omega (arith, Tame-count resource_id pipeline writes, good.one_active resource_id pipeline);
}

increment-counted :
    (j now : ℕ) (runs : Runs) {run : GenerationRun}
    → get_by_id j runs ≡ some run
    → (increment_attempt_count j now runs).0 ≡ counted j (run.attempt_count + 1) now runs
unfolding increment_attempt_count
increment-counted j now runs found = ap (λ o. (count_up j now runs o).0) found

-- The run that is resumed was active before, and no other row has its id.
revived-IsOneActive :
    (j : ℕ) (token : Option ℕ) (now : ℕ) (runs : Runs) (run : GenerationRun)
    → get_by_id j runs ≡ some run
    → (is_paused run.status || is_failed_status run.status) ≡ true
    → IsOneActive runs
    → IsOneActive (mark_running j token now (increment_attempt_count j now runs).0)
unfolding get_by_id mark_running
revived-IsOneActive j token now runs run found resumable good =
    let n = run.attempt_count + 1 in
    let between = counted j n now runs in
    let ids : (i : ℕ) → with_id i between ≡ with_id i runs =
      λ i. update_where-with_id i (λ r. r.run_id == j) (counted_row n now) runs (λ r. refl) in
    subst (λ t. IsOneActive (update_where (λ r. r.run_id == j) (revived token now) t))
      (sym (increment-counted j now runs found))
      (record {
        distinct = λ i. omega (
          arith,
          update_where-with_id i (λ r. r.run_id == j) (revived token now) between (λ r. refl),
          ids i,
          good.distinct i,
        );
        one_active = λ resource_id pipeline.
            let p = is_active_on resource_id pipeline in
            let counted_once =
              update_where-count p (λ r. r.run_id == j) (counted_row n now) runs
                (λ r _ active. active) in
            let revived_once =
              one_row-count p (revived token now) j between (counted_row n now run)
                (counted-finds j n now runs found) (omega (arith, ids j, good.distinct j))
                (λ active. ground arith) in
            omega (arith, counted_once, revived_once, good.one_active resource_id pipeline);
      })

-- The new run of a start has a new id, and its resource has no active run.
added-IsOneActive :
    (runs between : Runs) (made : GenerationRun)
    → any (λ r. r.run_id == made.run_id) runs ≡ false
    → count_if (is_active_on made.resource_id made.pipeline) between ≡ 0
    → Tame runs between
    → IsOneActive runs
    → IsOneActive (between ++ made ∷ [])
added-IsOneActive runs between made new_id clear before good =
    let kept = Tame-IsOneActive before good in
    record {
      distinct = λ i. elim (Bool-cases (made.run_id == i)) [
        | inl its ↦
            let e : made.run_id ≡ i = ground arith in
            let absent = count_if-zero (λ r. r.run_id == made.run_id) runs new_id in
            subst (λ k. with_id k (between ++ made ∷ []) ≤ 1) e
              (ground (
                arith,
                count_if-append (λ r. r.run_id == made.run_id) between (made ∷ []),
                Tame-with_id made.run_id before,
                absent,
              ))
        | inr other ↦
            ground
              (arith, count_if-append (λ r. r.run_id == i) between (made ∷ []), kept.distinct i)
      ];
      one_active = λ resource_id pipeline.
          elim (Bool-cases (is_active_on resource_id pipeline made)) [
            | inl its ↦
                let e : made.resource_id ≡ resource_id = ground arith in
                let f : made.pipeline ≡ pipeline =
                  same_pipeline-eq made.pipeline pipeline (ground arith) in
                let none_on : count_if (is_active_on resource_id pipeline) between ≡ 0 =
                  subst (λ x. count_if (is_active_on x pipeline) between ≡ 0) e
                    (subst (λ x. count_if (is_active_on made.resource_id x) between ≡ 0) f clear) in
                ground (
                  arith,
                  count_if-append (is_active_on resource_id pipeline) between (made ∷ []),
                  none_on,
                )
            | inr other ↦ ground (
              arith,
              count_if-append (is_active_on resource_id pipeline) between (made ∷ []),
              kept.one_active resource_id pipeline,
            )
          ];
    }

Move-IsOneActive : {runs after : Runs} → Move runs after → IsOneActive runs → IsOneActive after
Move-IsOneActive (quiet writes) good = Tame-IsOneActive writes good
Move-IsOneActive {runs} (adds {between} made _ new_id clear before behind) good =
    Tame-IsOneActive behind (added-IsOneActive runs between made new_id clear before good)
Move-IsOneActive {runs} (revives run_id token now run found resumable _ behind) good =
    Tame-IsOneActive behind (revived-IsOneActive run_id token now runs run found resumable good)

-- A table with distinct ids and at most one running, paused or failed run for every resource and
-- pipeline: it stays one over every history of calls of the mentor and of the workers in which every
-- new run has a new id and every start supersedes the older runs, as all callers ask. So no two runs
-- of a resource are ever resumable or running at the same time.
pub History-IsOneActive :
    (fingerprint : Fingerprint) {runs after : Runs}
    → IsOneActive runs
    → History fingerprint runs after
    → IsOneActive after
History-IsOneActive fingerprint good begin = good
History-IsOneActive fingerprint good (next past step) =
    Move-IsOneActive (Step-Move step) (History-IsOneActive fingerprint good past)
