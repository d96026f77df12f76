-- ===== src/Generation/Counts.antt =====
-- How a write to the table of src/api/data/repositories/generation_run_repository.py changes the
-- number of rows that pass a test.
use study_agent_service.Prelude.{
  ℕ, ◌≤◌, ◌≡◌, refl, sym, subst, inl, inr, Bool, true, some, [], ◌∷◌, arith, ◌==◌, Bool-cases,
  count_if, find_first,
}
use study_agent_service.Generation.{GenerationPipeline, study_material, quiz, hint}
use study_agent_service.Generation.Runs.{
  GenerationRun, Runs, counted_row, counted, same_pipeline, update_where,
}

-- The number of rows with an id.
abbrev pub with_id : ℕ → Runs → ℕ
with_id j runs = count_if (λ r. r.run_id == j) runs

pub update_where-count :
    (p test : GenerationRun → Bool) (change : GenerationRun → GenerationRun) (runs : Runs)
    → ((r : GenerationRun) → test r ≡ true → p (change r) ≡ true → p r ≡ true)
    → count_if p (update_where test change runs) ≤ count_if p runs
update_where-count p test change [] shrinks = omega arith
update_where-count p test change (r ∷ runs) shrinks =
    ground (arith, shrinks r, update_where-count p test change runs shrinks)

-- A write that keeps the ids, and one to an id that no row has.
pub update_where-with_id :
    (i : ℕ) (test : GenerationRun → Bool) (change : GenerationRun → GenerationRun) (runs : Runs)
    → ((r : GenerationRun) → (change r).run_id ≡ r.run_id)
    → with_id i (update_where test change runs) ≡ with_id i runs
update_where-with_id i test change [] same_id = refl
update_where-with_id i test change (r ∷ runs) same_id =
    ground (arith, same_id r, update_where-with_id i test change runs same_id)

absent-count :
    (p : GenerationRun → Bool) (change : GenerationRun → GenerationRun) (j : ℕ) (runs : Runs)
    → with_id j runs ≡ 0
    → count_if p (update_where (λ r. r.run_id == j) change runs) ≡ count_if p runs
absent-count p change j [] none_has = refl
absent-count p change j (r ∷ runs) none_has = ground (arith, absent-count p change j runs)

-- A write to the rows of one id, where one row has it.
pub one_row-count :
    (p : GenerationRun → Bool) (change : GenerationRun → GenerationRun) (j : ℕ) (runs : Runs)
    (run : GenerationRun)
    → find_first (λ r. r.run_id == j) runs ≡ some run
    → with_id j runs ≤ 1
    → (p (change run) ≡ true → p run ≡ true)
    → count_if p (update_where (λ r. r.run_id == j) change runs) ≤ count_if p runs
one_row-count p change j [] run found one kept = absurd (ground arith)
one_row-count p change j (r ∷ runs) run found one kept = elim (Bool-cases (r.run_id == j)) [
  | inl here ↦
      let it : r ≡ run = ground arith in
      let kept_r : p (change r) ≡ true → p r ≡ true =
        subst (λ x. p (change x) ≡ true → p x ≡ true) (sym it) kept in
      ground (arith, kept_r, absent-count p change j runs)
  | inr elsewhere ↦ ground (arith, one_row-count p change j runs run)
]

pub counted-finds :
    (j n now : ℕ) (runs : Runs) {run : GenerationRun}
    → find_first (λ r. r.run_id == j) runs ≡ some run
    → find_first (λ r. r.run_id == j) (counted j n now runs) ≡ some (counted_row n now run)
counted-finds j n now [] found = absurd (ground arith)
counted-finds j n now (r ∷ runs) {run} found = elim (Bool-cases (r.run_id == j)) [
  | inl here ↦
      let it : r ≡ run = ground arith in
      subst
        (λ x.
          find_first (λ r. r.run_id == j) (counted j n now (r ∷ runs)) ≡ some (counted_row n now x))
        it (ground arith)
  | inr elsewhere ↦ ground (arith, counted-finds j n now runs {run = run})
]

pub same_pipeline-eq : (a b : GenerationPipeline) → same_pipeline a b ≡ true → a ≡ b
same_pipeline-eq study_material study_material h = refl
same_pipeline-eq study_material quiz h = absurd (ground arith)
same_pipeline-eq study_material hint h = absurd (ground arith)
same_pipeline-eq quiz study_material h = absurd (ground arith)
same_pipeline-eq quiz quiz h = refl
same_pipeline-eq quiz hint h = absurd (ground arith)
same_pipeline-eq hint study_material h = absurd (ground arith)
same_pipeline-eq hint quiz h = absurd (ground arith)
same_pipeline-eq hint hint h = refl
