-- ===== src/Generation/Rows.antt =====
-- What a statement on the table of runs keeps, row by row:
-- src/api/data/repositories/generation_run_repository.py.
use study_agent_service.Prelude.{
  Option, if◌then◌else◌, ℕ, ◌≡◌, refl, Bool, true, false, none, some, [], ◌∷◌, ◌++◌, arith, ◌==◌,
  all, find_first,
}
use study_agent_service.Generation.Runs.{is_active_run_status, GenerationRun, Runs, update_where}

-- A test on the row that a read by id finds.
abbrev pub has : (GenerationRun → Bool) → ℕ → Runs → Bool
has good j runs = elim (find_first (λ r. r.run_id == j) runs) [ none ↦ false | some r ↦ good r ]

pub update_where-has :
    (good test : GenerationRun → Bool) (change : GenerationRun → GenerationRun) (j : ℕ)
    (runs : Runs)
    → ((r : GenerationRun) → (change r).run_id ≡ r.run_id)
    → ((r : GenerationRun) → r.run_id ≡ j → test r ≡ true → good r ≡ true → good (change r) ≡ true)
    → has good j runs ≡ true
    → has good j (update_where test change runs) ≡ true
update_where-has good test change j [] same_id kept h = absurd (ground arith)
update_where-has good test change j (r ∷ runs) same_id kept h =
    ground (arith, same_id r, kept r, update_where-has good test change j runs same_id kept)

pub append-has :
    (good : GenerationRun → Bool) (j : ℕ) (runs more : Runs)
    → has good j runs ≡ true
    → has good j (runs ++ more) ≡ true
append-has good j [] more h = absurd (ground arith)
append-has good j (r ∷ runs) more h = ground (arith, append-has good j runs more)

pub update_where-all :
    (good test : GenerationRun → Bool) (change : GenerationRun → GenerationRun) (runs : Runs)
    → ((r : GenerationRun) → test r ≡ true → good r ≡ true → good (change r) ≡ true)
    → all good runs ≡ true
    → all good (update_where test change runs) ≡ true
update_where-all good test change [] kept h = refl
update_where-all good test change (r ∷ runs) kept h =
    ground (arith, kept r, update_where-all good test change runs kept)

-- A handler that reads a run first, and one that tests it.
pub found-holds {ℓ} :
    {A : Type ℓ} (P : Runs → Type 0) (o : Option A) (f : A → Runs) (runs : Runs)
    → P runs
    → ((a : A) → P (f a))
    → P (elim o [ none ↦ runs | some a ↦ f a ])
found-holds P none f runs h k = h
found-holds P (some a) f runs h k = k a

pub branch-holds :
    (P : Runs → Type 0) (b : Bool) (first second : Runs)
    → P first
    → P second
    → P (if b then first else second)
branch-holds P true first second h k = h
branch-holds P false first second h k = k

-- A sequence of statements that keep the ids, the attempts and every status that is not active.
pub data Tame (start : Runs) : Runs → Type 0 where
  same : Tame start start
  write :
      {between : Runs} (test : GenerationRun → Bool) (change : GenerationRun → GenerationRun)
      → ((r : GenerationRun) → (change r).run_id ≡ r.run_id)
      → ((r : GenerationRun) → (change r).attempt_count ≡ r.attempt_count)
      → ((r : GenerationRun) → (change r).resource_id ≡ r.resource_id)
      → ((r : GenerationRun) → (change r).pipeline ≡ r.pipeline)
      → ((r : GenerationRun)
          → test r ≡ true
          → is_active_run_status r.status ≡ false
          → (change r).status ≡ r.status)
      → Tame start between
      → Tame start (update_where test change between)
