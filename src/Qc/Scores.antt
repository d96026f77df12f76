-- ===== src/Qc/Scores.antt =====
-- The range of the scores.
use study_agent_service.Prelude.{
  ℕ, ◌+◌, ◌*◌, ◌/◌, ◌%◌, ◌≤◌, ◌<◌, ◌≡◌, refl, ap, ◌∙◌, Bool, false, some, List, [], ◌∷◌, arith, ltb,
  if◌then◌else◌, is_some, or_else, length, count_if,
}
use native.Mathlib.Nat.{add-mul-div_right, zero-mod, zero-div, mul-mod_left}
use study_agent_service.Qc.{
  Check, ScoreKey, score_from_checks, checks_for_key, derive_scores, round_half_even,
}

abbrev pub is_passed : Check → Bool
is_passed c = or_else c.passed false

round_all : (n : ℕ) → 0 < n → round_half_even (10 * n) n ≡ 10
round_all n h =
    let zero_left : 10 * n ≡ 0 + 10 * n = omega arith in
    let q : 10 * n / n ≡ 10 =
      ap (λ k. k / n) zero_left
      ∙ add-mul-div_right 0 10 {z = n} h
      ∙ ap (λ k. k + 10) (zero-div n) in
    let r : (10 * n) % n ≡ 0 = mul-mod_left 10 n in ground arith

round_zero : (n : ℕ) → 0 < n → round_half_even (10 * 0) n ≡ 0
round_zero n h = let q : 0 / n ≡ 0 = zero-div n in let r : 0 % n ≡ 0 = zero-mod n in ground arith

score_bounds :
    (cs : List Check)
    → (is_some (score_from_checks cs) ≡ ltb 0 (length cs))
      × ((s : ℕ)
          → score_from_checks cs ≡ some s
          → (1 ≤ s)
            × (s ≤ 10)
            × (count_if is_passed cs ≡ length cs → s ≡ 10)
            × (count_if is_passed cs ≡ 0 → s ≡ 1))
unfolding score_from_checks
score_bounds [] = (refl, λ s h. absurd (ground arith))
score_bounds (c ∷ cs) = (
  ground arith,
  λ s h.
      let n = length (c ∷ cs) in
      let k = count_if is_passed (c ∷ cs) in
      let raw = round_half_even (10 * k) n in
      let e : s ≡ (if ltb raw 1 then 1 else (if ltb 10 raw then 10 else raw)) = ground arith in
      (
        ground arith,
        ground arith,
        λ a.
            let f : raw ≡ 10 = ap (λ m. round_half_even (10 * m) n) a ∙ round_all n (omega arith) in
            ground arith,
        λ a.
            let f : raw ≡ 0 = ap (λ m. round_half_even (10 * m) n) a ∙ round_zero n (omega arith) in
            ground arith,
      ),
)

-- A score is a number from 1 to 10; there is none exactly if no check counts for the key; it is 10
-- if all of these checks passed, and 1 if none did.
pub derive_scores-bounds :
    (checks : List Check) (key : ScoreKey)
    → let cs = checks_for_key checks key in
      (is_some (derive_scores checks key) ≡ ltb 0 (length cs))
      × ((s : ℕ)
          → derive_scores checks key ≡ some s
          → (1 ≤ s)
            × (s ≤ 10)
            × (count_if is_passed cs ≡ length cs → s ≡ 10)
            × (count_if is_passed cs ≡ 0 → s ≡ 1))
unfolding derive_scores
derive_scores-bounds checks key = score_bounds (checks_for_key checks key)
