-- ===== src/Qc.antt =====
-- Status, scores and deliverability of a quality check
-- (src/api/utils/study_agent_utils/quality_check_utils/results/scoring.py). A list of missing
-- checklist ids is a list of numbers; a score is rounded as a fraction, where the source rounds a
-- float.
pub mod Deliverable
pub mod Scores
mod Tests
use study_agent_service.Prelude.{
  ℕ, zero, suc, ◌+◌, ◌-◌, ◌*◌, ◌/◌, ◌%◌, ◌≤◌, ◌<◌, ◌≡◌, refl, sym, ap, ◌∙◌, subst, ◌≢◌, ◌↔◌, ◌⊎◌,
  inl, inr, Bool, true, false, not, ◌&&◌, ◌||◌, Option, none, some, List, [], ◌∷◌, ◌++◌, map, arith,
  ltb, leb, ◌==◌, if◌then◌else◌, ==_iff, Bool-cases, Option-cases, is_some, or_else, length, any,
  all, keep, count_if, find_first, contains, contains-append, contains-keep, ◌>>=◌,
}

pub data Severity : Type 0 where
  critical major minor : Severity

pub data Category : Type 0 where
  structure content_accuracy code_quality stack_fidelity teaching_alignment : Category
  pitfalls_depth concept_coverage must_cover document_coherence other : Category

-- `passed` is missing from a check that the model left incomplete.
pub record Check : Type 0 where
  pub category : Category
  pub severity : Severity
  pub passed : Option Bool

pub data Risk : Type 0 where
  without low medium high : Risk

pub data OverallStatus : Type 0 where
  pass warn fail : OverallStatus

-- `not c.get("passed", True)`
abbrev pub is_failed : Check → Bool
is_failed c = not (or_else c.passed true)

abbrev pub is_critical : Check → Bool
is_critical c = elim c.severity [ critical ↦ true | major ↦ false | minor ↦ false ]

abbrev pub is_major : Check → Bool
is_major c = elim c.severity [ critical ↦ false | major ↦ true | minor ↦ false ]

abbrev pub is_must_cover : Check → Bool
is_must_cover c = elim c.category [ must_cover ↦ true | _ ↦ false ]

abbrev pub is_high : Risk → Bool
is_high high = true
is_high _ = false

abbrev pub is_medium : Risk → Bool
is_medium medium = true
is_medium _ = false

unfoldable pub derive_overall_status : List Check → Risk → Bool → OverallStatus
derive_overall_status checks risk is_refusal =
    if is_refusal
    then pass
    else (if is_high risk
        then fail
        else (if any (λ c. is_failed c && is_critical c) checks
            then fail
            else (if is_medium risk
                then warn
                else (if any (λ c. is_failed c && is_major c) checks
                    then warn
                    else (if any is_failed checks then warn else pass)))))

unfoldable pub extract_failed_checks : List Check → List Check
extract_failed_checks = keep is_failed

unfoldable pub has_failed_must_cover : List Check → Bool
has_failed_must_cover = any (λ c. is_must_cover c && is_failed c)

abbrev pub has_items : List ℕ → Bool
has_items [] = false
has_items (_ ∷ _) = true

-- `missing_checklist_ids` is the answer of `missing_checklist_ids_from_recommendation`.
unfoldable pub requires_must_cover_retry : List Check → List ℕ → Bool
unfolding has_failed_must_cover
requires_must_cover_retry failed_checks missing_checklist_ids =
    has_failed_must_cover failed_checks || has_items missing_checklist_ids

unfoldable pub is_qc_deliverable : OverallStatus → List Check → Risk → Bool → List ℕ → Bool
unfolding requires_must_cover_retry
is_qc_deliverable status failed_checks risk is_refusal missing_checklist_ids =
    if is_refusal
    then true
    else (if requires_must_cover_retry failed_checks missing_checklist_ids
        then false
        else (elim status [
          | pass ↦ true
          | fail ↦ false
          | warn ↦
              if is_high risk
              then false
              else (if any is_critical failed_checks then false else true)
        ]))

pub data RetryMode : Type 0 where
  no_retry section_patch section_insert section_patch_then_insert full_regeneration : RetryMode

-- `_derive_mode_from_targets`
unfoldable pub derive_mode_from_targets : List ℕ → List ℕ → RetryMode → RetryMode
derive_mode_from_targets failed_section_ids missing_checklist_ids previous_mode =
    if not (has_items failed_section_ids) && not (has_items missing_checklist_ids)
    then no_retry
    else (if has_items failed_section_ids && has_items missing_checklist_ids
        then section_patch_then_insert
        else (if has_items missing_checklist_ids then section_insert else (elim previous_mode [
          | full_regeneration ↦ full_regeneration
          | _ ↦ section_patch
        ])))

-- Python's `round` of the fraction a / b: to the nearest, and a tie to the even neighbour.
abbrev pub round_half_even : ℕ → ℕ → ℕ
round_half_even a b =
    let q = a / b in
    let r = a % b in
    if ltb (2 * r) b
    then q
    else (if ltb b (2 * r) then q + 1 else (if q % 2 == 0 then q else q + 1))

-- `_score_from_checks`
unfoldable pub score_from_checks : List Check → Option ℕ
score_from_checks [] = none
score_from_checks (c ∷ cs) =
    let passed = count_if (λ x. or_else x.passed false) (c ∷ cs) in
    let raw = round_half_even (10 * passed) (length (c ∷ cs)) in
    some (if ltb raw 1 then 1 else (if ltb 10 raw then 10 else raw))

-- `_CATEGORY_TO_SCORE_KEY`
pub data ScoreKey : Type 0 where
  structure_score content_accuracy_score code_quality_score : ScoreKey
  section_depth_score teaching_alignment_score : ScoreKey

unfoldable pub score_key : Category → Option ScoreKey
score_key structure = some structure_score
score_key content_accuracy = some content_accuracy_score
score_key code_quality = some code_quality_score
score_key stack_fidelity = some code_quality_score
score_key teaching_alignment = some teaching_alignment_score
score_key pitfalls_depth = some section_depth_score
score_key concept_coverage = some section_depth_score
score_key must_cover = some section_depth_score
score_key document_coherence = some section_depth_score
score_key other = none

abbrev pub same_key : ScoreKey → ScoreKey → Bool
same_key structure_score structure_score = true
same_key content_accuracy_score content_accuracy_score = true
same_key code_quality_score code_quality_score = true
same_key section_depth_score section_depth_score = true
same_key teaching_alignment_score teaching_alignment_score = true
same_key _ _ = false

-- `grouped.get(key, [])`: the checks whose category counts for the key, in their order.
unfoldable pub checks_for_key : List Check → ScoreKey → List Check
unfolding score_key
checks_for_key checks key =
    keep (λ c. elim (score_key c.category) [ none ↦ false | some k ↦ same_key k key ]) checks

-- `derive_scores`, as the function from its keys to its values.
unfoldable pub derive_scores : List Check → ScoreKey → Option ℕ
unfolding checks_for_key score_from_checks
derive_scores checks key = score_from_checks (checks_for_key checks key)
