-- ===== src/Qc/Tests.antt =====
-- Two checks of one document on which the theorems are applied.
use study_agent_service.Prelude.{◌≡◌, true, false, some, List, [], ◌∷◌, ltb, is_some, length}
use study_agent_service.Qc.{
  Check, low, major, critical, must_cover, code_quality, is_qc_deliverable, derive_overall_status,
  extract_failed_checks, derive_scores, checks_for_key, section_depth_score,
}
use study_agent_service.Qc.Deliverable.{is_qc_deliverable-exact}
use study_agent_service.Qc.Scores.{derive_scores-bounds}

abbrev checks : List Check
checks =
    (record { category = must_cover; severity = critical; passed = some true })
    ∷ (record { category = code_quality; severity = major; passed = some false })
    ∷ []

is_qc_deliverable-exact_example :
    is_qc_deliverable
      (derive_overall_status checks low false)
      (extract_failed_checks checks)
      low
      false
      []
    ≡ true
is_qc_deliverable-exact_example = (is_qc_deliverable-exact checks low false []).0

derive_scores-bounds_example :
    is_some (derive_scores checks section_depth_score)
    ≡ ltb 0 (length (checks_for_key checks section_depth_score))
derive_scores-bounds_example = (derive_scores-bounds checks section_depth_score).0
