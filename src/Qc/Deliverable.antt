-- ===== src/Qc/Deliverable.antt =====
-- When a checked document may be delivered.
use study_agent_service.Prelude.{
  ℕ, ◌≡◌, refl, Bool, false, not, ◌&&◌, ◌||◌, List, [], ◌∷◌, arith, any, keep,
}
use study_agent_service.Qc.{
  Check, Risk, is_failed, is_critical, is_must_cover, is_high, derive_overall_status,
  extract_failed_checks, is_qc_deliverable, has_items, has_failed_must_cover, fail,
}

-- What a document must not have: a failed critical check, or a failed checklist item.
abbrev pub has_blocking : List Check → Bool
has_blocking = any (λ c. is_failed c && (is_critical c || is_must_cover c))

any-failed :
    (p : Check → Bool) (checks : List Check)
    → any p (keep is_failed checks) ≡ any (λ c. is_failed c && p c) checks
any-failed p [] = refl
any-failed p (c ∷ cs) = ground (arith, any-failed p cs)

must_cover_failed :
    (checks : List Check)
    → has_failed_must_cover (keep is_failed checks)
      ≡ any (λ c. is_failed c && is_must_cover c) checks
unfolding has_failed_must_cover
must_cover_failed [] = refl
must_cover_failed (c ∷ cs) = ground (arith, must_cover_failed cs)

blocking_split :
    (checks : List Check)
    → has_blocking checks ≡ (
        any (λ c. is_failed c && is_critical c) checks
        || any (λ c. is_failed c && is_must_cover c) checks)
blocking_split [] = refl
blocking_split (c ∷ cs) = ground (arith, blocking_split cs)

-- With the status and the failed checks that the same run derives, a document is deliverable exactly
-- if it is a refusal, or the risk of hallucination is not high, no critical check and no checklist
-- item failed, and no checklist item is reported as missing; with the status fail it never is.
pub is_qc_deliverable-exact :
    (checks : List Check) (risk : Risk) (is_refusal : Bool) (missing : List ℕ)
    → let status = derive_overall_status checks risk is_refusal in
      (is_qc_deliverable status (extract_failed_checks checks) risk is_refusal missing ≡ (
        is_refusal
        || (not (is_high risk) && (not (has_blocking checks) && not (has_items missing)))))
      × (status ≡ fail
          → is_qc_deliverable status (extract_failed_checks checks) risk is_refusal missing ≡ false)
unfolding is_qc_deliverable derive_overall_status extract_failed_checks
is_qc_deliverable-exact checks risk is_refusal missing = (
  ground (arith, blocking_split checks, must_cover_failed checks, any-failed is_critical checks),
  λ h. ground (arith, must_cover_failed checks, any-failed is_critical checks),
)
