-- ===== src/Progress/Unlocking/Access.antt =====
-- The access decision of `resolve_node_access`, by cases.
use study_agent_service.Prelude.{
  ℕ, ◌≡◌, refl, subst, ◌≢◌, ◌↔◌, Bool, true, false, Option, none, some, arith, contains,
}
use study_agent_service.Progress.Unlocking.{
  plain, parent_complete, parent_of, resolve_node_access, gated_access, coming_soon,
  prerequisite_locked, AccessResult, UnlockProgressContext,
}
use study_agent_service.Progress.Tree.{has_accessible_learning_content, UnlockTreeContext}

abbrev pub GatedBy : ℕ → UnlockTreeContext → UnlockProgressContext → ℕ → Type 0
GatedBy node tree progress parent =
    (contains parent tree.published_node_ids ≡ true)
    × (contains node progress.unlocked_node_ids ≡ false)
    × (parent_complete progress parent ≡ false)

-- The node stands under a published parent that is not complete, and has no grant of its own.
abbrev pub IsGated : ℕ → UnlockTreeContext → UnlockProgressContext → Type 0
IsGated node tree progress =
    (parent : ℕ) × (parent_of tree node ≡ some parent) × GatedBy node tree progress parent

gated_access-never_soon :
    (node : ℕ) (tree : UnlockTreeContext) (progress : UnlockProgressContext) (parent : Option ℕ)
    → (gated_access node tree progress parent).status ≢ coming_soon
unfolding gated_access
gated_access-never_soon node tree progress none = λ h. cc
gated_access-never_soon node tree progress (some p) = λ h. ground arith

gated_access-locked :
    (node : ℕ) (tree : UnlockTreeContext) (progress : UnlockProgressContext) (parent : ℕ)
    → let r = gated_access node tree progress (some parent) in
      ((r.status ≡ prerequisite_locked) ↔ GatedBy node tree progress parent)
      × (r.status ≡ prerequisite_locked → r.blocked_by_node_id ≡ some parent)
unfolding gated_access
gated_access-locked node tree progress parent = ground arith

gated_access-blocked :
    (node : ℕ) (tree : UnlockTreeContext) (progress : UnlockProgressContext) (parent : Option ℕ)
    → let r = gated_access node tree progress parent in
      ((r.status ≡ prerequisite_locked)
        ↔ ((p : ℕ) × (parent ≡ some p) × GatedBy node tree progress p))
      × (r.status ≡ prerequisite_locked → r.blocked_by_node_id ≡ parent)
gated_access-blocked node tree progress none = (
  (λ h. absurd (unfold gated_access in cc), λ w. absurd (cc w.1)),
  λ h. unfold gated_access in cc,
)
gated_access-blocked node tree progress (some q) =
    let (both, names) = gated_access-locked node tree progress q in
    ((λ h. (q, refl, both.0 h), λ w. both.1 (moved w.0 w.1 w.2)), names)
  where
    moved : (p : ℕ) → some q ≡ some p → GatedBy node tree progress p → GatedBy node tree progress q
    moved p e g = let e' : p ≡ q = cc in subst (GatedBy node tree progress) e' g

-- Where the test for content returns, so does the decision. It is "coming soon" exactly without
-- content; with content it is locked exactly for a gated node, and then names the parent.
pub resolve_node_access-cases :
    (limit node : ℕ) (tree : UnlockTreeContext) (progress : UnlockProgressContext)
    (accessible : Bool)
    → has_accessible_learning_content limit node tree.published_node_ids tree.children_by_parent
      ≡ some accessible
    → (r : AccessResult) × (resolve_node_access limit node tree progress ≡ some r)
      × ((r.status ≡ coming_soon) ↔ (accessible ≡ false))
      × ((r.status ≡ prerequisite_locked) ↔ ((accessible ≡ true) × IsGated node tree progress))
      × (r.status ≡ prerequisite_locked → r.blocked_by_node_id ≡ parent_of tree node)
unfolding resolve_node_access
resolve_node_access-cases limit node tree progress false e = (
  plain coming_soon,
  rw e,
  (λ _. refl, λ _. refl),
  (λ h. absurd (cc), λ h. absurd (cc h.0)),
  λ h. absurd (cc),
)
resolve_node_access-cases limit node tree progress true e = (
  gated_access node tree progress (parent_of tree node),
  rw e,
  (
    λ h. absurd (gated_access-never_soon node tree progress (parent_of tree node) h),
    λ h. absurd (cc),
  ),
  (
    λ h. (refl, (gated_access-blocked node tree progress (parent_of tree node)).0.0 h),
    λ h. (gated_access-blocked node tree progress (parent_of tree node)).0.1 h.1,
  ),
  (gated_access-blocked node tree progress (parent_of tree node)).1,
)
