-- ===== src/Lifecycle/Layers.antt =====
-- Every version stands in exactly one of the layers that visibility.py tells apart, whatever
-- sequence of transitions it has been through.
use study_agent_service.Prelude.{
  ℕ, ◌+◌, ◌≤◌, ◌≡◌, ◌↔◌, Bool, true, false, not, ◌&&◌, ◌||◌, none, if◌then◌else◌, arith, is_some,
}
use study_agent_service.Lifecycle.Model.{StudyMaterialVersion, draft, is_active_status}
use study_agent_service.Lifecycle.Transitions.{
  transition_sm_to_archived, transition_sm_to_hidden, transition_sm_to_active,
  transition_sm_to_discarded, archive_version, unarchive_version, activate_version,
  deactivate_version,
}
use study_agent_service.Lifecycle.Visibility.{
  is_discarded, is_trainee_live_sm, is_trainee_previous_sm, is_mentor_discardable_sm,
  is_mentor_openable_sm, is_removed_from_students_sm, is_workspace_draft_sm,
}

-- What may happen to a version, in any order and with no guard of a caller assumed.
pub data Step : StudyMaterialVersion → StudyMaterialVersion → Type 0 where
  supersede : (v : StudyMaterialVersion) (now : ℕ) → Step v (transition_sm_to_archived now v)
  unpublish : (v : StudyMaterialVersion) → Step v (transition_sm_to_hidden v)
  publish :
      (v : StudyMaterialVersion) (now mentor : ℕ) → Step v (transition_sm_to_active now mentor v)
  discard : (v : StudyMaterialVersion) → Step v (transition_sm_to_discarded v)
  shelve : (v : StudyMaterialVersion) (now mentor : ℕ) → Step v (archive_version now mentor v)
  unshelve : (v : StudyMaterialVersion) → Step v (unarchive_version v)
  activate : (v : StudyMaterialVersion) → Step v (activate_version v)
  deactivate : (v : StudyMaterialVersion) → Step v (deactivate_version v)

pub data Reach (s : StudyMaterialVersion) : StudyMaterialVersion → Type 0 where
  here : Reach s s
  next : {v w : StudyMaterialVersion} → Reach s v → Step v w → Reach s w

-- A version as the generator inserts it.
pub record IsFresh (v : StudyMaterialVersion) : Type 0 where
  pub unpublished : v.is_published ≡ false
  pub never_published : v.published_at ≡ none
  pub drafted : v.lifecycle_status ≡ draft

pub record IsCoherent (v : StudyMaterialVersion) : Type 0 where
  pub published_active : (v.is_published ≡ true) ↔ (is_active_status v.lifecycle_status ≡ true)
  pub published_stamped : v.is_published ≡ true → is_some v.published_at ≡ true

Step-IsCoherent : {v w : StudyMaterialVersion} → Step v w → IsCoherent v → IsCoherent w
unfolding transition_sm_to_archived transition_sm_to_hidden transition_sm_to_active
    transition_sm_to_discarded archive_version unarchive_version activate_version deactivate_version
Step-IsCoherent (supersede v now) h = ground arith
Step-IsCoherent (unpublish v) h = ground arith
Step-IsCoherent (publish v now mentor) h = ground arith
Step-IsCoherent (discard v) h = ground arith
Step-IsCoherent (shelve v now mentor) h = ground arith
Step-IsCoherent (unshelve v) h = ground arith
Step-IsCoherent (activate v) h = ground arith
Step-IsCoherent (deactivate v) h = ground arith

pub Reach-IsCoherent : {s v : StudyMaterialVersion} → IsCoherent s → Reach s v → IsCoherent v
Reach-IsCoherent h here = h
Reach-IsCoherent h (next r st) = Step-IsCoherent st (Reach-IsCoherent h r)

fresh-IsCoherent : {v : StudyMaterialVersion} → IsFresh v → IsCoherent v
fresh-IsCoherent h = ground arith

abbrev bit : Bool → ℕ
bit b = if b then 1 else 0

-- In how many of the five layers a version stands: live, previous, removed from students,
-- workspace draft, discarded.
abbrev pub layers : StudyMaterialVersion → ℕ
layers v =
    bit (is_trainee_live_sm v)
    + bit (is_trainee_previous_sm v)
    + bit (is_removed_from_students_sm v)
    + bit (is_workspace_draft_sm v)
    + bit (is_discarded v.lifecycle_status)

layers-IsCoherent :
    (v : StudyMaterialVersion)
    → IsCoherent v
    → (v.is_archived ≡ false → layers v ≡ 1) × (layers v ≤ 1)
unfolding is_discarded is_trainee_live_sm is_trainee_previous_sm is_removed_from_students_sm
    is_workspace_draft_sm
layers-IsCoherent v h = ground arith

-- After any sequence of transitions from a freshly generated draft, a version off the mentor's shelf
-- stands in exactly one of the five layers, and one on the shelf in at most one.
pub layers-Reach :
    {s v : StudyMaterialVersion}
    → IsFresh s
    → Reach s v
    → (v.is_archived ≡ false → layers v ≡ 1) × (layers v ≤ 1)
layers-Reach {v = v} fresh r = layers-IsCoherent v (Reach-IsCoherent (fresh-IsCoherent fresh) r)

-- Clearing drafts and opening for work, for a version in a coherent state: what the mentor may
-- discard are exactly the workspace drafts and the versions removed from students, and what the
-- mentor may open are those and the live ones off the shelf.
pub discardable-layers :
    (v : StudyMaterialVersion)
    → IsCoherent v
    → (is_mentor_discardable_sm v ≡ (is_workspace_draft_sm v || is_removed_from_students_sm v))
      × (is_mentor_openable_sm v
          ≡ (is_mentor_discardable_sm v || (is_trainee_live_sm v && not v.is_archived)))
unfolding is_mentor_discardable_sm is_mentor_openable_sm is_removed_from_students_sm
    is_workspace_draft_sm
discardable-layers v h = ground arith
