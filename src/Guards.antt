-- ===== src/Guards.antt =====
-- The role and space guards of src/api/utils/space_node_utils (node_role_assert.py and
-- space_role_assert.py), and the exceptions of src/api/core/exceptions that the services raise.
use study_agent_service.Prelude.{
  if◌then◌else◌, ℕ, Bool, true, false, ◌&&◌, Option, List, any, find_first, ◌==◌, or_else, ◌⊎◌, inr,
}
use study_agent_service.Prelude.Result.{◌>>=◌, guard, present, Done, done, forget}
use study_agent_service.Progress.Tree.{TopicNode}

pub data ServiceException : Type 0 where
  node_forbidden node_not_found space_not_found prerequisite_locked : ServiceException
  quiz_not_found quiz_not_published attempt_already_in_progress : ServiceException
  no_published_study_material version_mismatch material_not_current : ServiceException
  attempt_not_found attempt_forbidden attempt_already_submitted attempt_abandoned : ServiceException
  invalid_skip_payload question_of_another_attempt question_already_locked : ServiceException
  node_not_active space_not_published not_enrolled material_not_published : ServiceException
  read_percent_out_of_range read_percent_regression : ServiceException
  -- Not an exception of the service: the interpreter's RecursionError.
  recursion_limit : ServiceException

pub data Role : Type 0 where
  mentor trainee other_role : Role

pub record ESpace : Type 0 where
  pub space_id : ℕ
  pub mentor_id : ℕ
  pub transferred_to_mentor_id : Option ℕ
  pub is_published : Bool
  pub is_active : Bool

pub record SpaceTrainee : Type 0 where
  pub space_id : ℕ
  pub trainee_id : ℕ
  pub is_active : Bool

pub record Spaces : Type 0 where
  pub spaces : List ESpace
  pub space_trainees : List SpaceTrainee

unfoldable pub get_space_by_id : ℕ → Spaces → Option ESpace
get_space_by_id space t = find_first (λ s. s.space_id == space) t.spaces

unfoldable pub is_active_member : ℕ → ℕ → Spaces → Bool
is_active_member space user t =
    any (λ m. m.space_id == space && (m.trainee_id == user && m.is_active)) t.space_trainees

unfoldable pub get_node_by_id : ℕ → List TopicNode → Option TopicNode
get_node_by_id node nodes = find_first (λ n. n.node_id == node) nodes

-- `_resolve_effective_mentor`
unfoldable pub resolve_effective_mentor : ESpace → ℕ
resolve_effective_mentor s = or_else s.transferred_to_mentor_id s.mentor_id

-- `_assert_trainee`
unfoldable pub assert_trainee : Role → ServiceException ⊎ Done
assert_trainee trainee = guard true node_forbidden
assert_trainee mentor = guard false node_forbidden
assert_trainee other_role = guard false node_forbidden

-- `_get_space_and_assert_owner`
unfoldable pub get_space_and_assert_owner : ℕ → ℕ → Spaces → ServiceException ⊎ ESpace
unfolding get_space_by_id resolve_effective_mentor
get_space_and_assert_owner space user t = do
  s ← present (get_space_by_id space t) space_not_found
  _ ← guard s.is_active space_not_found
  _ ← guard (resolve_effective_mentor s == user) node_forbidden
  inr s

-- `_assert_space_access`, behind the test of the space.
unfoldable pub assert_role_access : ESpace → ℕ → Role → Spaces → ServiceException ⊎ Done
unfolding resolve_effective_mentor is_active_member
assert_role_access s user mentor t = guard (resolve_effective_mentor s == user) node_forbidden
assert_role_access s user trainee t = guard (is_active_member s.space_id user t) node_forbidden
assert_role_access s user other_role t = guard false node_forbidden

-- `_assert_space_access`
unfoldable pub assert_space_access : ℕ → ℕ → Role → Spaces → ServiceException ⊎ Done
unfolding get_space_by_id assert_role_access
assert_space_access space user role t = do
  s ← present (get_space_by_id space t) space_not_found
  _ ← guard s.is_active space_not_found
  assert_role_access s user role t

-- `_get_node_and_assert_space_access`
unfoldable pub get_node_and_assert_space_access :
    ℕ → ℕ → Bool → List TopicNode → Spaces → ServiceException ⊎ TopicNode
unfolding get_node_by_id get_space_and_assert_owner
get_node_and_assert_space_access node user owner_only nodes t = do
  n ← present (get_node_by_id node nodes) node_not_found
  _ ← guard n.is_active node_not_found
  _ ← if owner_only then forget (get_space_and_assert_owner n.space_id user t) else inr done
  inr n
