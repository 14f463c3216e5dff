-- ===== src/Rbac/Engine.antt =====
-- The RBAC engine of backend/libs/security/rbac.go. Its two stores are interfaces that the service
-- implements, and are parameters.
pub mod Frames
pub mod Keys
pub mod Coherence
pub mod Refinement
use final_bds.Prelude.{
  ℕ, Bool, true, false, List, [], ◌∷◌, ◌++◌, Option, none, some, ◌||◌, if◌then◌else◌, ◌≡◌,
}
use final_bds.Errors.{Err, plain, Result, ok, err}
use final_bds.Text.{Text, is_blank}
use final_bds.Rbac.{Permission, Role, has_permission}
use final_bds.Rbac.Roles.{system_roles, find_role}
use final_bds.Rbac.Cache.{Cache, cache_get, cache_set, invalidate_user}

-- `RoleAssignment`, without its id and its record of creation.
pub record RoleAssignment : Type 0 where
  pub user_id : Text
  pub role_id : Text
  pub org_id : Text
  pub project_id : Text

-- `RoleAssignmentStore` and `RoleStore`, over a state of their own.
pub record Stores : Type 1 where
  pub State : Type 0
  pub get_user_roles : Text → Text → State → Result (List RoleAssignment)
  pub get_user_project_roles : Text → Text → Text → State → Result (List RoleAssignment)
  pub assign : RoleAssignment → State → Result (Unit {0}) × State
  pub revoke : Text → Text → Text → Text → State → Result (Unit {0}) × State
  pub get_role : Text → State → Result Role
  pub update_role : Role → State → Result (Unit {0}) × State
  pub delete_role : Text → State → Result (Unit {0}) × State

-- The cache key "<user>:<org>:<project>:<permission>".
unfoldable pub cache_key : Text → Text → Text → Permission → Text
cache_key user org project perm = user ++ (b':' ∷ (org ++ (b':' ∷ (project ++ (b':' ∷ perm)))))

abbrev pub ok_or_none : Result Role → Option Role
ok_or_none (ok r) = some r
ok_or_none (err e) = none

abbrev pub custom_or : Option Role → Result Role → Option Role
custom_or (some r) custom = some r
custom_or none custom = ok_or_none custom

abbrev pub grants_by : Permission → Option Role → Bool
grants_by perm none = false
grants_by perm (some r) = has_permission r perm

abbrev pub joined :
    Result (List RoleAssignment) → List RoleAssignment → Result (List RoleAssignment)
joined (err e) own = err e
joined (ok more) own = ok (own ++ more)

abbrev pub with_project :
    Bool
    → Result (List RoleAssignment)
    → Result (List RoleAssignment)
    → Result (List RoleAssignment)
with_project no_project (err e) project = err e
with_project true (ok own) project = ok own
with_project false (ok own) project = joined project own

abbrev pub denied : Err
denied = plain "permission denied"

abbrev pub verdict : Result Bool → Result (Unit {0})
verdict (err e) = err e
verdict (ok true) = ok tt
verdict (ok false) = err denied

abbrev pub remember : Cache → Text → ℕ → Result Bool → Cache
remember c k now (err e) = c
remember c k now (ok b) = cache_set c k b now

module _ (st : Stores) where
  open st use {State, get_user_roles, get_user_project_roles, assign, revoke, get_role}

  -- `getRole`.
  unfoldable pub role_of : Text → State → Option Role
  unfolding find_role system_roles
  role_of id s = custom_or (find_role id system_roles) (get_role id s)

  -- The assignments that `CheckPermission` and `GetUserPermissions` look at.
  unfoldable pub assignments_of : Text → Text → Text → State → Result (List RoleAssignment)
  unfolding is_blank
  assignments_of user org project s =
      with_project (is_blank project) (get_user_roles user org s)
        (get_user_project_roles user org project s)

  -- The loop over the assignments.
  unfoldable pub some_role_grants : Permission → List RoleAssignment → State → Bool
  unfolding role_of
  some_role_grants perm [] s = false
  some_role_grants perm (a ∷ as') s =
      grants_by perm (role_of a.role_id s) || some_role_grants perm as' s

  unfoldable pub decided : Permission → Result (List RoleAssignment) → State → Result Bool
  unfolding some_role_grants
  decided perm (err e) s = err e
  decided perm (ok assigned) s = ok (some_role_grants perm assigned s)

  -- What the stores say.
  unfoldable pub decide : Text → Text → Text → Permission → State → Result Bool
  unfolding decided assignments_of
  decide user org project perm s = decided perm (assignments_of user org project s) s

  abbrev pub answer_of : Option Bool → Cache → Text → ℕ → Result Bool → Result (Unit {0}) × Cache
  answer_of (some b) c k now r = (verdict (ok b), c)
  answer_of none c k now r = (verdict r, remember c k now r)

  -- `CheckPermission`.
  unfoldable pub check_permission :
      Text → Text → Text → Permission → ℕ → State → Cache → Result (Unit {0}) × Cache
  unfolding decide cache_get cache_key
  check_permission user org project perm now s c =
      let k = cache_key user org project perm in
      answer_of (cache_get c k now) c k now (decide user org project perm s)

  abbrev pub forget : Text → Result (Unit {0}) × State → Cache → Result (Unit {0}) × State × Cache
  forget user (err e, s) c = (err e, s, c)
  forget user (ok u, s) c = (ok tt, s, invalidate_user user c)

  -- `AssignRole`.
  unfoldable pub assign_role : RoleAssignment → State → Cache → Result (Unit {0}) × State × Cache
  assign_role a s c = forget a.user_id (assign a s) c

  -- `RevokeRole`.
  unfoldable pub revoke_role :
      Text → Text → Text → Text → State → Cache → Result (Unit {0}) × State × Cache
  revoke_role user role org project s c = forget user (revoke user role org project s) c

  -- `UpdateCustomRole`, on the store; its time of update is left out.
  unfoldable pub update_custom_role : Role → State → Result (Unit {0}) × State
  update_custom_role r s =
      if r.is_system then (err (plain "cannot modify system role"), s) else st.update_role r s

  abbrev pub delete_found : Result Role → Text → State → Result (Unit {0}) × State
  delete_found (err e) id s = (err e, s)
  delete_found (ok r) id s =
      if r.is_system then (err (plain "cannot delete system role"), s) else st.delete_role id s

  -- `DeleteCustomRole`.
  unfoldable pub delete_custom_role : Text → State → Result (Unit {0}) × State
  delete_custom_role id s = delete_found (get_role id s) id s
