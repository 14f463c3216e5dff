-- ===== src/Rbac/Engine/Frames.antt =====
-- What an assignment of one user leaves of the decisions about others: proofs about Rbac.Engine.
use final_bds.Prelude.{List, [], ◌∷◌, ◌≡◌, ◌≢◌, refl, ap}
use final_bds.Errors.{Err, Result, ok, err}
use final_bds.Text.{Text, is_blank}
use final_bds.Rbac.{Permission}
use final_bds.Rbac.Engine.{
  RoleAssignment, Stores, role_of, assignments_of, some_role_grants, decided, decide, with_project,
}

module _ (st : Stores) where
  open st use {State, get_user_roles, get_user_project_roles, get_role}

  -- Two states of the stores agree on a user.
  pub record Agree (user : Text) (s t : State) : Type 0 where
    pub same_roles : (org : Text) → get_user_roles user org t ≡ get_user_roles user org s
    pub same_project_roles :
        (org project : Text)
        → get_user_project_roles user org project t ≡ get_user_project_roles user org project s
    pub same_role : (id : Text) → get_role id t ≡ get_role id s

  some_role_grants-Agree :
      {user : Text} {s t : State} (perm : Permission) (assigned : List RoleAssignment)
      → Agree user s t
      → some_role_grants st perm assigned t ≡ some_role_grants st perm assigned s
  unfolding some_role_grants role_of
  some_role_grants-Agree perm [] h = refl
  some_role_grants-Agree perm (a ∷ rest) h =
      rw (h.same_role a.role_id, some_role_grants-Agree perm rest h) refl

  decided-Agree :
      {user : Text} {s t : State} (perm : Permission) (r : Result (List RoleAssignment))
      → Agree user s t
      → decided st perm r t ≡ decided st perm r s
  unfolding decided
  decided-Agree perm (err e) h = refl
  decided-Agree perm (ok assigned) h = ap ok (some_role_grants-Agree perm assigned h)

  -- States that agree on a user decide alike for the user.
  pub decide-Agree :
      {s t : State} (user org project : Text) (perm : Permission)
      → Agree user s t
      → decide st user org project perm t ≡ decide st user org project perm s
  unfolding decide assignments_of
  decide-Agree {s} {t} user org project perm h =
      rw (h.same_roles org, h.same_project_roles org project)
        (decided-Agree perm
          (with_project (is_blank project) (get_user_roles user org s)
            (get_user_project_roles user org project s))
          h)

  -- What the engine relies on: an assignment or a revocation that fails changes nothing, and one
  -- that succeeds changes nothing for other users and no role.
  pub record IsScoped : Type 0 where
    pub assign_failed :
        (a : RoleAssignment) (s : State) (e : Err)
        → (st.assign a s).0 ≡ err e
        → (st.assign a s).1 ≡ s
    pub assign_others :
        (a : RoleAssignment) (s : State) (user : Text)
        → user ≢ a.user_id
        → Agree user s (st.assign a s).1
    pub revoke_failed :
        (user role org project : Text) (s : State) (e : Err)
        → (st.revoke user role org project s).0 ≡ err e
        → (st.revoke user role org project s).1 ≡ s
    pub revoke_others :
        (other role org project : Text) (s : State) (user : Text)
        → user ≢ other
        → Agree user s (st.revoke other role org project s).1
