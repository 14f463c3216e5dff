-- ===== src/Authz/Membership/Sound.antt =====
-- Whom the authorization service lets through: proofs about Authz.Membership.
use final_bds.Prelude.{◌≢◌, true, String, List, [], ◌∷◌, ◌≡◌, arith, inl, inr}
use final_bds.Errors.{Result-cases, ok}
use final_bds.Exec.Steps.{Steps, Same, Same-order, steps_rules}
use final_bds.Exec.{◌>>=◌, attempt}
use final_bds.Authz.{OrgRole, Action, PolicyAuthorizer, authorize, any_org_grant, project_grant}
use final_bds.Authz.Membership.{OrgMember, select_member, load_membership, authorize_org_member}

-- An active membership of the user in the organisation is the first such row of the table.
pub record IsActiveMember (org user : String) (ms : List OrgMember) (m : OrgMember) : Type 0 where
  pub selected : select_member org user ms ≡ ok m
  pub same_org : m.org_id ≡ org
  pub same_user : m.user_id ≡ user
  pub active : m.status ≡ "active"

selected_fields :
    (org user : String) (ms : List OrgMember) (m : OrgMember)
    → select_member org user ms ≡ ok m
    → (m.org_id ≡ org) × (m.user_id ≡ user)
unfolding select_member
selected_fields org user [] m h = cc
selected_fields org user (x ∷ ms) m h = ground (arith, selected_fields org user ms m)

module _ {S : Type 0} (members : S → List OrgMember) where
  load_membership-selects :
      (org user : String) (s : S) (m : OrgMember)
      → (load_membership members org user s).0 ≡ ok m
      → select_member org user (members s) ≡ ok m
  unfolding load_membership ◌>>=◌ attempt
  load_membership-selects org user s m h = ground arith

  load_membership-IsActiveMember :
      (org user : String) (s : S) (m : OrgMember)
      → (load_membership members org user s).0 ≡ ok m
      → m.status ≡ "active"
      → IsActiveMember org user (members s) m
  load_membership-IsActiveMember org user s m h active =
      let found = load_membership-selects org user s m h in
      let fields = selected_fields org user (members s) m found in
      record { selected = found; same_org = fields.0; same_user = fields.1; active = active }

  -- If `AuthorizeOrgMember` succeeds with a role, the table holds an active membership of that very
  -- user in that very organisation, with that role, and the policy grants the action to the role.
  pub authorize_org_member_sound :
      (a : PolicyAuthorizer) (org user : String) (act : Action) (s : S) (r : OrgRole)
      → (authorize_org_member members a org user act s).0 ≡ ok r
      → (m : OrgMember) × IsActiveMember org user (members s) m
        × (m.role ≡ r)
        × (a.org r act ≡ true)
  unfolding authorize_org_member ◌>>=◌ attempt authorize any_org_grant project_grant
  authorize_org_member_sound a org user act s r h =
      elim (Result-cases (load_membership members org user s).0) [
        | inl (e, failed) ↦ absurd (ground arith)
        | inr (m, loaded) ↦ (
          m,
          load_membership-IsActiveMember org user s m loaded (ground arith),
          ground arith,
          ground arith,
        )
      ]

  -- Conversely an active member whose role the policy grants the action is let through with that
  -- role, provided that both ids are given.
  pub authorize_org_member_complete :
      (a : PolicyAuthorizer) (org user : String) (act : Action) (s : S) (m : OrgMember)
      → org ≢ ""
      → user ≢ ""
      → select_member org user (members s) ≡ ok m
      → m.status ≡ "active"
      → a.org m.role act ≡ true
      → (authorize_org_member members a org user act s).0 ≡ ok m.role
  unfolding authorize_org_member ◌>>=◌ attempt authorize any_org_grant project_grant
  authorize_org_member_complete a org user act s m o u found active granted = ground arith

  load_membership-Same : (org user : String) → Steps Same (load_membership members org user)
  unfolding load_membership
  load_membership-Same org user = search (steps_rules, Same-order) depth 9

  pub authorize_org_member-Same :
      (a : PolicyAuthorizer) (org user : String) (act : Action)
      → Steps Same (authorize_org_member members a org user act)
  unfolding authorize_org_member
  authorize_org_member-Same a org user act =
      search (steps_rules, Same-order, load_membership-Same) depth 9
