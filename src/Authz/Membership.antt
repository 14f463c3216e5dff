-- ===== src/Authz/Membership.antt =====
-- The authorization service of libs/authz (backend/libs/authz/membership.go), over any database that
-- has a table of organisation members. Row-level security is modelled by the tenant that a
-- statement runs for: a statement sees the rows of that organisation only.
pub mod Sound
use final_bds.Prelude.{
  Bool, true, false, not, String, List, [], ◌∷◌, none, dec_text, ite, text_is, if◌then◌else◌,
}
use final_bds.Errors.{
  Err, forbidden_error, validation_error, not_found_error, is_not_found, Result, ok, err,
}
use final_bds.Exec.{Exec, pure, raise, gets, ◌>>=◌, ◌>>◌, require, attempt, with_tenant}
use final_bds.Authz.{OrgRole, Action, Principal, AccessRequest, PolicyAuthorizer, authorize}

pub record OrgMember : Type 0 where
  pub org_id : String
  pub user_id : String
  pub role : OrgRole
  pub status : String

-- `SELECT ... FROM organization_members WHERE user_id = $1`, run for the tenant `org`.
unfoldable pub select_member : String → String → List OrgMember → Result OrgMember
select_member org user [] = err (not_found_error "resource not found")
select_member org user (m ∷ ms) =
    ite (dec_text m.org_id org) (ite (dec_text m.user_id user) (ok m) (select_member org user ms))
      (select_member org user ms)

module _ {S : Type 0} (members : S → List OrgMember) where
  -- `OrgMemberRepo.GetOrgMember`.
  unfoldable pub get_org_member : String → String → Exec S OrgMember
  get_org_member org user = gets (λ s. select_member org user (members s))

  -- The transaction that both entry points open to load the caller's membership.
  unfoldable pub load_membership : String → String → Exec S OrgMember
  unfolding get_org_member
  load_membership org user = with_tenant org (
      attempt (get_org_member org user)
        (λ e.
          raise (if is_not_found e then forbidden_error "not a member of this organization" else e))
        (λ m. pure m))

  -- `AuthorizeOrgMember`. On a refusal by the policy Go returns the role beside the error; callers
  -- drop it.
  unfoldable pub authorize_org_member : PolicyAuthorizer → String → String → Action → Exec S OrgRole
  unfolding load_membership
  authorize_org_member a org user act = do
    require (not (text_is org "")) (validation_error "organization ID is required")
    require (not (text_is user "")) (validation_error "user ID is required")
    m ← load_membership org user
    require (text_is m.status "active") (forbidden_error "membership is suspended")
    gets (λ _.
        authorize a
          (record {
            user_id = user;
            org_id = org;
            org_roles = m.role ∷ [];
            project_roles = λ _. none;
          })
          (record { action = act; org_id = org; project_id = "" }))
    pure m.role

  -- `AuthorizeOrgRead`.
  unfoldable pub authorize_org_read : String → String → Exec S OrgRole
  unfolding load_membership
  authorize_org_read org user = do
    require (not (text_is org "")) (validation_error "organization ID is required")
    require (not (text_is user "")) (validation_error "user ID is required")
    m ← load_membership org user
    require (text_is m.status "active") (forbidden_error "membership is suspended")
    pure m.role
