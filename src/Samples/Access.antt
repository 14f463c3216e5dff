-- ===== src/Samples/Access.antt =====
-- Errors, normal forms and the role policy at concrete inputs.
use final_bds.Prelude.{true, List, [], ◌∷◌, none, ◌≡◌, ◌↔◌, refl, apart, dec_text}
use final_bds.Errors.{Err, app, not_found, ok}
use final_bds.Exec.{◌>>=◌, attempt}
use final_bds.Authz.{
  org_owner, org_admin, deploy, manage_org, Principal, AccessRequest, authorize,
  new_policy_authorizer, default_org, Action-discrete, set, any_org_grant,
}
use final_bds.Authz.Policy.{IsAllowed, authorize-IsAllowed}
use final_bds.Authz.Membership.{
  OrgMember, select_member, authorize_org_member, load_membership, get_org_member,
}
use final_bds.Authz.Membership.Sound.{
  IsActiveMember, authorize_org_member_sound, authorize_org_member_complete,
}

abbrev missing : Err
missing = app not_found "resource not found" [] 0

abbrev olga : Principal
olga = record {
  user_id = "olga";
  org_id = "acme";
  org_roles = org_owner ∷ [];
  project_roles = λ _. none;
}

abbrev manage : AccessRequest
manage = record { action = manage_org; org_id = "acme"; project_id = "" }

authorize-IsAllowed_example :
    (authorize new_policy_authorizer olga manage ≡ ok tt)
    ↔ IsAllowed new_policy_authorizer olga manage
authorize-IsAllowed_example = authorize-IsAllowed new_policy_authorizer olga manage

abbrev ada : OrgMember
ada = record { org_id = "acme"; user_id = "ada"; role = org_admin; status = "active" }

abbrev sam : OrgMember
sam = record { org_id = "acme"; user_id = "sam"; role = org_admin; status = "suspended" }

abbrev table : List OrgMember
table = sam ∷ ada ∷ []

abbrev rows : List OrgMember → List OrgMember
rows ms = ms

ada_allowed :
    (authorize_org_member rows new_policy_authorizer "acme" "ada" deploy table).0 ≡ ok org_admin
unfolding authorize_org_member load_membership get_org_member select_member dec_text ◌>>=◌ attempt
    authorize any_org_grant new_policy_authorizer default_org set Action-discrete
ada_allowed = refl

authorize_org_member_sound_example :
    (m : OrgMember) × IsActiveMember "acme" "ada" (rows table) m
    × (m.role ≡ org_admin)
    × (new_policy_authorizer.org org_admin deploy ≡ true)
authorize_org_member_sound_example =
    authorize_org_member_sound rows new_policy_authorizer "acme" "ada" deploy table org_admin
      ada_allowed

authorize_org_member_complete_example :
    (authorize_org_member rows new_policy_authorizer "acme" "ada" deploy table).0 ≡ ok org_admin
unfolding select_member dec_text new_policy_authorizer default_org set Action-discrete
authorize_org_member_complete_example =
    authorize_org_member_complete rows new_policy_authorizer "acme" "ada" deploy table ada
      (apart "acme" "" refl) (apart "ada" "" refl) refl refl refl
