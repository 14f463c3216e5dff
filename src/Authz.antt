-- ===== src/Authz.antt =====
-- libs/authz (backend/libs/authz/authz.go): the static role matrix and its evaluator. The roles and
-- actions are Go strings: the named constants, and `other` for any other text.
pub mod Policy
pub mod Membership
use final_bds.Prelude.{
  Bool, true, false, String, List, [], ◌∷◌, Option, none, some, ◌||◌, ite, dec_text, if◌then◌else◌,
}
use final_bds.Errors.{forbidden_error, Result, ok, err}

pub data OrgRole : Type 0 where
  org_owner org_admin role_member org_auditor : OrgRole
  other_org_role : String → OrgRole

pub data ProjectRole : Type 0 where
  project_admin project_developer project_viewer : ProjectRole
  other_project_role : String → ProjectRole

pub data Action : Type 0 where
  manage_org manage_members manage_clusters read_clusters manage_project deploy read_deployment :
      Action
  read_secrets write_secrets manage_secrets manage_domains read_logs read_audit : Action
  other_action : String → Action

unfoldable pub Action-discrete : Discrete Action
Action-discrete = hlevel dec_text

pub record Principal : Type 0 where
  pub user_id : String
  pub org_id : String
  pub org_roles : List OrgRole
  pub project_roles : String → Option ProjectRole

pub record AccessRequest : Type 0 where
  pub action : Action
  pub org_id : String
  pub project_id : String

-- The two maps; a key that is not there has the empty set of actions.
pub record PolicyAuthorizer : Type 0 where
  pub org : OrgRole → Action → Bool
  pub project : ProjectRole → Action → Bool

-- `set(actions...)`, read at one action.
unfoldable pub set : List Action → Action → Bool
unfolding Action-discrete
set [] a = false
set (x ∷ xs) a = ite (Action-discrete a x) true (set xs a)

unfoldable pub all_actions : Action → Bool
unfolding set
all_actions = set (
    manage_org ∷ manage_members ∷ manage_clusters ∷ read_clusters ∷ manage_project ∷ deploy
    ∷ read_deployment ∷ read_secrets ∷ write_secrets ∷ manage_secrets ∷ manage_domains ∷ read_logs
    ∷ read_audit ∷ [])

-- The matrix of `NewPolicyAuthorizer`.
unfoldable pub default_org : OrgRole → Action → Bool
unfolding all_actions set
default_org org_owner = all_actions
default_org org_admin = set (
    manage_members ∷ manage_clusters ∷ read_clusters ∷ manage_project ∷ deploy ∷ read_deployment
    ∷ read_secrets ∷ write_secrets ∷ manage_secrets ∷ manage_domains ∷ read_logs ∷ read_audit ∷ [])
default_org role_member = set (read_clusters ∷ read_deployment ∷ read_logs ∷ [])
default_org org_auditor = set (read_audit ∷ read_clusters ∷ read_deployment ∷ read_logs ∷ [])
default_org (other_org_role s) = set []

unfoldable pub default_project : ProjectRole → Action → Bool
unfolding set
default_project project_admin = set (
    manage_project ∷ deploy ∷ read_deployment ∷ read_secrets ∷ write_secrets ∷ manage_secrets
    ∷ manage_domains ∷ read_logs ∷ [])
default_project project_developer =
    set (deploy ∷ read_deployment ∷ read_secrets ∷ write_secrets ∷ read_logs ∷ [])
default_project project_viewer = set (read_deployment ∷ read_secrets ∷ read_logs ∷ [])
default_project (other_project_role s) = set []

unfoldable pub new_policy_authorizer : PolicyAuthorizer
unfolding default_org default_project
new_policy_authorizer = record { org = default_org; project = default_project }

-- The loop over the organisation roles.
unfoldable pub any_org_grant : PolicyAuthorizer → List OrgRole → Action → Bool
any_org_grant a [] act = false
any_org_grant a (r ∷ rs) act = a.org r act || any_org_grant a rs act

-- The lookup of the project role, for a request that names a project.
unfoldable pub project_grant : PolicyAuthorizer → Principal → AccessRequest → Bool
project_grant a p req =
    ite (dec_text req.project_id "") false
      (elim (p.project_roles req.project_id) [ none ↦ false | some r ↦ a.project r req.action ])

unfoldable pub authorize : PolicyAuthorizer → Principal → AccessRequest → Result (Unit {0})
unfolding any_org_grant project_grant
authorize a p req =
    ite (dec_text req.org_id "") (err (forbidden_error "cross-tenant access denied")) (
      ite (dec_text p.org_id req.org_id)
        (if any_org_grant a p.org_roles req.action
          then ok tt
          else if project_grant a p req
          then ok tt
          else err (forbidden_error "insufficient permissions"))
        (err (forbidden_error "cross-tenant access denied")))
