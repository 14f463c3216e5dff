-- ===== src/Tenant/Service.antt =====
-- The methods of the tenant service (backend/services/tenant/internal/service.go and authorize.go)
-- that decide or write. Logging and the out-of-band delivery of invitation tokens are left out.
use final_bds.Prelude.{
  ℕ, Bool, true, false, String, [], ◌∷◌, Option, none, some, ◌&&◌, not, ite, if◌then◌else◌, leb,
  ◌==◌, length,
}
use final_bds.Errors.{Err, Code, conflict, validation_error, is_not_found, from, code}
use final_bds.Exec.{Exec, pure, raise, gets, ◌>>=◌, ◌>>◌, require, attempt, with_tenant}
use final_bds.Text.{
  Text, Text-discrete, trim_space, to_lower, slug_matches, is_blank, after_byte, contains_byte,
}
use final_bds.Authz.{Action, manage_org, PolicyAuthorizer, authorize as policy_authorize}
use final_bds.Tenant.{
  Role, Role-discrete, owner, to_authz_role, active, org_active, Organization, Member,
  organization_created, organization_updated, organization_deleted, Db, err_slug_taken,
  err_not_member,
}
use final_bds.Tenant.Store.{
  create_member, get_by_user, create_org, get_org, update_org, delete_org, enqueue,
}

-- What the service is wired with: the authorizer, the hash of invitation tokens (SHA-256 in hex), the
-- clock and the lifetime of invitations.
pub record Config : Type 0 where
  pub authorizer : PolicyAuthorizer
  pub hash_token : Text → String
  pub clock : ℕ
  pub invite_ttl : ℕ

pub record Identity : Type 0 where
  pub user_id : String
  pub email : Text

abbrev is_conflict_code : Code → Bool
is_conflict_code conflict = true
is_conflict_code _ = false

unfoldable pub is_conflict : Err → Bool
unfolding from code
is_conflict e = is_conflict_code (code (from e))

abbrev pub same_text : Text → Text → Bool
same_text s t = ite (Text-discrete s t) true false

unfoldable pub is_owner : Role → Bool
is_owner owner = true
is_owner _ = false

abbrev pub same_role : Role → Role → Bool
same_role r s = ite (Role-discrete r s) true false

unfoldable pub validate_org_name : Text → Bool
validate_org_name name = leb 2 (length name) && leb (length name) 64

unfoldable pub normalize_email : Text → Text
normalize_email e = to_lower (trim_space e)

-- An `@` that is neither first nor last, with a dot behind it.
unfoldable pub validate_email : Text → Bool
validate_email e = elim (after_byte b'@' e) [
  | none ↦ false
  | some (at, rest) ↦ not (at == 0) && not (is_blank rest) && contains_byte b'.' rest
]

-- `loadMember`.
unfoldable pub load_member : String → String → Exec Db Member
load_member org user = with_tenant org (
    attempt (get_by_user org user) (λ e. raise (if is_not_found e then err_not_member else e))
      (λ m. pure m))

-- The transaction of `CreateOrganization`.
unfoldable pub found_organization : String → Organization → Exec Db (Unit {0})
unfolding is_conflict
found_organization user o = do
  attempt (create_org o.id o) (λ e. raise (if is_conflict e then err_slug_taken else e))
      (λ _. pure tt)
  create_member o.id
      (record { org_id = o.id; user_id = user; role = owner; status = active; invited_by = none })
  enqueue o.id user o.id (organization_created o.name o.slug user)

module _ (c : Config) where
  -- `authorize`: the policy decides on the caller's role; the status of the membership is not read.
  unfoldable pub authorize : String → String → Action → Exec Db Role
  unfolding load_member
  authorize org user act = do
    m ← load_member org user
    gets (λ _.
        policy_authorize c.authorizer
          (record {
            user_id = user;
            org_id = org;
            org_roles = to_authz_role m.role ∷ [];
            project_roles = λ _. none;
          })
          (record { action = act; org_id = org; project_id = "" }))
    pure m.role

  -- `CreateOrganization`; `id` is the fresh UUID.
  unfoldable pub create_organization : String → String → Text → Text → Exec Db Organization
  unfolding validate_org_name found_organization
  create_organization id user raw_name raw_slug = do
    let name = trim_space raw_name
    require (validate_org_name name) (validation_error "name must be between 2 and 64 characters")
    let slug = to_lower (trim_space raw_slug)
    require (slug_matches slug)
        (validation_error "slug must be 2-64 chars of lowercase letters, digits, or hyphens")
    let o : Organization = record {
      id = id;
      name = name;
      slug = slug;
      plan = b'f' ∷ b'r' ∷ b'e' ∷ b'e' ∷ [];
      org_status = org_active;
      version = 1;
    }
    with_tenant id (found_organization user o)
    pure o

  -- `UpdateOrganization`; a field that is not given is `none`.
  unfoldable pub update_organization :
      String → String → Option Text → Option Text → Exec Db Organization
  unfolding validate_org_name
  update_organization user org new_name new_plan = do
    authorize org user manage_org
    with_tenant org do
      o ← get_org org
      let name : Text = elim new_name [ none ↦ o.name | some n ↦ trim_space n ]
      require (elim new_name [ none ↦ true | some n ↦ validate_org_name (trim_space n) ])
          (validation_error "name must be between 2 and 64 characters")
      let plan : Text = elim new_plan [ none ↦ o.plan | some p ↦ trim_space p ]
      update_org org (record o { name = name; plan = plan })
      enqueue org user org (organization_updated name plan)
      pure (record o { name = name; plan = plan })

  -- `DeleteOrganization`.
  unfoldable pub delete_organization : String → String → Exec Db (Unit {0})
  delete_organization user org = do
    authorize org user manage_org
    with_tenant org do delete_org org; enqueue org user org (organization_deleted user)
