-- ===== src/Tenant.antt =====
-- The tenant service: its data (backend/services/tenant/internal/domain.go) and its errors
-- (backend/services/tenant/internal/errors.go). Ids are texts, instants are numbers, and the columns
-- that no operation reads (row ids, created_at, updated_at) are left out.
pub mod Store
pub mod Service
pub mod Membership
pub mod Calls
pub mod Counting
pub mod Invariant
pub mod Owners
pub mod Isolation
pub mod Invites
pub mod Atomic
use final_bds.Prelude.{ℕ, Bool, true, false, String, List, Option, dec_text}
use final_bds.Errors.{Err, new_with_status}
use final_bds.Text.{Text}
use final_bds.Authz.{OrgRole, org_owner, org_admin, role_member, org_auditor}

-- A Go string: the named constants, and `other_role` for any other text.
pub data Role : Type 0 where
  owner admin developer viewer : Role
  other_role : String → Role

unfoldable pub Role-discrete : Discrete Role
Role-discrete = hlevel dec_text

unfoldable pub valid : Role → Bool
valid owner = true
valid admin = true
valid developer = true
valid viewer = true
valid (other_role s) = false

unfoldable pub assignable_by_invite : Role → Bool
assignable_by_invite admin = true
assignable_by_invite developer = true
assignable_by_invite viewer = true
assignable_by_invite _ = false

unfoldable pub to_authz_role : Role → OrgRole
to_authz_role owner = org_owner
to_authz_role admin = org_admin
to_authz_role developer = role_member
to_authz_role viewer = org_auditor
to_authz_role (other_role s) = org_auditor

pub data MemberStatus : Type 0 where
  active suspended : MemberStatus

pub data InviteStatus : Type 0 where
  pending accepted revoked expired : InviteStatus

pub data OrgStatus : Type 0 where
  org_active org_disabled : OrgStatus

pub record Organization : Type 0 where
  pub id : String
  pub name : Text
  pub slug : Text
  pub plan : Text
  pub org_status : OrgStatus
  pub version : ℕ

pub record Member : Type 0 where
  pub org_id : String
  pub user_id : String
  pub role : Role
  pub status : MemberStatus
  pub invited_by : Option String

pub record Invitation : Type 0 where
  pub invitation_id : String
  pub org_id : String
  pub email : Text
  pub role : Role
  pub token_hash : String
  pub invite_status : InviteStatus
  pub invited_by : Option String
  pub expires_at : ℕ
  pub accepted_by : Option String
  pub accepted_at : Option ℕ

-- The payloads of events.go, one constructor for each event type.
pub data Payload : Type 0 where
  organization_created : Text → Text → String → Payload
  organization_updated : Text → Text → Payload
  organization_deleted : String → Payload
  member_invited : String → Text → Role → String → ℕ → Payload
  member_removed : String → String → Payload
  role_changed : String → Role → Role → String → Payload
  invitation_accepted : String → String → Role → Payload
  invitation_revoked : String → String → Payload

-- An outbox row: the fields of the envelope that differ between events of one service.
pub record Event : Type 0 where
  pub event_org : String
  pub actor : String
  pub resource : String
  pub payload : Payload

-- The tables. `project_orgs` holds the organisation of each project, whose foreign key restricts the
-- deletion of an organisation; `now` is the clock of the statements.
pub record Db : Type 0 where
  pub orgs : List Organization
  pub members : List Member
  pub invitations : List Invitation
  pub project_orgs : List String
  pub outbox : List Event
  pub now : ℕ

abbrev pub err_invalid_token : Err
err_invalid_token = new_with_status "INVALID_TOKEN" 401 "invalid or expired token"

abbrev pub err_slug_taken : Err
err_slug_taken = new_with_status "SLUG_TAKEN" 409 "organization slug is already taken"

abbrev pub err_member_exists : Err
err_member_exists =
    new_with_status "MEMBER_EXISTS" 409 "user is already a member of this organization"

abbrev pub err_invite_exists : Err
err_invite_exists =
    new_with_status "INVITE_PENDING" 409 "a pending invitation already exists for this email"

abbrev pub err_not_member : Err
err_not_member = new_with_status "NOT_A_MEMBER" 403 "caller is not a member of this organization"

abbrev pub err_last_owner : Err
err_last_owner = new_with_status "LAST_OWNER" 409 "the last owner cannot be removed or demoted"

abbrev pub err_owner_only : Err
err_owner_only = new_with_status "OWNER_ONLY" 403 "only an owner may grant or modify the owner role"

abbrev pub err_invite_email : Err
err_invite_email =
    new_with_status "INVITE_EMAIL_MISMATCH" 403
      "this invitation was issued to a different email address"

abbrev pub err_invite_not_usable : Err
err_invite_not_usable = new_with_status "INVITE_NOT_USABLE" 410 "invitation is no longer valid"
