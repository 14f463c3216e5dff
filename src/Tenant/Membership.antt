-- ===== src/Tenant/Membership.antt =====
-- The membership and invitation methods of backend/services/tenant/internal/service.go.
use final_bds.Prelude.{◌+◌, String, none, some, ◌&&◌, ◌||◌, not, if◌then◌else◌, ltb}
use final_bds.Errors.{validation_error, not_found_error, is_not_found}
use final_bds.Exec.{Exec, pure, raise, ◌>>=◌, ◌>>◌, require, attempt, with_tenant}
use final_bds.Text.{Text, trim_space, is_blank}
use final_bds.Authz.{manage_members}
use final_bds.Tenant.{
  Role, owner, valid, assignable_by_invite, active, pending, accepted, revoked, Member, Invitation,
  member_invited, member_removed, role_changed, invitation_accepted, invitation_revoked, Db,
  err_invalid_token, err_member_exists, err_invite_exists, err_last_owner, err_owner_only,
  err_invite_email, err_invite_not_usable,
}
use final_bds.Tenant.Store.{
  create_member, get_by_user, count_by_role, update_role, delete_member, create_invitation,
  get_by_token_hash, get_invitation, update_invite_status, is_pending, enqueue,
}
use final_bds.Tenant.Service.{
  Config, Identity, authorize, is_conflict, same_text, is_owner, same_role, normalize_email,
  validate_email,
}

-- The writes of `AcceptInvite`.
unfoldable pub admit : Identity → Invitation → Member → Exec Db (Unit {0})
unfolding is_conflict
admit caller i m = do
  attempt (create_member i.org_id m) (λ e. raise (if is_conflict e then err_member_exists else e))
      (λ _. pure tt)
  update_invite_status i.org_id i.invitation_id accepted (some caller.user_id)
  enqueue i.org_id caller.user_id i.invitation_id
      (invitation_accepted i.invitation_id caller.user_id i.role)

-- The transaction of `AcceptInvite`: a caller that is a member already is refused.
unfoldable pub join : Identity → Invitation → Member → Exec Db (Unit {0})
unfolding admit
join caller i m =
    attempt (get_by_user i.org_id caller.user_id)
      (λ e. if is_not_found e then admit caller i m else raise e) (λ _. raise err_member_exists)

-- The check on the last owner, which `RemoveMember` and `ChangeRole` make of an owner.
unfoldable pub not_last_owner : String → Exec Db (Unit {0})
not_last_owner org = do owners ← count_by_role org owner; require (ltb 1 owners) err_last_owner

-- The rest of the transaction of `ChangeRole`, once the target is found.
unfoldable pub change_found : String → String → String → Role → Role → Member → Exec Db Member
unfolding not_last_owner
change_found user org target_user new_role caller_role target = do
  let old_role = target.role
  if same_role old_role new_role then pure target else do
    require (not ((is_owner new_role || is_owner old_role) && not (is_owner caller_role)))
        err_owner_only
    if is_owner old_role && not (is_owner new_role) then not_last_owner org else pure tt
    update_role org target_user new_role
    enqueue org user target_user (role_changed target_user old_role new_role user)
    pure (record target { role = new_role })

module _ (c : Config) where
  -- `InviteMember`; `id` is the row id that the database generates and `token` the random token.
  unfoldable pub invite_member : String → Text → String → String → Text → Role → Exec Db Invitation
  unfolding normalize_email validate_email is_conflict assignable_by_invite
  invite_member id token user org raw_email r = do
    authorize c org user manage_members
    let email = normalize_email raw_email
    require (validate_email email) (validation_error "a valid email address is required")
    require (assignable_by_invite r)
        (validation_error "role must be one of admin, developer, viewer")
    let i : Invitation = record {
      invitation_id = id;
      org_id = org;
      email = email;
      role = r;
      token_hash = c.hash_token token;
      invite_status = pending;
      invited_by = some user;
      expires_at = c.clock + c.invite_ttl;
      accepted_by = none;
      accepted_at = none;
    }
    with_tenant org do
      attempt (create_invitation org i)
          (λ e. raise (if is_conflict e then err_invite_exists else e)) (λ _. pure tt)
      enqueue org user id (member_invited id email r user (c.clock + c.invite_ttl))
    pure i

  -- `AcceptInvite` from the point where the invitation is found.
  unfoldable pub accept_found : Identity → Invitation → Exec Db Member
  unfolding normalize_email
  accept_found caller i = do
    require (is_pending i.invite_status && ltb c.clock i.expires_at) err_invite_not_usable
    require (same_text (normalize_email i.email) (normalize_email caller.email)) err_invite_email
    let m : Member = record {
      org_id = i.org_id;
      user_id = caller.user_id;
      role = i.role;
      status = active;
      invited_by = i.invited_by;
    }
    with_tenant i.org_id (join caller i m)
    pure m

  -- `AcceptInvite`.
  unfoldable pub accept_invite : Identity → Text → Exec Db Member
  accept_invite caller token = do
    require (not (is_blank (trim_space token))) err_invalid_token
    i ←
        attempt (get_by_token_hash (c.hash_token token))
          (λ e. raise (if is_not_found e then err_invalid_token else e)) (λ i. pure i)
    accept_found caller i

  -- `RevokeInvitation`.
  unfoldable pub revoke_invitation : String → String → String → Exec Db (Unit {0})
  revoke_invitation user org id = do
    authorize c org user manage_members
    with_tenant org do
      i ← get_invitation org id
      if not (is_pending i.invite_status) then pure tt else do
        update_invite_status org id revoked none
        enqueue org user id (invitation_revoked id user)

  -- `RemoveMember`.
  unfoldable pub remove_member : String → String → String → Exec Db (Unit {0})
  unfolding not_last_owner
  remove_member user org target_user = do
    caller_role ← authorize c org user manage_members
    with_tenant org do
      target ←
          attempt (get_by_user org target_user)
            (λ e. raise (if is_not_found e then not_found_error "member not found" else e))
            (λ m. pure m)
      if is_owner target.role
          then (require (is_owner caller_role) err_owner_only >> not_last_owner org)
          else pure tt
      delete_member org target_user
      enqueue org user target_user (member_removed target_user user)

  -- `ChangeRole`.
  unfoldable pub change_role : String → String → String → Role → Exec Db Member
  unfolding change_found valid
  change_role user org target_user new_role = do
    require (valid new_role) (validation_error "invalid role")
    caller_role ← authorize c org user manage_members
    with_tenant org do
      target ←
          attempt (get_by_user org target_user)
            (λ e. raise (if is_not_found e then not_found_error "member not found" else e))
            (λ m. pure m)
      change_found user org target_user new_role caller_role target
