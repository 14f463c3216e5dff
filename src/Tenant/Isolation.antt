-- ===== src/Tenant/Isolation.antt =====
-- Tenant isolation: a method called for one organisation changes no row of another. Proofs about
-- Tenant.Store, Tenant.Service and Tenant.Membership.
pub mod Tables
use final_bds.Prelude.{ap, sym, inl, inr, some, String, Option, ◌≡◌, ◌≢◌, refl, ◌∙◌, arith, Bool}
use final_bds.Errors.{Err, Result-cases}
use final_bds.Text.{Text}
use final_bds.Exec.{attempt, Exec, ◌>>=◌, ◌>>◌, with_tenant}
use final_bds.Exec.Steps.{Order, Steps, steps_rules, Steps-with_tenant, Steps-bind}
use final_bds.Tenant.{Role, Member, Invitation, Db}
use final_bds.Tenant.Store.{
  select_by_hash, get_by_user, count_by_role, get_by_token_hash, get_invitation, get_org,
}
use final_bds.Tenant.Service.{
  Config, Identity, authorize, load_member, create_organization, found_organization,
  update_organization, delete_organization,
}
use final_bds.Tenant.Membership.{
  invite_member, admit, join, accept_found, accept_invite, revoke_invitation, not_last_owner,
  remove_member, change_role, change_found,
}
use final_bds.Tenant.Calls.{
  Call, target, step, creates, updates, deletes, invites, accepts, revokes, removes, changes,
}
use Tables.{view, Elsewhere, Elsewhere-order, writes}

module _ (c : Config) (user org : String) where
  invite_member-Elsewhere :
      (id : String) (token email : Text) (r : Role)
      → Steps (Elsewhere org) (invite_member c id token user org email r)
  unfolding invite_member authorize get_by_user
  invite_member-Elsewhere id token email r =
      search (steps_rules, Elsewhere-order org, writes) depth 14

  remove_member-Elsewhere :
      (target : String) → Steps (Elsewhere org) (remove_member c user org target)
  unfolding remove_member authorize get_by_user count_by_role
  remove_member-Elsewhere target = search (steps_rules, Elsewhere-order org, writes) depth 14

  change_role-Elsewhere :
      (target : String) (r : Role) → Steps (Elsewhere org) (change_role c user org target r)
  unfolding change_role change_found authorize get_by_user count_by_role
  change_role-Elsewhere target r = search (steps_rules, Elsewhere-order org, writes) depth 14

  revoke_invitation-Elsewhere :
      (id : String) → Steps (Elsewhere org) (revoke_invitation c user org id)
  unfolding revoke_invitation authorize get_by_user get_invitation
  revoke_invitation-Elsewhere id = search (steps_rules, Elsewhere-order org, writes) depth 14

  delete_organization-Elsewhere : Steps (Elsewhere org) (delete_organization c user org)
  unfolding delete_organization authorize get_by_user
  delete_organization-Elsewhere = search (steps_rules, Elsewhere-order org, writes) depth 14

  create_organization-Elsewhere :
      (name slug : Text) → Steps (Elsewhere org) (create_organization c org user name slug)
  unfolding create_organization found_organization
  create_organization-Elsewhere name slug =
      search (steps_rules, Elsewhere-order org, writes) depth 14

  update_organization-Elsewhere :
      (name plan : Option Text) → Steps (Elsewhere org) (update_organization c user org name plan)
  unfolding update_organization authorize get_by_user get_org
  update_organization-Elsewhere name plan =
      search (steps_rules, Elsewhere-order org, writes) depth 18

join-Elsewhere :
    (caller : Identity) (i : Invitation) (m : Member) → Steps (Elsewhere i.org_id) (join caller i m)
unfolding join get_by_user
join-Elsewhere caller i m = search (steps_rules, Elsewhere-order i.org_id, writes) depth 14

accept_found-Elsewhere :
    (c : Config) (caller : Identity) (i : Invitation)
    → Steps (Elsewhere i.org_id) (accept_found c caller i)
unfolding accept_found
accept_found-Elsewhere c caller i =
    search (steps_rules, Elsewhere-order i.org_id, join-Elsewhere) depth 9

-- `AcceptInvite` writes in the organisation of the invitation that the token selects, if at all.
accept_invite-others :
    (c : Config) (caller : Identity) (token : Text) (s : Db) (o : String)
    → target c (accepts caller token) s ≢ some o
    → view o (accept_invite c caller token s).1 ≡ view o s
unfolding accept_invite ◌>>=◌ attempt get_by_token_hash Elsewhere
accept_invite-others c caller token s o n =
    elim (Result-cases (select_by_hash (c.hash_token token) s.invitations)) [
      | inl (e, missing) ↦ ground arith
      | inr (i, found) ↦
          ground (arith, (accept_found-Elsewhere c caller i).at s o (λ e. n (ground arith)))
    ]

-- A call for one organisation leaves every other organisation as it is: its row, its memberships, its
-- invitations and its events. This holds of every call, successful or not, in every database.
pub step_isolated :
    (c : Config) (call : Call) (s : Db) (o : String)
    → target c call s ≢ some o
    → view o (step c call s) ≡ view o s
unfolding step Elsewhere
step_isolated c (creates id user name slug) s o n =
    (create_organization-Elsewhere c user id name slug).at s o (λ e. n (ap some (sym e)))
step_isolated c (updates user org name plan) s o n =
    (update_organization-Elsewhere c user org name plan).at s o (λ e. n (ap some (sym e)))
step_isolated c (deletes user org) s o n =
    (delete_organization-Elsewhere c user org).at s o (λ e. n (ap some (sym e)))
step_isolated c (invites id token user org email r) s o n =
    (invite_member-Elsewhere c user org id token email r).at s o (λ e. n (ap some (sym e)))
step_isolated c (accepts caller token) s o n = accept_invite-others c caller token s o n
step_isolated c (revokes user org id) s o n =
    (revoke_invitation-Elsewhere c user org id).at s o (λ e. n (ap some (sym e)))
step_isolated c (removes user org user') s o n =
    (remove_member-Elsewhere c user org user').at s o (λ e. n (ap some (sym e)))
step_isolated c (changes user org user' r) s o n =
    (change_role-Elsewhere c user org user' r).at s o (λ e. n (ap some (sym e)))
