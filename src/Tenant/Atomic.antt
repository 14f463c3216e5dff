-- ===== src/Tenant/Atomic.antt =====
-- A call that fails leaves the tenant database as it was. Proofs about Tenant.Service,
-- Tenant.Membership and Tenant.Calls.
use final_bds.Prelude.{String, Option, none, some, ◌≡◌}
use final_bds.Errors.{Err, Result, ok, err}
use final_bds.Text.{Text}
use final_bds.Exec.Steps.{Steps, Same, Same-order, steps_rules}
use final_bds.Exec.Atomic.{Atomic, atomic_rules}
use final_bds.Authz.{Action}
use final_bds.Tenant.{Role, Db}
use final_bds.Tenant.Store.{get_by_user, get_by_token_hash}
use final_bds.Tenant.Service.{
  Config, Identity, authorize, create_organization, update_organization, delete_organization,
}
use final_bds.Tenant.Membership.{
  invite_member, accept_found, accept_invite, revoke_invitation, remove_member, change_role,
}
use final_bds.Tenant.Calls.{
  Call, step, creates, updates, deletes, invites, accepts, revokes, removes, changes,
}

-- The error that a call answers, if it fails.
abbrev failure : {A : Type 0} → Result A → Option Err
failure (ok a) = none
failure (err e) = some e

abbrev pub answer : Config → Call → Db → Option Err
answer c (creates id user name slug) s = failure (create_organization c id user name slug s).0
answer c (updates user org name plan) s = failure (update_organization c user org name plan s).0
answer c (deletes user org) s = failure (delete_organization c user org s).0
answer c (invites id token user org email r) s =
    failure (invite_member c id token user org email r s).0
answer c (accepts caller token) s = failure (accept_invite c caller token s).0
answer c (revokes user org id) s = failure (revoke_invitation c user org id s).0
answer c (removes user org target) s = failure (remove_member c user org target s).0
answer c (changes user org target r) s = failure (change_role c user org target r s).0

authorize-reads :
    (c : Config) (org user : String) (act : Action) → Steps Same (authorize c org user act)
unfolding authorize get_by_user
authorize-reads c org user act = search (steps_rules, Same-order) depth 14

get_by_token_hash-reads : (hash : String) → Steps Same (get_by_token_hash hash)
unfolding get_by_token_hash
get_by_token_hash-reads hash = search (steps_rules, Same-order) depth 3

ruleset reading = (authorize-reads, get_by_token_hash-reads)

module _ (c : Config) (user org : String) where
  invite_member-Atomic :
      (id : String) (token email : Text) (r : Role)
      → Atomic (invite_member c id token user org email r)
  unfolding invite_member
  invite_member-Atomic id token email r =
      search (atomic_rules, steps_rules, Same-order, reading) depth 12

  remove_member-Atomic : (target : String) → Atomic (remove_member c user org target)
  unfolding remove_member
  remove_member-Atomic target = search (atomic_rules, steps_rules, reading) depth 12

  change_role-Atomic : (target : String) (r : Role) → Atomic (change_role c user org target r)
  unfolding change_role
  change_role-Atomic target r = search (atomic_rules, steps_rules, Same-order, reading) depth 12

  revoke_invitation-Atomic : (id : String) → Atomic (revoke_invitation c user org id)
  unfolding revoke_invitation
  revoke_invitation-Atomic id = search (atomic_rules, steps_rules, reading) depth 12

  delete_organization-Atomic : Atomic (delete_organization c user org)
  unfolding delete_organization
  delete_organization-Atomic = search (atomic_rules, steps_rules, reading) depth 12

  create_organization-Atomic :
      (name slug : Text) → Atomic (create_organization c org user name slug)
  unfolding create_organization
  create_organization-Atomic name slug =
      search (atomic_rules, steps_rules, Same-order, reading) depth 12

  update_organization-Atomic :
      (name plan : Option Text) → Atomic (update_organization c user org name plan)
  unfolding update_organization
  update_organization-Atomic name plan = search (atomic_rules, steps_rules, reading) depth 12

accept_invite-Atomic :
    (c : Config) (caller : Identity) (token : Text) → Atomic (accept_invite c caller token)
unfolding accept_invite accept_found
accept_invite-Atomic c caller token =
    search (atomic_rules, steps_rules, Same-order, reading) depth 14

failed : {A : Type 0} (r : Result A) (e : Err) → failure r ≡ some e → r ≡ err e
failed (ok a) e h = cc
failed (err x) e h = cc

-- Every call is atomic: if it answers an error, the database is the one that the call met, whatever
-- statements had been run before the failure.
pub step_atomic :
    (c : Config) (call : Call) (s : Db) (e : Err) → answer c call s ≡ some e → step c call s ≡ s
unfolding step
step_atomic c (creates id user name slug) s e h =
    (create_organization-Atomic c user id name slug).undone s e (failed _ e h)
step_atomic c (updates user org name plan) s e h =
    (update_organization-Atomic c user org name plan).undone s e (failed _ e h)
step_atomic c (deletes user org) s e h =
    (delete_organization-Atomic c user org).undone s e (failed _ e h)
step_atomic c (invites id token user org email r) s e h =
    (invite_member-Atomic c user org id token email r).undone s e (failed _ e h)
step_atomic c (accepts caller token) s e h =
    (accept_invite-Atomic c caller token).undone s e (failed _ e h)
step_atomic c (revokes user org id) s e h =
    (revoke_invitation-Atomic c user org id).undone s e (failed _ e h)
step_atomic c (removes user org target) s e h =
    (remove_member-Atomic c user org target).undone s e (failed _ e h)
step_atomic c (changes user org target r) s e h =
    (change_role-Atomic c user org target r).undone s e (failed _ e h)
