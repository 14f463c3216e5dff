-- ===== src/Tenant/Owners.antt =====
-- Every organisation keeps an owner, whatever calls are made. Proofs about Tenant.Calls.
pub mod Removal
pub mod Change
pub mod Creation
use final_bds.Prelude.{
  ℕ, suc, ◌+◌, ◌≤◌, ◌<◌, Bool, true, false, String, List, [], ◌∷◌, ◌≡◌, ◌≢◌, ◌⊎◌, inl, inr, refl,
  arith, dec_text, ite, ltb, Bool-cases, if◌then◌else◌, none, if_neg,
}
use final_bds.Errors.{Err, Result, ok, err, Result-cases}
use final_bds.Text.{Text, trim_space, to_lower}
use final_bds.Exec.{Exec, ◌>>=◌, attempt}
use final_bds.Exec.Steps.{Same}
use final_bds.Authz.{manage_members}
use final_bds.Tenant.{
  Role, Role-discrete, owner, active, org_active, valid, Organization, Member, Db, err_last_owner,
}
use final_bds.Tenant.Store.{
  has_member, select_by_user, count_role, count_by_role, set_role, drop_member, has_org,
  get_by_user, update_role, delete_member, enqueue, create_org, create_member, org_clashes,
}
use final_bds.Tenant.Service.{
  Config, authorize, is_owner, same_role, create_organization, found_organization,
}
use final_bds.Tenant.Membership.{not_last_owner, remove_member, change_found, change_role}
use final_bds.Tenant.Calls.{
  Call, step, run, creates, updates, deletes, invites, accepts, revokes, removes, changes,
}
use final_bds.Tenant.Counting.{
  AreUnique, ones, set_role-AreUnique, count_role-set_role, count_role-set_role_other,
  drop_member-AreUnique, count_role-drop_member, count_role-drop_member_other,
}
use final_bds.Tenant.Invariant.{
  IsValid, Keeps, transfer, authorize-Same, invite_member-Keeps, revoke_invitation-Keeps,
  delete_organization-Keeps, update_organization-Keeps, accept_invite-Keeps,
}
use Removal.{remove_member_outcome, Removed-Keeps}
use Change.{change_role_outcome, Changed-Keeps}
use Creation.{create_organization_outcome, Created-Keeps}

same-Keeps : (s t : Db) → t ≡ s → Keeps s t
same-Keeps s t e = transfer s t (ground arith) (ground arith)

step-Keeps : (c : Config) (call : Call) (s : Db) → Keeps s (step c call s)
unfolding step
step-Keeps c (creates id user name slug) s =
    elim (create_organization_outcome c id user name slug s) [
      | inl e ↦ same-Keeps s _ e
      | inr d ↦ Created-Keeps id user s _ d
    ]
step-Keeps c (updates user org name plan) s = (update_organization-Keeps c user org name plan).at s
step-Keeps c (deletes user org) s = (delete_organization-Keeps c user org).at s
step-Keeps c (invites id token user org email r) s =
    (invite_member-Keeps c user org id token email r).at s
step-Keeps c (accepts caller token) s = (accept_invite-Keeps c caller token).at s
step-Keeps c (revokes user org id) s = (revoke_invitation-Keeps c user org id).at s
step-Keeps c (removes user org target) s = elim (remove_member_outcome c user org target s) [
  | inl e ↦ same-Keeps s _ e
  | inr (r, allowed, d) ↦ Removed-Keeps r org target s _ d
]
step-Keeps c (changes user org target r) s = elim (change_role_outcome c user org target r s) [
  | inl e ↦ same-Keeps s _ e
  | inr (q, allowed, d) ↦ Changed-Keeps q org target r s _ d
]

-- From a valid database, any sequence of calls of the service, by any callers and whether they
-- succeed or not, leaves a valid one: no user has two memberships of one organisation, and every
-- organisation that there is has at least one owner.
pub run-IsValid : (c : Config) (calls : List Call) (s : Db) → IsValid s → IsValid (run c calls s)
unfolding run Keeps
run-IsValid c [] s v = v
run-IsValid c (call ∷ calls) s v = run-IsValid c calls (step c call s) (step-Keeps c call s v)
