-- ===== src/Tenant/Invariant.antt =====
-- The invariant of the tenant database, for the statements and for the methods that neither make
-- nor unmake an owner. Proofs about Tenant.Store, Tenant.Service and Tenant.Membership.
use final_bds.Prelude.{◌≤◌, true, String, List, [], ◌∷◌, Option, ◌≡◌, ◌≢◌, refl, arith}
use final_bds.Text.{Text}
use final_bds.Exec.Steps.{Order, Steps, steps_rules, Same, Same-order}
use final_bds.Authz.{manage_members}
use final_bds.Tenant.{Role, owner, Member, Invitation, InviteStatus, Organization, Payload, Db}
use final_bds.Tenant.Store.{
  count_role, drop_members_of, has_org, drop_org, replace_org, create_member, create_invitation,
  update_invite_status, update_org, delete_org, enqueue, get_by_user, get_by_token_hash,
  get_invitation, get_org,
}
use final_bds.Tenant.Service.{Config, Identity, authorize, update_organization, delete_organization}
use final_bds.Tenant.Membership.{
  invite_member, join, accept_found, accept_invite, revoke_invitation,
}
use final_bds.Tenant.Counting.{AreUnique, drop_members_of-AreUnique, count_role-drop_members_of}

-- No user has two memberships of one organisation, and every organisation has an owner.
pub record IsValid (s : Db) : Type 0 where
  pub unique : AreUnique s.members
  pub owned : (org : String) → has_org org s.orgs ≡ true → 1 ≤ count_role org owner s.members

-- What a statement does to the invariant.
unfoldable pub Keeps : Db → Db → Type 0
Keeps s t = IsValid s → IsValid t

Keeps-order : Order Keeps
unfolding Keeps
Keeps-order = record { same = λ s v. v; compose = λ s t u p q v. q (p v) }

-- A database with the same organisations and memberships is as valid.
pub transfer : (s t : Db) → t.members ≡ s.members → t.orgs ≡ s.orgs → Keeps s t
unfolding Keeps
transfer s t m o v = record {
  unique = ground (arith, v.unique);
  owned = λ org h. ground (arith, v.owned org);
}

create_member-Keeps : (org : String) (m : Member) → Steps Keeps (create_member org m)
unfolding create_member Keeps count_role
create_member-Keeps org m = record {
  at =
      λ s v. record { unique = ground (arith, v.unique); owned = λ o h. ground (arith, v.owned o) };
}

create_invitation-Keeps : (org : String) (i : Invitation) → Steps Keeps (create_invitation org i)
unfolding create_invitation
create_invitation-Keeps org i = record { at = λ s. transfer s _ (ground arith) (ground arith) }

update_invite_status-Keeps :
    (org id : String) (st : InviteStatus) (by : Option String)
    → Steps Keeps (update_invite_status org id st by)
unfolding update_invite_status
update_invite_status-Keeps org id st by = record {
  at = λ s. transfer s _ (ground arith) (ground arith);
}

enqueue-Keeps :
    (org actor resource : String) (p : Payload) → Steps Keeps (enqueue org actor resource p)
unfolding enqueue
enqueue-Keeps org actor resource p = record { at = λ s. transfer s _ (ground arith) (ground arith) }

has_org-replace_org :
    (org o : String) (x : Organization) (xs : List Organization)
    → has_org o (replace_org org x xs) ≡ has_org o xs
unfolding has_org replace_org
has_org-replace_org org o x [] = refl
has_org-replace_org org o x (y ∷ ys) = ground (arith, has_org-replace_org org o x ys)

update_org-Keeps : (org : String) (x : Organization) → Steps Keeps (update_org org x)
unfolding update_org Keeps
update_org-Keeps org x = record {
  at = λ s v. record {
    unique = ground (arith, v.unique);
    owned = λ o h. ground (arith, v.owned o, has_org-replace_org org o x s.orgs);
  };
}

has_org-drop_org :
    (org o : String) (xs : List Organization)
    → has_org o (drop_org org xs) ≡ true
    → (o ≢ org) × (has_org o xs ≡ true)
unfolding has_org drop_org
has_org-drop_org org o [] h = cc
has_org-drop_org org o (x ∷ xs) h = ground (arith, has_org-drop_org org o xs)

deleted-IsValid :
    (org : String) (s : Db)
    → IsValid s
    → IsValid (record s { orgs = drop_org org s.orgs; members = drop_members_of org s.members })
deleted-IsValid org s v = record {
  unique = drop_members_of-AreUnique org s.members v.unique;
  owned = λ o h.
      let (n, had) = has_org-drop_org org o s.orgs h in
      ground (arith, count_role-drop_members_of org o owner s.members n, v.owned o had);
}

delete_org-Keeps : (org : String) → Steps Keeps (delete_org org)
unfolding delete_org Keeps
delete_org-Keeps org = record {
  at = λ s v. record {
    unique = ground (arith, v.unique, (deleted-IsValid org s v).unique);
    owned = λ o h. ground (arith, v.owned o, (deleted-IsValid org s v).owned o);
  };
}

ruleset keeping = (
  create_member-Keeps, create_invitation-Keeps, update_invite_status-Keeps, enqueue-Keeps,
  update_org-Keeps, delete_org-Keeps,
)

module _ (c : Config) (user org : String) where
  pub invite_member-Keeps :
      (id : String) (token email : Text) (r : Role)
      → Steps Keeps (invite_member c id token user org email r)
  unfolding invite_member authorize get_by_user
  invite_member-Keeps id token email r = search (steps_rules, Keeps-order, keeping) depth 14

  pub revoke_invitation-Keeps : (id : String) → Steps Keeps (revoke_invitation c user org id)
  unfolding revoke_invitation authorize get_by_user get_invitation
  revoke_invitation-Keeps id = search (steps_rules, Keeps-order, keeping) depth 14

  pub delete_organization-Keeps : Steps Keeps (delete_organization c user org)
  unfolding delete_organization authorize get_by_user
  delete_organization-Keeps = search (steps_rules, Keeps-order, keeping) depth 14

  pub update_organization-Keeps :
      (name plan : Option Text) → Steps Keeps (update_organization c user org name plan)
  unfolding update_organization authorize get_by_user get_org
  update_organization-Keeps name plan = search (steps_rules, Keeps-order, keeping) depth 18

  pub authorize-Same : Steps Same (authorize c org user manage_members)
  unfolding authorize get_by_user
  authorize-Same = search (steps_rules, Same-order) depth 14

pub accept_invite-Keeps :
    (c : Config) (caller : Identity) (token : Text) → Steps Keeps (accept_invite c caller token)
unfolding accept_invite accept_found join get_by_user get_by_token_hash
accept_invite-Keeps c caller token = search (steps_rules, Keeps-order, keeping) depth 18
