-- ===== src/Tenant/Isolation/Tables.antt =====
-- The rows of one organisation in each table, and what each statement does to them.
use final_bds.Prelude.{ℕ, String, List, [], ◌∷◌, Option, ◌≡◌, ◌≢◌, refl, ◌∙◌, arith, dec_text, ite}
use final_bds.Exec.Steps.{Order, Steps}
use final_bds.Tenant.{Role, Organization, Member, Invitation, InviteStatus, Event, Payload, Db}
use final_bds.Tenant.Store.{
  create_member, update_role, set_role, delete_member, drop_member, create_invitation,
  update_invite_status, set_invite_status, create_org, update_org, replace_org, delete_org,
  drop_org, drop_members_of, drop_invitations_of, enqueue,
}

abbrev members_of : String → List Member → List Member
members_of o [] = []
members_of o (m ∷ ms) = ite (dec_text m.org_id o) (m ∷ members_of o ms) (members_of o ms)

abbrev invitations_of : String → List Invitation → List Invitation
invitations_of o [] = []
invitations_of o (i ∷ is) =
    ite (dec_text i.org_id o) (i ∷ invitations_of o is) (invitations_of o is)

abbrev orgs_of : String → List Organization → List Organization
orgs_of o [] = []
orgs_of o (x ∷ xs) = ite (dec_text x.id o) (x ∷ orgs_of o xs) (orgs_of o xs)

abbrev events_of : String → List Event → List Event
events_of o [] = []
events_of o (e ∷ es) = ite (dec_text e.event_org o) (e ∷ events_of o es) (events_of o es)

-- What the database holds of one organisation.
pub record View : Type 0 where
  pub its_orgs : List Organization
  pub its_members : List Member
  pub its_invitations : List Invitation
  pub its_events : List Event

abbrev pub view : String → Db → View
view o s = record {
  its_orgs = orgs_of o s.orgs;
  its_members = members_of o s.members;
  its_invitations = invitations_of o s.invitations;
  its_events = events_of o s.outbox;
}

-- The two databases hold the same of every organisation but `org`.
unfoldable pub Elsewhere : String → Db → Db → Type 0
Elsewhere org s t = (o : String) → o ≢ org → view o t ≡ view o s

pub Elsewhere-order : (org : String) → Order (Elsewhere org)
unfolding Elsewhere
Elsewhere-order org = record { same = λ s o n. refl; compose = λ s t u p q o n. q o n ∙ p o n }

module _ (org o : String) (other : o ≢ org) where
  set_role-others :
      (user : String) (r : Role) (ms : List Member)
      → members_of o (set_role org user r ms) ≡ members_of o ms
  unfolding set_role
  set_role-others user r [] = refl
  set_role-others user r (m ∷ ms) = ground (arith, set_role-others user r ms)

  drop_member-others :
      (user : String) (ms : List Member) → members_of o (drop_member org user ms) ≡ members_of o ms
  unfolding drop_member
  drop_member-others user [] = refl
  drop_member-others user (m ∷ ms) = ground (arith, drop_member-others user ms)

  set_invite_status-others :
      (id : String) (st : InviteStatus) (by : Option String) (now : ℕ) (is : List Invitation)
      → invitations_of o (set_invite_status org id st by now is) ≡ invitations_of o is
  unfolding set_invite_status
  set_invite_status-others id st by now [] = refl
  set_invite_status-others id st by now (i ∷ is) =
      ground (arith, set_invite_status-others id st by now is)

  drop_org-others : (xs : List Organization) → orgs_of o (drop_org org xs) ≡ orgs_of o xs
  unfolding drop_org
  drop_org-others [] = refl
  drop_org-others (x ∷ xs) = ground (arith, drop_org-others xs)

  drop_members_of-others :
      (ms : List Member) → members_of o (drop_members_of org ms) ≡ members_of o ms
  unfolding drop_members_of
  drop_members_of-others [] = refl
  drop_members_of-others (m ∷ ms) = ground (arith, drop_members_of-others ms)

  drop_invitations_of-others :
      (is : List Invitation) → invitations_of o (drop_invitations_of org is) ≡ invitations_of o is
  unfolding drop_invitations_of
  drop_invitations_of-others [] = refl
  drop_invitations_of-others (i ∷ is) = ground (arith, drop_invitations_of-others is)

replace_org-others :
    (org o : String) (x : Organization) (xs : List Organization)
    → o ≢ org
    → orgs_of o (replace_org org x xs) ≡ orgs_of o xs
unfolding replace_org
replace_org-others org o x [] n = refl
replace_org-others org o x (y ∷ ys) n = ground (arith, replace_org-others org o x ys)

module _ (org : String) where
  pub create_member-Elsewhere : (m : Member) → Steps (Elsewhere org) (create_member org m)
  unfolding create_member Elsewhere
  create_member-Elsewhere m = record { at = λ s o n. ground arith }

  pub update_role-Elsewhere :
      (user : String) (r : Role) → Steps (Elsewhere org) (update_role org user r)
  unfolding update_role Elsewhere
  update_role-Elsewhere user r = record {
    at = λ s o n. ground (arith, set_role-others org o n user r s.members);
  }

  pub delete_member-Elsewhere : (user : String) → Steps (Elsewhere org) (delete_member org user)
  unfolding delete_member Elsewhere
  delete_member-Elsewhere user = record {
    at = λ s o n. ground (arith, drop_member-others org o n user s.members);
  }

  pub create_invitation-Elsewhere :
      (i : Invitation) → Steps (Elsewhere org) (create_invitation org i)
  unfolding create_invitation Elsewhere
  create_invitation-Elsewhere i = record { at = λ s o n. ground arith }

  pub update_invite_status-Elsewhere :
      (id : String) (st : InviteStatus) (by : Option String)
      → Steps (Elsewhere org) (update_invite_status org id st by)
  unfolding update_invite_status Elsewhere
  update_invite_status-Elsewhere id st by = record {
    at = λ s o n. ground (arith, set_invite_status-others org o n id st by s.now s.invitations);
  }

  pub create_org-Elsewhere : (x : Organization) → Steps (Elsewhere org) (create_org org x)
  unfolding create_org Elsewhere
  create_org-Elsewhere x = record { at = λ s o n. ground arith }

  pub delete_org-Elsewhere : Steps (Elsewhere org) (delete_org org)
  unfolding delete_org Elsewhere
  delete_org-Elsewhere = record {
    at = λ s o n. ground (
      arith,
      drop_org-others org o n s.orgs,
      drop_members_of-others org o n s.members,
      drop_invitations_of-others org o n s.invitations,
    );
  }

  pub enqueue-Elsewhere :
      (actor resource : String) (p : Payload) → Steps (Elsewhere org) (enqueue org actor resource p)
  unfolding enqueue Elsewhere
  enqueue-Elsewhere actor resource p = record { at = λ s o n. ground arith }

pub update_org-Elsewhere :
    (org : String) (x : Organization) → Steps (Elsewhere org) (update_org org x)
unfolding update_org Elsewhere
update_org-Elsewhere org x = record {
  at = λ s o n. ground (arith, replace_org-others org o x s.orgs n);
}

pub ruleset writes = (
  update_org-Elsewhere, create_member-Elsewhere, update_role-Elsewhere, delete_member-Elsewhere,
  create_invitation-Elsewhere, update_invite_status-Elsewhere, create_org-Elsewhere,
  delete_org-Elsewhere, enqueue-Elsewhere,
)
