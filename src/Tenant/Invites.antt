-- ===== src/Tenant/Invites.antt =====
-- Invitations: who may accept one, what an acceptance leaves, and that it happens once. Proofs about
-- Tenant.Membership.
use final_bds.Prelude.{
  ℕ, ◌<◌, true, false, String, Option, some, List, [], ◌∷◌, ◌≡◌, inl, inr, refl, sym, arith,
  dec_text, Bool-cases,
}
use final_bds.Errors.{ok, err, Result-cases}
use final_bds.Text.{Text, trim_space, is_blank}
use final_bds.Exec.{◌>>=◌, attempt}
use final_bds.Tenant.{
  active, InviteStatus, pending, accepted, Member, Invitation, Db, err_invite_not_usable,
}
use final_bds.Tenant.Store.{
  has_member, select_by_hash, set_invite_status, get_by_user, get_by_token_hash, create_member,
  update_invite_status, enqueue, is_pending,
}
use final_bds.Tenant.Service.{Config, Identity, normalize_email}
use final_bds.Tenant.Membership.{admit, join, accept_found, accept_invite}

-- The writes of an acceptance: the caller becomes a member with the invitation's role, and the
-- invitation is accepted.
pub record Admitted (user : String) (i : Invitation) (m : Member) (s t : Db) : Type 0 where
  pub stranger : has_member i.org_id user s.members ≡ false
  pub its_org : m.org_id ≡ i.org_id
  pub its_user : m.user_id ≡ user
  pub its_role : m.role ≡ i.role
  pub members : t.members ≡ m ∷ s.members
  pub invitations :
      t.invitations
      ≡ set_invite_status i.org_id i.invitation_id accepted (some user) s.now s.invitations

module _ (caller : Identity) (i : Invitation) (m : Member) (s : Db) where
  admit_writes :
      (a : Unit {0})
      → m.org_id ≡ i.org_id
      → m.user_id ≡ caller.user_id
      → m.role ≡ i.role
      → (admit caller i m s).0 ≡ ok a
      → Admitted caller.user_id i m s (admit caller i m s).1
  unfolding admit ◌>>=◌ attempt create_member update_invite_status enqueue
  admit_writes a org user role done = record {
    stranger = ground arith;
    its_org = org;
    its_user = user;
    its_role = role;
    members = ground arith;
    invitations = ground arith;
  }

  join_admits :
      (a : Unit {0}) → (join caller i m s).0 ≡ ok a → join caller i m s ≡ admit caller i m s
  unfolding join attempt get_by_user ◌>>=◌
  join_admits a done = ground arith

-- The caller may accept the invitation: it is pending and not yet expired, and was sent to the
-- caller's own address.
pub record IsAcceptable (c : Config) (caller : Identity) (i : Invitation) : Type 0 where
  pub is_open : i.invite_status ≡ pending
  pub in_time : c.clock < i.expires_at
  pub same_address : normalize_email i.email ≡ normalize_email caller.email

pending-is_pending : (st : InviteStatus) → is_pending st ≡ true → st ≡ pending
pending-is_pending pending h = refl
pending-is_pending _ h = cc

module _ (c : Config) (caller : Identity) (i : Invitation) (s : Db) where
  accept_found_guards :
      (m : Member) → (accept_found c caller i s).0 ≡ ok m → IsAcceptable c caller i
  unfolding accept_found ◌>>=◌
  accept_found_guards m done = record {
    is_open = pending-is_pending i.invite_status (ground arith);
    in_time = ground arith;
    same_address = ground arith;
  }

  -- The membership that the invitation gives.
  its_member : Member
  its_member = record {
    org_id = i.org_id;
    user_id = caller.user_id;
    role = i.role;
    status = active;
    invited_by = i.invited_by;
  }

  accept_found_joins :
      (m : Member)
      → (accept_found c caller i s).0 ≡ ok m
      → (a : Unit {0}) × (m ≡ its_member)
        × ((join caller i its_member s).0 ≡ ok a)
        × ((accept_found c caller i s).1 ≡ (join caller i its_member s).1)
  unfolding accept_found ◌>>=◌ its_member
  accept_found_joins m done = elim (Result-cases (join caller i its_member s).0) [
    | inl (e, failed) ↦ absurd (ground arith)
    | inr (a, joined) ↦ (a, ground arith, joined, ground arith)
  ]

  accept_found_admits :
      (m : Member)
      → (accept_found c caller i s).0 ≡ ok m
      → Admitted caller.user_id i m s (accept_found c caller i s).1
  unfolding its_member
  accept_found_admits m done =
      let (a, e, joined, left) = accept_found_joins m done in
      let admits = join_admits caller i its_member s a joined in
      rw (e, left, admits)
        (admit_writes caller i its_member s a refl refl refl (rw (sym admits) joined))

-- If `AcceptInvite` succeeds, the token selects an invitation that is pending, not yet expired and
-- addressed to the caller; the caller was no member before, and is now a member with the role of the
-- invitation, which is marked as accepted by the caller; no other membership has changed.
pub accept_invite_sound :
    (c : Config) (caller : Identity) (token : Text) (s : Db) (m : Member)
    → (accept_invite c caller token s).0 ≡ ok m
    → (i : Invitation) × (select_by_hash (c.hash_token token) s.invitations ≡ ok i)
      × IsAcceptable c caller i
      × Admitted caller.user_id i m s (accept_invite c caller token s).1
unfolding accept_invite ◌>>=◌ attempt get_by_token_hash
accept_invite_sound c caller token s m done =
    elim (Result-cases (select_by_hash (c.hash_token token) s.invitations)) [
      | inl (e, missing) ↦ absurd (ground arith)
      | inr (i, found) ↦
          let accepts : (accept_found c caller i s).0 ≡ ok m = ground arith in
          let left : (accept_invite c caller token s).1 ≡ (accept_found c caller i s).1 =
            ground arith in
          (
            i,
            found,
            accept_found_guards c caller i s m accepts,
            rw left (accept_found_admits c caller i s m accepts),
          )
    ]

-- The status of the invitation that a token selects, once it is marked.
select_by_hash-set_invite_status :
    (hash : String) (i : Invitation) (by : Option String) (now : ℕ) (is : List Invitation)
    → select_by_hash hash is ≡ ok i
    → (j : Invitation) × (select_by_hash hash
          (set_invite_status i.org_id i.invitation_id accepted by now is)
        ≡ ok j)
      × (j.invite_status ≡ accepted)
unfolding select_by_hash set_invite_status
select_by_hash-set_invite_status hash i by now [] h = cc
select_by_hash-set_invite_status hash i by now (x ∷ is) h = elim (dec_text x.token_hash hash) [
  | yes e ↦ (
    record x { invite_status = accepted; accepted_by = by; accepted_at = some now },
    ground arith,
    refl,
  )
  | no n ↦
      let (j, found, st) = select_by_hash-set_invite_status hash i by now is (ground arith) in
      (j, ground arith, st)
]

accept_closed :
    (c : Config) (caller : Identity) (token : Text) (s : Db) (j : Invitation)
    → is_blank (trim_space token) ≡ false
    → select_by_hash (c.hash_token token) s.invitations ≡ ok j
    → j.invite_status ≡ accepted
    → (accept_invite c caller token s).0 ≡ err err_invite_not_usable
unfolding accept_invite accept_found ◌>>=◌ attempt get_by_token_hash
accept_closed c caller token s j given found st = ground arith

token_given :
    (c : Config) (caller : Identity) (token : Text) (s : Db) (m : Member)
    → (accept_invite c caller token s).0 ≡ ok m
    → is_blank (trim_space token) ≡ false
unfolding accept_invite ◌>>=◌
token_given c caller token s m done = elim (Bool-cases (is_blank (trim_space token))) [
  | inl e ↦ absurd (ground arith)
  | inr e ↦ e
]

-- An invitation is accepted once: after `AcceptInvite` has succeeded with a token, a further call
-- with that token is refused, whoever makes it.
pub accept_invite_once :
    (c : Config) (caller other : Identity) (token : Text) (s : Db) (m : Member)
    → (accept_invite c caller token s).0 ≡ ok m
    → (accept_invite c other token (accept_invite c caller token s).1).0 ≡ err err_invite_not_usable
accept_invite_once c caller other token s m done =
    let (i, found, may, left) = accept_invite_sound c caller token s m done in
    let (j, again, st) =
      select_by_hash-set_invite_status (c.hash_token token) i (some caller.user_id) s.now
        s.invitations found in
    accept_closed c other token _ j (token_given c caller token s m done)
      (rw left.invitations again) st
