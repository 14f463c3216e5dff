-- ===== src/Tenant/Store/Rows.antt =====
-- The repositories of backend/services/tenant/internal/repository.go: each SQL statement as a
-- function on the tables, with the constraints of backend/migrations/tenant. `org` is the tenant
-- that a statement runs for: row-level security shows it the rows of that organisation only, and
-- admits no row of another.
use final_bds.Prelude.{
  ℕ, ◌+◌, Bool, true, false, String, List, [], ◌∷◌, Option, some, ◌&&◌, ◌||◌, text_is, dec_text,
  ite, if◌then◌else◌,
}
use final_bds.Errors.{Err, plain, conflict_error, not_found_error, Result, ok, err}
use final_bds.Exec.{Exec, gets}
use final_bds.Text.{Text-discrete}
use final_bds.Tenant.{Role, Role-discrete, Member, Invitation, InviteStatus, pending, accepted, Db}

abbrev pub row_security : Err
row_security = plain "new row violates row-level security policy"

abbrev pub already_exists : Err
already_exists = conflict_error "resource already exists"

-- Does the tenant see a membership of the user?
unfoldable pub has_member : String → String → List Member → Bool
has_member org user [] = false
has_member org user (m ∷ ms) =
    ite (dec_text m.org_id org) (ite (dec_text m.user_id user) true (has_member org user ms))
      (has_member org user ms)

-- `memberRepo.Create`: UNIQUE (org_id, user_id).
unfoldable pub create_member : String → Member → Exec Db (Unit {0})
unfolding has_member
create_member org m s =
    ite (dec_text m.org_id org)
      (if has_member org m.user_id s.members
        then (err already_exists, s)
        else (ok tt, record s { members = m ∷ s.members }))
      (err row_security, s)

unfoldable pub select_by_user : String → String → List Member → Result Member
select_by_user org user [] = err (not_found_error "resource not found")
select_by_user org user (m ∷ ms) =
    ite (dec_text m.org_id org) (ite (dec_text m.user_id user) (ok m) (select_by_user org user ms))
      (select_by_user org user ms)

-- `memberRepo.GetByUser`.
unfoldable pub get_by_user : String → String → Exec Db Member
get_by_user org user = gets (λ s. select_by_user org user s.members)

unfoldable pub count_role : String → Role → List Member → ℕ
unfolding Role-discrete
count_role org r [] = 0
count_role org r (m ∷ ms) =
    ite (dec_text m.org_id org) (ite (Role-discrete m.role r) 1 0) 0 + count_role org r ms

-- `memberRepo.CountByRole`.
unfoldable pub count_by_role : String → Role → Exec Db ℕ
count_by_role org r = gets (λ s. ok (count_role org r s.members))

unfoldable pub set_role : String → String → Role → List Member → List Member
set_role org user r [] = []
set_role org user r (m ∷ ms) =
    ite (dec_text m.org_id org) (ite (dec_text m.user_id user) (record m { role = r }) m) m
    ∷ set_role org user r ms

-- `memberRepo.UpdateRole`.
unfoldable pub update_role : String → String → Role → Exec Db (Unit {0})
unfolding has_member set_role
update_role org user r s =
    if has_member org user s.members
    then (ok tt, record s { members = set_role org user r s.members })
    else (err (not_found_error "member not found"), s)

unfoldable pub drop_member : String → String → List Member → List Member
drop_member org user [] = []
drop_member org user (m ∷ ms) =
    ite (dec_text m.org_id org)
      (ite (dec_text m.user_id user) (drop_member org user ms) (m ∷ drop_member org user ms))
      (m ∷ drop_member org user ms)

-- `memberRepo.Delete`.
unfoldable pub delete_member : String → String → Exec Db (Unit {0})
unfolding has_member drop_member
delete_member org user s =
    if has_member org user s.members
    then (ok tt, record s { members = drop_member org user s.members })
    else (err (not_found_error "member not found"), s)

abbrev pub is_pending : InviteStatus → Bool
is_pending pending = true
is_pending _ = false

-- The two unique indexes on invitations: the token hash, and (org_id, email) among the pending ones.
unfoldable pub clashes : Invitation → List Invitation → Bool
unfolding Text-discrete
clashes i [] = false
clashes i (j ∷ js) =
    text_is j.token_hash i.token_hash
    || (text_is j.org_id i.org_id
        && ite (Text-discrete j.email i.email) true false
        && is_pending j.invite_status
        && is_pending i.invite_status)
    || clashes i js

-- `invitationRepo.Create`.
unfoldable pub create_invitation : String → Invitation → Exec Db (Unit {0})
unfolding clashes
create_invitation org i s =
    ite (dec_text i.org_id org)
      (if clashes i s.invitations
        then (err already_exists, s)
        else (ok tt, record s { invitations = i ∷ s.invitations }))
      (err row_security, s)

unfoldable pub select_by_hash : String → List Invitation → Result Invitation
select_by_hash hash [] = err (not_found_error "resource not found")
select_by_hash hash (i ∷ is) = ite (dec_text i.token_hash hash) (ok i) (select_by_hash hash is)

-- `invitationRepo.GetByTokenHash`, which reads across tenants, on the pool and not in a tenant's
-- transaction. The table is the one that a database role sees which row-level security does not bind:
-- backend/migrations/tenant/0004_force_rls_memberships.up.sql shows any other role no row here.
unfoldable pub get_by_token_hash : String → Exec Db Invitation
get_by_token_hash hash = gets (λ s. select_by_hash hash s.invitations)

unfoldable pub select_invitation : String → String → List Invitation → Result Invitation
select_invitation org id [] = err (not_found_error "resource not found")
select_invitation org id (i ∷ is) =
    ite (dec_text i.org_id org)
      (ite (dec_text i.invitation_id id) (ok i) (select_invitation org id is))
      (select_invitation org id is)

-- `invitationRepo.GetByID`.
unfoldable pub get_invitation : String → String → Exec Db Invitation
get_invitation org id = gets (λ s. select_invitation org id s.invitations)

abbrev stamp : InviteStatus → ℕ → Option ℕ → Option ℕ
stamp accepted now old = some now
stamp _ now old = old

unfoldable pub set_invite_status :
    String → String → InviteStatus → Option String → ℕ → List Invitation → List Invitation
set_invite_status org id st by now [] = []
set_invite_status org id st by now (i ∷ is) =
    ite (dec_text i.org_id org)
      (ite (dec_text i.invitation_id id)
        (record i {
          invite_status = st;
          accepted_by = by;
          accepted_at = stamp st now i.accepted_at;
        })
        i)
      i
    ∷ set_invite_status org id st by now is

unfoldable pub has_invitation : String → String → List Invitation → Bool
has_invitation org id [] = false
has_invitation org id (i ∷ is) =
    ite (dec_text i.org_id org) (ite (dec_text i.invitation_id id) true (has_invitation org id is))
      (has_invitation org id is)

-- `invitationRepo.UpdateStatus`.
unfoldable pub update_invite_status :
    String → String → InviteStatus → Option String → Exec Db (Unit {0})
unfolding has_invitation set_invite_status
update_invite_status org id st by s =
    if has_invitation org id s.invitations
    then (ok tt, record s { invitations = set_invite_status org id st by s.now s.invitations })
    else (err (not_found_error "invitation not found"), s)
