-- ===== src/Samples/Tenants.antt =====
-- The tenant service at a concrete database: an organisation with an owner and an admin, an open
-- invitation, and a second organisation.
use final_bds.Prelude.{
  true, String, [], ◌∷◌, none, some, ◌≡◌, ◌≢◌, ◌⊎◌, refl, apart, dec_text, sym, ℕ_discrete, arith,
  ◌≤◌,
}
use final_bds.Errors.{ok, err, is_not_found, find_app, from, code}
use final_bds.Text.{
  Text, Text-discrete, trim_space, trim_left, trim_right, is_space, to_lower, lower_byte, is_blank,
}
use final_bds.Exec.{◌>>=◌, attempt}
use final_bds.Authz.{
  Action-discrete, manage_members, new_policy_authorizer, authorize, any_org_grant, default_org,
  set, all_actions,
}
use final_bds.Tenant.{
  Role, Role-discrete, owner, admin, viewer, active, pending, org_active, Organization, Member,
  Invitation, Db, err_last_owner, err_invite_not_usable, to_authz_role,
}
use final_bds.Tenant.Store.{
  has_org, count_role, count_by_role, select_by_user, select_by_hash, has_member, get_by_user,
  get_by_token_hash, create_member, set_invite_status, has_invitation, update_invite_status,
  enqueue,
}
use final_bds.Tenant.Service.{
  Config, Identity, load_member, is_owner, normalize_email, authorize as authorize_caller,
}
use final_bds.Tenant.Membership.{
  accept_invite, accept_found, join, admit, change_role, remove_member,
}
use final_bds.Tenant.Calls.{step, run, target, accepts, removes, changes}
use final_bds.Tenant.Invariant.{IsValid}
use final_bds.Tenant.Owners.{run-IsValid}
use final_bds.Tenant.Owners.Removal.{Removed, remove_member_outcome}
use final_bds.Tenant.Owners.Change.{Changed, change_role_outcome}
use final_bds.Tenant.Isolation.{step_isolated}
use final_bds.Tenant.Isolation.Tables.{view}
use final_bds.Tenant.Atomic.{answer, step_atomic}
use final_bds.Tenant.Invites.{IsAcceptable, Admitted, accept_invite_sound, accept_invite_once}

abbrev config : Config
config = record {
  authorizer = new_policy_authorizer;
  hash_token = λ t. elim t [ [] ↦ "none" | b ∷ bs ↦ "hash" ];
  clock = 100;
  invite_ttl = 50;
}

abbrev acme : Organization
acme = record {
  id = "acme";
  name = 65 ∷ 99 ∷ [];
  slug = 97 ∷ 99 ∷ [];
  plan = [];
  org_status = org_active;
  version = 1;
}

abbrev olga : Member
olga = record {
  org_id = "acme";
  user_id = "olga";
  role = owner;
  status = active;
  invited_by = none;
}

abbrev ada : Member
ada = record { org_id = "acme"; user_id = "ada"; role = admin; status = active; invited_by = none }

abbrev ivan_email : Text
ivan_email = 105 ∷ 64 ∷ 120 ∷ 46 ∷ 121 ∷ []

abbrev letter : Invitation
letter = record {
  invitation_id = "i1";
  org_id = "acme";
  email = ivan_email;
  role = viewer;
  token_hash = "hash";
  invite_status = pending;
  invited_by = some "ada";
  expires_at = 120;
  accepted_by = none;
  accepted_at = none;
}

abbrev db : Db
db = record {
  orgs = acme ∷ [];
  members = olga ∷ ada ∷ [];
  invitations = letter ∷ [];
  project_orgs = [];
  outbox = [];
  now = 100;
}

abbrev ivan : Identity
ivan = record { user_id = "ivan"; email = ivan_email }

abbrev token : Text
token = 116 ∷ []

only_acme : (org : String) → has_org org db.orgs ≡ true → "acme" ≡ org
unfolding has_org
only_acme org h = ground arith

acme_owned : 1 ≤ count_role "acme" owner db.members
unfolding count_role dec_text Role-discrete
acme_owned = omega arith

db-IsValid : IsValid db
unfolding has_member dec_text
db-IsValid = record {
  unique = (refl, (refl, tt));
  owned = λ org h. rw (sym (only_acme org h)) acme_owned;
}

run-IsValid_example : IsValid (
    run config
      (removes "ada" "acme" "olga" ∷ accepts ivan token ∷ changes "olga" "acme" "ada" owner ∷ [])
      db)
run-IsValid_example =
    run-IsValid config
      (removes "ada" "acme" "olga" ∷ accepts ivan token ∷ changes "olga" "acme" "ada" owner ∷ []) db
      db-IsValid

other_target : target config (removes "olga" "acme" "ada") db ≢ some "globex"
unfolding dec_text
other_target e = apart "acme" "globex" refl (cc e)

step_isolated_example :
    view "globex" (step config (removes "olga" "acme" "ada") db) ≡ view "globex" db
step_isolated_example = step_isolated config (removes "olga" "acme" "ada") db "globex" other_target

last_owner_refused : answer config (removes "olga" "acme" "olga") db ≡ some err_last_owner
unfolding remove_member authorize_caller load_member select_by_user get_by_user dec_text ◌>>=◌
    attempt authorize any_org_grant new_policy_authorizer default_org set all_actions
    Action-discrete to_authz_role count_role Role-discrete is_owner count_by_role
last_owner_refused = refl

step_atomic_example : step config (removes "olga" "acme" "olga") db ≡ db
step_atomic_example =
    step_atomic config (removes "olga" "acme" "olga") db err_last_owner last_owner_refused

remove_member_outcome_example :
    ((remove_member config "olga" "acme" "ada" db).1 ≡ db)
    ⊎ ((r : Role) × ((authorize_caller config "acme" "olga" manage_members db).0 ≡ ok r)
        × Removed r "acme" "ada" db (remove_member config "olga" "acme" "ada" db).1)
remove_member_outcome_example = remove_member_outcome config "olga" "acme" "ada" db

change_role_outcome_example :
    ((change_role config "olga" "acme" "ada" owner db).1 ≡ db)
    ⊎ ((r : Role) × ((authorize_caller config "acme" "olga" manage_members db).0 ≡ ok r)
        × Changed r "acme" "ada" owner db (change_role config "olga" "acme" "ada" owner db).1)
change_role_outcome_example = change_role_outcome config "olga" "acme" "ada" owner db

abbrev newcomer : Member
newcomer = record {
  org_id = "acme";
  user_id = "ivan";
  role = viewer;
  status = active;
  invited_by = some "ada";
}

ivan_accepts : (accept_invite config ivan token db).0 ≡ ok newcomer
unfolding accept_invite accept_found join admit get_by_token_hash select_by_hash get_by_user
    select_by_user has_member create_member update_invite_status has_invitation set_invite_status
    enqueue dec_text ◌>>=◌ attempt is_not_found from code find_app normalize_email trim_space
    trim_left trim_right is_space to_lower lower_byte Text-discrete is_blank ℕ_discrete
ivan_accepts = refl

accept_invite_sound_example :
    (i : Invitation) × (select_by_hash (config.hash_token token) db.invitations ≡ ok i)
    × IsAcceptable config ivan i
    × Admitted "ivan" i newcomer db (accept_invite config ivan token db).1
accept_invite_sound_example = accept_invite_sound config ivan token db newcomer ivan_accepts

accept_invite_once_example :
    (accept_invite config ivan token (accept_invite config ivan token db).1).0
    ≡ err err_invite_not_usable
accept_invite_once_example = accept_invite_once config ivan ivan token db newcomer ivan_accepts
