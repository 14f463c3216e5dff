-- ===== src/Tenant/Calls.antt =====
-- The writing methods of the tenant service as calls, and what a sequence of calls makes of the
-- database. Each call carries what it takes from outside: the fresh ids and the random token.
use final_bds.Prelude.{String, Option, some, none, List, [], ◌∷◌}
use final_bds.Errors.{Result, ok, err}
use final_bds.Text.{Text}
use final_bds.Tenant.{Role, Invitation, Db}
use final_bds.Tenant.Store.{select_by_hash}
use final_bds.Tenant.Service.{
  Config, Identity, create_organization, update_organization, delete_organization,
}
use final_bds.Tenant.Membership.{
  invite_member, accept_invite, revoke_invitation, remove_member, change_role,
}

pub data Call : Type 0 where
  creates : String → String → Text → Text → Call
  updates : String → String → Option Text → Option Text → Call
  deletes : String → String → Call
  invites : String → Text → String → String → Text → Role → Call
  accepts : Identity → Text → Call
  revokes : String → String → String → Call
  removes : String → String → String → Call
  changes : String → String → String → Role → Call

unfoldable pub step : Config → Call → Db → Db
step c (creates id user name slug) s = (create_organization c id user name slug s).1
step c (updates user org name plan) s = (update_organization c user org name plan s).1
step c (deletes user org) s = (delete_organization c user org s).1
step c (invites id token user org email r) s = (invite_member c id token user org email r s).1
step c (accepts caller token) s = (accept_invite c caller token s).1
step c (revokes user org id) s = (revoke_invitation c user org id s).1
step c (removes user org target) s = (remove_member c user org target s).1
step c (changes user org target r) s = (change_role c user org target r s).1

unfoldable pub run : Config → List Call → Db → Db
run c [] s = s
run c (call ∷ calls) s = run c calls (step c call s)

abbrev org_of : Result Invitation → Option String
org_of (ok i) = some i.org_id
org_of (err e) = none

-- The organisation that a call is for; an acceptance is for the organisation of the invitation that
-- its token selects.
abbrev pub target : Config → Call → Db → Option String
target c (creates id user name slug) s = some id
target c (updates user org name plan) s = some org
target c (deletes user org) s = some org
target c (invites id token user org email r) s = some org
target c (accepts caller token) s = org_of (select_by_hash (c.hash_token token) s.invitations)
target c (revokes user org id) s = some org
target c (removes user org user') s = some org
target c (changes user org user' r) s = some org
