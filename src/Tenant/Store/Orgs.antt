-- ===== src/Tenant/Store/Orgs.antt =====
-- The organisation repository of backend/services/tenant/internal/repository.go, and the outbox of
-- backend/libs/events/outbox.go. The tenant of a statement sees the organisation of that id only.
use final_bds.Prelude.{
  suc, Bool, true, false, String, List, [], ◌∷◌, ◌||◌, ◌&&◌, text_is, dec_text, ite, if◌then◌else◌,
  ◌==◌,
}
use final_bds.Errors.{plain, conflict_error, not_found_error, validation_error, Result, ok, err}
use final_bds.Exec.{Exec, gets}
use final_bds.Text.{Text-discrete}
use final_bds.Tenant.{Organization, Member, Invitation, Payload, Db}
use final_bds.Tenant.Store.Rows.{already_exists, row_security}

unfoldable pub org_clashes : Organization → List Organization → Bool
unfolding Text-discrete
org_clashes o [] = false
org_clashes o (p ∷ ps) =
    text_is p.id o.id || ite (Text-discrete p.slug o.slug) true false || org_clashes o ps

-- `orgRepo.Create`: the primary key and the unique slug.
unfoldable pub create_org : String → Organization → Exec Db (Unit {0})
unfolding org_clashes
create_org org o s =
    ite (dec_text o.id org)
      (if org_clashes o s.orgs
        then (err already_exists, s)
        else (ok tt, record s { orgs = o ∷ s.orgs }))
      (err row_security, s)

unfoldable pub select_org : String → List Organization → Result Organization
select_org id [] = err (not_found_error "resource not found")
select_org id (o ∷ os) = ite (dec_text o.id id) (ok o) (select_org id os)

-- `orgRepo.GetByID`, for the tenant of the same id.
unfoldable pub get_org : String → Exec Db Organization
get_org org = gets (λ s. select_org org s.orgs)

unfoldable pub replace_org : String → Organization → List Organization → List Organization
replace_org org o [] = []
replace_org org o (p ∷ ps) =
    ite (dec_text p.id org)
      (if text_is p.id o.id && p.version == o.version
        then record p {
          name = o.name;
          plan = o.plan;
          org_status = o.org_status;
          version = suc p.version;
        }
        else p)
      p
    ∷ replace_org org o ps

unfoldable pub has_version : String → Organization → List Organization → Bool
has_version org o [] = false
has_version org o (p ∷ ps) =
    ite (dec_text p.id org) (text_is p.id o.id && p.version == o.version) false
    || has_version org o ps

-- `orgRepo.Update`, with its optimistic lock.
unfoldable pub update_org : String → Organization → Exec Db (Unit {0})
unfolding replace_org has_version
update_org org o s =
    if has_version org o s.orgs
    then (ok tt, record s { orgs = replace_org org o s.orgs })
    else (err (conflict_error "resource was modified concurrently; reload and retry"), s)

unfoldable pub has_org : String → List Organization → Bool
has_org id [] = false
has_org id (o ∷ os) = ite (dec_text o.id id) true (has_org id os)

unfoldable pub drop_org : String → List Organization → List Organization
drop_org id [] = []
drop_org id (o ∷ os) = ite (dec_text o.id id) (drop_org id os) (o ∷ drop_org id os)

unfoldable pub drop_members_of : String → List Member → List Member
drop_members_of id [] = []
drop_members_of id (m ∷ ms) =
    ite (dec_text m.org_id id) (drop_members_of id ms) (m ∷ drop_members_of id ms)

unfoldable pub drop_invitations_of : String → List Invitation → List Invitation
drop_invitations_of id [] = []
drop_invitations_of id (i ∷ is) =
    ite (dec_text i.org_id id) (drop_invitations_of id is) (i ∷ drop_invitations_of id is)

unfoldable pub mentions : String → List String → Bool
mentions id [] = false
mentions id (p ∷ ps) = ite (dec_text p id) true (mentions id ps)

-- `orgRepo.Delete`: a project of the organisation restricts it; memberships and invitations go with
-- the organisation.
unfoldable pub delete_org : String → Exec Db (Unit {0})
unfolding has_org drop_org drop_members_of drop_invitations_of mentions
delete_org id s =
    if has_org id s.orgs
    then if mentions id s.project_orgs
      then (err (validation_error "referenced resource does not exist"), s)
      else (
        ok tt,
        record s {
          orgs = drop_org id s.orgs;
          members = drop_members_of id s.members;
          invitations = drop_invitations_of id s.invitations;
        },
      )
    else (err (not_found_error "organization not found"), s)

-- `Service.enqueue` and `PostgresOutbox.Enqueue`: an envelope without an organisation is invalid.
unfoldable pub enqueue : String → String → String → Payload → Exec Db (Unit {0})
enqueue org actor resource payload s =
    ite (dec_text org "") (err (plain "events: envelope missing orgId"), s)
      (
        ok tt,
        record s {
          outbox =
              record { event_org = org; actor = actor; resource = resource; payload = payload }
              ∷ s.outbox;
        },
      )
