-- ===== src/Tenant/Owners/Creation.antt =====
-- What `CreateOrganization` does to the memberships: proofs about Tenant.Service.
use final_bds.Prelude.{false, String, [], ◌∷◌, ◌≡◌, ◌≢◌, ◌⊎◌, inl, inr, refl, arith, none}
use final_bds.Errors.{ok, Result-cases}
use final_bds.Text.{Text, trim_space, to_lower}
use final_bds.Exec.{◌>>=◌, attempt}
use final_bds.Tenant.{owner, active, org_active, Organization, Member, Db}
use final_bds.Tenant.Store.{has_member, count_role, has_org, enqueue, create_org, create_member}
use final_bds.Tenant.Service.{Config, create_organization, found_organization}
use final_bds.Tenant.Invariant.{Keeps}

-- What `CreateOrganization` leaves: the database as it was, or a new organisation whose only
-- membership is the caller's, as owner.
pub record Created (id user : String) (s t : Db) : Type 0 where
  pub founder : Member
  pub its_org : founder.org_id ≡ id
  pub its_user : founder.user_id ≡ user
  pub its_role : founder.role ≡ owner
  pub fresh : has_member id user s.members ≡ false
  pub members : t.members ≡ founder ∷ s.members
  pub has : (o : String) → o ≢ id → has_org o t.orgs ≡ has_org o s.orgs

found_organization_outcome :
    (user : String) (o : Organization) (s : Db) (a : Unit {0})
    → (found_organization user o s).0 ≡ ok a
    → Created o.id user s (found_organization user o s).1
unfolding found_organization ◌>>=◌ attempt create_org create_member enqueue has_org
found_organization_outcome user o s a done = record {
  founder = record {
    org_id = o.id;
    user_id = user;
    role = owner;
    status = active;
    invited_by = none;
  };
  its_org = refl;
  its_user = refl;
  its_role = refl;
  fresh = ground arith;
  members = ground arith;
  has = λ o n. ground arith;
}

new_organization : String → Text → Text → Organization
new_organization id name slug = record {
  id = id;
  name = trim_space name;
  slug = to_lower (trim_space slug);
  plan = b'f' ∷ b'r' ∷ b'e' ∷ b'e' ∷ [];
  org_status = org_active;
  version = 1;
}

create_organization_runs :
    (c : Config) (id user : String) (name slug : Text) (s : Db)
    → ((create_organization c id user name slug s).1 ≡ s)
      ⊎ ((a : Unit {0}) × ((found_organization user (new_organization id name slug) s).0 ≡ ok a)
          × ((create_organization c id user name slug s).1
              ≡ (found_organization user (new_organization id name slug) s).1))
unfolding create_organization ◌>>=◌ new_organization
create_organization_runs c id user name slug s =
    elim (Result-cases (found_organization user (new_organization id name slug) s).0) [
      | inl (e, failed) ↦ inl (ground arith)
      | inr (a, done) ↦ elim (Result-cases (create_organization c id user name slug s).0) [
        | inl (e, failed) ↦ inl (ground arith)
        | inr (o, k) ↦ inr (a, done, ground arith)
      ]
    ]

pub create_organization_outcome :
    (c : Config) (id user : String) (name slug : Text) (s : Db)
    → ((create_organization c id user name slug s).1 ≡ s)
      ⊎ Created id user s (create_organization c id user name slug s).1
unfolding new_organization
create_organization_outcome c id user name slug s =
    elim (create_organization_runs c id user name slug s) [
      | inl same ↦ inl same
      | inr (a, done, e) ↦
          inr (rw e (found_organization_outcome user (new_organization id name slug) s a done))
    ]

pub Created-Keeps : (id user : String) (s t : Db) → Created id user s t → Keeps s t
unfolding Keeps count_role
Created-Keeps id user s t d v = record {
  unique = ground (arith, v.unique, d.members, d.fresh, d.its_org, d.its_user);
  owned = λ o h. ground (arith, v.owned o, d.members, d.its_org, d.its_role, d.has o);
}
