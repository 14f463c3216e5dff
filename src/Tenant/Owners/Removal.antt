-- ===== src/Tenant/Owners/Removal.antt =====
-- What `RemoveMember` does to the memberships: proofs about Tenant.Membership.
use final_bds.Prelude.{◌<◌, true, false, String, ◌≡◌, ◌≢◌, ◌⊎◌, inl, inr, refl, arith, dec_text}
use final_bds.Errors.{ok, Result-cases}
use final_bds.Exec.{◌>>=◌, attempt}
use final_bds.Exec.Steps.{Same}
use final_bds.Authz.{manage_members}
use final_bds.Tenant.{Role, owner, Member, Db}
use final_bds.Tenant.Store.{
  select_by_user, count_role, count_by_role, drop_member, get_by_user, delete_member, enqueue,
}
use final_bds.Tenant.Service.{Config, authorize, is_owner}
use final_bds.Tenant.Membership.{not_last_owner, remove_member}
use final_bds.Tenant.Counting.{
  drop_member-AreUnique, count_role-drop_member, count_role-drop_member_other,
}
use final_bds.Tenant.Invariant.{Keeps, authorize-Same}

pub is_owner-not : (r : Role) → r ≢ owner → is_owner r ≡ false
unfolding is_owner
is_owner-not owner n = absurd (n refl)
is_owner-not _ n = refl

pub is_owner-owner : (r : Role) → r ≡ owner → is_owner r ≡ true
unfolding is_owner
is_owner-owner owner e = refl
is_owner-owner _ e = cc

pub owner-is_owner : (r : Role) → is_owner r ≡ true → r ≡ owner
unfolding is_owner
owner-is_owner owner e = refl
owner-is_owner _ e = cc

-- What `RemoveMember` leaves: the database as it was, or the target is gone, who was not an owner
-- or not the only one.
pub record Removed (caller_role : Role) (org target : String) (s t : Db) : Type 0 where
  pub gone : Member
  pub was : select_by_user org target s.members ≡ ok gone
  pub may : gone.role ≡ owner → (caller_role ≡ owner) × (1 < count_role org owner s.members)
  pub members : t.members ≡ drop_member org target s.members
  pub orgs : t.orgs ≡ s.orgs

module _ (c : Config) (user org target : String) (s : Db) where
  removal_or_same :
      (r : Role) (m : Member)
      → (authorize c org user manage_members s).0 ≡ ok r
      → select_by_user org target s.members ≡ ok m
      → ((remove_member c user org target s).1 ≡ s)
        ⊎ Removed r org target s (remove_member c user org target s).1
  unfolding remove_member not_last_owner ◌>>=◌ attempt get_by_user count_by_role delete_member
      enqueue Same
  removal_or_same r m allowed found = elim (Result-cases (remove_member c user org target s).0) [
    | inl (e, failed) ↦ inl (ground (arith, (authorize-Same c user org).at s))
    | inr (a, done) ↦ inr (record {
      gone = m;
      was = found;
      may = λ e. (
        owner-is_owner r
            (ground (arith, (authorize-Same c user org).at s, is_owner-owner m.role e)),
        ground (arith, (authorize-Same c user org).at s, is_owner-owner m.role e),
      );
      members = ground (arith, (authorize-Same c user org).at s);
      orgs = ground (arith, (authorize-Same c user org).at s);
    })
  ]

  -- `RemoveMember` leaves the database as it was, or the policy lets the caller manage members and the
  -- target's membership is gone; if the target was an owner, so is the caller, and there was more than
  -- one owner. No other membership and no organisation changes.
  pub remove_member_outcome :
      ((remove_member c user org target s).1 ≡ s)
      ⊎ ((r : Role) × ((authorize c org user manage_members s).0 ≡ ok r)
          × Removed r org target s (remove_member c user org target s).1)
  unfolding remove_member ◌>>=◌ attempt get_by_user Same
  remove_member_outcome = elim (Result-cases (authorize c org user manage_members s).0) [
    | inl (e, refused) ↦ inl (ground (arith, (authorize-Same c user org).at s))
    | inr (r, allowed) ↦ elim (Result-cases (select_by_user org target s.members)) [
      | inl (e, missing) ↦ inl (ground (arith, (authorize-Same c user org).at s))
      | inr (m, found) ↦ elim (removal_or_same r m allowed found) [
        | inl same ↦ inl same
        | inr removed ↦ inr (r, allowed, removed)
      ]
    ]
  ]

pub Removed-Keeps :
    (r : Role) (org target : String) (s t : Db) → Removed r org target s t → Keeps s t
unfolding Keeps count_role
Removed-Keeps r org target s t d v =
    let counted = count_role-drop_member org target owner s.members d.gone v.unique d.was in
    record {
      unique = rw d.members (drop_member-AreUnique org target s.members v.unique);
      owned = λ o h. elim (dec_text o org) [
        | yes e ↦ ground (arith, counted, d.may, v.owned o, d.members, d.orgs)
        | no n ↦ ground (
          arith,
          count_role-drop_member_other org target o owner s.members n,
          v.owned o,
          d.members,
          d.orgs,
        )
      ];
    }
