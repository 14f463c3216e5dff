-- ===== src/Tenant/Owners/Change.antt =====
-- What `ChangeRole` does to the memberships: proofs about Tenant.Membership.
use final_bds.Prelude.{
  ◌<◌, true, false, String, ◌≡◌, ◌≢◌, ◌⊎◌, inl, inr, arith, dec_text, ltb, Bool-cases,
}
use final_bds.Errors.{ok, err, Result-cases}
use final_bds.Exec.{◌>>=◌, attempt}
use final_bds.Exec.Steps.{Same}
use final_bds.Authz.{manage_members}
use final_bds.Tenant.{Role, Role-discrete, owner, valid, Member, Db, err_last_owner}
use final_bds.Tenant.Store.{
  select_by_user, count_role, count_by_role, set_role, get_by_user, update_role, enqueue,
}
use final_bds.Tenant.Service.{Config, authorize, is_owner, same_role}
use final_bds.Tenant.Membership.{not_last_owner, change_found, change_role}
use final_bds.Tenant.Counting.{set_role-AreUnique, count_role-set_role, count_role-set_role_other}
use final_bds.Tenant.Invariant.{Keeps, authorize-Same}
use final_bds.Tenant.Owners.Removal.{is_owner-not, is_owner-owner, owner-is_owner}

-- What `ChangeRole` leaves: the database as it was, or the target has the new role; an owner made or
-- unmade needs an owner, and an owner unmade is not the only one.
pub record Changed (caller_role : Role) (org target : String) (new : Role) (s t : Db) : Type 0 where
  pub old : Member
  pub was : select_by_user org target s.members ≡ ok old
  pub makes : new ≡ owner → caller_role ≡ owner
  pub unmakes :
      old.role ≡ owner → new ≢ owner → (caller_role ≡ owner) × (1 < count_role org owner s.members)
  pub members : t.members ≡ set_role org target new s.members
  pub orgs : t.orgs ≡ s.orgs

module _ (user org target : String) (new r : Role) (m : Member) (s : Db) where
  last_owner_stays :
      m.role ≢ new
      → is_owner m.role ≡ true
      → is_owner new ≡ false
      → is_owner r ≡ true
      → ltb 1 (count_role org owner s.members) ≡ false
      → (change_found user org target new r m s).0 ≡ err err_last_owner
  unfolding change_found not_last_owner ◌>>=◌ count_by_role
  last_owner_stays n was is may few =
      let different : same_role m.role new ≡ false = ground arith in
      simp (different, was, is, may, few)

  several_owners :
      (a : Member)
      → m.role ≢ new
      → is_owner m.role ≡ true
      → is_owner new ≡ false
      → (change_found user org target new r m s).0 ≡ ok a
      → 1 < count_role org owner s.members
  unfolding change_found ◌>>=◌
  several_owners a n was is done = elim (Bool-cases (ltb 1 (count_role org owner s.members))) [
    | inl many ↦ ground arith
    | inr few ↦ absurd (elim (Bool-cases (is_owner r)) [
      | inl may ↦ cc (last_owner_stays n was is may few)
      | inr may ↦ ground arith
    ])
  ]

  change_found_outcome :
      (a : Member)
      → select_by_user org target s.members ≡ ok m
      → (change_found user org target new r m s).0 ≡ ok a
      → ((change_found user org target new r m s).1 ≡ s)
        ⊎ Changed r org target new s (change_found user org target new r m s).1
  unfolding change_found not_last_owner ◌>>=◌ count_by_role update_role enqueue
  change_found_outcome a found done = elim (Role-discrete m.role new) [
    | yes e ↦ inl (ground arith)
    | no n ↦ inr (record {
      old = m;
      was = found;
      makes = λ e. owner-is_owner r (ground (arith, is_owner-owner new e));
      unmakes = λ e k. (
        owner-is_owner r (ground (arith, is_owner-owner m.role e)),
        several_owners a n (is_owner-owner m.role e) (is_owner-not new k) done,
      );
      members = ground arith;
      orgs = ground arith;
    })
  ]

module _ (c : Config) (user org target : String) (new : Role) (s : Db) where
  change_role_runs :
      (r : Role) (m : Member)
      → (authorize c org user manage_members s).0 ≡ ok r
      → select_by_user org target s.members ≡ ok m
      → ((change_role c user org target new s).1 ≡ s)
        ⊎ ((a : Member) × ((change_found user org target new r m s).0 ≡ ok a)
            × ((change_role c user org target new s).1
                ≡ (change_found user org target new r m s).1))
  unfolding change_role ◌>>=◌ attempt get_by_user Same
  change_role_runs r m allowed found =
      let same = (authorize-Same c user org).at s in
      elim (Bool-cases (valid new)) [
        | inr e ↦ inl (ground arith)
        | inl e ↦ elim (Result-cases (change_found user org target new r m s).0) [
          | inl (x, failed) ↦ inl (ground arith)
          | inr (a, done) ↦ elim (dec_text org "") [
            | yes k ↦ inl (ground arith)
            | no n ↦ inr (a, done, ground arith)
          ]
        ]
      ]

  change_or_same :
      (r : Role) (m : Member)
      → (authorize c org user manage_members s).0 ≡ ok r
      → select_by_user org target s.members ≡ ok m
      → ((change_role c user org target new s).1 ≡ s)
        ⊎ Changed r org target new s (change_role c user org target new s).1
  change_or_same r m allowed found = elim (change_role_runs r m allowed found) [
    | inl same ↦ inl same
    | inr (a, done, e) ↦ rw e (elim (change_found_outcome user org target new r m s a found done) [
      | inl same ↦ inl same
      | inr changed ↦ inr changed
    ])
  ]

  -- `ChangeRole` leaves the database as it was, or the policy lets the caller manage members and the
  -- target has the new role; the caller is an owner if an owner is made or unmade, and an owner is
  -- unmade only where there is more than one. No other membership and no organisation changes.
  pub change_role_outcome :
      ((change_role c user org target new s).1 ≡ s)
      ⊎ ((r : Role) × ((authorize c org user manage_members s).0 ≡ ok r)
          × Changed r org target new s (change_role c user org target new s).1)
  unfolding change_role ◌>>=◌ attempt get_by_user Same
  change_role_outcome = elim (Result-cases (authorize c org user manage_members s).0) [
    | inl (e, refused) ↦ inl (ground (arith, (authorize-Same c user org).at s))
    | inr (r, allowed) ↦ elim (Result-cases (select_by_user org target s.members)) [
      | inl (e, missing) ↦ inl (ground (arith, (authorize-Same c user org).at s))
      | inr (m, found) ↦ elim (change_or_same r m allowed found) [
        | inl same ↦ inl same
        | inr changed ↦ inr (r, allowed, changed)
      ]
    ]
  ]

pub Changed-Keeps :
    (r : Role) (org target : String) (new : Role) (s t : Db)
    → Changed r org target new s t
    → Keeps s t
unfolding Keeps
Changed-Keeps r org target new s t d v =
    let counted = count_role-set_role org target new owner s.members d.old v.unique d.was in
    record {
      unique = rw d.members (set_role-AreUnique org target new s.members v.unique);
      owned = λ o h. elim (dec_text o org) [
        | yes e ↦ ground (arith, counted, d.unmakes, v.owned o, d.members, d.orgs)
        | no n ↦ ground (
          arith,
          count_role-set_role_other org target new o owner s.members n,
          v.owned o,
          d.members,
          d.orgs,
        )
      ];
    }
