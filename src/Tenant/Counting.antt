-- ===== src/Tenant/Counting.antt =====
-- Counting the members of a role: what the statements on memberships do to the count, on a table in
-- which no user has two memberships of one organisation. Proofs about Tenant.Store.
use final_bds.Prelude.{ℕ, ◌+◌, false, String, List, [], ◌∷◌, ◌≡◌, ◌≢◌, refl, arith, ite}
use final_bds.Errors.{ok}
use final_bds.Tenant.{Role, Role-discrete, Member}
use final_bds.Tenant.Store.{
  has_member, select_by_user, count_role, set_role, drop_member, drop_members_of,
}

-- No user has two memberships of one organisation: UNIQUE (org_id, user_id).
abbrev pub AreUnique : List Member → Type 0
AreUnique [] = Unit {0}
AreUnique (m ∷ ms) = (has_member m.org_id m.user_id ms ≡ false) × AreUnique ms

abbrev pub ones : Role → Role → ℕ
ones r s = ite (Role-discrete r s) 1 0

module _ (org user : String) (r : Role) where
  set_role-absent :
      (ms : List Member) → has_member org user ms ≡ false → set_role org user r ms ≡ ms
  unfolding has_member set_role
  set_role-absent [] h = refl
  set_role-absent (m ∷ ms) h = ground (arith, set_role-absent ms)

  has_member-set_role :
      (o u : String) (ms : List Member)
      → has_member o u (set_role org user r ms) ≡ has_member o u ms
  unfolding has_member set_role
  has_member-set_role o u [] = refl
  has_member-set_role o u (m ∷ ms) = ground (arith, has_member-set_role o u ms)

  pub set_role-AreUnique : (ms : List Member) → AreUnique ms → AreUnique (set_role org user r ms)
  unfolding set_role
  set_role-AreUnique [] v = tt
  set_role-AreUnique (m ∷ ms) v =
      ground (arith, has_member-set_role m.org_id m.user_id ms, set_role-AreUnique ms)

  pub count_role-set_role :
      (q : Role) (ms : List Member) (m : Member)
      → AreUnique ms
      → select_by_user org user ms ≡ ok m
      → count_role org q (set_role org user r ms) + ones m.role q ≡ count_role org q ms + ones r q
  unfolding select_by_user set_role count_role
  count_role-set_role q [] m v h = cc
  count_role-set_role q (x ∷ ms) m v h =
      ground (arith, set_role-absent ms, count_role-set_role q ms m v.1)

  pub count_role-set_role_other :
      (o : String) (q : Role) (ms : List Member)
      → o ≢ org
      → count_role o q (set_role org user r ms) ≡ count_role o q ms
  unfolding set_role count_role
  count_role-set_role_other o q [] n = refl
  count_role-set_role_other o q (x ∷ ms) n = ground (arith, count_role-set_role_other o q ms n)

module _ (org user : String) where
  drop_member-absent :
      (ms : List Member) → has_member org user ms ≡ false → drop_member org user ms ≡ ms
  unfolding has_member drop_member
  drop_member-absent [] h = refl
  drop_member-absent (m ∷ ms) h = ground (arith, drop_member-absent ms)

  has_member-drop_member :
      (o u : String) (ms : List Member)
      → has_member o u ms ≡ false
      → has_member o u (drop_member org user ms) ≡ false
  unfolding has_member drop_member
  has_member-drop_member o u [] h = refl
  has_member-drop_member o u (m ∷ ms) h = ground (arith, has_member-drop_member o u ms)

  pub drop_member-AreUnique :
      (ms : List Member) → AreUnique ms → AreUnique (drop_member org user ms)
  unfolding drop_member
  drop_member-AreUnique [] v = tt
  drop_member-AreUnique (m ∷ ms) v =
      ground (arith, has_member-drop_member m.org_id m.user_id ms, drop_member-AreUnique ms)

  pub count_role-drop_member :
      (q : Role) (ms : List Member) (m : Member)
      → AreUnique ms
      → select_by_user org user ms ≡ ok m
      → count_role org q (drop_member org user ms) + ones m.role q ≡ count_role org q ms
  unfolding select_by_user drop_member count_role
  count_role-drop_member q [] m v h = cc
  count_role-drop_member q (x ∷ ms) m v h =
      ground (arith, drop_member-absent ms, count_role-drop_member q ms m v.1)

  pub count_role-drop_member_other :
      (o : String) (q : Role) (ms : List Member)
      → o ≢ org
      → count_role o q (drop_member org user ms) ≡ count_role o q ms
  unfolding drop_member count_role
  count_role-drop_member_other o q [] n = refl
  count_role-drop_member_other o q (x ∷ ms) n =
      ground (arith, count_role-drop_member_other o q ms n)

module _ (org : String) where
  has_member-drop_members_of :
      (o u : String) (ms : List Member)
      → has_member o u ms ≡ false
      → has_member o u (drop_members_of org ms) ≡ false
  unfolding has_member drop_members_of
  has_member-drop_members_of o u [] h = refl
  has_member-drop_members_of o u (m ∷ ms) h = ground (arith, has_member-drop_members_of o u ms)

  pub drop_members_of-AreUnique :
      (ms : List Member) → AreUnique ms → AreUnique (drop_members_of org ms)
  unfolding drop_members_of
  drop_members_of-AreUnique [] v = tt
  drop_members_of-AreUnique (m ∷ ms) v =
      ground (arith, has_member-drop_members_of m.org_id m.user_id ms, drop_members_of-AreUnique ms)

  pub count_role-drop_members_of :
      (o : String) (q : Role) (ms : List Member)
      → o ≢ org
      → count_role o q (drop_members_of org ms) ≡ count_role o q ms
  unfolding drop_members_of count_role
  count_role-drop_members_of o q [] n = refl
  count_role-drop_members_of o q (x ∷ ms) n = ground (arith, count_role-drop_members_of o q ms n)
