-- ===== src/Rbac/Roles/Hierarchy.antt =====
-- The system roles form a hierarchy: proofs about Rbac.Roles.
use final_bds.Prelude.{
  ℕ_discrete, Bool, true, false, List, [], ◌∷◌, ◌||◌, ◌&&◌, ◌≡◌, refl, ap, ◌∙◌, Bool-cases, inl,
  inr, arith,
}
use final_bds.Text.{Text, Text-discrete, same_text}
use final_bds.Rbac.{Permission, grants, any_grants}
use final_bds.Rbac.Roles.{
  owner_permissions, admin_permissions, developer_permissions, viewer_permissions,
}

-- Is the permission one of the list?
listed : Permission → List Permission → Bool
unfolding same_text
listed p [] = false
listed p (q ∷ qs) = same_text q p || listed p qs

all_listed : List Permission → List Permission → Bool
unfolding listed
all_listed [] qs = true
all_listed (p ∷ ps) qs = listed p qs && all_listed ps qs

same_text_sound : (s t : Text) → same_text s t ≡ true → s ≡ t
unfolding same_text
same_text_sound s t h = ground arith

same_text_refl : (s : Text) → same_text s s ≡ true
unfolding same_text
same_text_refl s = ground arith

any_grants-listed :
    (p perm : Permission) (qs : List Permission)
    → listed p qs ≡ true
    → grants perm p ≡ true
    → any_grants qs perm ≡ true
unfolding listed any_grants
any_grants-listed p perm [] h g = cc
any_grants-listed p perm (q ∷ qs) h g = elim (Bool-cases (same_text q p)) [
  | inl e ↦
      let here : grants perm q ≡ true = ap (grants perm) (same_text_sound q p e) ∙ g in rw here refl
  | inr n ↦ ground (arith, any_grants-listed p perm qs)
]

any_grants-all_listed :
    (ps qs : List Permission) (perm : Permission)
    → all_listed ps qs ≡ true
    → any_grants ps perm ≡ true
    → any_grants qs perm ≡ true
unfolding all_listed any_grants
any_grants-all_listed [] qs perm h g = cc
any_grants-all_listed (p ∷ ps) qs perm h g =
    ground (arith, any_grants-listed p perm qs, any_grants-all_listed ps qs perm)

-- A step of the ladder of roles: viewer, developer, admin, owner.
pub data Rung : Type 0 where
  viewer_to_developer developer_to_admin admin_to_owner : Rung

abbrev pub lower_permissions : Rung → List Permission
lower_permissions viewer_to_developer = viewer_permissions
lower_permissions developer_to_admin = developer_permissions
lower_permissions admin_to_owner = admin_permissions

abbrev pub upper_permissions : Rung → List Permission
upper_permissions viewer_to_developer = developer_permissions
upper_permissions developer_to_admin = admin_permissions
upper_permissions admin_to_owner = owner_permissions

developer_has_viewer : all_listed viewer_permissions developer_permissions ≡ true
unfolding all_listed Text-discrete ℕ_discrete
developer_has_viewer = refl

admin_has_developer : all_listed developer_permissions admin_permissions ≡ true
unfolding all_listed Text-discrete ℕ_discrete
admin_has_developer = refl

owner_has_all : (perm : Permission) → any_grants owner_permissions perm ≡ true
unfolding any_grants grants same_text Text-discrete ℕ_discrete
owner_has_all perm = refl

-- Each role of the ladder viewer, developer, admin, owner may do all that the one before it may,
-- for every permission text, wildcards included, and the owner may do everything.
pub any_grants-Rung :
    (r : Rung) (perm : Permission)
    → any_grants (lower_permissions r) perm ≡ true
    → (any_grants (upper_permissions r) perm ≡ true) × (any_grants owner_permissions perm ≡ true)
any_grants-Rung viewer_to_developer perm h = (
  any_grants-all_listed viewer_permissions developer_permissions perm developer_has_viewer h,
  owner_has_all perm,
)
any_grants-Rung developer_to_admin perm h = (
  any_grants-all_listed developer_permissions admin_permissions perm admin_has_developer h,
  owner_has_all perm,
)
any_grants-Rung admin_to_owner perm h = (owner_has_all perm, owner_has_all perm)
