-- ===== src/Rbac.antt =====
-- Roles and permissions of backend/libs/security/rbac.go.
pub mod Roles
pub mod Cache
pub mod Entries
pub mod Engine
use final_bds.Prelude.{Bool, true, false, List, [], ◌∷◌, ◌++◌, Option, none, some, ◌||◌, String}
use final_bds.Text.{Text, codes, cut, same_text}

-- `Permission`: the text "<resource>:<action>".
abbrev pub Permission : Type 0
Permission = Text

-- `BuildPermission`.
abbrev pub build_permission : String → String → Permission
build_permission resource action = codes resource ++ (b':' ∷ codes action)

-- `Role`, without its texts for display and its times.
pub record Role : Type 0 where
  pub id : Text
  pub permissions : List Permission
  pub is_system : Bool

-- ":*".
abbrev pub any_action : Text
any_action = b':' ∷ b'*' ∷ []

-- The wildcard of the resource of a permission that has two parts.
abbrev pub is_resource_wildcard : Permission → Option (Text × Text) → Bool
is_resource_wildcard p none = false
is_resource_wildcard p (some (resource, action)) = same_text p (resource ++ any_action)

-- The body of the loop of `HasPermission`.
unfoldable pub grants : Permission → Permission → Bool
unfolding same_text cut
grants perm p =
    same_text p (b'*' ∷ any_action) || same_text p perm || is_resource_wildcard p (cut b':' perm)

unfoldable pub any_grants : List Permission → Permission → Bool
unfolding grants
any_grants [] perm = false
any_grants (p ∷ ps) perm = grants perm p || any_grants ps perm

-- `HasPermission`.
unfoldable pub has_permission : Role → Permission → Bool
unfolding any_grants
has_permission r perm = any_grants r.permissions perm
