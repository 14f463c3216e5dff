-- ===== src/Rbac/Cache.antt =====
-- The permission cache of backend/libs/security/rbac.go. The map is a list of entries with distinct
-- keys, in the order in which a loop over it meets them.
use final_bds.Prelude.{
  ℕ, ◌+◌, Bool, true, false, List, [], ◌∷◌, Option, none, some, ◌||◌, ltb, leb, length, ite,
  if◌then◌else◌,
}
use final_bds.Text.{Text, Text-discrete, is_blank}
use final_bds.Text.Numbers.{after_prefix}

-- `cacheEntry` with its key.
pub record Entry : Type 0 where
  pub key : Text
  pub allowed : Bool
  pub expires_at : ℕ

-- `permissionCache`.
pub record Cache : Type 0 where
  pub entries : List Entry
  pub ttl : ℕ
  pub max_size : ℕ

unfoldable pub entry_at : Text → List Entry → Option Entry
unfolding Text-discrete
entry_at k [] = none
entry_at k (e ∷ es) = ite (Text-discrete e.key k) (some e) (entry_at k es)

abbrev pub unexpired : ℕ → Option Entry → Option Bool
unexpired now none = none
unexpired now (some e) = if ltb e.expires_at now then none else some e.allowed

-- `get`: the answer that is known.
unfoldable pub cache_get : Cache → Text → ℕ → Option Bool
unfolding entry_at
cache_get c k now = unexpired now (entry_at k c.entries)

unfoldable pub remove_key : Text → List Entry → List Entry
unfolding Text-discrete
remove_key k [] = []
remove_key k (e ∷ es) = ite (Text-discrete e.key k) (remove_key k es) (e ∷ remove_key k es)

-- The loop of `evictOldest`: the key so far, "" at first, and its time.
unfoldable pub oldest_key : List Entry → Text → ℕ → Text
unfolding is_blank
oldest_key [] k t = k
oldest_key (e ∷ es) k t =
    let older = is_blank k || ltb e.expires_at t in
    oldest_key es (if older then e.key else k) (if older then e.expires_at else t)

-- `evictOldest`.
unfoldable pub evict_oldest : List Entry → List Entry
unfolding oldest_key remove_key
evict_oldest es = let k = oldest_key es [] 0 in if is_blank k then es else remove_key k es

-- `set`.
unfoldable pub cache_set : Cache → Text → Bool → ℕ → Cache
unfolding evict_oldest
cache_set c k allowed now =
    let kept = if leb c.max_size (length c.entries) then evict_oldest c.entries else c.entries in
    record c {
      entries = record { key = k; allowed = allowed; expires_at = now + c.ttl } ∷ remove_key k kept;
    }

abbrev is_found : Option Text → Bool
is_found none = false
is_found (some s) = true

-- `strings.Contains`.
unfoldable pub contains : Text → Text → Bool
unfolding after_prefix is_blank
contains part [] = is_blank part
contains part (c ∷ s) = is_found (after_prefix part (c ∷ s)) || contains part s

unfoldable pub drop_containing : Text → List Entry → List Entry
unfolding contains
drop_containing part [] = []
drop_containing part (e ∷ es) =
    if contains part e.key then drop_containing part es else e ∷ drop_containing part es

-- `invalidateUser`.
unfoldable pub invalidate_user : Text → Cache → Cache
unfolding drop_containing
invalidate_user user c = record c { entries = drop_containing user c.entries }
