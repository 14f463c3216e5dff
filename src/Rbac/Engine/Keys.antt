-- ===== src/Rbac/Engine/Keys.antt =====
-- Cache keys tell the requests apart, and contain the user: proofs about Rbac.Engine.
use final_bds.Prelude.{
  Bool, true, false, [], ◌∷◌, ◌++◌, Option, none, some, ◌||◌, ◌==◌, ◌≡◌, refl, ap, sym, ◌∙◌,
}
use final_bds.Text.{Text, cut, contains_byte, is_blank}
use final_bds.Text.Numbers.{after_prefix}
use final_bds.Text.Numbers.RoundTrip.{after_prefix-append}
use final_bds.Rbac.{Permission}
use final_bds.Rbac.Cache.{contains}
use final_bds.Rbac.Engine.{cache_key}

-- The first colon stands behind a text that has none.
cut-append :
    (s rest : Text) → contains_byte b':' s ≡ false → cut b':' (s ++ (b':' ∷ rest)) ≡ some (s, rest)
unfolding cut contains_byte
cut-append [] rest h = refl
cut-append (c ∷ s) rest h =
    let (x, y) = neither (c == b':') (contains_byte b':' s) h in rw (x, cut-append s rest y) refl
  where
    neither : (a b : Bool) → a || b ≡ false → (a ≡ false) × (b ≡ false)
    neither true b h = cc
    neither false b h = (refl, h)

-- A request whose ids have no colon, as UUIDs do.
pub record IsPlain (user org project : Text) : Type 0 where
  pub plain_user : contains_byte b':' user ≡ false
  pub plain_org : contains_byte b':' org ≡ false
  pub plain_project : contains_byte b':' project ≡ false

some_parts :
    (s t x y : Text)
    → ◌≡◌ {A = Option (Text × Text)} (some (s, x)) (some (t, y))
    → (s ≡ t) × (x ≡ y)
some_parts s t x y e = (ap (λ o. (pair_or (s, x) o).0) e, ap (λ o. (pair_or (s, x) o).1) e)
  where
    pair_or : Text × Text → Option (Text × Text) → Text × Text
    pair_or d none = d
    pair_or d (some p) = p

split_same :
    (s t x y : Text)
    → contains_byte b':' s ≡ false
    → contains_byte b':' t ≡ false
    → s ++ (b':' ∷ x) ≡ t ++ (b':' ∷ y)
    → (s ≡ t) × (x ≡ y)
split_same s t x y h k e =
    some_parts s t x y (sym (cut-append s x h) ∙ ap (cut b':') e ∙ cut-append t y k)

-- Equal keys come from equal requests.
pub cache_key_injective :
    (u o p u' o' p' : Text) (perm perm' : Permission)
    → IsPlain u o p
    → IsPlain u' o' p'
    → cache_key u o p perm ≡ cache_key u' o' p' perm'
    → (u ≡ u') × (o ≡ o') × (p ≡ p') × (perm ≡ perm')
unfolding cache_key
cache_key_injective u o p u' o' p' perm perm' h h' e =
    let a = split_same u u' _ _ h.plain_user h'.plain_user e in
    let b = split_same o o' _ _ h.plain_org h'.plain_org a.1 in
    let c = split_same p p' _ _ h.plain_project h'.plain_project b.1 in (a.0, b.0, c.0, c.1)

found_first : (part rest : Text) → contains part (part ++ rest) ≡ true
unfolding contains
found_first [] [] = unfold is_blank in refl
found_first [] (c ∷ rest) = unfold after_prefix in refl
found_first (c ∷ part) rest = rw (after_prefix-append (c ∷ part) rest) refl

-- `invalidateUser` finds every key of the user.
pub contains-cache_key :
    (user org project : Text) (perm : Permission)
    → contains user (cache_key user org project perm) ≡ true
unfolding cache_key
contains-cache_key user org project perm =
    found_first user (b':' ∷ (org ++ (b':' ∷ (project ++ (b':' ∷ perm)))))
