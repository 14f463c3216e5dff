-- ===== src/Rbac/Entries.antt =====
-- Properties of all entries, through the operations of the cache: lemmas about Rbac.Cache.
use final_bds.Prelude.{
  Bool, true, false, List, [], ◌∷◌, Option, none, some, if◌then◌else◌, if_pos, if_neg, ◌≡◌, ap, sym,
  ◌∙◌,
}
use mathlib.Core.Path.{subst}
use final_bds.Text.{Text, Text-discrete, is_blank}
use final_bds.Rbac.Cache.{Entry, entry_at, remove_key, evict_oldest, oldest_key}

module _ (P : Entry → Type 0) where
  abbrev pub AllEntries : List Entry → Type 0
  AllEntries [] = Unit
  AllEntries (e ∷ es) = P e × AllEntries es

  pub AllEntries-remove_key :
      (k : Text) (es : List Entry) → AllEntries es → AllEntries (remove_key k es)
  unfolding remove_key
  AllEntries-remove_key k [] h = tt
  AllEntries-remove_key k (e ∷ es) (h, hs) = elim (Text-discrete e.key k) [
    | yes p ↦
        rw (if_pos (Text-discrete e.key k) p (remove_key k es) (e ∷ remove_key k es))
          (AllEntries-remove_key k es hs)
    | no p ↦
        rw (if_neg (Text-discrete e.key k) p (remove_key k es) (e ∷ remove_key k es))
          (h, AllEntries-remove_key k es hs)
  ]

  pub AllEntries-if :
      (b : Bool) (es fs : List Entry)
      → AllEntries es
      → AllEntries fs
      → AllEntries (if b then es else fs)
  AllEntries-if true es fs h k = h
  AllEntries-if false es fs h k = k

  pub AllEntries-evict_oldest : (es : List Entry) → AllEntries es → AllEntries (evict_oldest es)
  unfolding evict_oldest
  AllEntries-evict_oldest es h =
      AllEntries-if (is_blank (oldest_key es [] 0)) es (remove_key (oldest_key es [] 0) es) h
        (AllEntries-remove_key (oldest_key es [] 0) es h)

  pub entry_at-AllEntries :
      (k : Text) (es : List Entry) (e : Entry)
      → AllEntries es
      → entry_at k es ≡ some e
      → P e × (e.key ≡ k)
  unfolding entry_at
  entry_at-AllEntries k [] e h q = cc
  entry_at-AllEntries k (f ∷ es) e (h, hs) q = elim (Text-discrete f.key k) [
    | yes p ↦
        let same : f ≡ e =
          some_entry f e (sym (if_pos (Text-discrete f.key k) p (some f) (entry_at k es)) ∙ q) in
        subst (λ z. P z × (z.key ≡ k)) same (h, p)
    | no p ↦
        entry_at-AllEntries k es e hs
          (sym (if_neg (Text-discrete f.key k) p (some f) (entry_at k es)) ∙ q)
  ]
    where
      entry_or : Entry → Option Entry → Entry
      entry_or d none = d
      entry_or d (some x) = x

      some_entry : (a b : Entry) → some a ≡ some b → a ≡ b
      some_entry a b x = ap (entry_or a) x
