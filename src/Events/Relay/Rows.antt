-- ===== src/Events/Relay/Rows.antt =====
-- Which rows a batch holds: lemmas about the statements of Events.Relay.
use final_bds.Prelude.{
  ℕ, zero, suc, String, dec_text, if_pos, if_neg, List, [], ◌∷◌, if◌then◌else◌, Bool, true, false,
  ltb, ◌||◌, ◌≡◌, ◌⊎◌, inl, inr, refl, ap, sym, ◌∙◌,
}
use final_bds.Events.Relay.{
  Row, pending, insert_by_age, oldest_first, take, fetch_unpublished, in_ids,
}

-- `x` is a row of the list.
abbrev pub Among : Row → List Row → Type 0
Among x [] = ⊥
Among x (r ∷ rs) = (x ≡ r) ⊎ Among x rs

-- Every row has the property.
abbrev pub AllRows : (Row → Type 0) → List Row → Type 0
AllRows P [] = Unit
AllRows P (r ∷ rs) = P r × AllRows P rs

pub AllRows-at : (P : Row → Type 0) (x : Row) (rs : List Row) → AllRows P rs → Among x rs → P x
AllRows-at P x [] h m = absurd m
AllRows-at P x (r ∷ rs) h (inl e) = rw e h.0
AllRows-at P x (r ∷ rs) h (inr m) = AllRows-at P x rs h.1 m

-- A pending row of the table.
abbrev pub IsPending : (String → Bool) → Row → List Row → Type 0
IsPending locked x rows = Among x rows × (x.published || locked x.id ≡ false)

Among-pending :
    (locked : String → Bool) (x : Row) (rs : List Row)
    → Among x (pending locked rs)
    → IsPending locked x rs
unfolding pending
Among-pending locked x [] m = absurd m
Among-pending locked x (r ∷ rs) m =
    pending_step (λ k. Among-pending locked x rs k) (r.published || locked r.id) refl m
  where
    pending_step :
        (Among x (pending locked rs) → IsPending locked x rs)
        → (b : Bool) → r.published || locked r.id ≡ b
        → Among x (if b then pending locked rs else r ∷ pending locked rs)
        → IsPending locked x (r ∷ rs)
    pending_step ih true e k = let more = ih k in (inr more.0, more.1)
    pending_step ih false e (inl k) = (inl k, rw k e)
    pending_step ih false e (inr k) = let more = ih k in (inr more.0, more.1)

Among-insert : (x r : Row) (rs : List Row) → Among x (insert_by_age r rs) → Among x (r ∷ rs)
unfolding insert_by_age
Among-insert x r [] m = m
Among-insert x r (q ∷ qs) m =
    insert_step (λ k. Among-insert x r qs k) (ltb q.created_at r.created_at) m
  where
    insert_step :
        (Among x (insert_by_age r qs) → Among x (r ∷ qs))
        → (b : Bool) → Among x (if b then q ∷ insert_by_age r qs else r ∷ q ∷ qs)
        → Among x (r ∷ q ∷ qs)
    insert_step ih true (inl k) = inr (inl k)
    insert_step ih true (inr k) = elim (ih k) [ inl e ↦ inl e | inr e ↦ inr (inr e) ]
    insert_step ih false k = k

Among-oldest_first : (x : Row) (rs : List Row) → Among x (oldest_first rs) → Among x rs
unfolding oldest_first
Among-oldest_first x [] m = m
Among-oldest_first x (r ∷ rs) m = elim (Among-insert x r (oldest_first rs) m) [
  | inl e ↦ inl e
  | inr e ↦ inr (Among-oldest_first x rs e)
]

Among-take : (x : Row) (n : ℕ) (rs : List Row) → Among x (take n rs) → Among x rs
unfolding take
Among-take x zero rs m = absurd m
Among-take x (suc n) [] m = absurd m
Among-take x (suc n) (r ∷ rs) (inl e) = inl e
Among-take x (suc n) (r ∷ rs) (inr e) = inr (Among-take x n rs e)

-- What is fetched is pending.
pub Among-fetch :
    (locked : String → Bool) (n : ℕ) (x : Row) (rs : List Row)
    → Among x (fetch_unpublished locked n rs)
    → IsPending locked x rs
unfolding fetch_unpublished
Among-fetch locked n x rs m =
    Among-pending locked x rs (Among-oldest_first x _ (Among-take x n _ m))

abbrev pub ids_of : List Row → List String
ids_of [] = []
ids_of (r ∷ rs) = r.id ∷ ids_of rs

-- An id of a batch is that of one of its rows.
pub in_ids-Among :
    (x : String) (rs : List Row) → in_ids x (ids_of rs) ≡ true → (r : Row) × Among r rs × (r.id ≡ x)
unfolding in_ids
in_ids-Among x [] h = cc
in_ids-Among x (r ∷ rs) h = elim (dec_text r.id x) [
  | yes e ↦ (r, inl refl, e)
  | no e ↦
      let more = in_ids-Among x rs (sym (if_neg _ e true (in_ids x (ids_of rs))) ∙ h) in
      (more.0, inr more.1, more.2)
]

pub Among-in_ids : (r : Row) (rs : List Row) → Among r rs → in_ids r.id (ids_of rs) ≡ true
unfolding in_ids
Among-in_ids r [] m = absurd m
Among-in_ids r (q ∷ qs) m = elim (dec_text q.id r.id) [
  | yes e ↦ if_pos _ e true (in_ids r.id (ids_of qs))
  | no e ↦ if_neg _ e true (in_ids r.id (ids_of qs)) ∙ later (λ k. Among-in_ids r qs k) m e
]
  where
    later :
        (Among r qs → in_ids r.id (ids_of qs) ≡ true)
        → Among r (q ∷ qs)
        → ¬ (q.id ≡ r.id)
        → in_ids r.id (ids_of qs) ≡ true
    later ih (inl k) n = absurd (n (ap (λ (z : Row). z.id) (sym k)))
    later ih (inr k) n = ih k
