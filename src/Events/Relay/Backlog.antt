-- ===== src/Events/Relay/Backlog.antt =====
-- What a batch leaves of the backlog: lemmas about Events.Relay.
use final_bds.Prelude.{
  ℕ, zero, suc, ◌+◌, ◌≤◌, ◌<◌, String, List, [], ◌∷◌, none, if◌then◌else◌, Bool, true, false,
  length, ◌≡◌, inl, inr, refl, ap, arith, Bool-cases, ltb, ◌||◌,
}
use final_bds.Errors.{ok}
use final_bds.Events.{Envelope, validate}
use final_bds.Events.Relay.{
  Row, Surroundings, pending, insert_by_age, oldest_first, take, in_ids, mark_published,
}
use final_bds.Events.Relay.Marks.{marked}
use final_bds.Events.Relay.Rows.{Among, AllRows}

-- The surroundings in which the relay can work: no other relay holds a row, the broker takes every
-- event, and the database commits.
pub record IsHealthy (s : Surroundings) : Type 0 where
  pub unlocked : (i : String) → s.locked i ≡ false
  pub taken : (e : Envelope) → s.broker e ≡ none
  pub committed : s.commit ≡ none

-- Every event of the table passed `Validate`, as `Enqueue` demands.
abbrev pub AllValid : List Row → Type 0
AllValid = AllRows (λ r. validate r.envelope ≡ ok tt)

unfoldable pub count_pending : List Row → ℕ
count_pending [] = 0
count_pending (r ∷ rs) = (if r.published then 0 else 1) + count_pending rs

count-marked :
    (ids : List String) (r : Row)
    → (if (marked ids r).published then 0 else 1) ≤ (if r.published then 0 else 1)
count-marked ids r = ground arith

count-marked_self :
    (ids : List String) (r : Row)
    → in_ids r.id ids ≡ true
    → r.published ≡ false
    → suc (if (marked ids r).published then 0 else 1) ≤ (if r.published then 0 else 1)
count-marked_self ids r h k = rw (h, k) (omega arith)

count_pending-mark_published :
    (ids : List String) (rs : List Row) → count_pending (mark_published ids rs) ≤ count_pending rs
unfolding count_pending mark_published
count_pending-mark_published ids [] = omega arith
count_pending-mark_published ids (r ∷ rs) =
    omega (arith, count-marked ids r, count_pending-mark_published ids rs)

pub count_pending-falls :
    (ids : List String) (f : Row) (rs : List Row)
    → Among f rs
    → f.published ≡ false
    → in_ids f.id ids ≡ true
    → suc (count_pending (mark_published ids rs)) ≤ count_pending rs
unfolding count_pending mark_published
count_pending-falls ids f [] m p h = absurd m
count_pending-falls ids f (r ∷ rs) (inl e) p h =
    let hr : in_ids r.id ids ≡ true = rw (← e) h in
    let pr : r.published ≡ false = rw (← e) p in
    omega (arith, count-marked_self ids r hr pr, count_pending-mark_published ids rs)
count_pending-falls ids f (r ∷ rs) (inr m) p h =
    omega (arith, count-marked ids r, count_pending-falls ids f rs m p h)

-- Nothing that is pending is left out of a batch that is not full.
insert_by_age-Among : (x r : Row) (rs : List Row) → Among x (r ∷ rs) → Among x (insert_by_age r rs)
unfolding insert_by_age
insert_by_age-Among x r [] m = m
insert_by_age-Among x r (q ∷ qs) m = elim (Bool-cases (ltb q.created_at r.created_at)) [
  | inl older ↦ rw older (behind (λ k. insert_by_age-Among x r qs k) m)
  | inr newer ↦ rw newer m
]
  where
    behind :
        (Among x (r ∷ qs) → Among x (insert_by_age r qs))
        → Among x (r ∷ q ∷ qs)
        → Among x (q ∷ insert_by_age r qs)
    behind ih (inl e) = inr (ih (inl e))
    behind ih (inr (inl e)) = inl e
    behind ih (inr (inr e)) = inr (ih (inr e))

pub oldest_first-Among : (x : Row) (rs : List Row) → Among x rs → Among x (oldest_first rs)
unfolding oldest_first
oldest_first-Among x [] m = m
oldest_first-Among x (r ∷ rs) (inl e) = insert_by_age-Among x r (oldest_first rs) (inl e)
oldest_first-Among x (r ∷ rs) (inr m) =
    insert_by_age-Among x r (oldest_first rs) (inr (oldest_first-Among x rs m))

pub pending-Among :
    (locked : String → Bool) (x : Row) (rs : List Row)
    → ((i : String) → locked i ≡ false)
    → x.published ≡ false
    → Among x rs
    → Among x (pending locked rs)
unfolding pending
pending-Among locked x [] u p m = m
pending-Among locked x (r ∷ rs) u p (inl e) =
    let pr : r.published ≡ false = rw (← e) p in
    let q : r.published || locked r.id ≡ false = rw pr (u r.id) in rw q (inl e)
pending-Among locked x (r ∷ rs) u p (inr m) = elim (Bool-cases (r.published || locked r.id)) [
  | inl skipped ↦ rw skipped (pending-Among locked x rs u p m)
  | inr kept ↦ rw kept (inr (pending-Among locked x rs u p m))
]

pub take_all : (n : ℕ) (rs : List Row) → length (take n rs) < n → take n rs ≡ rs
unfolding take
take_all zero rs h = absurd (omega arith)
take_all (suc n) [] h = refl
take_all (suc n) (r ∷ rs) h = ap (λ z. r ∷ z) (take_all n rs (omega arith))
