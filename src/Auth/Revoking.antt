-- ===== src/Auth/Revoking.antt =====
-- What a revocation leaves in the table of sessions: lemmas about Auth.Store.
use final_bds.Prelude.{
  ℕ, Bool, true, false, String, List, [], ◌∷◌, Option, none, some, dec_text, ite, if_pos, if_neg,
  if◌then◌else◌, ◌≡◌, refl, ap, sym, ◌∙◌,
}
use final_bds.Errors.{Err, Result, ok, err}
use final_bds.Auth.{RefreshToken, is_set}
use final_bds.Auth.Store.{session_by_hash, has_hash, revoke_row, revoke_session}

-- A branch that answers an error is not taken by a success.
module _ {S A : Type 0} where
  pub passed :
      (b : Bool) (e : Err) (s : S) (y : Result A × S) (a : A)
      → (if b then (err e, s) else y).0 ≡ ok a
      → b ≡ false
  passed true e s y a h = cc
  passed false e s y a h = refl

  pub entered :
      (b : Bool) (e : Err) (s : S) (y : Result A × S) (a : A)
      → (if b then y else (err e, s)).0 ≡ ok a
      → b ≡ true
  entered true e s y a h = refl
  entered false e s y a h = cc

the_row : RefreshToken → Result RefreshToken → RefreshToken
the_row d (ok t) = t
the_row d (err e) = d

same_row : (t u : RefreshToken) → ok t ≡ ok u → t ≡ u
unfolding the_row
same_row t u h = ap (the_row t) h

pub has_hash-found :
    (h : String) (ts : List RefreshToken) (t : RefreshToken)
    → session_by_hash h ts ≡ ok t
    → has_hash h ts ≡ true
unfolding session_by_hash has_hash
has_hash-found h [] t q = cc
has_hash-found h (u ∷ us) t q = elim (dec_text u.token_hash h) [
  | yes p ↦ if_pos (dec_text u.token_hash h) p true (has_hash h us)
  | no p ↦
      if_neg (dec_text u.token_hash h) p true (has_hash h us)
      ∙ has_hash-found h us t
          (sym (if_neg (dec_text u.token_hash h) p (ok u) (session_by_hash h us)) ∙ q)
]

revoke_row-token_hash :
    (now : ℕ) (by : Option String) (o : Option ℕ) (t : RefreshToken)
    → (revoke_row now by o t).token_hash ≡ t.token_hash
revoke_row-token_hash now by (some r) t = refl
revoke_row-token_hash now by none t = refl

revoked_hash :
    (now : ℕ) (id : String) (by : Option String) (t : RefreshToken)
    → (ite (dec_text t.id id) (revoke_row now by t.revoked_at t) t).token_hash ≡ t.token_hash
revoked_hash now id by t = elim (dec_text t.id id) [
  | yes p ↦
      ap (λ (z : RefreshToken). z.token_hash)
        (if_pos (dec_text t.id id) p (revoke_row now by t.revoked_at t) t)
      ∙ revoke_row-token_hash now by t.revoked_at t
  | no p ↦
      ap (λ (z : RefreshToken). z.token_hash)
        (if_neg (dec_text t.id id) p (revoke_row now by t.revoked_at t) t)
]

-- The revoked session is the one that its hash finds.
pub session_by_hash-revoke_session :
    (now : ℕ) (by : Option String) (h : String) (ts : List RefreshToken) (old : RefreshToken)
    → session_by_hash h ts ≡ ok old
    → session_by_hash h (revoke_session now old.id by ts)
      ≡ ok (revoke_row now by old.revoked_at old)
unfolding session_by_hash revoke_session
session_by_hash-revoke_session now by h [] old q = cc
session_by_hash-revoke_session now by h (t ∷ ts) old q = elim (dec_text t.token_hash h) [
  | yes p ↦
      let same : t ≡ old =
        same_row t old
          (sym (if_pos (dec_text t.token_hash h) p (ok t) (session_by_hash h ts)) ∙ q) in
      let hash_kept = revoked_hash now old.id by t ∙ p in
      if_pos
        (dec_text (ite (dec_text t.id old.id) (revoke_row now by t.revoked_at t) t).token_hash h)
        hash_kept (ok (ite (dec_text t.id old.id) (revoke_row now by t.revoked_at t) t))
        (session_by_hash h (revoke_session now old.id by ts))
      ∙ ap ok (
          if_pos (dec_text t.id old.id) (ap (λ (z : RefreshToken). z.id) same)
            (revoke_row now by t.revoked_at t) t)
      ∙ ap (λ (z : RefreshToken). ok (revoke_row now by z.revoked_at z)) same
  | no p ↦
      if_neg
        (dec_text (ite (dec_text t.id old.id) (revoke_row now by t.revoked_at t) t).token_hash h)
        (λ k. p (sym (revoked_hash now old.id by t) ∙ k))
        (ok (ite (dec_text t.id old.id) (revoke_row now by t.revoked_at t) t))
        (session_by_hash h (revoke_session now old.id by ts))
      ∙ session_by_hash-revoke_session now by h ts old
          (sym (if_neg (dec_text t.token_hash h) p (ok t) (session_by_hash h ts)) ∙ q)
]

pub is_set-revoke_row :
    (now : ℕ) (by : Option String) (o : Option ℕ) (t : RefreshToken)
    → t.revoked_at ≡ o
    → is_set (revoke_row now by o t).revoked_at ≡ true
is_set-revoke_row now by (some r) t h = ap is_set h
is_set-revoke_row now by none t h = refl
