-- ===== src/Auth/Spending.antt =====
-- What the statements of a password reset leave in the tables: lemmas about Auth.OneTime.
use final_bds.Prelude.{
  ℕ, if_pos, if_neg, Option, some, true, String, List, [], ◌∷◌, none, dec_text, ite, ◌≡◌, refl, ap,
  sym, ◌∙◌,
}
use final_bds.Errors.{Result, ok, err}
use final_bds.Auth.{User, RefreshToken, OneTimeToken, is_set}
use final_bds.Auth.Store.{user_by_id, revoke_row}
use final_bds.Auth.Revoking.{is_set-revoke_row}
use final_bds.Auth.OneTime.{otp_by_hash, mark_used, used_row, revoke_all_for_user}

-- Every session of the user is revoked.
abbrev pub AllRevoked : String → List RefreshToken → Type 0
AllRevoked user [] = Unit
AllRevoked user (t ∷ ts) = (t.user_id ≡ user → is_set t.revoked_at ≡ true) × AllRevoked user ts

pub revoke_all_for_user-AllRevoked :
    (now : ℕ) (user : String) (ts : List RefreshToken)
    → AllRevoked user (revoke_all_for_user now user ts)
unfolding revoke_all_for_user
revoke_all_for_user-AllRevoked now user [] = tt
revoke_all_for_user-AllRevoked now user (t ∷ ts) =
    (row_revoked (dec_text t.user_id user), revoke_all_for_user-AllRevoked now user ts)
  where
    row_revoked :
        (d : Dec (t.user_id ≡ user))
        → (ite d (revoke_row now t.replaced_by t.revoked_at t) t).user_id ≡ user
        → is_set (ite d (revoke_row now t.replaced_by t.revoked_at t) t).revoked_at ≡ true
    row_revoked (yes p) e = is_set-revoke_row now t.replaced_by t.revoked_at t refl
    row_revoked (no p) e = absurd (p e)

pub user_by_id-id : (id : String) (us : List User) (u : User) → user_by_id id us ≡ ok u → u.id ≡ id
unfolding user_by_id
user_by_id-id id [] u h = cc
user_by_id-id id (v ∷ vs) u h = found (user_by_id-id id vs u) (dec_text v.id id) h
  where
    id_in : Result User → String
    id_in (ok w) = w.id
    id_in (err e) = id

    found :
        (user_by_id id vs ≡ ok u → u.id ≡ id)
        → (d : Dec (v.id ≡ id)) → ite d (ok v) (user_by_id id vs) ≡ ok u
        → u.id ≡ id
    found later (yes p) q = sym (ap id_in q) ∙ p
    found later (no p) q = later q

unfoldable pub the_row : OneTimeToken → Result OneTimeToken → OneTimeToken
the_row d (ok t) = t
the_row d (err e) = d

used_row-token_hash :
    (now : ℕ) (o : Option ℕ) (t : OneTimeToken) → (used_row now o t).token_hash ≡ t.token_hash
used_row-token_hash now (some r) t = refl
used_row-token_hash now none t = refl

-- The token that its hash finds is used once its row is marked.
pub otp_by_hash-mark_used :
    (now : ℕ) (h : String) (ts : List OneTimeToken) (old : OneTimeToken)
    → otp_by_hash h ts ≡ ok old
    → otp_by_hash h (mark_used now old.id ts) ≡ ok (used_row now old.used_at old)
unfolding otp_by_hash mark_used the_row
otp_by_hash-mark_used now h [] old q = cc
otp_by_hash-mark_used now h (t ∷ ts) old q =
    found (dec_text t.token_hash h) (dec_text t.id old.id) (otp_by_hash-mark_used now h ts old) q
  where
    marked : Dec (t.id ≡ old.id) → OneTimeToken
    marked e = ite e (used_row now t.used_at t) t

    marked-hash : (e : Dec (t.id ≡ old.id)) → (marked e).token_hash ≡ t.token_hash
    marked-hash (yes p) = used_row-token_hash now t.used_at t
    marked-hash (no p) = refl

    marked-used : (e : Dec (t.id ≡ old.id)) → t ≡ old → marked e ≡ used_row now old.used_at old
    marked-used (yes p) same = ap (λ (z : OneTimeToken). used_row now z.used_at z) same
    marked-used (no p) same = absurd (p (ap (λ (z : OneTimeToken). z.id) same))

    found :
        (d : Dec (t.token_hash ≡ h)) (e : Dec (t.id ≡ old.id))
        → (otp_by_hash h ts ≡ ok old
            → otp_by_hash h (mark_used now old.id ts) ≡ ok (used_row now old.used_at old))
        → ite d (ok t) (otp_by_hash h ts) ≡ ok old
        → ite
            (dec_text (marked e).token_hash h)
            (ok (marked e))
            (otp_by_hash h (mark_used now old.id ts))
          ≡ ok (used_row now old.used_at old)
    found (yes p) e later r =
        if_pos (dec_text (marked e).token_hash h) (marked-hash e ∙ p) (ok (marked e))
          (otp_by_hash h (mark_used now old.id ts))
        ∙ ap ok (marked-used e (ap (the_row t) r))
    found (no p) e later r =
        if_neg (dec_text (marked e).token_hash h) (λ k. p (sym (marked-hash e) ∙ k)) (ok (marked e))
          (otp_by_hash h (mark_used now old.id ts))
        ∙ later r

pub used_row-used :
    (now : ℕ) (o : Option ℕ) (t : OneTimeToken)
    → t.used_at ≡ o
    → is_set (used_row now o t).used_at ≡ true
used_row-used now (some r) t h = ap is_set h
used_row-used now none t h = refl
