-- ===== src/Auth/Resetting.antt =====
-- A password reset ends the sessions and spends its token: proofs about Auth.OneTime.
use final_bds.Prelude.{
  not, ℕ, Bool, true, false, String, List, none, if◌then◌else◌, ◌&&◌, text_is, ltb, length, ◌≡◌,
  refl, ap, sym, ◌∙◌,
}
use mathlib.Core.Path.{subst}
use final_bds.Errors.{Err, validation_error, Result, ok, err}
use final_bds.Text.{Text, trim_space, is_blank}
use final_bds.Auth.{User, OneTimeToken, AuthDb, Config, err_bad_token, is_set}
use final_bds.Auth.Store.{user_by_id, update_user}
use final_bds.Auth.OneTime.{
  otp_by_hash, mark_used, used_row, usable, with_owner, with_token, committed,
  consume_one_time_token, apply_reset, password_set, reset_with, min_password_len,
  confirm_password_reset,
}
use final_bds.Auth.Spending.{
  AllRevoked, revoke_all_for_user-AllRevoked, user_by_id-id, otp_by_hash-mark_used, used_row-used,
  the_row,
}

state_in : AuthDb → Result AuthDb → AuthDb
state_in d (ok s) = s
state_in d (err e) = d

-- What the end of a reset leaves: the tokens as they were, and no session of the user.
record SignedOut (user : String) (tokens : List OneTimeToken) (after : AuthDb) : Type 0 where
  kept : after.one_time_tokens ≡ tokens
  revoked : AllRevoked user after.sessions

password_set_ok :
    (now : ℕ) (u : User) (r : Result (List User)) (s after : AuthDb)
    → password_set now u r s ≡ ok after
    → SignedOut u.id s.one_time_tokens after
unfolding state_in
password_set_ok now u (err e) s after h = cc
password_set_ok now u (ok users) s after h =
    subst (SignedOut u.id s.one_time_tokens) (ap (state_in s) h)
      (record { kept = refl; revoked = revoke_all_for_user-AllRevoked now u.id s.sessions })

with_owner_ok :
    (now : ℕ) (hash id : String) (us : List User) (r : Result User) (s after : AuthDb)
    → user_by_id id us ≡ r
    → with_owner (apply_reset now hash) r s ≡ ok after
    → SignedOut id s.one_time_tokens after
with_owner_ok now hash id us (err e) s after k h = cc
with_owner_ok now hash id us (ok u) s after k h =
    subst (λ z. SignedOut z s.one_time_tokens after) (user_by_id-id id us u k)
      (password_set_ok now u
        (update_user
          (record u { password_hash = hash; failed_login_attempts = 0; locked_until = none })
          s.users)
        s after h)

-- The token of a reset that went through, and what the reset did.
pub record ResetDone (h : String) (now : ℕ) (before after : AuthDb) : Type 0 where
  pub row : OneTimeToken
  pub found : otp_by_hash h before.one_time_tokens ≡ ok row
  pub in_use : (text_is row.purpose "password_reset" && usable row now) ≡ true
  pub signed_out : AllRevoked row.user_id after.sessions
  pub marked : otp_by_hash h after.one_time_tokens ≡ ok (used_row now row.used_at row)

with_token_ok :
    (h hash : String) (now : ℕ) (r : Result OneTimeToken) (s after : AuthDb)
    → otp_by_hash h s.one_time_tokens ≡ r
    → with_token now "password_reset" (apply_reset now hash) r s ≡ ok after
    → ResetDone h now s after
with_token_ok h hash now (err e) s after k q = cc
with_token_ok h hash now (ok t) s after k q =
    chosen (text_is t.purpose "password_reset" && usable t now) refl q
  where
    chosen :
        (b : Bool)
        → (text_is t.purpose "password_reset" && usable t now) ≡ b
        → (if b
            then with_owner
                (apply_reset now hash)
                (user_by_id t.user_id s.users)
                (record s { one_time_tokens = mark_used now t.id s.one_time_tokens })
            else err err_bad_token)
          ≡ ok after
        → ResetDone h now s after
    chosen true e p =
        let done =
          with_owner_ok now hash t.user_id s.users (user_by_id t.user_id s.users) _ after refl p in
        record {
          row = t;
          found = k;
          in_use = e;
          signed_out = done.revoked;
          marked = ap (otp_by_hash h) done.kept ∙ otp_by_hash-mark_used now h s.one_time_tokens t k;
        }
    chosen false e p = cc

-- A property of what a call leaves passes through a guard that answers an error.
guarded :
    (P : AuthDb → Type 0) (b : Bool) (e : Err) (s : AuthDb) (y : Result (Unit {0}) × AuthDb)
    → (y.0 ≡ ok tt → P y.1)
    → (if b then (err e, s) else y).0 ≡ ok tt
    → P (if b then (err e, s) else y).1
guarded P true e s y k h = cc
guarded P false e s y k h = k h

committed_ok :
    (P : AuthDb → Type 0) (r : Result AuthDb) (s : AuthDb)
    → ((after : AuthDb) → r ≡ ok after → P after)
    → (committed r s).0 ≡ ok tt
    → P (committed r s).1
committed_ok P (err e) s k h = cc
committed_ok P (ok after) s k h = k after refl

reset_with_ok :
    (c : Config) (now : ℕ) (token : Text) (r : Result String) (s : AuthDb)
    → (reset_with c now token r s).0 ≡ ok tt
    → ResetDone (c.hash_token token) now s (reset_with c now token r s).1
unfolding consume_one_time_token
reset_with_ok c now token (err e) s h = cc
reset_with_ok c now token (ok hash) s h =
    guarded (ResetDone (c.hash_token token) now s) (is_blank (trim_space token)) err_bad_token s _
      (committed_ok (ResetDone (c.hash_token token) now s) _ s
        (λ after q. with_token_ok (c.hash_token token) hash now _ s after refl q))
      h

-- A password reset that succeeds was given a stored token for resets, unused and not expired, and
-- leaves every session of the owner of that token revoked.
pub reset_signs_out :
    (c : Config) (now : ℕ) (token password : Text) (s : AuthDb)
    → (confirm_password_reset c now token password s).0 ≡ ok tt
    → ResetDone (c.hash_token token) now s (confirm_password_reset c now token password s).1
unfolding confirm_password_reset
reset_signs_out c now token password s h =
    guarded (ResetDone (c.hash_token token) now s) (ltb (length password) min_password_len)
      (validation_error "password must be at least 8 characters") s
      (reset_with c now token (c.hash_password password) s)
      (reset_with_ok c now token (c.hash_password password) s) h

-- A used token is not usable.
used_blocks : (fits used fresh : Bool) → used ≡ true → (fits && (not used && fresh)) ≡ true → ⊥
used_blocks false used fresh h k = cc
used_blocks true true fresh h k = cc
used_blocks true false fresh h k = cc

-- The token of a reset that went through is spent for any later one.
spent_refused :
    (c : Config) (now later : ℕ) (token : Text) (s after last : AuthDb)
    → ResetDone (c.hash_token token) now s after
    → ResetDone (c.hash_token token) later after last
    → ⊥
unfolding the_row
spent_refused c now later token s after last first second =
    let same : second.row ≡ used_row now first.row.used_at first.row =
      ap (the_row second.row) (sym second.found ∙ first.marked) in
    used_blocks (text_is second.row.purpose "password_reset") (is_set second.row.used_at)
      (ltb later second.row.expires_at)
      (ap (λ (z : OneTimeToken). is_set z.used_at) same
        ∙ used_row-used now first.row.used_at first.row refl)
      second.in_use

-- A token that reset a password does not reset one again, at any later time and with any password.
pub reset_once :
    (c : Config) (now later : ℕ) (token password again : Text) (s : AuthDb)
    → (confirm_password_reset c now token password s).0 ≡ ok tt
    → ¬ (
        (confirm_password_reset c later token again
          (confirm_password_reset c now token password s).1).0
        ≡ ok tt)
reset_once c now later token password again s h q =
    spent_refused c now later token s (confirm_password_reset c now token password s).1 _
      (reset_signs_out c now token password s h)
      (reset_signs_out c later token again (confirm_password_reset c now token password s).1 q)
