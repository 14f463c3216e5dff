-- ===== src/Auth/OneTime.antt =====
-- One-time tokens of backend/services/auth/internal: VerifyEmail and ConfirmPasswordReset of
-- service.go, with the statements of repository.go that they run.
use final_bds.Prelude.{
  ℕ, Bool, true, String, List, [], ◌∷◌, Option, none, some, dec_text, ite, if◌then◌else◌, ◌&&◌, not,
  text_is, ltb, length,
}
use final_bds.Errors.{not_found_error, validation_error, Result, ok, err}
use final_bds.Text.{Text, trim_space, is_blank}
use final_bds.Auth.{
  User, RefreshToken, OneTimeToken, AuthDb, Config, err_bad_token, is_set, email_verified_event,
  password_reset,
}
use final_bds.Auth.Store.{user_by_id, update_user, revoke_row}
use final_bds.Auth.Sessions.{missing_token}

-- `oneTimeTokenRepo.GetByHash`.
unfoldable pub otp_by_hash : String → List OneTimeToken → Result OneTimeToken
otp_by_hash h [] = err (not_found_error "resource not found")
otp_by_hash h (t ∷ ts) = ite (dec_text t.token_hash h) (ok t) (otp_by_hash h ts)

abbrev pub used_row : ℕ → Option ℕ → OneTimeToken → OneTimeToken
used_row now (some t) row = row
used_row now none row = record row { used_at = some now }

-- `oneTimeTokenRepo.MarkUsed`.
unfoldable pub mark_used : ℕ → String → List OneTimeToken → List OneTimeToken
mark_used now id [] = []
mark_used now id (t ∷ ts) =
    ite (dec_text t.id id) (used_row now t.used_at t) t ∷ mark_used now id ts

-- `sessionRepo.RevokeAllForUser`.
unfoldable pub revoke_all_for_user : ℕ → String → List RefreshToken → List RefreshToken
revoke_all_for_user now user [] = []
revoke_all_for_user now user (t ∷ ts) =
    ite (dec_text t.user_id user) (revoke_row now t.replaced_by t.revoked_at t) t
    ∷ revoke_all_for_user now user ts

-- `Usable`.
abbrev pub usable : OneTimeToken → ℕ → Bool
usable t now = not (is_set t.used_at) && ltb now t.expires_at

-- The transaction of `consumeOneTimeToken` behind each of its reads.
abbrev pub with_owner : (User → AuthDb → Result AuthDb) → Result User → AuthDb → Result AuthDb
with_owner apply (err e) s = err e
with_owner apply (ok u) s = apply u s

abbrev pub with_token :
    ℕ → String → (User → AuthDb → Result AuthDb) → Result OneTimeToken → AuthDb → Result AuthDb
with_token now purpose apply (err e) s = err (missing_token e)
with_token now purpose apply (ok t) s =
    if text_is t.purpose purpose && usable t now
    then with_owner apply (user_by_id t.user_id s.users)
        (record s { one_time_tokens = mark_used now t.id s.one_time_tokens })
    else err err_bad_token

abbrev pub committed : Result AuthDb → AuthDb → Result (Unit {0}) × AuthDb
committed (err e) before = (err e, before)
committed (ok after) before = (ok tt, after)

-- `consumeOneTimeToken`.
unfoldable pub consume_one_time_token :
    Config
    → ℕ
    → Text
    → String
    → (User → AuthDb → Result AuthDb)
    → AuthDb
    → Result (Unit {0}) × AuthDb
unfolding otp_by_hash mark_used user_by_id trim_space is_blank
consume_one_time_token c now token purpose apply s =
    if is_blank (trim_space token)
    then (err err_bad_token, s)
    else committed
        (with_token now purpose apply (otp_by_hash (c.hash_token token) s.one_time_tokens) s) s

abbrev pub verified : User → Result (List User) → AuthDb → Result AuthDb
verified u (err e) s = err e
verified u (ok users) s =
    ok (record s { users = users; events = email_verified_event u.id u.email ∷ s.events })

-- What `VerifyEmail` applies.
abbrev pub apply_verification : User → AuthDb → Result AuthDb
apply_verification u s =
    if u.email_verified
    then ok s
    else verified u (update_user (record u { email_verified = true }) s.users) s

-- `VerifyEmail`.
unfoldable pub verify_email : Config → ℕ → Text → AuthDb → Result (Unit {0}) × AuthDb
unfolding consume_one_time_token update_user
verify_email c now token s = consume_one_time_token c now token "email_verify" apply_verification s

abbrev pub password_set : ℕ → User → Result (List User) → AuthDb → Result AuthDb
password_set now u (err e) s = err e
password_set now u (ok users) s = ok (record s {
  users = users;
  sessions = revoke_all_for_user now u.id s.sessions;
  events = password_reset u.id "completed" ∷ s.events;
})

-- What `ConfirmPasswordReset` applies: the new hash, and an end to the lock and to all sessions.
abbrev pub apply_reset : ℕ → String → User → AuthDb → Result AuthDb
apply_reset now hash u s =
    password_set now u
      (update_user
        (record u { password_hash = hash; failed_login_attempts = 0; locked_until = none }) s.users)
      s

abbrev pub reset_with : Config → ℕ → Text → Result String → AuthDb → Result (Unit {0}) × AuthDb
reset_with c now token (err e) s = (err e, s)
reset_with c now token (ok hash) s =
    consume_one_time_token c now token "password_reset" (apply_reset now hash) s

-- `minPasswordLen`.
abbrev pub min_password_len : ℕ
min_password_len = 8

-- `ConfirmPasswordReset`, with `validatePassword`.
unfoldable pub confirm_password_reset :
    Config → ℕ → Text → Text → AuthDb → Result (Unit {0}) × AuthDb
unfolding consume_one_time_token update_user revoke_all_for_user
confirm_password_reset c now token password s =
    if ltb (length password) min_password_len
    then (err (validation_error "password must be at least 8 characters"), s)
    else reset_with c now token (c.hash_password password) s
