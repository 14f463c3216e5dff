-- ===== src/Auth/Login.antt =====
-- Login of backend/services/auth/internal/service.go.
use final_bds.Prelude.{
  ℕ, suc, ◌+◌, Bool, true, false, String, List, ◌∷◌, Option, none, some, if◌then◌else◌, ◌||◌, not,
  text_is, leb, ◌==◌,
}
use final_bds.Errors.{Err, is_not_found, Result, ok, err}
use final_bds.Text.{Text, to_lower, trim_space, is_blank}
use final_bds.Auth.{
  User, AuthDb, Config, Draw, TokenPair, err_invalid_credentials, err_mfa_required, err_mfa_invalid,
  err_account_locked, is_locked, is_set, login_failed, login_succeeded,
}
use final_bds.Auth.Store.{user_by_email, update_user}
use final_bds.Auth.Sessions.{issue_token_pair}

-- `maxFailedLogins`.
abbrev pub max_failed_logins : ℕ
max_failed_logins = 5

-- `lockoutDuration`, 15 minutes in nanoseconds.
abbrev pub lockout_duration : ℕ
lockout_duration = 900_000_000_000

-- `LoginRequest`.
pub record LoginRequest : Type 0 where
  pub email : Text
  pub password : Text
  pub mfa_code : Text

-- The user with one more failure, locked from the threshold on.
abbrev pub failed_once : ℕ → User → User
failed_once now u = record u {
  failed_login_attempts = suc u.failed_login_attempts;
  locked_until =
      if leb max_failed_logins (suc u.failed_login_attempts)
      then some (now + lockout_duration)
      else u.locked_until;
}

abbrev pub failure_written : User → Result (List User) → AuthDb → AuthDb
failure_written u (err e) s = s
failure_written u (ok users) s = record s {
  users = users;
  events = login_failed u.id u.email u.failed_login_attempts ∷ s.events;
}

-- `registerFailedLogin`: an error of its transaction is only logged.
unfoldable pub register_failed_login : ℕ → User → AuthDb → AuthDb
unfolding update_user
register_failed_login now u s =
    let failed = failed_once now u in failure_written failed (update_user failed s.users) s

abbrev pub cleared : User → User
cleared u = record u { failed_login_attempts = 0; locked_until = none }

abbrev pub with_users : Result (List User) → AuthDb → Result AuthDb
with_users (err e) s = err e
with_users (ok users) s = ok (record s { users = users })

-- The reset of the counters in the transaction of `Login`.
unfoldable pub reset_failures : User → AuthDb → Result AuthDb
unfolding update_user
reset_failures u s =
    if not (u.failed_login_attempts == 0) || is_set u.locked_until
    then with_users (update_user (cleared u) s.users) s
    else ok s

abbrev pub logged : User → Result (TokenPair × AuthDb) → AuthDb → Result TokenPair × AuthDb
logged u (err e) before = (err e, before)
logged u (ok (pair, s)) before =
    (ok pair, record s { events = login_succeeded u.id u.email ∷ s.events })

abbrev pub issue_after : Config → Draw → User → Result AuthDb → AuthDb → Result TokenPair × AuthDb
issue_after c d u (err e) before = (err e, before)
issue_after c d u (ok s) before = logged u (issue_token_pair c d u s) before

-- The transaction of `Login`.
unfoldable pub sign_in : Config → Draw → User → AuthDb → Result TokenPair × AuthDb
unfolding reset_failures issue_token_pair
sign_in c d u s = issue_after c d u (reset_failures u s) s

abbrev pub code_matches : Config → ℕ → Text → Option String → Bool
code_matches c now code none = false
code_matches c now code (some secret) = c.verify_totp secret code now

-- The MFA gate.
abbrev pub mfa_gate : Config → Draw → LoginRequest → User → AuthDb → Result TokenPair × AuthDb
mfa_gate c d r u s =
    if not u.mfa_enabled
    then sign_in c d u s
    else if is_blank (trim_space r.mfa_code)
    then (err err_mfa_required, s)
    else if code_matches c d.now r.mfa_code u.mfa_secret
    then sign_in c d u s
    else (err err_mfa_invalid, register_failed_login d.now u s)

abbrev pub password_checked :
    Config → Draw → LoginRequest → User → Result Bool → AuthDb → Result TokenPair × AuthDb
password_checked c d r u (err e) s = (err e, s)
password_checked c d r u (ok false) s =
    (err err_invalid_credentials, register_failed_login d.now u s)
password_checked c d r u (ok true) s = mfa_gate c d r u s

abbrev pub unknown_user : Err → Err
unknown_user e = if is_not_found e then err_invalid_credentials else e

abbrev pub login_found :
    Config → Draw → LoginRequest → Result User → AuthDb → Result TokenPair × AuthDb
login_found c d r (err e) s = (err (unknown_user e), s)
login_found c d r (ok u) s =
    if is_locked u d.now
    then (err err_account_locked, s)
    else if text_is u.status "disabled"
    then (err err_invalid_credentials, s)
    else password_checked c d r u (c.verify_password r.password u.password_hash) s

-- `normalizeEmail`.
unfoldable pub normalize_email : Text → Text
unfolding to_lower trim_space
normalize_email e = to_lower (trim_space e)

-- `Login`.
unfoldable pub login : Config → Draw → LoginRequest → AuthDb → Result TokenPair × AuthDb
unfolding normalize_email user_by_email is_locked register_failed_login sign_in
login c d r s =
    if is_blank (normalize_email r.email) || is_blank r.password
    then (err err_invalid_credentials, s)
    else login_found c d r (user_by_email (normalize_email r.email) s.users) s
