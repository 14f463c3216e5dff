-- ===== src/Auth.antt =====
-- The auth service (backend/services/auth/internal): the rows of domain.go and repository.go, the
-- errors of errors.go, and what it takes from elsewhere.
pub mod Store
pub mod Sessions
pub mod Login
pub mod Revoking
pub mod Rotation
pub mod OneTime
pub mod Spending
pub mod Requests
pub mod Superseding
pub mod Resetting
pub mod Access
pub mod Lockout
use final_bds.Prelude.{
  ℕ, ltb, Bool, true, false, String, List, Option, none, some, ◌||◌, ◌&&◌, text_is,
}
use final_bds.Errors.{Err, new_with_status, Result}
use final_bds.Text.{Text}

-- `User`, without its columns that no operation here reads.
pub record User : Type 0 where
  pub id : String
  pub version : ℕ
  pub email : Text
  pub password_hash : String
  pub status : String
  pub email_verified : Bool
  pub mfa_enabled : Bool
  pub mfa_secret : Option String
  pub failed_login_attempts : ℕ
  pub locked_until : Option ℕ

-- `RefreshToken`.
pub record RefreshToken : Type 0 where
  pub id : String
  pub user_id : String
  pub token_hash : String
  pub expires_at : ℕ
  pub revoked_at : Option ℕ
  pub replaced_by : Option String

-- `OneTimeToken`.
pub record OneTimeToken : Type 0 where
  pub id : String
  pub user_id : String
  pub purpose : String
  pub token_hash : String
  pub expires_at : ℕ
  pub used_at : Option ℕ

-- The events of events.go that these operations write.
pub data AuthEvent : Type 0 where
  login_succeeded : String → Text → AuthEvent
  login_failed : String → Text → ℕ → AuthEvent
  token_rotated : String → Option String → String → AuthEvent
  token_revoked : String → String → AuthEvent
  email_verified_event : String → Text → AuthEvent
  password_reset : String → String → AuthEvent
  verification_requested : String → Text → String → AuthEvent
  reset_requested : String → Text → String → AuthEvent

-- The tables of the service, and the session ids in the shared revocation store, with their expiry.
pub record AuthDb : Type 0 where
  pub users : List User
  pub sessions : List RefreshToken
  pub one_time_tokens : List OneTimeToken
  pub events : List AuthEvent
  pub revoked_sessions : List (String × ℕ)

-- What the service is built with: SHA-256, bcrypt, TOTP, the signing of access tokens (its result is
-- the token and its lifetime), the answer of the revocation store, and the configured lifetimes.
pub record Config : Type 0 where
  pub hash_token : Text → String
  pub verify_password : Text → String → Result Bool
  pub hash_password : Text → Result String
  pub verify_totp : String → Text → ℕ → Bool
  pub issue : String → Text → String → Result (String × ℕ)
  pub revoker : Option (String → Bool)
  pub refresh_ttl : ℕ
  pub access_ttl : ℕ

-- What a call draws: the time, a random refresh token, and the id of the row that it inserts.
pub record Draw : Type 0 where
  pub now : ℕ
  pub secret : Text
  pub session_id : String

-- `TokenPair`.
pub record TokenPair : Type 0 where
  pub access_token : String
  pub refresh_token : Text
  pub expires_in : ℕ

abbrev pub err_invalid_credentials : Err
err_invalid_credentials = new_with_status "INVALID_CREDENTIALS" 401 "invalid email or password"

abbrev pub err_mfa_required : Err
err_mfa_required = new_with_status "MFA_REQUIRED" 401 "multi-factor authentication code required"

abbrev pub err_mfa_invalid : Err
err_mfa_invalid = new_with_status "MFA_INVALID" 401 "invalid multi-factor authentication code"

abbrev pub err_account_locked : Err
err_account_locked =
    new_with_status "ACCOUNT_LOCKED" 423 "account temporarily locked due to failed login attempts"

abbrev pub err_bad_token : Err
err_bad_token = new_with_status "INVALID_TOKEN" 401 "invalid or expired token"

abbrev pub err_token_revoked : Err
err_token_revoked = new_with_status "TOKEN_REVOKED" 401 "token has been revoked"

abbrev pub is_after : Option ℕ → ℕ → Bool
is_after none now = false
is_after (some t) now = ltb now t

-- `IsLocked`.
unfoldable pub is_locked : User → ℕ → Bool
is_locked u now = text_is u.status "locked" || is_after u.locked_until now

-- `RevokedAt != nil`.
abbrev pub is_set : Option ℕ → Bool
is_set none = false
is_set (some t) = true
