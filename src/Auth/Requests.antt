-- ===== src/Auth/Requests.antt =====
-- Requests for one-time tokens in backend/services/auth/internal: ResendVerification and
-- RequestPasswordReset of service.go, with the statements of repository.go that they run.
use final_bds.Prelude.{
  ℕ, Bool, false, String, List, [], ◌∷◌, Option, none, some, if◌then◌else◌, ◌&&◌, ◌||◌, ◌+◌,
  text_is,
}
use final_bds.Errors.{Err, conflict_error, is_not_found, Result, ok, err}
use final_bds.Text.{Text}
use final_bds.Auth.{
  User, OneTimeToken, AuthDb, AuthEvent, Config, Draw, verification_requested, reset_requested,
}
use final_bds.Auth.Store.{user_by_email}
use final_bds.Auth.Login.{normalize_email}
use final_bds.Auth.OneTime.{used_row}

-- `TokenDelivery`, what the notifier is handed.
pub record TokenDelivery : Type 0 where
  pub purpose : String
  pub user_id : String
  pub email : Text
  pub token : Text
  pub delivery_ref : String

-- `oneTimeTokenRepo.InvalidateForUser`.
unfoldable pub invalidate_for_user : ℕ → String → String → List OneTimeToken → List OneTimeToken
invalidate_for_user now user purpose [] = []
invalidate_for_user now user purpose (t ∷ ts) =
    (if text_is t.user_id user && text_is t.purpose purpose then used_row now t.used_at t else t)
    ∷ invalidate_for_user now user purpose ts

unfoldable pub has_token_hash : String → List OneTimeToken → Bool
has_token_hash h [] = false
has_token_hash h (t ∷ ts) = text_is t.token_hash h || has_token_hash h ts

-- `oneTimeTokenRepo.Create`: token_hash is unique.
abbrev pub create_token : OneTimeToken → List OneTimeToken → Result (List OneTimeToken)
create_token t ts =
    if has_token_hash t.token_hash ts
    then err (conflict_error "resource already exists")
    else ok (t ∷ ts)

-- The row of `createOneTimeToken`.
abbrev pub new_token : Config → Draw → User → String → ℕ → OneTimeToken
new_token c d u purpose ttl = record {
  id = d.session_id;
  user_id = u.id;
  purpose = purpose;
  token_hash = c.hash_token d.secret;
  expires_at = d.now + ttl;
  used_at = none;
}

abbrev pub token_stored :
    Draw
    → User
    → String
    → AuthEvent
    → Result (List OneTimeToken)
    → AuthDb
    → Result (Option TokenDelivery) × AuthDb
token_stored d u message event (err e) s = (err e, s)
token_stored d u message event (ok ts) s = (
  ok (
      some (record {
        purpose = message;
        user_id = u.id;
        email = u.email;
        token = d.secret;
        delivery_ref = d.session_id;
      })),
  record s { one_time_tokens = ts; events = event ∷ s.events },
)

-- The transaction of both requests, and the delivery after it.
unfoldable pub send_token :
    Config
    → Draw
    → String
    → ℕ
    → String
    → AuthEvent
    → User
    → AuthDb
    → Result (Option TokenDelivery) × AuthDb
unfolding invalidate_for_user has_token_hash
send_token c d purpose ttl message event u s =
    token_stored d u message event
      (create_token (new_token c d u purpose ttl)
        (invalidate_for_user d.now u.id purpose s.one_time_tokens))
      s

-- A request for an address that is not known answers as one that is.
abbrev pub unknown_address : Err → AuthDb → Result (Option TokenDelivery) × AuthDb
unknown_address e s = if is_not_found e then (ok none, s) else (err e, s)

-- `emailVerifyTTL` and `passwordResetTTL`, in nanoseconds.
abbrev pub email_verify_ttl : ℕ
email_verify_ttl = 86_400_000_000_000

abbrev pub password_reset_ttl : ℕ
password_reset_ttl = 3_600_000_000_000

abbrev pub resend_found :
    Config → Draw → Result User → AuthDb → Result (Option TokenDelivery) × AuthDb
resend_found c d (err e) s = unknown_address e s
resend_found c d (ok u) s =
    if u.email_verified
    then (ok none, s)
    else send_token c d "email_verify" email_verify_ttl "email_verification"
        (verification_requested u.id u.email d.session_id) u s

-- `ResendVerification`.
unfoldable pub resend_verification :
    Config → Draw → Text → AuthDb → Result (Option TokenDelivery) × AuthDb
unfolding user_by_email normalize_email send_token
resend_verification c d email s = resend_found c d (user_by_email (normalize_email email) s.users) s

abbrev pub request_found :
    Config → Draw → Result User → AuthDb → Result (Option TokenDelivery) × AuthDb
request_found c d (err e) s = unknown_address e s
request_found c d (ok u) s =
    send_token c d "password_reset" password_reset_ttl "password_reset"
      (reset_requested u.id u.email d.session_id) u s

-- `RequestPasswordReset`.
unfoldable pub request_password_reset :
    Config → Draw → Text → AuthDb → Result (Option TokenDelivery) × AuthDb
unfolding user_by_email normalize_email send_token
request_password_reset c d email s =
    request_found c d (user_by_email (normalize_email email) s.users) s
