-- ===== src/Samples/Logins.antt =====
-- The auth service at concrete inputs.
use final_bds.Prelude.{
  ℕ_discrete, true, false, String, [], ◌∷◌, none, some, ◌≡◌, refl, arith, dec_text, ite, ◌||◌,
}
use final_bds.Errors.{ok, err}
use final_bds.Text.{
  Text, Text-discrete, codes, same_text, is_blank, lower_byte, trim_left, trim_right, is_space,
}
use final_bds.Auth.{
  User, RefreshToken, OneTimeToken, AuthDb, Config, Draw, TokenPair, err_token_revoked,
  err_account_locked, is_locked,
}
use final_bds.Auth.Store.{user_by_email, has_hash}
use final_bds.Auth.Sessions.{refresh}
use final_bds.Auth.Login.{LoginRequest, normalize_email, login}
use final_bds.Auth.Rotation.{refresh_once}
use final_bds.Auth.OneTime.{confirm_password_reset}
use final_bds.Auth.Resetting.{ResetDone, reset_signs_out, reset_once}
use final_bds.Auth.Requests.{request_password_reset}
use final_bds.Auth.Superseding.{TokenGiven, request_supersedes}
use final_bds.Auth.Access.{MaySignIn, login_sound}
use final_bds.Auth.Lockout.{WrongPassword, lockout_holds}

-- Toy primitives: a hash that tells two tokens apart, and passwords stored in the clear.
abbrev toy_hash : Text → String
toy_hash [] = "empty"
toy_hash (c ∷ s) = ite (ℕ_discrete c 97) "hash-a" "hash-b"

abbrev settings : Config
settings = record {
  hash_token = toy_hash;
  verify_password = λ given stored. ok (same_text given (codes stored));
  hash_password = λ given. ok "new";
  verify_totp = λ secret entered now. true;
  issue = λ user email session. ok ("jwt", 900);
  revoker = some (λ id. true);
  refresh_ttl = 1000;
  access_ttl = 100;
}

abbrev ann : User
ann = record {
  id = "u1";
  version = 3;
  email = codes "ann@example.org";
  password_hash = "secret";
  status = "active";
  email_verified = false;
  mfa_enabled = false;
  mfa_secret = none;
  failed_login_attempts = 4;
  locked_until = none;
}

abbrev first_session : RefreshToken
first_session = record {
  id = "s1";
  user_id = "u1";
  token_hash = "hash-a";
  expires_at = 500;
  revoked_at = none;
  replaced_by = none;
}

abbrev tables : AuthDb
tables = record {
  users = ann ∷ [];
  sessions = first_session ∷ [];
  one_time_tokens = [];
  events = [];
  revoked_sessions = [];
}

abbrev drawn : Draw
drawn = record { now = 10; secret = codes "b"; session_id = "s2" }

abbrev drawn_later : Draw
drawn_later = record { now = 20; secret = codes "c"; session_id = "s3" }

abbrev new_pair : TokenPair
new_pair = record { access_token = "jwt"; refresh_token = codes "b"; expires_in = 900 }

refreshed : (refresh settings drawn (codes "a") tables).0 ≡ ok new_pair
unfolding refresh dec_text has_hash ℕ_discrete trim_left trim_right is_space
refreshed = refl

refresh_once_example :
    refresh settings drawn_later (codes "a") (refresh settings drawn (codes "a") tables).1
    ≡ (err err_token_revoked, (refresh settings drawn (codes "a") tables).1)
refresh_once_example = refresh_once settings drawn drawn_later (codes "a") tables new_pair refreshed

abbrev good_login : LoginRequest
good_login = record { email = codes " Ann@example.org"; password = codes "secret"; mfa_code = [] }

abbrev bad_login : LoginRequest
bad_login = record { email = codes "ann@example.org"; password = codes "guess"; mfa_code = [] }

signed_in : (login settings drawn good_login tables).0 ≡ ok new_pair
unfolding login dec_text Text-discrete ℕ_discrete is_blank lower_byte same_text
signed_in = refl

login_sound_example : MaySignIn settings drawn good_login tables
login_sound_example = login_sound settings drawn good_login tables new_pair signed_in

wrong_password : WrongPassword settings drawn bad_login tables ann
unfolding normalize_email user_by_email dec_text Text-discrete ℕ_discrete is_blank is_locked
    lower_byte same_text
wrong_password = record {
  filled = refl;
  known = refl;
  unlocked = refl;
  enabled = refl;
  wrong = refl;
}

same_address : normalize_email good_login.email ≡ normalize_email bad_login.email
unfolding normalize_email lower_byte
same_address = refl

filled_in : is_blank (normalize_email good_login.email) || is_blank good_login.password ≡ false
unfolding normalize_email is_blank dec_text
filled_in = refl

lockout_holds_example :
    login settings drawn_later good_login (login settings drawn bad_login tables).1
    ≡ (err err_account_locked, (login settings drawn bad_login tables).1)
lockout_holds_example =
    lockout_holds settings drawn drawn_later bad_login good_login tables ann wrong_password
      (omega arith) (omega arith) same_address filled_in

abbrev reset_token : OneTimeToken
reset_token = record {
  id = "t1";
  user_id = "u1";
  purpose = "password_reset";
  token_hash = "hash-b";
  expires_at = 50;
  used_at = none;
}

abbrev awaiting : AuthDb
awaiting = record tables { one_time_tokens = reset_token ∷ [] }

reset_accepted :
    (confirm_password_reset settings 10 (codes "b") (codes "longer word") awaiting).0 ≡ ok tt
unfolding confirm_password_reset dec_text ℕ_discrete is_blank trim_left trim_right is_space
reset_accepted = refl

reset_signs_out_example :
    ResetDone
      (settings.hash_token (codes "b"))
      10
      awaiting
      (confirm_password_reset settings 10 (codes "b") (codes "longer word") awaiting).1
reset_signs_out_example =
    reset_signs_out settings 10 (codes "b") (codes "longer word") awaiting reset_accepted

reset_once_example : ¬ (
    (confirm_password_reset settings 20
      (codes "b")
      (codes "another word")
      (confirm_password_reset settings 10 (codes "b") (codes "longer word") awaiting).1).0
    ≡ ok tt)
reset_once_example =
    reset_once settings 10 20 (codes "b") (codes "longer word") (codes "another word") awaiting
      reset_accepted

abbrev drawn_token : Draw
drawn_token = record { now = 30; secret = codes "a"; session_id = "t2" }

token_handed_out :
    (request_password_reset settings drawn_token (codes "ann@example.org") awaiting).0
    ≡ ok (
        some (record {
          purpose = "password_reset";
          user_id = "u1";
          email = codes "ann@example.org";
          token = codes "a";
          delivery_ref = "t2";
        }))
unfolding request_password_reset dec_text Text-discrete ℕ_discrete is_blank lower_byte
token_handed_out = refl

request_supersedes_example :
    TokenGiven settings drawn_token
      (codes "ann@example.org")
      awaiting
      (request_password_reset settings drawn_token (codes "ann@example.org") awaiting).1
request_supersedes_example =
    request_supersedes settings drawn_token (codes "ann@example.org") awaiting _ token_handed_out
