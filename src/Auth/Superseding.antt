-- ===== src/Auth/Superseding.antt =====
-- A new reset token replaces the ones before it: proofs about Auth.Requests.
use final_bds.Prelude.{
  ℕ, Bool, true, false, String, List, [], ◌∷◌, Option, none, some, dec_text, ite, if◌then◌else◌,
  ◌&&◌, ◌≡◌, refl,
}
use final_bds.Errors.{Err, conflict_error, is_not_found, Result, ok, err}
use final_bds.Text.{Text}
use final_bds.Auth.{User, OneTimeToken, AuthDb, AuthEvent, Config, Draw, is_set}
use final_bds.Auth.Store.{user_by_email}
use final_bds.Auth.Login.{normalize_email}
use final_bds.Auth.OneTime.{used_row}
use final_bds.Auth.Spending.{used_row-used}
use final_bds.Auth.Requests.{
  TokenDelivery, invalidate_for_user, new_token, token_stored, send_token, password_reset_ttl,
  request_found, request_password_reset,
}

-- Every token of the user for the purpose is used.
abbrev pub AllSpent : String → String → List OneTimeToken → Type 0
AllSpent user purpose [] = Unit
AllSpent user purpose (t ∷ ts) =
    (t.user_id ≡ user → t.purpose ≡ purpose → is_set t.used_at ≡ true) × AllSpent user purpose ts

invalidate_for_user-AllSpent :
    (now : ℕ) (user purpose : String) (ts : List OneTimeToken)
    → AllSpent user purpose (invalidate_for_user now user purpose ts)
unfolding invalidate_for_user
invalidate_for_user-AllSpent now user purpose [] = tt
invalidate_for_user-AllSpent now user purpose (t ∷ ts) = (
  row_used (dec_text t.user_id user) (dec_text t.purpose purpose),
  invalidate_for_user-AllSpent now user purpose ts,
)
  where
    row_used :
        (d : Dec (t.user_id ≡ user)) (e : Dec (t.purpose ≡ purpose))
        → let row = if ite d true false && ite e true false then used_row now t.used_at t else t in
          row.user_id ≡ user → row.purpose ≡ purpose → is_set row.used_at ≡ true
    row_used (yes p) (yes q) h k = used_row-used now t.used_at t refl
    row_used (yes p) (no q) h k = absurd (q k)
    row_used (no p) e h k = absurd (p h)

-- What a request leaves: a new token, and before it only used tokens for the same purpose.
pub record NewestOnly (new : OneTimeToken) (after : AuthDb) : Type 0 where
  pub older : List OneTimeToken
  pub added : after.one_time_tokens ≡ new ∷ older
  pub used_up : AllSpent new.user_id new.purpose older

-- The user that a request was for, and the token that it made.
pub record TokenGiven (c : Config) (d : Draw) (email : Text) (before after : AuthDb) : Type 0 where
  pub user : User
  pub found : user_by_email (normalize_email email) before.users ≡ ok user
  pub replaced : NewestOnly (new_token c d user "password_reset" password_reset_ttl) after

stored_newest :
    (d : Draw) (u : User) (message : String) (event : AuthEvent) (b : Bool) (new : OneTimeToken)
    (older : List OneTimeToken) (s : AuthDb) (given : TokenDelivery)
    → AllSpent new.user_id new.purpose older
    → let r =
        token_stored d u message event
          (if b then err (conflict_error "resource already exists") else ok (new ∷ older))
          s in
      r.0 ≡ ok (some given) → NewestOnly new r.1
stored_newest d u message event true new older s given k h = cc
stored_newest d u message event false new older s given k h = record {
  older = older;
  added = refl;
  used_up = k;
}

nothing_given :
    (b : Bool) (e : Err) (s : AuthDb) (given : TokenDelivery)
    → let r : Result (Option TokenDelivery) × AuthDb = if b then (ok none, s) else (err e, s) in
      r.0 ≡ ok (some given) → ⊥
nothing_given true e s given h = cc
nothing_given false e s given h = cc

request_found_lem :
    (c : Config) (d : Draw) (email : Text) (r : Result User) (s : AuthDb) (given : TokenDelivery)
    → user_by_email (normalize_email email) s.users ≡ r
    → (request_found c d r s).0 ≡ ok (some given)
    → TokenGiven c d email s (request_found c d r s).1
unfolding send_token
request_found_lem c d email (err e) s given k h =
    absurd (nothing_given (is_not_found e) e s given h)
request_found_lem c d email (ok u) s given k h = record {
  user = u;
  found = k;
  replaced =
      stored_newest d u "password_reset" _ _ (new_token c d u "password_reset" password_reset_ttl) _
        s given (invalidate_for_user-AllSpent d.now u.id "password_reset" s.one_time_tokens) h;
}

-- A request for a password reset that hands out a token is for a known address, and leaves the row of
-- that token, unused and valid for an hour, in front of rows in which every reset token of the user
-- is used.
pub request_supersedes :
    (c : Config) (d : Draw) (email : Text) (s : AuthDb) (given : TokenDelivery)
    → (request_password_reset c d email s).0 ≡ ok (some given)
    → TokenGiven c d email s (request_password_reset c d email s).1
unfolding request_password_reset
request_supersedes c d email s given h =
    request_found_lem c d email (user_by_email (normalize_email email) s.users) s given refl h
