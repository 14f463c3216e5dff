-- ===== src/Auth/Access.antt =====
-- Who may sign in: proofs about Auth.Login.
use final_bds.Prelude.{
  Bool, true, false, if◌then◌else◌, ◌||◌, not, text_is, ◌≡◌, ◌⊎◌, refl, inl, inr,
}
use mathlib.Core.Path.{subst}
use final_bds.Errors.{Result, ok, err}
use final_bds.Text.{is_blank, trim_space}
use final_bds.Auth.{
  User, AuthDb, Config, Draw, TokenPair, err_invalid_credentials, err_mfa_required, err_mfa_invalid,
  err_account_locked, is_locked,
}
use final_bds.Auth.Store.{user_by_email}
use final_bds.Auth.Login.{
  LoginRequest, register_failed_login, sign_in, code_matches, mfa_gate, password_checked,
  login_found, normalize_email, login,
}
use final_bds.Auth.Revoking.{passed}

-- What a sign-in rests on.
pub record Authenticated (c : Config) (d : Draw) (r : LoginRequest) (u : User) : Type 0 where
  pub password_ok : c.verify_password r.password u.password_hash ≡ ok true
  pub second_factor :
      (u.mfa_enabled ≡ false) ⊎ (code_matches c d.now r.mfa_code u.mfa_secret ≡ true)

mfa_gate_sound :
    (c : Config) (d : Draw) (r : LoginRequest) (u : User) (s : AuthDb) (pair : TokenPair)
    → (mfa_gate c d r u s).0 ≡ ok pair
    → (u.mfa_enabled ≡ false) ⊎ (code_matches c d.now r.mfa_code u.mfa_secret ≡ true)
mfa_gate_sound c d r u s pair h =
    gate u.mfa_enabled (is_blank (trim_space r.mfa_code))
      (code_matches c d.now r.mfa_code u.mfa_secret) h
  where
    gate :
        (b m k : Bool)
        → (if not b
            then sign_in c d u s
            else if m
            then (err err_mfa_required, s)
            else if k
            then sign_in c d u s
            else (err err_mfa_invalid, register_failed_login d.now u s)).0
          ≡ ok pair
        → (b ≡ false) ⊎ (k ≡ true)
    gate false m k q = inl refl
    gate true true k q = cc
    gate true false true q = inr refl
    gate true false false q = cc

password_checked_sound :
    (c : Config) (d : Draw) (r : LoginRequest) (u : User) (v : Result Bool) (s : AuthDb)
    (pair : TokenPair)
    → c.verify_password r.password u.password_hash ≡ v
    → (password_checked c d r u v s).0 ≡ ok pair
    → Authenticated c d r u
password_checked_sound c d r u (err e) s pair q h = cc
password_checked_sound c d r u (ok false) s pair q h = cc
password_checked_sound c d r u (ok true) s pair q h = record {
  password_ok = q;
  second_factor = mfa_gate_sound c d r u s pair h;
}

-- The user that a login is for, at the time of the call.
pub record MaySignIn (c : Config) (d : Draw) (r : LoginRequest) (s : AuthDb) : Type 0 where
  pub user : User
  pub known : user_by_email (normalize_email r.email) s.users ≡ ok user
  pub unlocked : is_locked user d.now ≡ false
  pub enabled : text_is user.status "disabled" ≡ false
  pub authenticated : Authenticated c d r user

login_found_sound :
    (c : Config) (d : Draw) (r : LoginRequest) (o : Result User) (s : AuthDb) (pair : TokenPair)
    → user_by_email (normalize_email r.email) s.users ≡ o
    → (login_found c d r o s).0 ≡ ok pair
    → MaySignIn c d r s
login_found_sound c d r (err e) s pair q h = cc
login_found_sound c d r (ok u) s pair q h =
    let v = c.verify_password r.password u.password_hash in
    let x = password_checked c d r u v s in
    let y = if text_is u.status "disabled" then (err err_invalid_credentials, s) else x in
    let open_account = passed (is_locked u d.now) err_account_locked s y pair h in
    let h' =
      subst (λ z. (if z then (err err_account_locked, s) else y).0 ≡ ok pair) open_account h in
    let active = passed (text_is u.status "disabled") err_invalid_credentials s x pair h' in
    let h'' =
      subst (λ z. (if z then (err err_invalid_credentials, s) else x).0 ≡ ok pair) active h' in
    record {
      user = u;
      known = q;
      unlocked = open_account;
      enabled = active;
      authenticated = password_checked_sound c d r u v s pair refl h'';
    }

-- A login succeeds only for a known user who is neither locked nor disabled, with the right password,
-- and with a valid code where the user has a second factor.
pub login_sound :
    (c : Config) (d : Draw) (r : LoginRequest) (s : AuthDb) (pair : TokenPair)
    → (login c d r s).0 ≡ ok pair
    → MaySignIn c d r s
unfolding login
login_sound c d r s pair h =
    let o = user_by_email (normalize_email r.email) s.users in
    let x = login_found c d r o s in
    let b = is_blank (normalize_email r.email) || is_blank r.password in
    let filled = passed b err_invalid_credentials s x pair h in
    login_found_sound c d r o s pair refl
      (subst (λ z. (if z then (err err_invalid_credentials, s) else x).0 ≡ ok pair) filled h)
