-- ===== src/Auth/Lockout.antt =====
-- The lock after failed logins: proofs about Auth.Login.
use final_bds.Prelude.{
  ℕ, suc, ◌+◌, ◌≤◌, ◌<◌, Bool, true, false, String, List, [], ◌∷◌, dec_text, if_pos, if_neg,
  if◌then◌else◌, ◌||◌, text_is, ltb, leb, ◌==◌, ◌≡◌, refl, ap, sym, ◌∙◌, Bool-cases, inl, inr,
  arith,
}
use mathlib.Core.Path.{subst}
use final_bds.Errors.{Result, ok, err}
use final_bds.Text.{Text, Text-discrete, is_blank}
use final_bds.Auth.{
  User, AuthDb, Config, Draw, err_invalid_credentials, err_account_locked, is_locked,
}
use final_bds.Auth.Store.{user_by_email, is_current, written, write_user, has_current, update_user}
use final_bds.Auth.Login.{
  LoginRequest, max_failed_logins, lockout_duration, failed_once, register_failed_login,
  password_checked, login_found, normalize_email, login,
}

the_user : User → Result User → User
the_user d (ok u) = u
the_user d (err e) = d

same_user : (u v : User) → ok u ≡ ok v → u ≡ v
unfolding the_user
same_user u v h = ap (the_user u) h

text_is_refl : (s : String) → text_is s s ≡ true
text_is_refl s = if_pos (dec_text s s) refl true false

is_current_self : (w u : User) → w.id ≡ u.id → w.version ≡ u.version → is_current w u ≡ true
is_current_self w u h k =
    let same_id : text_is u.id w.id ≡ true = ap (text_is u.id) h ∙ text_is_refl u.id in
    let same_version : (u.version == w.version) ≡ true = ground (arith, k) in
    ground (arith, same_id, same_version)

has_current-found :
    (email : Text) (us : List User) (u w : User)
    → user_by_email email us ≡ ok u
    → w.id ≡ u.id
    → w.version ≡ u.version
    → has_current w us ≡ true
unfolding user_by_email has_current
has_current-found email [] u w q h k = cc
has_current-found email (v ∷ vs) u w q h k = elim (Bool-cases (is_current w v)) [
  | inl here ↦ rw here refl
  | inr other ↦ rw other (elim (Text-discrete v.email email) [
    | yes p ↦
        let same =
          same_user v u
            (sym (if_pos (Text-discrete v.email email) p (ok v) (user_by_email email vs)) ∙ q) in
        let clash : true ≡ false =
          sym (
            is_current_self w v (h ∙ ap (λ (z : User). z.id) (sym same))
              (k ∙ ap (λ (z : User). z.version) (sym same)))
          ∙ other in
        cc
    | no p ↦
        has_current-found email vs u w
          (sym (if_neg (Text-discrete v.email email) p (ok v) (user_by_email email vs)) ∙ q) h k
  ])
]

chosen_email : (b : Bool) (w v : User) → (if b then written w v else v).email ≡ v.email
chosen_email true w v = refl
chosen_email false w v = refl

-- A write of the user that an email finds is found by the email.
user_by_email-write_user :
    (email : Text) (us : List User) (u w : User)
    → user_by_email email us ≡ ok u
    → w.id ≡ u.id
    → w.version ≡ u.version
    → user_by_email email (write_user w us) ≡ ok (written w u)
unfolding user_by_email write_user
user_by_email-write_user email [] u w q h k = cc
user_by_email-write_user email (v ∷ vs) u w q h k = elim (Text-discrete v.email email) [
  | yes p ↦
      let same =
        same_user v u
          (sym (if_pos (Text-discrete v.email email) p (ok v) (user_by_email email vs)) ∙ q) in
      let here : is_current w v ≡ true =
        is_current_self w v (h ∙ ap (λ (z : User). z.id) (sym same))
          (k ∙ ap (λ (z : User). z.version) (sym same)) in
      rw here (
        if_pos (Text-discrete v.email email) p (ok (written w v))
          (user_by_email email (write_user w vs))
        ∙ ap (λ z. ok (written w z)) same)
  | no p ↦
      if_neg (Text-discrete (if is_current w v then written w v else v).email email)
        (λ e. p (sym (chosen_email (is_current w v) w v) ∙ e))
        (ok (if is_current w v then written w v else v)) (user_by_email email (write_user w vs))
      ∙ user_by_email-write_user email vs u w
          (sym (if_neg (Text-discrete v.email email) p (ok v) (user_by_email email vs)) ∙ q) h k
]

-- What a failed login leaves of the users.
users-register_failed_login :
    (now : ℕ) (email : Text) (u : User) (s : AuthDb)
    → user_by_email email s.users ≡ ok u
    → user_by_email email (register_failed_login now u s).users ≡ ok (written (failed_once now u) u)
unfolding register_failed_login update_user
users-register_failed_login now email u s q =
    rw (has_current-found email s.users u (failed_once now u) q refl refl)
      (user_by_email-write_user email s.users u (failed_once now u) q refl refl)

-- A login that fails on its password.
pub record WrongPassword (c : Config) (d : Draw) (r : LoginRequest) (s : AuthDb) (u : User)
    : Type 0 where
  pub filled : is_blank (normalize_email r.email) || is_blank r.password ≡ false
  pub known : user_by_email (normalize_email r.email) s.users ≡ ok u
  pub unlocked : is_locked u d.now ≡ false
  pub enabled : text_is u.status "disabled" ≡ false
  pub wrong : c.verify_password r.password u.password_hash ≡ ok false

login_wrong :
    (c : Config) (d : Draw) (r : LoginRequest) (s : AuthDb) (u : User)
    → WrongPassword c d r s u
    → login c d r s ≡ (err err_invalid_credentials, register_failed_login d.now u s)
unfolding login
login_wrong c d r s u w =
    steps (is_blank (normalize_email r.email) || is_blank r.password)
      (user_by_email (normalize_email r.email) s.users) w.filled w.known
    ∙ checks (is_locked u d.now) (text_is u.status "disabled")
        (c.verify_password r.password u.password_hash) w.unlocked w.enabled w.wrong
  where
    steps :
        (b : Bool) (o : Result User)
        → b ≡ false
        → o ≡ ok u
        → (if b then (err err_invalid_credentials, s) else login_found c d r o s)
          ≡ login_found c d r (ok u) s
    steps true o h k = cc
    steps false o h k = ap (λ z. login_found c d r z s) k

    checks :
        (l x : Bool) (v : Result Bool)
        → l ≡ false
        → x ≡ false
        → v ≡ ok false
        → (if l
            then (err err_account_locked, s)
            else if x
            then (err err_invalid_credentials, s)
            else password_checked c d r u v s)
          ≡ (err err_invalid_credentials, register_failed_login d.now u s)
    checks true x v h k q = cc
    checks false true v h k q = cc
    checks false false v h k q = ap (λ z. password_checked c d r u z s) q

login_locked :
    (c : Config) (d : Draw) (r : LoginRequest) (s : AuthDb) (u : User)
    → is_blank (normalize_email r.email) || is_blank r.password ≡ false
    → user_by_email (normalize_email r.email) s.users ≡ ok u
    → is_locked u d.now ≡ true
    → login c d r s ≡ (err err_account_locked, s)
unfolding login
login_locked c d r s u filled known held =
    steps (is_blank (normalize_email r.email) || is_blank r.password)
      (user_by_email (normalize_email r.email) s.users) filled known
    ∙ ap
        (λ z.
          if z
          then (err err_account_locked, s)
          else if text_is u.status "disabled"
          then (err err_invalid_credentials, s)
          else password_checked c d r u (c.verify_password r.password u.password_hash) s)
        held
  where
    steps :
        (b : Bool) (o : Result User)
        → b ≡ false
        → o ≡ ok u
        → (if b then (err err_invalid_credentials, s) else login_found c d r o s)
          ≡ login_found c d r (ok u) s
    steps true o h k = cc
    steps false o h k = ap (λ z. login_found c d r z s) k

is_locked-failed_once :
    (now later : ℕ) (u : User)
    → max_failed_logins ≤ suc u.failed_login_attempts
    → later < now + lockout_duration
    → is_locked (written (failed_once now u) u) later ≡ true
unfolding is_locked
is_locked-failed_once now later u h k =
    let reached : leb max_failed_logins (suc u.failed_login_attempts) ≡ true = ground arith in
    let held : ltb later (now + lockout_duration) ≡ true = ground arith in
    rw reached (rw held (either (text_is u.status "locked")))
  where
    either : (b : Bool) → b || true ≡ true
    either true = refl
    either false = refl

-- The wrong password that makes the failures of a user reach the threshold locks the account: any
-- login for the same email within the lockout time is refused, with whatever password and code, and
-- changes nothing.
pub lockout_holds :
    (c : Config) (d d' : Draw) (r r' : LoginRequest) (s : AuthDb) (u : User)
    → WrongPassword c d r s u
    → max_failed_logins ≤ suc u.failed_login_attempts
    → d'.now < d.now + lockout_duration
    → normalize_email r'.email ≡ normalize_email r.email
    → is_blank (normalize_email r'.email) || is_blank r'.password ≡ false
    → login c d' r' (login c d r s).1 ≡ (err err_account_locked, (login c d r s).1)
lockout_holds c d d' r r' s u w top soon same filled =
    let after = register_failed_login d.now u s in
    let left : (login c d r s).1 ≡ after = ap (λ p. p.1) (login_wrong c d r s u w) in
    subst (λ z. login c d' r' z ≡ (err err_account_locked, z)) (sym left)
      (login_locked c d' r' after (written (failed_once d.now u) u) filled
        (ap (λ e. user_by_email e after.users) same
          ∙ users-register_failed_login d.now (normalize_email r.email) u s w.known)
        (is_locked-failed_once d.now d'.now u top soon))
