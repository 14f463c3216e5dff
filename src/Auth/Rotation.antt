-- ===== src/Auth/Rotation.antt =====
-- A refresh token is used once: proofs about Auth.Sessions.
use final_bds.Prelude.{
  ℕ, Bool, true, false, String, List, ◌∷◌, Option, none, some, dec_text, if_neg, if◌then◌else◌,
  ◌||◌, ◌+◌, not, text_is, ltb, ◌≡◌, refl, ap, sym, ◌∙◌,
}
use mathlib.Core.Path.{subst}
use final_bds.Errors.{conflict_error, Result, ok, err}
use final_bds.Text.{Text, is_blank, trim_space}
use final_bds.Auth.{
  token_rotated, User, RefreshToken, AuthDb, Config, Draw, TokenPair, err_token_revoked,
  err_bad_token, err_account_locked, is_set, is_locked,
}
use final_bds.Auth.Store.{
  user_by_id, session_by_hash, has_hash, create_session, revoke_row, revoke_session,
}
use final_bds.Auth.Sessions.{
  issue_token_pair, new_session, stored, signed, rotate, rotated, refresh_user, refresh_found,
  refresh, revoke_in_cache, recorded, id_if_found,
}
use final_bds.Auth.Revoking.{
  passed, entered, has_hash-found, session_by_hash-revoke_session, is_set-revoke_row,
}

-- The hash finds a session that is revoked.
record Spent (h : String) (s : AuthDb) : Type 0 where
  row : RefreshToken
  found : session_by_hash h s.sessions ≡ ok row
  spent : is_set row.revoked_at ≡ true

Spent-of : (h : String) (s t : AuthDb) → t.sessions ≡ s.sessions → Spent h s → Spent h t
Spent-of h s t e p = record {
  row = p.row;
  found = ap (session_by_hash h) e ∙ p.found;
  spent = p.spent;
}

revoke_in_cache-sessions :
    (c : Config) (d : Draw) (id : String) (s : AuthDb)
    → (revoke_in_cache c d id s).sessions ≡ s.sessions
unfolding revoke_in_cache
revoke_in_cache-sessions c d id s = recorded-sessions c.revoker id (d.now + c.access_ttl) s
  where
    chosen-sessions :
        (b : Bool) (x : AuthDb) (r : List (String × ℕ))
        → (if b then x else record x { revoked_sessions = r }).sessions ≡ x.sessions
    chosen-sessions true x r = refl
    chosen-sessions false x r = refl

    recorded-sessions :
        (o : Option (String → Bool)) (i : String) (until : ℕ) (x : AuthDb)
        → (recorded o i until x).sessions ≡ x.sessions
    recorded-sessions none i until x = refl
    recorded-sessions (some accepts) i until x =
        chosen-sessions (text_is i "" || not (accepts i)) x ((i, until) ∷ x.revoked_sessions)

pair_db : AuthDb → Result (TokenPair × AuthDb) → AuthDb
pair_db d (ok p) = p.1
pair_db d (err e) = d

same_db :
    (p q : TokenPair) (s t : AuthDb)
    → ◌≡◌ {A = Result (TokenPair × AuthDb)} (ok (p, s)) (ok (q, t))
    → s ≡ t
unfolding pair_db
same_db p q s t h = ap (pair_db s) h

signed_ok :
    (d : Draw) (r : Result (String × ℕ)) (s s' : AuthDb) (p : TokenPair)
    → signed d r s ≡ ok (p, s')
    → s ≡ s'
signed_ok d (err e) s s' p h = cc
signed_ok d (ok (token, lifetime)) s s' p h = same_db _ p s s' h

-- The rows of a successful insertion, under a hash that was free.
record Inserted (t : RefreshToken) (before after : List RefreshToken) : Type 0 where
  free : has_hash t.token_hash before ≡ false
  added : after ≡ t ∷ before

create_session_ok :
    (t : RefreshToken) (ts ts' : List RefreshToken)
    → create_session t ts ≡ ok ts'
    → Inserted t ts ts'
unfolding create_session
create_session_ok t ts ts' h = chosen (has_hash t.token_hash ts) refl h
  where
    rows_of : Result (List RefreshToken) → List RefreshToken
    rows_of (ok r) = r
    rows_of (err e) = ts

    chosen :
        (b : Bool)
        → has_hash t.token_hash ts ≡ b
        → (if b then err (conflict_error "resource already exists") else ok (t ∷ ts)) ≡ ok ts'
        → Inserted t ts ts'
    chosen true e q = cc
    chosen false e q = record { free = e; added = sym (ap rows_of q) }

stored_ok :
    (c : Config) (d : Draw) (u : User) (r : Result (List RefreshToken)) (s s' : AuthDb)
    (p : TokenPair)
    → stored c d u r s ≡ ok (p, s')
    → r ≡ ok s'.sessions
stored_ok c d u (err e) s s' p h = cc
stored_ok c d u (ok ts) s s' p h =
    ap (λ (z : AuthDb). ok z.sessions) (signed_ok d (c.issue u.id u.email d.session_id) _ s' p h)

beside_row :
    (t : RefreshToken) (h : String) (ts : List RefreshToken) (old : RefreshToken)
    → has_hash t.token_hash ts ≡ false
    → session_by_hash h ts ≡ ok old
    → session_by_hash h (t ∷ ts) ≡ ok old
unfolding session_by_hash
beside_row t h ts old free found = elim (dec_text t.token_hash h) [
  | yes e ↦
      let clash : true ≡ false =
        sym (has_hash-found h ts old found) ∙ ap (λ z. has_hash z ts) (sym e) ∙ free in
      cc
  | no e ↦ if_neg (dec_text t.token_hash h) e (ok t) (session_by_hash h ts) ∙ found
]

-- A new session has a hash that the table did not hold, so the old ones are found as before.
found_still :
    (c : Config) (d : Draw) (u : User) (s s' : AuthDb) (p : TokenPair) (h : String)
    (old : RefreshToken)
    → session_by_hash h s.sessions ≡ ok old
    → issue_token_pair c d u s ≡ ok (p, s')
    → session_by_hash h s'.sessions ≡ ok old
unfolding issue_token_pair
found_still c d u s s' p h old found q =
    let i =
      create_session_ok (new_session c d u) s.sessions s'.sessions
        (stored_ok c d u (create_session (new_session c d u) s.sessions) s s' p q) in
    ap (session_by_hash h) i.added ∙ beside_row (new_session c d u) h s.sessions old i.free found

Spent-rotate :
    (c : Config) (d : Draw) (u : User) (s : AuthDb) (h : String) (old : RefreshToken)
    (r : Result (TokenPair × AuthDb)) (pair : TokenPair)
    → session_by_hash h s.sessions ≡ ok old
    → issue_token_pair c d u s ≡ r
    → (rotated c d old (rotate c d u old r) s).0 ≡ ok pair
    → Spent h (rotated c d old (rotate c d u old r) s).1
Spent-rotate c d u s h old (err e) pair found q k = cc
Spent-rotate c d u s h old (ok (p, s')) pair found q k =
    let by = id_if_found (session_by_hash (c.hash_token p.refresh_token) s'.sessions) in
    let mid : AuthDb = record s' {
      sessions = revoke_session d.now old.id by s'.sessions;
      events = token_rotated u.id by old.id ∷ s'.events;
    } in
    Spent-of h mid (revoke_in_cache c d old.id mid) (revoke_in_cache-sessions c d old.id mid)
      (record {
        row = revoke_row d.now by old.revoked_at old;
        found =
            session_by_hash-revoke_session d.now by h s'.sessions old
              (found_still c d u s s' p h old found q);
        spent = is_set-revoke_row d.now by old.revoked_at old refl;
      })

Spent-refresh_user :
    (c : Config) (d : Draw) (s : AuthDb) (h : String) (old : RefreshToken) (r : Result User)
    (pair : TokenPair)
    → session_by_hash h s.sessions ≡ ok old
    → (refresh_user c d old r s).0 ≡ ok pair
    → Spent h (refresh_user c d old r s).1
Spent-refresh_user c d s h old (err e) pair found k = cc
Spent-refresh_user c d s h old (ok u) pair found k =
    let y = rotated c d old (rotate c d u old (issue_token_pair c d u s)) s in
    let b = is_locked u d.now || text_is u.status "disabled" in
    let open_account = passed b _ s y pair k in
    subst (λ z. Spent h (if z then (err err_account_locked, s) else y).1) (sym open_account)
      (Spent-rotate c d u s h old (issue_token_pair c d u s) pair found refl
        (subst (λ z. (if z then (err err_account_locked, s) else y).0 ≡ ok pair) open_account k))

Spent-refresh_found :
    (c : Config) (d : Draw) (s : AuthDb) (h : String) (r : Result RefreshToken) (pair : TokenPair)
    → session_by_hash h s.sessions ≡ r
    → (refresh_found c d r s).0 ≡ ok pair
    → Spent h (refresh_found c d r s).1
Spent-refresh_found c d s h (err e) pair found k = cc
Spent-refresh_found c d s h (ok old) pair found k =
    let x = refresh_user c d old (user_by_id old.user_id s.users) s in
    let y = if ltb d.now old.expires_at then x else (err err_bad_token, s) in
    let unrevoked = passed (is_set old.revoked_at) err_token_revoked s y pair k in
    let k' = subst (λ z. (if z then (err err_token_revoked, s) else y).0 ≡ ok pair) unrevoked k in
    let alive = entered (ltb d.now old.expires_at) err_bad_token s x pair k' in
    subst (λ z. Spent h (if z then (err err_token_revoked, s) else y).1) (sym unrevoked)
      (subst (λ z. Spent h (if z then x else (err err_bad_token, s)).1) (sym alive)
        (Spent-refresh_user c d s h old (user_by_id old.user_id s.users) pair found
          (subst (λ z. (if z then x else (err err_bad_token, s)).0 ≡ ok pair) alive k')))

refresh_found-Spent :
    (c : Config) (d : Draw) (h : String) (s : AuthDb)
    → Spent h s
    → refresh_found c d (session_by_hash h s.sessions) s ≡ (err err_token_revoked, s)
refresh_found-Spent c d h s p =
    ap (λ r. refresh_found c d r s) p.found
    ∙ ap
        (λ b.
          if b
          then (err err_token_revoked, s)
          else if ltb d.now p.row.expires_at
          then refresh_user c d p.row (user_by_id p.row.user_id s.users) s
          else (err err_bad_token, s))
        p.spent

-- A refresh token is used once: after a refresh that succeeded, the same token is refused as revoked,
-- at any later call, whatever is drawn for it, and that call changes nothing.
pub refresh_once :
    (c : Config) (d d' : Draw) (token : Text) (s : AuthDb) (pair : TokenPair)
    → (refresh c d token s).0 ≡ ok pair
    → refresh c d' token (refresh c d token s).1 ≡ (err err_token_revoked, (refresh c d token s).1)
unfolding refresh
refresh_once c d d' token s pair h =
    let x = refresh_found c d (session_by_hash (c.hash_token token) s.sessions) s in
    let b = is_blank (trim_space token) in
    let filled = passed b err_bad_token s x pair h in
    let k = subst (λ z. (if z then (err err_bad_token, s) else x).0 ≡ ok pair) filled h in
    let spent =
      Spent-refresh_found c d s (c.hash_token token)
        (session_by_hash (c.hash_token token) s.sessions) pair refl k in
    subst
      (λ z.
        (if z
          then (err err_bad_token, (if z then (err err_bad_token, s) else x).1)
          else refresh_found c d'
              (session_by_hash (c.hash_token token)
                (if z then (err err_bad_token, s) else x).1.sessions)
              (if z then (err err_bad_token, s) else x).1)
        ≡ (err err_token_revoked, (if z then (err err_bad_token, s) else x).1))
      (sym filled) (refresh_found-Spent c d' (c.hash_token token) x.1 spent)
