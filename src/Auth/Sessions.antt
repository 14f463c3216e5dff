-- ===== src/Auth/Sessions.antt =====
-- Refresh and Logout of backend/services/auth/internal/service.go. A method takes the database and
-- returns its result beside the database as it leaves it; a failed transaction leaves it as it was.
use final_bds.Prelude.{
  ℕ, ◌+◌, Bool, String, List, ◌∷◌, Option, none, some, if◌then◌else◌, ◌||◌, not, text_is, ltb,
}
use final_bds.Errors.{Err, is_not_found, Result, ok, err}
use final_bds.Text.{Text, trim_space, is_blank}
use final_bds.Auth.{
  User, RefreshToken, AuthDb, Config, Draw, TokenPair, err_bad_token, err_token_revoked,
  err_account_locked, is_locked, is_set, token_rotated, token_revoked,
}
use final_bds.Auth.Store.{user_by_id, session_by_hash, create_session, revoke_session}

abbrev pub new_session : Config → Draw → User → RefreshToken
new_session c d u = record {
  id = d.session_id;
  user_id = u.id;
  token_hash = c.hash_token d.secret;
  expires_at = d.now + c.refresh_ttl;
  revoked_at = none;
  replaced_by = none;
}

abbrev pub signed : Draw → Result (String × ℕ) → AuthDb → Result (TokenPair × AuthDb)
signed d (err e) s = err e
signed d (ok (token, lifetime)) s =
    ok (record { access_token = token; refresh_token = d.secret; expires_in = lifetime }, s)

abbrev pub stored :
    Config → Draw → User → Result (List RefreshToken) → AuthDb → Result (TokenPair × AuthDb)
stored c d u (err e) s = err e
stored c d u (ok ts) s = signed d (c.issue u.id u.email d.session_id) (record s { sessions = ts })

-- `issueTokenPair`, in a transaction: the session is stored first, and its id goes into the token.
unfoldable pub issue_token_pair : Config → Draw → User → AuthDb → Result (TokenPair × AuthDb)
unfolding create_session
issue_token_pair c d u s = stored c d u (create_session (new_session c d u) s.sessions) s

abbrev pub id_if_found : Result RefreshToken → Option String
id_if_found (ok t) = some t.id
id_if_found (err e) = none

-- The rest of the transaction of `Refresh`: the presented session is revoked, pointing at its
-- replacement, and the event is written.
abbrev pub rotate :
    Config → Draw → User → RefreshToken → Result (TokenPair × AuthDb) → Result (TokenPair × AuthDb)
rotate c d u old (err e) = err e
rotate c d u old (ok (pair, s)) =
    let by = id_if_found (session_by_hash (c.hash_token pair.refresh_token) s.sessions) in
    ok (
      pair,
      record s {
        sessions = revoke_session d.now old.id by s.sessions;
        events = token_rotated u.id by old.id ∷ s.events;
      },
    )

abbrev pub recorded : Option (String → Bool) → String → ℕ → AuthDb → AuthDb
recorded none id until s = s
recorded (some accepts) id until s =
    if text_is id "" || not (accepts id)
    then s
    else record s { revoked_sessions = (id, until) ∷ s.revoked_sessions }

-- `revokeSessionInCache`: best effort, the answer of the store is only logged.
unfoldable pub revoke_in_cache : Config → Draw → String → AuthDb → AuthDb
revoke_in_cache c d id s = recorded c.revoker id (d.now + c.access_ttl) s

-- The end of `Refresh`: a failed transaction is rolled back.
abbrev pub rotated :
    Config → Draw → RefreshToken → Result (TokenPair × AuthDb) → AuthDb → Result TokenPair × AuthDb
rotated c d old (err e) before = (err e, before)
rotated c d old (ok (pair, s)) before = (ok pair, revoke_in_cache c d old.id s)

abbrev pub refresh_user :
    Config → Draw → RefreshToken → Result User → AuthDb → Result TokenPair × AuthDb
refresh_user c d old (err e) s = (err e, s)
refresh_user c d old (ok u) s =
    if is_locked u d.now || text_is u.status "disabled"
    then (err err_account_locked, s)
    else rotated c d old (rotate c d u old (issue_token_pair c d u s)) s

abbrev pub missing_token : Err → Err
missing_token e = if is_not_found e then err_bad_token else e

abbrev pub refresh_found : Config → Draw → Result RefreshToken → AuthDb → Result TokenPair × AuthDb
refresh_found c d (err e) s = (err (missing_token e), s)
refresh_found c d (ok old) s =
    if is_set old.revoked_at
    then (err err_token_revoked, s)
    else if ltb d.now old.expires_at
    then refresh_user c d old (user_by_id old.user_id s.users) s
    else (err err_bad_token, s)

-- `Refresh`.
unfoldable pub refresh : Config → Draw → Text → AuthDb → Result TokenPair × AuthDb
unfolding trim_space is_blank is_locked user_by_id session_by_hash issue_token_pair revoke_session
    revoke_in_cache
refresh c d token s =
    if is_blank (trim_space token)
    then (err err_bad_token, s)
    else refresh_found c d (session_by_hash (c.hash_token token) s.sessions) s

abbrev pub logout_found : Config → Draw → Result RefreshToken → AuthDb → Result (Unit {0}) × AuthDb
logout_found c d (err e) s = (if is_not_found e then ok tt else err e, s)
logout_found c d (ok old) s = (
  ok tt,
  revoke_in_cache c d old.id (record s {
    sessions = revoke_session d.now old.id none s.sessions;
    events = token_revoked old.user_id old.id ∷ s.events;
  }),
)

-- `Logout`.
unfoldable pub logout : Config → Draw → Text → AuthDb → Result (Unit {0}) × AuthDb
unfolding trim_space is_blank session_by_hash revoke_session revoke_in_cache
logout c d token s =
    if is_blank (trim_space token)
    then (ok tt, s)
    else logout_found c d (session_by_hash (c.hash_token token) s.sessions) s
