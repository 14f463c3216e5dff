-- ===== src/Auth/Store.antt =====
-- The statements of backend/services/auth/internal/repository.go, with the unique index on the hash
-- of refresh tokens (backend/migrations/auth/0001_init.up.sql).
use final_bds.Prelude.{
  ℕ, suc, Bool, true, false, String, List, [], ◌∷◌, Option, none, some, dec_text, ite,
  if◌then◌else◌, ◌==◌, ◌&&◌, text_is,
}
use final_bds.Errors.{Err, conflict_error, not_found_error, Result, ok, err}
use final_bds.Text.{Text, Text-discrete}
use final_bds.Auth.{User, RefreshToken}

abbrev no_row : Err
no_row = not_found_error "resource not found"

-- `userRepo.GetByEmail`.
unfoldable pub user_by_email : Text → List User → Result User
unfolding Text-discrete
user_by_email email [] = err no_row
user_by_email email (u ∷ us) = ite (Text-discrete u.email email) (ok u) (user_by_email email us)

-- `userRepo.GetByID`.
unfoldable pub user_by_id : String → List User → Result User
user_by_id id [] = err no_row
user_by_id id (u ∷ us) = ite (dec_text u.id id) (ok u) (user_by_id id us)

-- WHERE id = $9 AND version = $10.
abbrev pub is_current : User → User → Bool
is_current u row = text_is row.id u.id && row.version == u.version

-- The SET clause: the email stays.
abbrev pub written : User → User → User
written u row = record u { email = row.email; version = suc row.version }

unfoldable pub write_user : User → List User → List User
write_user u [] = []
write_user u (row ∷ rows) = (if is_current u row then written u row else row) ∷ write_user u rows

unfoldable pub has_current : User → List User → Bool
has_current u [] = false
has_current u (row ∷ rows) = if is_current u row then true else has_current u rows

abbrev pub optimistic_lock : Err
optimistic_lock = conflict_error "resource was modified concurrently; reload and retry"

-- `userRepo.Update`.
unfoldable pub update_user : User → List User → Result (List User)
unfolding write_user has_current
update_user u rows = if has_current u rows then ok (write_user u rows) else err optimistic_lock

-- `sessionRepo.GetByHash`.
unfoldable pub session_by_hash : String → List RefreshToken → Result RefreshToken
session_by_hash h [] = err no_row
session_by_hash h (t ∷ ts) = ite (dec_text t.token_hash h) (ok t) (session_by_hash h ts)

unfoldable pub has_hash : String → List RefreshToken → Bool
has_hash h [] = false
has_hash h (t ∷ ts) = ite (dec_text t.token_hash h) true (has_hash h ts)

-- `sessionRepo.Create`: token_hash is unique.
unfoldable pub create_session : RefreshToken → List RefreshToken → Result (List RefreshToken)
unfolding has_hash
create_session t ts =
    if has_hash t.token_hash ts then err (conflict_error "resource already exists") else ok (t ∷ ts)

abbrev pub revoke_row : ℕ → Option String → Option ℕ → RefreshToken → RefreshToken
revoke_row now by (some t) row = row
revoke_row now by none row = record row { revoked_at = some now; replaced_by = by }

-- `sessionRepo.Revoke`.
unfoldable pub revoke_session : ℕ → String → Option String → List RefreshToken → List RefreshToken
revoke_session now id by [] = []
revoke_session now id by (t ∷ ts) =
    ite (dec_text t.id id) (revoke_row now by t.revoked_at t) t ∷ revoke_session now id by ts
