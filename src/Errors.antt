-- ===== src/Errors.antt =====
-- libs/errors (backend/libs/errors/errors.go): the typed application error, its HTTP status and the
-- envelope that clients see; and `IsNotFound` of backend/libs/database/errors.go.
pub mod Mapping
pub mod Response
use final_bds.Prelude.{
  ℕ, ◌≡◌, refl, ◌⊎◌, inl, inr, Bool, true, false, String, List, [], ◌++◌, Option, none, some, ◌==◌,
  if◌then◌else◌,
}

-- A `Code` is a Go string: the named constants, and `custom` for any other text.
pub data Code : Type 0 where
  unauthenticated forbidden not_found validation_failed conflict rate_limited internal : Code
  custom : String → Code

-- A value of Go's `error` that is not nil. `app` is an `*Error` without a cause and `wrap` one with
-- a cause; their numbers are the `status` override, 0 where none is set. `plain` is an error of
-- another package, and `annotated` is `fmt.Errorf("...: %w", err)`.
pub data Err : Type 0 where
  app : Code → String → List String → ℕ → Err
  wrap : Code → String → List String → ℕ → Err → Err
  plain : String → Err
  annotated : String → Err → Err

-- `HTTPStatus(c Code)`.
unfoldable pub code_status : Code → ℕ
code_status unauthenticated = 401
code_status forbidden = 403
code_status not_found = 404
code_status validation_failed = 422
code_status conflict = 409
code_status rate_limited = 429
code_status internal = 500
code_status (custom s) = 500

-- `errors.As(err, &appErr)`: the first `*Error` along the chain.
unfoldable pub find_app : Err → Option Err
find_app (app c m d s) = some (app c m d s)
find_app (wrap c m d s e) = some (wrap c m d s e)
find_app (plain t) = none
find_app (annotated t e) = find_app e

-- `From`: coerces any error into an `*Error`.
unfoldable pub from : Err → Err
unfolding find_app
from e = elim (find_app e) [ none ↦ wrap internal "internal error" [] 0 e | some a ↦ a ]

-- The field `Code` of an `*Error`. The clauses for the other two values are never reached through
-- `from`, which returns an `*Error`.
unfoldable pub code : Err → Code
code (app c m d s) = c
code (wrap c m d s e) = c
code (plain t) = internal
code (annotated t e) = internal

-- The method `HTTPStatus`: the override when set, otherwise the status of the code.
unfoldable pub http_status : Err → ℕ
unfolding code_status
http_status (app c m d s) = if s == 0 then code_status c else s
http_status (wrap c m d s e) = if s == 0 then code_status c else s
http_status (plain t) = 500
http_status (annotated t e) = 500

-- `WithDetails`.
unfoldable pub with_details : Err → List String → Err
with_details (app c m d s) more = app c m (d ++ more) s
with_details (wrap c m d s e) more = wrap c m (d ++ more) s e
with_details (plain t) more = plain t
with_details (annotated t e) more = annotated t e

-- `Detail`, the content of the JSON envelope.
pub record Detail : Type 0 where
  pub error_code : Code
  pub message : String
  pub details : List String
  pub request_id : String

-- The method `Envelope`, on the `*Error` that `From` returns.
unfoldable pub envelope : Err → String → Detail
envelope (app c m d s) r = record { error_code = c; message = m; details = d; request_id = r }
envelope (wrap c m d s e) r = record { error_code = c; message = m; details = d; request_id = r }
envelope (plain t) r = record {
  error_code = internal;
  message = "internal error";
  details = [];
  request_id = r;
}
envelope (annotated t e) r = record {
  error_code = internal;
  message = "internal error";
  details = [];
  request_id = r;
}

abbrev is_not_found_code : Code → Bool
is_not_found_code not_found = true
is_not_found_code _ = false

-- `database.IsNotFound`, for errors that are not pgx's own `ErrNoRows`: `MapError` has turned that
-- one into a `not_found` application error before a repository returns it.
unfoldable pub is_not_found : Err → Bool
unfolding from code
is_not_found e = is_not_found_code (code (from e))

-- The convenience constructors that the services use.
abbrev pub unauthorized_error : String → Err
unauthorized_error m = app unauthenticated m [] 0

abbrev pub forbidden_error : String → Err
forbidden_error m = app forbidden m [] 0

abbrev pub not_found_error : String → Err
not_found_error m = app not_found m [] 0

abbrev pub validation_error : String → Err
validation_error m = app validation_failed m [] 0

abbrev pub conflict_error : String → Err
conflict_error m = app conflict m [] 0

-- `NewWithStatus` with a domain-specific code.
abbrev pub new_with_status : String → ℕ → String → Err
new_with_status c s m = app (custom c) m [] s

-- A Go function that returns a value and an error.
pub data Result {ℓ} (A : Type ℓ) : Type ℓ where
  ok : A → Result A
  err : Err → Result A

pub Result-cases {ℓ} :
    {A : Type ℓ} (r : Result A) → ((e : Err) × (r ≡ err e)) ⊎ ((a : A) × (r ≡ ok a))
Result-cases (ok a) = inr (a, refl)
Result-cases (err e) = inl (e, refl)
