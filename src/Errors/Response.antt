-- ===== src/Errors/Response.antt =====
-- What a client is answered where a handler fails: `ErrorHandler` and `coerce` of
-- backend/libs/middleware/middleware.go.
use final_bds.Prelude.{ℕ, String, [], if◌then◌else◌, ◌==◌}
use final_bds.Errors.{
  Code, unauthenticated, forbidden, not_found, rate_limited, internal, Err, app, from, http_status,
  Detail, envelope,
}

-- The error that a handler returns: a `*fiber.Error` of the web framework, with its status and message,
-- or another error.
pub data Failure : Type 0 where
  fiber : ℕ → String → Failure
  returned : Err → Failure

-- The switch over the status of a `*fiber.Error`.
abbrev pub fiber_code : ℕ → Code
fiber_code n =
    if n == 404
    then not_found
    else if n == 401
    then unauthenticated
    else if n == 403
    then forbidden
    else if n == 429
    then rate_limited
    else internal

-- `coerce`.
unfoldable pub coerce : Failure → Err
unfolding from
coerce (fiber status message) = app (fiber_code status) message [] 0
coerce (returned e) = from e

-- `ErrorHandler`: the status and the body of the answer to the request of that id.
unfoldable pub error_handler : Failure → String → ℕ × Detail
unfolding coerce http_status envelope
error_handler f request_id = (http_status (coerce f), envelope (coerce f) request_id)
