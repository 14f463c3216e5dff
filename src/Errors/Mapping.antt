-- ===== src/Errors/Mapping.antt =====
-- What clients see of an error: proofs about Errors.
use final_bds.Prelude.{
  Bool, true, false, Option-cases, inl, inr, String, List, [], ◌∷◌, ◌≡◌, refl, arith, some,
}
use final_bds.Errors.{
  Err, app, wrap, plain, annotated, find_app, from, code, http_status, with_details, is_not_found,
}

-- The layers of `fmt.Errorf("...: %w", err)` above an error.
abbrev pub annotate : List String → Err → Err
annotate [] e = e
annotate (t ∷ ts) e = annotated t (annotate ts e)

find_app-annotate : (ts : List String) (e : Err) → find_app (annotate ts e) ≡ find_app e
unfolding find_app
find_app-annotate [] e = refl
find_app-annotate (t ∷ ts) e = find_app-annotate ts e

-- If an `*Error` stands at the end of a chain of annotations, `From` returns that very error, and
-- `IsNotFound` answers as it does on the bare error: annotating an error never changes its class.
from-annotate :
    (ts : List String) (e a : Err)
    → find_app e ≡ some a
    → (from (annotate ts e) ≡ a) × (is_not_found (annotate ts e) ≡ is_not_found e)
unfolding from is_not_found
from-annotate ts e a h = ground (arith, find_app-annotate ts e)

-- `From` returns an `*Error`.
is_app : Err → Bool
is_app (app c m d s) = true
is_app (wrap c m d s e) = true
is_app _ = false

find_app-is_app : (e a : Err) → find_app e ≡ some a → is_app a ≡ true
unfolding find_app is_app
find_app-is_app (app c m d s) a h = ground arith
find_app-is_app (wrap c m d s e) a h = ground arith
find_app-is_app (plain t) a h = cc
find_app-is_app (annotated t e) a h = find_app-is_app e a h

from-is_app : (e : Err) → is_app (from e) ≡ true
unfolding from is_app
from-is_app e = elim (Option-cases (find_app e)) [
  | inl h ↦ rw (h, from)
  | inr (a, h) ↦ rw (h, from) (find_app-is_app e a h)
]

-- On an `*Error`, `From` is the identity, and details change neither the code nor the status.
is_app-stable :
    (a : Err) (more : List String)
    → is_app a ≡ true
    → (from a ≡ a)
      × (code (with_details a more) ≡ code a)
      × (http_status (with_details a more) ≡ http_status a)
unfolding from code http_status with_details is_app
is_app-stable (app c m d s) more h = (refl, refl, refl)
is_app-stable (wrap c m d s e) more h = (refl, refl, refl)
is_app-stable (plain t) more h = cc
is_app-stable (annotated t e) more h = cc

-- `From` is idempotent, and adding details to what it returns changes neither its code nor its
-- HTTP status.
from_stable :
    (e : Err) (more : List String)
    → (from (from e) ≡ from e)
      × (code (with_details (from e) more) ≡ code (from e))
      × (http_status (with_details (from e) more) ≡ http_status (from e))
from_stable e more = is_app-stable (from e) more (from-is_app e)
