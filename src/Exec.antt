-- ===== src/Exec.antt =====
-- Service methods as state passing: a method takes the database and returns its result beside the
-- database as it leaves it. `with_tenant` is `DB.WithTenant` of backend/libs/database/tx.go.
pub mod Steps
pub mod Atomic
pub mod Success
use final_bds.Prelude.{Bool, true, false, String, dec_text, ite}
use final_bds.Errors.{Err, plain, Result, ok, err}

abbrev pub Exec : Type 0 → Type 0 → Type 0
Exec S A = S → Result A × S

module _ {S A : Type 0} where
  unfoldable pub pure : A → Exec S A
  pure a s = (ok a, s)

  unfoldable pub raise : Err → Exec S A
  raise e s = (err e, s)

  -- A statement that only reads.
  unfoldable pub gets : (S → Result A) → Exec S A
  gets f s = (f s, s)

  -- A statement that writes without a result that can fail.
  unfoldable pub puts : A → (S → S) → Exec S A
  puts a f s = (ok a, f s)

  -- Commit on success, roll back on an error.
  abbrev pub settle : Result A → S → S → Result A × S
  settle (ok a) after before = (ok a, after)
  settle (err e) after before = (err e, before)

  -- `WithTenant`: an empty organisation is rejected, otherwise the body runs in a transaction.
  unfoldable pub with_tenant : String → Exec S A → Exec S A
  with_tenant org m s =
      ite (dec_text org "") (err (plain "database: tenant scope (orgID) is required"), s)
        (settle (m s).0 (m s).1 s)

-- A guard: `if !b { return e }`.
module _ {S : Type 0} where
  unfoldable pub require : Bool → Err → Exec S (Unit {0})
  require true e s = (ok tt, s)
  require false e s = (err e, s)

module _ {S A B : Type 0} where
  abbrev pub continue : Result A → (A → Exec S B) → Exec S B
  continue (ok a) f s = f a s
  continue (err e) f s = (err e, s)

  infixl 5 ◌>>=◌ ◌>>◌
  -- Opening this opens the statements above too.
  unfoldable pub ◌>>=◌ : Exec S A → (A → Exec S B) → Exec S B
  unfolding pure raise gets puts require with_tenant
  ◌>>=◌ m f s = continue (m s).0 f (m s).1

  abbrev pub ◌>>◌ : Exec S A → Exec S B → Exec S B
  m >> k = m >>= λ _. k

  abbrev pub recover_with : Result A → (Err → Exec S B) → (A → Exec S B) → Exec S B
  recover_with (ok a) recover f s = f a s
  recover_with (err e) recover f s = recover e s

  -- `if err != nil` with a branch of its own: the error goes to `recover`.
  unfoldable pub attempt : Exec S A → (Err → Exec S B) → (A → Exec S B) → Exec S B
  attempt m recover f s = recover_with (m s).0 recover f (m s).1
