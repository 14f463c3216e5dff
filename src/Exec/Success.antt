-- ===== src/Exec/Success.antt =====
-- What the success of a method says of its parts: proofs about Exec.
use final_bds.Prelude.{◌≡◌, refl, Bool, true, false, String, dec_text, ite}
use final_bds.Errors.{Err, Result, ok, err}
use final_bds.Exec.{
  Exec, pure, raise, continue, ◌>>=◌, recover_with, attempt, require, settle, with_tenant,
}

module _ {S A B : Type 0} where
  continued :
      (r : Result A) (f : A → Exec S B) (t : S) (b : B)
      → (continue r f t).0 ≡ ok b
      → (a : A) × (r ≡ ok a) × ((f a t).0 ≡ ok b) × ((continue r f t).1 ≡ (f a t).1)
  continued (ok a) f t b h = (a, refl, h, refl)
  continued (err e) f t b h = cc

  -- A sequence succeeds when both parts do, the second in the state that the first leaves.
  pub bind_ok :
      (m : Exec S A) (f : A → Exec S B) (s : S) (b : B)
      → ((m >>= f) s).0 ≡ ok b
      → (a : A) × ((m s).0 ≡ ok a) × ((f a (m s).1).0 ≡ ok b) × (((m >>= f) s).1 ≡ (f a (m s).1).1)
  unfolding ◌>>=◌
  bind_ok m f s b h = continued (m s).0 f (m s).1 b h

module _ {S A : Type 0} where
  mapped :
      (r : Result A) (g : Err → Err) (t : S) (a : A)
      → (recover_with r (λ e. raise (g e)) (λ x. pure x) t).0 ≡ ok a
      → (r ≡ ok a) × ((recover_with r (λ e. raise {A = A} (g e)) (λ x. pure x) t).1 ≡ t)
  unfolding raise pure
  mapped (ok x) g t a h = (h, refl)
  mapped (err e) g t a h = cc

  -- A branch that only replaces the error.
  pub attempt_ok :
      (m : Exec S A) (g : Err → Err) (s : S) (a : A)
      → (attempt m (λ e. raise (g e)) (λ x. pure x) s).0 ≡ ok a
      → ((m s).0 ≡ ok a) × ((attempt m (λ e. raise {A = A} (g e)) (λ x. pure x) s).1 ≡ (m s).1)
  unfolding attempt
  attempt_ok m g s a h = mapped (m s).0 g (m s).1 a h

  settled :
      (r : Result A) (t s : S) (a : A)
      → (settle r t s).0 ≡ ok a
      → (r ≡ ok a) × ((settle r t s).1 ≡ t)
  settled (ok x) t s a h = (h, refl)
  settled (err e) t s a h = cc

  scoped :
      {P : Type 0} (d : Dec P) (x : Err) (r : Result A) (t s : S) (a : A)
      → (ite d (err x, s) (settle r t s)).0 ≡ ok a
      → (r ≡ ok a) × ((ite d (err x, s) (settle r t s)).1 ≡ t)
  scoped (yes p) x r t s a h = cc
  scoped (no n) x r t s a h = settled r t s a h

  -- A transaction that succeeds is its body.
  pub with_tenant_ok :
      (org : String) (m : Exec S A) (s : S) (a : A)
      → (with_tenant org m s).0 ≡ ok a
      → ((m s).0 ≡ ok a) × ((with_tenant org m s).1 ≡ (m s).1)
  unfolding with_tenant
  with_tenant_ok org m s a h = scoped (dec_text org "") _ (m s).0 (m s).1 s a h

module _ {S : Type 0} where
  -- A guard that is passed.
  pub require_ok :
      (b : Bool) (e : Err) (s : S) (u : Unit {0})
      → (require b e s).0 ≡ ok u
      → (b ≡ true) × ((require b e s).1 ≡ s)
  unfolding require
  require_ok true e s u h = (refl, refl)
  require_ok false e s u h = cc
