-- ===== src/Exec/Steps.antt =====
-- Rules about Exec: how a relation between the state before and the state after is carried through
-- a method, and which methods leave the state alone when they fail.
use final_bds.Prelude.{◌≡◌, refl, ◌∙◌, Bool, true, false, String, dec_text, ite, if◌then◌else◌}
use final_bds.Errors.{Err, Result, ok, err}
use final_bds.Exec.{
  Exec, pure, raise, gets, continue, ◌>>=◌, recover_with, attempt, require, settle, with_tenant,
}

-- A relation on states that holds of a state and itself, and composes.
pub record Order {S : Type 0} (R : S → S → Type 0) : Type 0 where
  pub same : (s : S) → R s s
  pub compose : (s t u : S) → R s t → R t u → R s u

-- Whatever `m` answers, the state that it leaves is related to the state that it met.
pub record Steps {S A : Type 0} (R : S → S → Type 0) (m : Exec S A) : Type 0 where
  pub at : (s : S) → R s (m s).1

module _ {S A : Type 0} {R : S → S → Type 0} (o : Order R) where
  pub Steps-pure : (a : A) → Steps R (pure a)
  unfolding pure
  Steps-pure a = record { at = o.same }

  pub Steps-raise : (e : Err) → Steps R (raise {A = A} e)
  unfolding raise
  Steps-raise e = record { at = o.same }

  pub Steps-gets : (f : S → Result A) → Steps R (gets f)
  unfolding gets
  Steps-gets f = record { at = o.same }

  settled : (r : Result A) (s t : S) → R s t → R s (settle r t s).1
  settled (ok a) s t h = h
  settled (err e) s t h = o.same s

  scoped :
      {P : Type 0} (d : Dec P) (e : Err) (r : Result A) (s t : S)
      → R s t
      → R s (ite d (err e, s) (settle r t s)).1
  scoped (yes p) e r s t h = o.same s
  scoped (no p) e r s t h = settled r s t h

  pub Steps-with_tenant : (org : String) (m : Exec S A) → Steps R m → Steps R (with_tenant org m)
  unfolding with_tenant
  Steps-with_tenant org m k = record {
    at = λ s. scoped (dec_text org "") _ (m s).0 s (m s).1 (k.at s);
  }

module _ {S : Type 0} {R : S → S → Type 0} (o : Order R) where
  pub Steps-require : (b : Bool) (e : Err) → Steps R (require b e)
  unfolding require
  Steps-require true e = record { at = o.same }
  Steps-require false e = record { at = o.same }

module _ {S A B : Type 0} {R : S → S → Type 0} (o : Order R) where
  continued :
      (r : Result A) (f : A → Exec S B) (s t : S)
      → ((a : A) → Steps R (f a))
      → R s t
      → R s (continue r f t).1
  continued (ok a) f s t kf h = o.compose s t _ h ((kf a).at t)
  continued (err e) f s t kf h = h

  pub Steps-bind :
      (m : Exec S A) (f : A → Exec S B) → Steps R m → ((a : A) → Steps R (f a)) → Steps R (m >>= f)
  unfolding ◌>>=◌
  Steps-bind m f km kf = record { at = λ s. continued (m s).0 f s (m s).1 kf (km.at s) }

  recovered :
      (r : Result A) (g : Err → Exec S B) (f : A → Exec S B) (s t : S)
      → ((e : Err) → Steps R (g e))
      → ((a : A) → Steps R (f a))
      → R s t
      → R s (recover_with r g f t).1
  recovered (ok a) g f s t kg kf h = o.compose s t _ h ((kf a).at t)
  recovered (err e) g f s t kg kf h = o.compose s t _ h ((kg e).at t)

  pub Steps-attempt :
      (m : Exec S A) (g : Err → Exec S B) (f : A → Exec S B)
      → Steps R m
      → ((e : Err) → Steps R (g e))
      → ((a : A) → Steps R (f a))
      → Steps R (attempt m g f)
  unfolding attempt
  Steps-attempt m g f km kg kf = record {
    at = λ s. recovered (m s).0 g f s (m s).1 kg kf (km.at s);
  }

module _ {S A : Type 0} {R : S → S → Type 0} where
  pub Steps-if : (b : Bool) (m n : Exec S A) → Steps R m → Steps R n → Steps R (if b then m else n)
  Steps-if true m n km kn = km
  Steps-if false m n km kn = kn

pub ruleset steps_rules = (
  Steps-pure, Steps-raise, Steps-gets, Steps-with_tenant, Steps-require, Steps-bind, Steps-attempt,
  Steps-if,
)

-- The state is left as it was.
unfoldable pub Same : {S : Type 0} → S → S → Type 0
Same s t = t ≡ s

pub Same-order : {S : Type 0} → Order (Same {S = S})
unfolding Same
Same-order = record { same = λ s. refl; compose = λ s t u p q. q ∙ p }
