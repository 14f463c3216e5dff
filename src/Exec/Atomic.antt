-- ===== src/Exec/Atomic.antt =====
-- Rules about Exec: methods that leave the state as it was when they fail.
use final_bds.Prelude.{◌≡◌, refl, ◌∙◌, Bool, true, false, String, dec_text, ite, if◌then◌else◌}
use final_bds.Errors.{Err, Result, ok, err}
use final_bds.Exec.{
  Exec, pure, raise, gets, continue, ◌>>=◌, recover_with, attempt, require, settle, with_tenant,
}
use final_bds.Exec.Steps.{Steps, Same}

-- A failure of `m` leaves the state as `m` met it.
pub record Atomic {S A : Type 0} (m : Exec S A) : Type 0 where
  pub undone : (s : S) (e : Err) → (m s).0 ≡ err e → (m s).1 ≡ s

module _ {S A : Type 0} where
  pub Atomic-pure : (a : A) → Atomic {S = S} (pure a)
  unfolding pure
  Atomic-pure a = record { undone = λ s e h. refl }

  pub Atomic-raise : (e : Err) → Atomic {S = S} (raise {A = A} e)
  unfolding raise
  Atomic-raise e = record { undone = λ s e h. refl }

  pub Atomic-gets : (f : S → Result A) → Atomic (gets f)
  unfolding gets
  Atomic-gets f = record { undone = λ s e h. refl }

  rolled_back : (r : Result A) (s t : S) (e : Err) → (settle r t s).0 ≡ err e → (settle r t s).1 ≡ s
  rolled_back (ok a) s t e h = cc
  rolled_back (err x) s t e h = refl

  scoped :
      {P : Type 0} (d : Dec P) (x : Err) (r : Result A) (s t : S) (e : Err)
      → (ite d (err x, s) (settle r t s)).0 ≡ err e
      → (ite d (err x, s) (settle r t s)).1 ≡ s
  scoped (yes p) x r s t e h = refl
  scoped (no n) x r s t e h = rolled_back r s t e h

  pub Atomic-with_tenant : (org : String) (m : Exec S A) → Atomic (with_tenant org m)
  unfolding with_tenant
  Atomic-with_tenant org m = record {
    undone = λ s e. scoped (dec_text org "") _ (m s).0 s (m s).1 e;
  }

  pub Atomic-if : (b : Bool) (m n : Exec S A) → Atomic m → Atomic n → Atomic (if b then m else n)
  Atomic-if true m n km kn = km
  Atomic-if false m n km kn = kn

module _ {S : Type 0} where
  pub Atomic-require : (b : Bool) (e : Err) → Atomic {S = S} (require b e)
  unfolding require
  Atomic-require true e = record { undone = λ s x h. refl }
  Atomic-require false e = record { undone = λ s x h. refl }

module _ {S A B : Type 0} where
  continued :
      (r : Result A) (f : A → Exec S B) (s t : S) (e : Err)
      → ((a : A) → Atomic (f a))
      → t ≡ s
      → (continue r f t).0 ≡ err e
      → (continue r f t).1 ≡ s
  continued (ok a) f s t e kf h k = (kf a).undone t e k ∙ h
  continued (err x) f s t e kf h k = h

  -- A method that only reads, and then one that fails without a trace.
  pub Atomic-bind :
      (m : Exec S A) (f : A → Exec S B) → Steps Same m → ((a : A) → Atomic (f a)) → Atomic (m >>= f)
  unfolding ◌>>=◌ Same
  Atomic-bind m f km kf = record { undone = λ s e. continued (m s).0 f s (m s).1 e kf (km.at s) }

  last_continued :
      (r : Result A) (g : A → B) (s t : S) (e : Err)
      → ((x : Err) → r ≡ err x → t ≡ s)
      → (continue r (λ a. pure (g a)) t).0 ≡ err e
      → (continue r (λ a. pure (g a)) t).1 ≡ s
  unfolding pure
  last_continued (ok a) g s t e km k = cc
  last_continued (err x) g s t e km k = km x refl

  -- What cannot fail may follow.
  pub Atomic-last : (m : Exec S A) (g : A → B) → Atomic m → Atomic (m >>= λ a. pure (g a))
  unfolding ◌>>=◌
  Atomic-last m g km = record { undone = λ s e. last_continued (m s).0 g s (m s).1 e (km.undone s) }

  recovered :
      (r : Result A) (g : Err → Exec S B) (f : A → Exec S B) (s t : S) (e : Err)
      → ((x : Err) → Atomic (g x))
      → ((a : A) → Atomic (f a))
      → t ≡ s
      → (recover_with r g f t).0 ≡ err e
      → (recover_with r g f t).1 ≡ s
  recovered (ok a) g f s t e kg kf h k = (kf a).undone t e k ∙ h
  recovered (err x) g f s t e kg kf h k = (kg x).undone t e k ∙ h

  pub Atomic-attempt :
      (m : Exec S A) (g : Err → Exec S B) (f : A → Exec S B)
      → Steps Same m
      → ((x : Err) → Atomic (g x))
      → ((a : A) → Atomic (f a))
      → Atomic (attempt m g f)
  unfolding attempt Same
  Atomic-attempt m g f km kg kf = record {
    undone = λ s e. recovered (m s).0 g f s (m s).1 e kg kf (km.at s);
  }

pub ruleset atomic_rules = (
  Atomic-pure, Atomic-raise, Atomic-gets, Atomic-with_tenant, Atomic-if, Atomic-require,
  Atomic-bind, Atomic-last, Atomic-attempt,
)
