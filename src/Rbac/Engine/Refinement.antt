-- ===== src/Rbac/Engine/Refinement.antt =====
-- The permission cache changes no answer: proofs about Rbac.Engine.
use final_bds.Prelude.{ℕ, List, [], ◌∷◌, ◌≡◌, refl, ap, ◌∙◌}
use final_bds.Errors.{Result, ok, err}
use final_bds.Text.{Text}
use final_bds.Rbac.{Permission}
use final_bds.Rbac.Cache.{Cache}
use final_bds.Rbac.Engine.{
  RoleAssignment, Stores, verdict, decide, check_permission, forget, assign_role, revoke_role,
}
use final_bds.Rbac.Engine.Frames.{IsScoped}
use final_bds.Rbac.Engine.Keys.{IsPlain}
use final_bds.Rbac.Engine.Coherence.{
  Coherent, check_permission-Coherent, assign_role-Coherent, revoke_role-Coherent,
}

-- What services ask of the engine.
pub data Request : Type 0 where
  checks : Text → Text → Text → Permission → ℕ → Request
  assigns : RoleAssignment → Request
  revokes : Text → Text → Text → Text → Request

-- The ids of a check have no colon.
abbrev pub AllPlain : List Request → Type 0
AllPlain [] = Unit
AllPlain (checks u o p perm now ∷ rs) = IsPlain u o p × AllPlain rs
AllPlain (assigns a ∷ rs) = AllPlain rs
AllPlain (revokes u r o p ∷ rs) = AllPlain rs

module _ (st : Stores) where
  open st use {State}

  -- The answers of the engine, with its cache.
  unfoldable pub answers : List Request → State → Cache → List (Result (Unit {0}))
  unfolding check_permission assign_role revoke_role
  answers [] s c = []
  answers (checks u o p perm now ∷ rs) s c =
      let r = check_permission st u o p perm now s c in r.0 ∷ answers rs s r.1
  answers (assigns a ∷ rs) s c = let r = assign_role st a s c in r.0 ∷ answers rs r.1 r.2
  answers (revokes u r o p ∷ rs) s c =
      let q = revoke_role st u r o p s c in q.0 ∷ answers rs q.1 q.2

  -- The specification: the answers that the stores give, with no cache at all.
  unfoldable pub store_answers : List Request → State → List (Result (Unit {0}))
  unfolding decide
  store_answers [] s = []
  store_answers (checks u o p perm now ∷ rs) s =
      verdict (decide st u o p perm s) ∷ store_answers rs s
  store_answers (assigns a ∷ rs) s = let r = st.assign a s in r.0 ∷ store_answers rs r.1
  store_answers (revokes u r o p ∷ rs) s = let q = st.revoke u r o p s in q.0 ∷ store_answers rs q.1

  forget_result :
      (user : Text) (q : Result (Unit {0}) × State) (c : Cache) → (forget st user q c).0 ≡ q.0
  forget_result user (err e, s) c = refl
  forget_result user (ok tt, s) c = refl

  forget_state :
      (user : Text) (q : Result (Unit {0}) × State) (c : Cache) → (forget st user q c).1 ≡ q.1
  forget_state user (err e, s) c = refl
  forget_state user (ok u, s) c = refl

  same_cons :
      {a b : Result (Unit {0})} {as' bs : List (Result (Unit {0}))}
      → a ≡ b
      → as' ≡ bs
      → (a ∷ as') ≡ (b ∷ bs)
  same_cons p q = cc

  -- Through any sequence of checks, assignments and revocations the engine with its cache answers
  -- exactly as the stores do without one, whatever the clock, the lifetime and the size of the cache:
  -- for a cache that is coherent at the start, such as an empty one, and ids without colons.
  pub answers_refine :
      (rs : List Request) (s : State) (c : Cache)
      → IsScoped st
      → Coherent st s c
      → AllPlain rs
      → answers rs s c ≡ store_answers rs s
  unfolding answers store_answers
  answers_refine [] s c w h p = refl
  answers_refine (checks u o q perm now ∷ rs) s c w h (p, ps) =
      let (same, next) = check_permission-Coherent st s c u o q perm now h p in
      same_cons same (answers_refine rs s (check_permission st u o q perm now s c).1 w next ps)
  answers_refine (assigns a ∷ rs) s c w h ps =
      same_cons (forget_result a.user_id (st.assign a s) c) (
        answers_refine rs (assign_role st a s c).1 (assign_role st a s c).2 w
          (assign_role-Coherent st a s c w h) ps
        ∙ ap (store_answers rs) (forget_state a.user_id (st.assign a s) c))
  answers_refine (revokes u r o q ∷ rs) s c w h ps =
      same_cons (forget_result u (st.revoke u r o q s) c) (
        answers_refine rs (revoke_role st u r o q s c).1 (revoke_role st u r o q s c).2 w
          (revoke_role-Coherent st u r o q s c w h) ps
        ∙ ap (store_answers rs) (forget_state u (st.revoke u r o q s) c))
