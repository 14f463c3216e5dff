-- ===== src/Deployment/Revisions/Previous.antt =====
-- The release that a rollback goes back to: proofs about Deployment.Store.
use final_bds.Prelude.{
  ℕ, suc, ◌≤◌, ◌<◌, ltb, Bool, true, false, ◌&&◌, String, List, [], ◌∷◌, dec_text, ite,
  if◌then◌else◌, ◌≡◌, ◌⊎◌, refl, inl, inr, arith, Bool-cases,
}
use final_bds.Errors.{Result, ok, err}
use final_bds.Deployment.{Release}
use final_bds.Deployment.Store.{select_previous, is_succeeded, newer}

-- A succeeded release of the deployment, below a revision.
abbrev pub IsCandidate : String → String → ℕ → Release → Type 0
IsCandidate org dep n r =
    (r.org_id ≡ org) × (r.deployment_id ≡ dep) × (r.revision < n) × (is_succeeded r.status ≡ true)

-- The candidates of the table have a revision below `m`.
abbrev pub AllUnder : String → String → ℕ → ℕ → List Release → Type 0
AllUnder org dep n m [] = Unit {0}
AllUnder org dep n m (r ∷ rs) = (IsCandidate org dep n r → r.revision < m) × AllUnder org dep n m rs

abbrev pub Among : Release → List Release → Type 0
Among r [] = ⊥
Among r (x ∷ xs) = (x ≡ r) ⊎ Among r xs

-- A candidate of the table whose revision none of the others exceeds, or an error where there is none.
abbrev pub IsBest : String → String → ℕ → List Release → Result Release → Type 0
IsBest org dep n rs (err e) = AllUnder org dep n 0 rs
IsBest org dep n rs (ok r) =
    IsCandidate org dep n r × Among r rs × AllUnder org dep n (suc r.revision) rs

module _ (org dep : String) (n : ℕ) where
  AllUnder-mono :
      (m k : ℕ) (rs : List Release) → m ≤ k → AllUnder org dep n m rs → AllUnder org dep n k rs
  AllUnder-mono m k [] le all = tt
  AllUnder-mono m k (r ∷ rs) le (first, rest) =
      ((λ c. let below = first c in omega (arith, below, le)), AllUnder-mono m k rs le rest)

  skipped :
      (x : Release) (rs : List Release) (res : Result Release)
      → ¬ IsCandidate org dep n x
      → IsBest org dep n rs res
      → IsBest org dep n (x ∷ rs) res
  skipped x rs (err e) no_x h = ((λ c. absurd (no_x c)), h)
  skipped x rs (ok r) no_x (c, i, all) = (c, inr i, ((λ d. absurd (no_x d)), all))

  taken :
      (x : Release) (rs : List Release) (res : Result Release)
      → IsCandidate org dep n x
      → IsBest org dep n rs res
      → IsBest org dep n (x ∷ rs) (newer x res)
  taken x rs (err e) c h =
      (c, inl refl, ((λ d. omega arith), AllUnder-mono 0 (suc x.revision) rs (omega arith) h))
  taken x rs (ok q) c (d, i, all) = elim (Bool-cases (ltb x.revision q.revision)) [
    | inl e ↦ rw e (d, inr i, ((λ k. ground arith), all))
    | inr e ↦ rw e (
      c,
      inl refl,
      ((λ k. omega arith), AllUnder-mono (suc q.revision) (suc x.revision) rs (ground arith) all),
    )
  ]

  -- `GetPreviousSuccessful` answers a release of the deployment that succeeded, has a lower revision
  -- than the given one, and is not exceeded in its revision by another such release that the tenant
  -- sees; it answers an error only where there is no such release.
  pub select_previous-IsBest :
      (rs : List Release) → IsBest org dep n rs (select_previous org dep n rs)
  unfolding select_previous
  select_previous-IsBest [] = tt
  select_previous-IsBest (x ∷ rs) =
      row (dec_text x.org_id org) (dec_text x.deployment_id dep) _ refl
        (select_previous org dep n rs) (select_previous-IsBest rs)
    where
      row :
          (d : Dec (x.org_id ≡ org)) (e : Dec (x.deployment_id ≡ dep)) (b : Bool)
          → (ltb x.revision n && is_succeeded x.status) ≡ b
          → (res : Result Release) → IsBest org dep n rs res
          → IsBest org dep n (x ∷ rs) (ite d (ite e (if b then newer x res else res) res) res)
      row (yes p) (yes q) true h res k = taken x rs res (p, q, ground arith, ground arith) k
      row (yes p) (yes q) false h res k = skipped x rs res (λ (o, i, below, done). ground arith) k
      row (yes p) (no q) b h res k = skipped x rs res (λ c. q c.1) k
      row (no p) e b h res k = skipped x rs res (λ c. p c.0) k
