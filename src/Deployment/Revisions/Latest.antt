-- ===== src/Deployment/Revisions/Latest.antt =====
-- The latest release has the highest revision, and what the statements do to the releases: proofs about
-- Deployment.Store.
use final_bds.Prelude.{ℕ, suc, ◌≤◌, ◌<◌, String, List, [], ◌∷◌, Option, ◌≡◌, inl, inr, arith}
use final_bds.Errors.{Err, Result-cases, ok, err}
use final_bds.Exec.{pure, gets, attempt}
use final_bds.Deployment.{Deployment, Release, Payload, Db}
use final_bds.Deployment.Store.{update_row, emit, create_release, get_latest, select_latest}

-- Every release of the deployment that the tenant sees has a lower revision.
abbrev pub AllBelow : String → String → ℕ → List Release → Type 0
AllBelow org dep n [] = Unit {0}
AllBelow org dep n (r ∷ rs) =
    (r.org_id ≡ org → r.deployment_id ≡ dep → r.revision < n) × AllBelow org dep n rs

pub AllBelow-mono :
    (org dep : String) (n m : ℕ) (rs : List Release)
    → n ≤ m
    → AllBelow org dep n rs
    → AllBelow org dep m rs
AllBelow-mono org dep n m [] le all = tt
AllBelow-mono org dep n m (r ∷ rs) le (first, rest) =
    ((λ o d. ground (arith, first o d)), AllBelow-mono org dep n m rs le rest)

pub latest_none :
    (org dep : String) (rs : List Release) (e : Err)
    → select_latest org dep rs ≡ err e
    → AllBelow org dep 1 rs
unfolding select_latest
latest_none org dep [] e h = tt
latest_none org dep (r ∷ rs) e h = elim (Result-cases (select_latest org dep rs)) [
  | inl (x, missing) ↦ ((λ o d. absurd (ground arith)), latest_none org dep rs x missing)
  | inr (q, found) ↦ absurd (ground arith)
]

pub latest_above :
    (org dep : String) (rs : List Release) (q : Release)
    → select_latest org dep rs ≡ ok q
    → AllBelow org dep (suc q.revision) rs
unfolding select_latest
latest_above org dep [] q h = tt
latest_above org dep (r ∷ rs) q h = elim (Result-cases (select_latest org dep rs)) [
  | inl (e, missing) ↦ (
    (λ o d. ground arith),
    AllBelow-mono org dep 1 (suc q.revision) rs (omega arith) (latest_none org dep rs e missing),
  )
  | inr (x, found) ↦ (
    (λ o d. ground arith),
    AllBelow-mono org dep (suc x.revision) (suc q.revision) rs (ground arith)
        (latest_above org dep rs x found),
  )
]

pub unwrap : {A : Type 0} {x y : A} → ok x ≡ ok y → x ≡ y
unwrap h = cc h

-- What the statements of an update do to the releases.
module _ (org : String) (s : Db) where
  pub update_row-releases : (d : Deployment) → (update_row org d s).1.releases ≡ s.releases
  unfolding update_row
  update_row-releases d = ground arith

  pub emit-releases :
      (actor : Option String) (resource : String) (p : Payload)
      → (emit org actor resource p s).1.releases ≡ s.releases
  unfolding emit
  emit-releases actor resource p = ground arith

  pub create_release-releases :
      (r : Release) (u : Unit {0})
      → (create_release org r s).0 ≡ ok u
      → (create_release org r s).1.releases ≡ r ∷ s.releases
  unfolding create_release
  create_release-releases r u h = ground arith

  pub next_revision :
      (dep : String) (n : ℕ)
      → (attempt (get_latest org dep) (λ _. pure 1) (λ r. pure (suc r.revision)) s).0 ≡ ok n
      → AllBelow org dep n s.releases
        × ((attempt (get_latest org dep) (λ _. pure 1) (λ r. pure (suc r.revision)) s).1 ≡ s)
  unfolding attempt get_latest gets pure
  next_revision dep n h = elim (Result-cases (select_latest org dep s.releases)) [
    | inl (e, missing) ↦ (
      AllBelow-mono org dep 1 n s.releases (ground arith)
          (latest_none org dep s.releases e missing),
      ground arith,
    )
    | inr (q, found) ↦ (
      AllBelow-mono org dep (suc q.revision) n s.releases (ground arith)
          (latest_above org dep s.releases q found),
      ground arith,
    )
  ]
