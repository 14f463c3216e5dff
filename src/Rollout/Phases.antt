-- ===== src/Rollout/Phases.antt =====
-- Which observations give which phase: proofs about Rollout.
use final_bds.Prelude.{
  ℤ, pos, negsuc, ◌≤ℤ◌, leb_ℤ, eq_ℤ, Bool, true, false, ◌≡◌, ◌≢◌, ◌⊎◌, ◌↔◌, inl, inr, arith,
  Bool-cases, ap, ◌||◌, not, text_is, neg_part, pos_part,
}
use final_bds.Rollout.{phase_healthy, phase_failed, phase_rollback, Snapshot, derive_phase}

-- A fatal condition is observed.
abbrev pub IsStuck : Snapshot → Type 0
IsStuck s = (s.progress_deadline_exceeded ≡ true) ⊎ (s.replica_failure ≡ true) ⊎ (s.pod_issue ≢ "")

-- The controller has acted on the latest specification.
abbrev pub IsObserved : Snapshot → Type 0
IsObserved s = (s.generation ≤ℤ pos 0) ⊎ (s.generation ≤ℤ s.observed_generation)

-- Every desired replica is updated, available and ready, and no replica is unavailable.
abbrev pub IsComplete : Snapshot → Type 0
IsComplete s =
    (s.desired_replicas ≤ℤ s.updated_replicas)
    × (s.desired_replicas ≤ℤ s.available_replicas)
    × (s.desired_replicas ≤ℤ s.ready_replicas)
    × (s.unavailable_replicas ≡ pos 0)

stuck : Snapshot → Bool
stuck s = s.progress_deadline_exceeded || s.replica_failure || not (text_is s.pod_issue "")

stuck-IsStuck : (s : Snapshot) → (stuck s ≡ true) ↔ IsStuck s
unfolding stuck
stuck-IsStuck s = elim (Bool-cases s.progress_deadline_exceeded) [
  | inl e ↦ ((λ h. inl e), (λ g. ground arith))
  | inr e ↦ elim (Bool-cases s.replica_failure) [
    | inl k ↦ ((λ h. inr (inl k)), (λ g. ground arith))
    | inr k ↦ ((λ h. inr (inr (ground arith))), (λ g. ground arith))
  ]
]

zero-of_test : (x : ℤ) → eq_ℤ x (pos 0) ≡ true → x ≡ pos 0
zero-of_test (pos n) h = ap pos (ground arith)
zero-of_test (negsuc n) h = ground arith

-- A rollout is reported as failed exactly when it has been applied and a fatal condition is observed,
-- however many replicas are available.
pub derive_phase-failed :
    (s : Snapshot) → (derive_phase s ≡ phase_failed) ↔ ((s.applied ≡ true) × IsStuck s)
unfolding derive_phase stuck
derive_phase-failed s = elim (Bool-cases (stuck s)) [
  | inl e ↦ ((λ h. (ground arith, (stuck-IsStuck s).0 e)), (λ g. ground arith))
  | inr e ↦
      ((λ h. absurd (ground arith)), (λ (a, g). absurd (ground (arith, (stuck-IsStuck s).1 g))))
]

module _ (s : Snapshot) (calm : stuck s ≡ false) (h : derive_phase s ≡ phase_healthy) where
  observed : IsObserved s
  unfolding derive_phase stuck
  observed = ground arith

  complete : (s.desired_replicas ≤ℤ pos 0) ⊎ IsComplete s
  unfolding derive_phase stuck
  complete = elim (Bool-cases (leb_ℤ s.desired_replicas (pos 0))) [
    | inl none_desired ↦ inl (ground arith)
    | inr some_desired ↦ inr (
      ground arith,
      ground arith,
      ground arith,
      zero-of_test s.unavailable_replicas (ground arith),
    )
  ]

settled :
    (s : Snapshot)
    → stuck s ≡ false
    → s.applied ≡ true
    → IsObserved s
    → (s.desired_replicas ≤ℤ pos 0) ⊎ IsComplete s
    → derive_phase s ≡ phase_healthy
unfolding derive_phase stuck
settled s calm a o (inl z) = ground arith
settled s calm a o (inr (u, v, r, z)) = ground (arith, ap neg_part z, ap pos_part z)

-- A rollout is reported as healthy exactly when it has been applied, no fatal condition is observed,
-- the controller has acted on the latest specification, and no replica is desired or all of them
-- are updated, available and ready with none unavailable.
pub derive_phase-healthy :
    (s : Snapshot)
    → (derive_phase s ≡ phase_healthy) ↔ (
        (s.applied ≡ true)
        × ¬ IsStuck s
        × IsObserved s
        × ((s.desired_replicas ≤ℤ pos 0) ⊎ IsComplete s))
unfolding derive_phase stuck
derive_phase-healthy s = elim (Bool-cases (stuck s)) [
  | inl e ↦ ((λ h. absurd (ground arith)), (λ (a, n, o, g). absurd (n ((stuck-IsStuck s).0 e))))
  | inr e ↦ (
    (λ h. (
      ground arith,
      (λ g. ground (arith, (stuck-IsStuck s).1 g)),
      observed s e h,
      complete s e h,
    )),
    (λ (a, n, o, g). settled s e a o g),
  )
]

-- The state machine never reports Rollback, which the control plane sets.
pub derive_phase-rollback : (s : Snapshot) → derive_phase s ≢ phase_rollback
unfolding derive_phase
derive_phase-rollback s h = ground arith
