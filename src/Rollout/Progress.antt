-- ===== src/Rollout/Progress.antt =====
-- The percentage of a rollout: proofs about Rollout.
use final_bds.Prelude.{ℕ, ℤ, pos, negsuc, ◌≤ℤ◌, leb_ℤ, ◌≡◌, inl, inr, arith, Bool-cases, ap}
use final_bds.Rollout.{Snapshot, Float64, clamp, percentage, derive_phase, phase_healthy}
use final_bds.Rollout.Phases.{derive_phase-healthy}

-- What `Percentage` relies on of IEEE 754 arithmetic on numbers that come from int32: division and
-- the conversion to an integer are monotone, a positive number over itself is 1 and 0 over it is 0,
-- and 0 and 1 times 100 convert to 0 and 100.
pub record IsIeee (f : Float64) : Type 1 where
  pub le : f.float → f.float → Type 0
  pub one : f.float
  pub zero : f.float
  pub div_mono :
      (a b d : ℤ)
      → a ≤ℤ b
      → pos 1 ≤ℤ d
      → le (f.div (f.of_int a) (f.of_int d)) (f.div (f.of_int b) (f.of_int d))
  pub div_self : (d : ℤ) → pos 1 ≤ℤ d → f.div (f.of_int d) (f.of_int d) ≡ one
  pub div_zero : (d : ℤ) → pos 1 ≤ℤ d → f.div (f.of_int (pos 0)) (f.of_int d) ≡ zero
  pub to_int_mono :
      (x y : f.float) → le x y → f.to_int (f.times_hundred x) ≤ℤ f.to_int (f.times_hundred y)
  pub to_int_one : f.to_int (f.times_hundred one) ≡ pos 100
  pub to_int_zero : f.to_int (f.times_hundred zero) ≡ pos 0

antisym : (x : ℤ) (n : ℕ) → x ≤ℤ pos n → pos n ≤ℤ x → x ≡ pos n
antisym (pos m) n h k = ap pos (omega arith)
antisym (negsuc m) n h k = absurd (omega arith)

module _ (f : Float64) (ieee : IsIeee f) where
  share : ℤ → ℤ → ℤ
  share a d = f.to_int (f.times_hundred (f.div (f.of_int a) (f.of_int d)))

  share_mono : (a b d : ℤ) → a ≤ℤ b → pos 1 ≤ℤ d → share a d ≤ℤ share b d
  unfolding share
  share_mono a b d le pd = ieee.to_int_mono _ _ (ieee.div_mono a b d le pd)

  share_full : (d : ℤ) → pos 1 ≤ℤ d → share d d ≡ pos 100
  unfolding share
  share_full d pd = rw (share, ieee.div_self d pd) ieee.to_int_one

  share_none : (d : ℤ) → pos 1 ≤ℤ d → share (pos 0) d ≡ pos 0
  unfolding share
  share_none d pd = rw (share, ieee.div_zero d pd) ieee.to_int_zero

  clamp_bounds : (a d : ℤ) → pos 1 ≤ℤ d → (pos 0 ≤ℤ clamp a d) × (clamp a d ≤ℤ d)
  unfolding clamp
  clamp_bounds a d pd = ground arith

  clamp_full : (a d : ℤ) → pos 1 ≤ℤ d → d ≤ℤ a → clamp a d ≤ℤ d × d ≤ℤ clamp a d
  unfolding clamp
  clamp_full a d pd full = ground arith

  percentage-share :
      (s : Snapshot)
      → pos 1 ≤ℤ s.desired_replicas
      → percentage f s ≡ share (clamp s.available_replicas s.desired_replicas) s.desired_replicas
  unfolding percentage share clamp
  percentage-share s pd = ground arith

  -- The percentage lies between 0 and 100 for every snapshot, negative counts included.
  pub percentage-bounds : (s : Snapshot) → (pos 0 ≤ℤ percentage f s) × (percentage f s ≤ℤ pos 100)
  unfolding percentage
  percentage-bounds s = elim (Bool-cases (leb_ℤ s.desired_replicas (pos 0))) [
    | inl e ↦ ground arith
    | inr e ↦
        let pd : pos 1 ≤ℤ s.desired_replicas = ground arith in
        let (low, high) = clamp_bounds s.available_replicas s.desired_replicas pd in
        let avail = clamp s.available_replicas s.desired_replicas in
        let least = share_mono (pos 0) avail s.desired_replicas low pd in
        let most = share_mono avail s.desired_replicas s.desired_replicas high pd in
        rw (percentage-share s pd) (
          rw (share_none s.desired_replicas pd) at least,
          rw (share_full s.desired_replicas pd) at most,
        )
  ]

  all_available :
      (s : Snapshot)
      → pos 1 ≤ℤ s.desired_replicas
      → s.desired_replicas ≤ℤ s.available_replicas
      → percentage f s ≡ pos 100
  all_available s pd full =
      let avail = clamp s.available_replicas s.desired_replicas in
      let (below, above) = clamp_full s.available_replicas s.desired_replicas pd full in
      let most = share_mono avail s.desired_replicas s.desired_replicas below pd in
      let least = share_mono s.desired_replicas avail s.desired_replicas above pd in
      rw (percentage-share s pd) (
        antisym (share avail s.desired_replicas) 100 (rw (share_full s.desired_replicas pd) at most)
          (rw (share_full s.desired_replicas pd) at least))

  -- A healthy rollout is complete: if the phase is healthy, the percentage is 100.
  percentage-healthy :
      (s : Snapshot)
      → derive_phase s ≡ phase_healthy
      → pos 0 ≤ℤ s.generation
      → percentage f s ≡ pos 100
  unfolding percentage
  percentage-healthy s h g =
      let (a, calm, seen, done) = (derive_phase-healthy s).0 h in
      elim (Bool-cases (leb_ℤ s.desired_replicas (pos 0))) [
        | inl e ↦ ground arith
        | inr e ↦
            all_available s (ground arith)
              (elim done [ inl z ↦ absurd (ground arith) | inr (u, v, r, z) ↦ v ])
      ]
