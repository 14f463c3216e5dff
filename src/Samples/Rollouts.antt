-- ===== src/Samples/Rollouts.antt =====
-- The rollout state machine at a complete and at a failed rollout, with a division that only tells
-- whether the dividend reaches the divisor.
use final_bds.Prelude.{
  ℤ, pos, ◌≤ℤ◌, leb_ℤ, true, false, ◌≡◌, ◌⊎◌, ◌↔◌, refl, arith, dec_text, if◌then◌else◌,
}
use final_bds.Rollout.{Snapshot, derive_phase, phase_healthy, phase_failed, percentage, Float64}
use final_bds.Rollout.Phases.{
  IsStuck, IsObserved, IsComplete, derive_phase-healthy, derive_phase-failed,
}
use final_bds.Rollout.Progress.{IsIeee, percentage-bounds}

abbrev complete : Snapshot
complete = record {
  applied = true;
  desired_replicas = pos 2;
  ready_replicas = pos 2;
  updated_replicas = pos 2;
  available_replicas = pos 2;
  unavailable_replicas = pos 0;
  generation = pos 3;
  observed_generation = pos 3;
  progress_deadline_exceeded = false;
  replica_failure = false;
  pod_issue = "";
}

abbrev stuck : Snapshot
stuck = record complete { pod_issue = "CrashLoopBackOff" }

-- 0 or 1, as whole numbers.
abbrev whole : Float64
whole = record {
  float = ℤ;
  of_int = λ n. n;
  div = λ a d. if leb_ℤ d a then pos 1 else pos 0;
  times_hundred = λ x. if leb_ℤ (pos 1) x then pos 100 else pos 0;
  to_int = λ x. x;
}

whole-IsIeee : IsIeee whole
whole-IsIeee = record {
  le = λ x y. x ≤ℤ y;
  one = pos 1;
  zero = pos 0;
  div_mono = λ a b d le pd. ground arith;
  div_self = λ d pd. ground arith;
  div_zero = λ d pd. ground arith;
  to_int_mono = λ x y le. ground arith;
  to_int_one = refl;
  to_int_zero = refl;
}

derive_phase-healthy_example : (derive_phase complete ≡ phase_healthy) ↔ (
    (complete.applied ≡ true)
    × ¬ IsStuck complete
    × IsObserved complete
    × ((complete.desired_replicas ≤ℤ pos 0) ⊎ IsComplete complete))
derive_phase-healthy_example = derive_phase-healthy complete

derive_phase-failed_example :
    (derive_phase stuck ≡ phase_failed) ↔ ((stuck.applied ≡ true) × IsStuck stuck)
derive_phase-failed_example = derive_phase-failed stuck

percentage-bounds_example :
    (pos 0 ≤ℤ percentage whole complete) × (percentage whole complete ≤ℤ pos 100)
percentage-bounds_example = percentage-bounds whole whole-IsIeee complete

complete_is_healthy : derive_phase complete ≡ phase_healthy
unfolding derive_phase dec_text
complete_is_healthy = refl
