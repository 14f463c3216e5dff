-- ===== src/Rollout.antt =====
-- The rollout state machine of the platform agent (agents/platform-agent/internal/rollout/rollout.go):
-- the phase and the percentage of a rollout, derived from what is observed of a Kubernetes Deployment.
-- int32 and int64 are integers; nothing is added or subtracted here, so that nothing wraps around.
pub mod Phases
pub mod Progress
use final_bds.Prelude.{
  ℤ, pos, ltb_ℤ, leb_ℤ, eq_ℤ, Bool, true, false, String, ◌&&◌, ◌||◌, not, text_is, if◌then◌else◌,
}

pub data Phase : Type 0 where
  phase_pending phase_scheduling phase_reconciling phase_rolling_out : Phase
  phase_healthy phase_failed phase_rollback : Phase

-- `IsTerminal`.
abbrev pub is_terminal : Phase → Bool
is_terminal phase_healthy = true
is_terminal phase_failed = true
is_terminal _ = false

pub record Snapshot : Type 0 where
  pub applied : Bool
  pub desired_replicas : ℤ
  pub ready_replicas : ℤ
  pub updated_replicas : ℤ
  pub available_replicas : ℤ
  pub unavailable_replicas : ℤ
  pub generation : ℤ
  pub observed_generation : ℤ
  pub progress_deadline_exceeded : Bool
  pub replica_failure : Bool
  pub pod_issue : String

-- `DerivePhase`.
unfoldable pub derive_phase : Snapshot → Phase
derive_phase s =
    if not s.applied
    then phase_pending
    else if s.progress_deadline_exceeded || s.replica_failure || not (text_is s.pod_issue "")
    then phase_failed
    else if ltb_ℤ (pos 0) s.generation && ltb_ℤ s.observed_generation s.generation
    then phase_scheduling
    else if leb_ℤ s.desired_replicas (pos 0)
    then phase_healthy
    else if leb_ℤ s.desired_replicas s.updated_replicas
        && leb_ℤ s.desired_replicas s.available_replicas
        && leb_ℤ s.desired_replicas s.ready_replicas
        && eq_ℤ s.unavailable_replicas (pos 0)
    then phase_healthy
    else if eq_ℤ s.updated_replicas (pos 0)
        && eq_ℤ s.available_replicas (pos 0)
        && eq_ℤ s.ready_replicas (pos 0)
    then phase_reconciling
    else phase_rolling_out

-- `IsTimeout`.
unfoldable pub is_timeout : Snapshot → Bool
is_timeout s = s.progress_deadline_exceeded

-- What `Percentage` uses of float64: the conversions, the quotient, and the product with 100.0.
pub record Float64 : Type 1 where
  pub float : Type 0
  pub of_int : ℤ → float
  pub div : float → float → float
  pub times_hundred : float → float
  pub to_int : float → ℤ

-- `Percentage`.
unfoldable pub clamp : ℤ → ℤ → ℤ
clamp avail desired =
    let at_least_zero = if ltb_ℤ avail (pos 0) then pos 0 else avail in
    if ltb_ℤ desired at_least_zero then desired else at_least_zero

unfoldable pub percentage : Float64 → Snapshot → ℤ
unfolding clamp
percentage f s =
    if leb_ℤ s.desired_replicas (pos 0)
    then if s.applied && (eq_ℤ s.generation (pos 0) || leb_ℤ s.generation s.observed_generation)
      then pos 100
      else pos 0
    else f.to_int (
        f.times_hundred (
          f.div (f.of_int (clamp s.available_replicas s.desired_replicas))
            (f.of_int s.desired_replicas)))
