-- ===== src/Deployment/Agent.antt =====
-- What the platform agents report to the deployment service of a release, and what they may report on
-- (backend/services/deployment/internal/agent_handlers.go, and the checks and the events that
-- agent_progress.go shares with it). Parsing of the request, metrics, traces and logs are left out.
use final_bds.Prelude.{ℕ, ℤ, pos, Bool, String, [], Option, none, some, text_is, if◌then◌else◌}
use final_bds.Errors.{Err, unauthorized_error, forbidden_error, validation_error, is_not_found}
use final_bds.Text.{Text}
use final_bds.Exec.{Exec, pure, raise, ◌>>=◌, ◌>>◌, require, attempt}
use final_bds.Rollout.{Phase}
use final_bds.Deployment.{
  ReleaseStatus, deploying, succeeded, failed, valid_agent_release_status, running,
  deployment_succeeded, deployment_failed, Deployment, Release, Payload, deployment_started,
  deployment_success, deployment_failure, Db,
}
use final_bds.Deployment.Store.{
  in_tenant, get_deployment, update_status, emit, get_release, mark_started, mark_finished,
}

-- `AgentIdentity`, and the optional parts of `AgentHandler`.
pub record Agent : Type 0 where
  pub agent_id : String
  pub cluster_id : String
  pub organization_id : String

pub record Handler : Type 0 where
  pub has_outbox : Bool
  pub has_rollouts : Bool
  pub auto_rollback : Bool

pub record StatusRequest : Type 0 where
  pub status : ReleaseStatus
  pub ready_replicas : Option ℤ
  pub error_message : Option Text

-- `UpdateProgressRequest`; `conditions` is their encoding.
pub record ProgressRequest : Type 0 where
  pub phase : Phase
  pub revision : ℕ
  pub image : Text
  pub rollout_percentage : ℤ
  pub timeout : Bool
  pub desired_replicas : ℤ
  pub ready_replicas : ℤ
  pub updated_replicas : ℤ
  pub available_replicas : ℤ
  pub unavailable_replicas : ℤ
  pub observed_generation : ℤ
  pub conditions : String
  pub error_message : Text

abbrev forbid : String → Err → Err
forbid message e = if is_not_found e then forbidden_error message else e

-- `validateAgentOwnership`; `UpdateDeploymentStatus` has the same checks in its own text.
unfoldable pub validate_ownership : Agent → String → String → Exec Db (Deployment × Release)
validate_ownership a dep_id rel_id = do
  d ←
      attempt (get_deployment a.organization_id dep_id)
        (λ e. raise (forbid "deployment not found or access denied" e)) (λ d. pure d)
  require (text_is d.org_id a.organization_id)
      (forbidden_error "deployment not found or access denied")
  require (text_is d.cluster_id a.cluster_id)
      (forbidden_error "deployment not assigned to this cluster")
  r ←
      attempt (get_release a.organization_id rel_id)
        (λ e. raise (forbid "release not found or access denied" e)) (λ r. pure r)
  require (text_is r.deployment_id dep_id)
      (forbidden_error "release does not belong to this deployment")
  require (text_is r.org_id a.organization_id)
      (forbidden_error "release not found or access denied")
  pure (d, r)

module _ (h : Handler) where
  -- `emitEvent`.
  unfoldable pub emit_event : Agent → String → Payload → Exec Db (Unit {0})
  emit_event a dep_id p =
      if h.has_outbox then emit a.organization_id (some a.agent_id) dep_id p else pure tt

  -- The switch over the reported status: what is written to the release, to the deployment, and the
  -- event of `emitStatusEvent`.
  unfoldable pub record_status :
      Agent → String → String → StatusRequest → Release → ReleaseStatus → Exec Db (Unit {0})
  unfolding emit_event
  record_status a dep_id rel_id req r deploying = do
    mark_started a.organization_id rel_id
    update_status a.organization_id dep_id running req.ready_replicas
    emit_event a dep_id (deployment_started dep_id rel_id r.revision r.image)
  record_status a dep_id rel_id req r succeeded = do
    mark_finished a.organization_id rel_id succeeded req.error_message
    update_status a.organization_id dep_id deployment_succeeded req.ready_replicas
    emit_event a dep_id (
        deployment_success dep_id rel_id r.revision
          (elim req.ready_replicas [ none ↦ pos 0 | some n ↦ n ]))
  record_status a dep_id rel_id req r failed = do
    mark_finished a.organization_id rel_id failed req.error_message
    update_status a.organization_id dep_id deployment_failed req.ready_replicas
    emit_event a dep_id (
        deployment_failure dep_id rel_id r.revision
          (elim req.error_message [ none ↦ [] | some m ↦ m ]))
  record_status a dep_id rel_id req r _ = pure tt

  -- `UpdateDeploymentStatus`.
  unfoldable pub update_deployment_status :
      Option Agent → String → String → StatusRequest → Exec Db (Unit {0})
  unfolding valid_agent_release_status
  update_deployment_status none dep_id rel_id req =
      raise (unauthorized_error "agent identity required")
  update_deployment_status (some a) dep_id rel_id req = do
    require (valid_agent_release_status req.status)
        (validation_error "invalid status: must be deploying, succeeded, or failed")
    in_tenant a.organization_id do
      owned ← validate_ownership a dep_id rel_id
      record_status a dep_id rel_id req owned.1 req.status
