-- ===== src/Deployment/Snapshots.antt =====
-- Releases are immutable snapshots: proofs about Deployment.Calls.
pub mod Statements
use final_bds.Prelude.{
  ℕ, ℤ, Bool, String, List, [], ◌∷◌, ◌++◌, Option, none, some, ◌≡◌, refl, ap, ◌∙◌, inl, inr, arith,
}
use final_bds.Errors.{Result-cases}
use final_bds.Text.{Text}
use final_bds.Exec.{Exec}
use final_bds.Exec.Steps.{Order, Steps, steps_rules, Same, Steps-with_tenant, Steps-bind}
use final_bds.Authz.{deploy, new_policy_authorizer}
use final_bds.Rollout.{Phase, phase_healthy, phase_failed}
use final_bds.Authz.Membership.Sound.{authorize_org_member-Same}
use final_bds.Deployment.{
  ReleaseStatus, deploying, succeeded, failed, DeploymentStatus, Deployment, Release, RolloutStatus,
  Payload, Db,
}
use final_bds.Deployment.Store.{
  commit, in_tenant, get_app, create_row, get_deployment, update_row, update_status, soft_delete,
  emit, create_release, get_release, get_by_revision, get_latest, get_previous_successful,
  mark_started, start_release, mark_finished, finish_release, upsert_rollout,
}
use final_bds.Deployment.Service.{
  Codec, CreateRequest, UpdateRequest, may_deploy, create_deployment, update_found,
  update_deployment, rollback_target, publish_update, publish_rollback, add_release, rollback_found,
  rollback,
}
use final_bds.Deployment.Marks.{
  delete_deployment, mark_deployment_started, mark_deployment_succeeded, mark_deployment_failed,
}
use final_bds.Deployment.Agent.{
  Handler, Agent, StatusRequest, ProgressRequest, validate_ownership, emit_event, record_status,
  update_deployment_status,
}
use final_bds.Deployment.Progress.{
  persist_rollout, roll_back_to, trigger_auto_rollback, become_healthy, become_failed,
  apply_transition, rollout_get, progress_owned, progress_after, update_deployment_progress,
}
use final_bds.Deployment.Calls.{
  Call, step, run, creates, updates, rolls_back, deletes, starts, succeeds, fails, reports_status,
  reports_progress,
}
use final_bds.Deployment.Writes.{run-Steps}
use final_bds.Deployment.Snapshots.Statements.{
  Snapshot, snapshots, Extends, Extends-order, extending,
}

-- Releases are immutable: whatever calls the users and the agents make, every release that there was
-- keeps its deployment, its revision, its image, its number of replicas and its configuration, none is
-- removed, and new ones are only added.
pub run-snapshots :
    (c : Codec) (h : Handler) (calls : List Call) (s : Db)
    → (new : List Snapshot) × (snapshots (run c h calls s).releases ≡ new ++ snapshots s.releases)
unfolding Extends
run-snapshots c h calls s = run-Steps Extends-order extending c h calls s
