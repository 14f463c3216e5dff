-- ===== src/Deployment/Progress.antt =====
-- The progress that agents report on a rollout, and the automatic rollback
-- (backend/services/deployment/internal/agent_progress.go). A phase that is not one of those of Rollout is
-- refused before, with the parsing of the request. Metrics, traces and logs are left out, and with them the
-- duration in the event of a healthy rollout.
use final_bds.Prelude.{
  pos, suc, Bool, true, false, String, Option, none, some, ◌&&◌, not, if◌then◌else◌,
}
use final_bds.Errors.{unauthorized_error, is_not_found, ok}
use final_bds.Text.{is_blank}
use final_bds.Exec.{Exec, pure, raise, gets, ◌>>=◌, ◌>>◌, attempt}
use final_bds.Rollout.{Phase, phase_pending, phase_healthy, phase_failed}
use final_bds.Deployment.{
  release_pending, deployment_pending, Deployment, Release, RolloutStatus, deployment_progress,
  deployment_healthy, deployment_timeout, rollback_started, rollback_completed, Db,
}
use final_bds.Deployment.Store.{
  in_tenant, update_row, create_release, get_previous_successful, select_rollout, upsert_rollout,
}
use final_bds.Deployment.Agent.{Agent, Handler, ProgressRequest, validate_ownership, emit_event}

module _ (h : Handler) where
  -- `persistRollout`.
  unfoldable pub persist_rollout : Agent → String → String → ProgressRequest → Exec Db (Unit {0})
  persist_rollout a dep_id rel_id req =
      if not h.has_rollouts
      then pure tt
      else upsert_rollout a.organization_id (record {
        deployment_id = dep_id;
        release_id = rel_id;
        org_id = a.organization_id;
        phase = req.phase;
        revision = req.revision;
        image = req.image;
        desired_replicas = req.desired_replicas;
        ready_replicas = req.ready_replicas;
        updated_replicas = req.updated_replicas;
        available_replicas = req.available_replicas;
        unavailable_replicas = req.unavailable_replicas;
        observed_generation = req.observed_generation;
        rollout_percentage = req.rollout_percentage;
        conditions = req.conditions;
        error_message = if is_blank req.error_message then none else some req.error_message;
        is_rollback = false;
      })

  -- The writes of `triggerAutoRollback`; `new_id` is the fresh UUID of the release.
  unfoldable pub roll_back_to :
      Agent → String → Deployment → Release → ProgressRequest → Release → Exec Db (Unit {0})
  unfolding emit_event
  roll_back_to a new_id d from req target = do
    create_release a.organization_id (record {
      release_id = new_id;
      org_id = a.organization_id;
      deployment_id = d.id;
      revision = suc from.revision;
      image = target.image;
      replicas = target.replicas;
      config_hash = target.config_hash;
      config = target.config;
      status = release_pending;
      started_at = none;
      finished_at = none;
      error_message = none;
      created_by = none;
    })
    update_row a.organization_id
        (record d { image = target.image; replicas = target.replicas; status = deployment_pending })
    if h.has_rollouts
        then upsert_rollout a.organization_id (record {
          deployment_id = d.id;
          release_id = new_id;
          org_id = a.organization_id;
          phase = phase_pending;
          revision = suc from.revision;
          image = target.image;
          desired_replicas = target.replicas;
          ready_replicas = pos 0;
          updated_replicas = pos 0;
          available_replicas = pos 0;
          unavailable_replicas = pos 0;
          observed_generation = pos 0;
          rollout_percentage = pos 0;
          conditions = "[]";
          error_message = none;
          is_rollback = true;
        })
        else pure tt
    emit_event h a d.id (
        rollback_started d.id from.release_id from.revision new_id target.revision
          req.error_message)

  -- `triggerAutoRollback`.
  unfoldable pub trigger_auto_rollback :
      Agent → String → Deployment → Release → ProgressRequest → Exec Db (Unit {0})
  unfolding roll_back_to
  trigger_auto_rollback a new_id d from req =
      attempt (get_previous_successful a.organization_id d.id from.revision)
        (λ e. if is_not_found e then pure tt else raise e)
        (λ target. roll_back_to a new_id d from req target)

  abbrev is_healthy : Option Phase → Bool
  is_healthy (some phase_healthy) = true
  is_healthy _ = false

  abbrev is_failed : Option Phase → Bool
  is_failed (some phase_failed) = true
  is_failed _ = false

  -- `applyTransition`, case `Healthy`: the phase before is `none` on the first report.
  unfoldable pub become_healthy :
      Agent → Deployment → Release → ProgressRequest → Option Phase → Bool → Exec Db (Unit {0})
  unfolding emit_event
  become_healthy a d r req prev was_rollback = if is_healthy prev then pure tt else do
    emit_event h a d.id (deployment_healthy d.id r.release_id r.revision req.ready_replicas)
    if was_rollback
        then emit_event h a d.id
            (rollback_completed d.id r.release_id r.revision req.ready_replicas)
        else pure tt

  -- `applyTransition`, case `Failed`: an error of the automatic rollback is logged and dropped.
  unfoldable pub become_failed :
      Agent
      → String
      → Deployment
      → Release
      → ProgressRequest
      → Option Phase
      → Bool
      → Exec Db (Unit {0})
  unfolding emit_event trigger_auto_rollback
  become_failed a new_id d r req prev was_rollback = if is_failed prev then pure tt else do
    if req.timeout
        then emit_event h a d.id (deployment_timeout d.id r.release_id r.revision req.error_message)
        else pure tt
    if h.auto_rollback && not was_rollback
        then attempt (trigger_auto_rollback a new_id d r req) (λ e. pure tt) (λ _. pure tt)
        else pure tt

  -- `applyTransition`.
  unfoldable pub apply_transition :
      Agent
      → String
      → Deployment
      → Release
      → ProgressRequest
      → Option Phase
      → Bool
      → Phase
      → Exec Db (Unit {0})
  unfolding become_healthy become_failed
  apply_transition a new_id d r req prev was phase_healthy = become_healthy a d r req prev was
  apply_transition a new_id d r req prev was phase_failed = become_failed a new_id d r req prev was
  apply_transition a new_id d r req prev was _ = pure tt

  abbrev pub phase_before : Option RolloutStatus → Option Phase
  phase_before none = none
  phase_before (some x) = some x.phase

  abbrev pub rollback_before : Option RolloutStatus → Bool
  rollback_before none = false
  rollback_before (some x) = x.is_rollback

  -- `rolloutGet`: an error counts as no snapshot.
  unfoldable pub rollout_get : Agent → String → String → Exec Db (Option RolloutStatus)
  rollout_get a dep_id rel_id = gets (λ s.
      ok (
        if h.has_rollouts then select_rollout a.organization_id dep_id rel_id s.rollouts else none))

  -- The rest of the transaction of `UpdateDeploymentProgress`, behind the snapshot that there was.
  unfoldable pub progress_after :
      Agent
      → String
      → String
      → String
      → ProgressRequest
      → Deployment
      → Release
      → Option RolloutStatus
      → Exec Db (Unit {0})
  unfolding persist_rollout emit_event apply_transition
  progress_after a new_id dep_id rel_id req d r prev = do
    persist_rollout a dep_id rel_id req
    emit_event h a dep_id (
        deployment_progress dep_id rel_id r.revision req.phase req.rollout_percentage
          req.ready_replicas req.desired_replicas req.image)
    apply_transition a new_id d r req (phase_before prev) (rollback_before prev) req.phase

  -- The transaction of `UpdateDeploymentProgress`, once the ownership is validated.
  unfoldable pub progress_owned :
      Agent → String → String → String → ProgressRequest → Deployment → Release → Exec Db (Unit {0})
  unfolding progress_after rollout_get
  progress_owned a new_id dep_id rel_id req d r = do
    prev ← rollout_get a dep_id rel_id
    progress_after a new_id dep_id rel_id req d r prev

  -- `UpdateDeploymentProgress`.
  unfoldable pub update_deployment_progress :
      Option Agent → String → String → String → ProgressRequest → Exec Db (Unit {0})
  unfolding progress_owned
  update_deployment_progress none new_id dep_id rel_id req =
      raise (unauthorized_error "agent identity required")
  update_deployment_progress (some a) new_id dep_id rel_id req = in_tenant a.organization_id do
    owned ← validate_ownership a dep_id rel_id
    progress_owned a new_id dep_id rel_id req owned.0 owned.1
