-- ===== src/Deployment/Marks.antt =====
-- The other methods of the deployment service that write: a soft delete, and the statuses that users
-- set (backend/services/deployment/internal/service.go).
use final_bds.Prelude.{ℤ, String, none, some}
use final_bds.Text.{Text}
use final_bds.Exec.{Exec, ◌>>=◌, ◌>>◌}
use final_bds.Deployment.{
  succeeded, failed, running, deployment_succeeded, deployment_failed, deployment_deleted,
  deployment_started, deployment_success, deployment_failure, Db,
}
use final_bds.Deployment.Store.{
  in_tenant, get_deployment, update_status, soft_delete, emit, get_release, mark_started,
  mark_finished,
}
use final_bds.Deployment.Service.{may_deploy}

-- `DeleteDeployment`.
unfoldable pub delete_deployment : String → String → String → Exec Db (Unit {0})
unfolding may_deploy
delete_deployment org user dep_id = do
  may_deploy org user
  in_tenant org do
    d ← get_deployment org dep_id
    soft_delete org dep_id
    emit org (some user) dep_id (deployment_deleted dep_id d.application_id user)

-- `MarkDeploymentStarted`. The event names no actor.
unfoldable pub mark_deployment_started : String → String → String → String → Exec Db (Unit {0})
unfolding may_deploy
mark_deployment_started org user dep_id rel_id = do
  may_deploy org user
  in_tenant org do
    r ← get_release org rel_id
    mark_started org rel_id
    update_status org dep_id running none
    emit org none dep_id (deployment_started dep_id rel_id r.revision r.image)

-- `MarkDeploymentSucceeded`.
unfoldable pub mark_deployment_succeeded :
    String → String → String → String → ℤ → Exec Db (Unit {0})
unfolding may_deploy
mark_deployment_succeeded org user dep_id rel_id ready = do
  may_deploy org user
  in_tenant org do
    r ← get_release org rel_id
    mark_finished org rel_id succeeded none
    update_status org dep_id deployment_succeeded (some ready)
    emit org none dep_id (deployment_success dep_id rel_id r.revision ready)

-- `MarkDeploymentFailed`.
unfoldable pub mark_deployment_failed :
    String → String → String → String → Text → Exec Db (Unit {0})
unfolding may_deploy
mark_deployment_failed org user dep_id rel_id msg = do
  may_deploy org user
  in_tenant org do
    r ← get_release org rel_id
    mark_finished org rel_id failed (some msg)
    update_status org dep_id deployment_failed none
    emit org none dep_id (deployment_failure dep_id rel_id r.revision msg)
