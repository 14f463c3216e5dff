-- ===== src/Deployment/Writes.antt =====
-- What every method of the service and of its agents does to the database, where each statement that
-- they run keeps to a relation: lemmas about Deployment.Calls.
use final_bds.Prelude.{ℕ, ℤ, Bool, String, List, [], ◌∷◌, Option, none, some}
use final_bds.Text.{Text}
use final_bds.Exec.{Exec}
use final_bds.Exec.Steps.{Order, Steps, steps_rules, Same, Steps-with_tenant, Steps-bind}
use final_bds.Authz.{deploy, new_policy_authorizer}
use final_bds.Authz.Membership.Sound.{authorize_org_member-Same}
use final_bds.Rollout.{Phase, phase_healthy, phase_failed}
use final_bds.Deployment.{
  ReleaseStatus, deploying, succeeded, failed, DeploymentStatus, Deployment, Release, RolloutStatus,
  Payload, Db,
}
use final_bds.Deployment.Store.{
  commit, in_tenant, create_row, update_row, update_status, emit, create_release, mark_started,
  mark_finished, upsert_rollout, get_app, get_deployment, soft_delete, get_release, get_by_revision,
  get_latest, get_previous_successful,
}
use final_bds.Deployment.Service.{
  Codec, CreateRequest, UpdateRequest, may_deploy, create_deployment, update_found,
  update_deployment, rollback_target, publish_update, publish_rollback, add_release, rollback_found,
  rollback,
}
use final_bds.Deployment.Marks.{
  delete_deployment, mark_deployment_started, mark_deployment_succeeded, mark_deployment_failed,
}
use final_bds.Deployment.Agent.{
  Handler, Agent, StatusRequest, ProgressRequest, validate_ownership, emit_event, record_status,
  update_deployment_status,
}
use final_bds.Deployment.Progress.{
  persist_rollout, roll_back_to, trigger_auto_rollback, become_healthy, become_failed,
  apply_transition, rollout_get, progress_owned, progress_after, update_deployment_progress,
}
use final_bds.Deployment.Calls.{
  Call, step, run, creates, updates, rolls_back, deletes, starts, succeeds, fails, reports_status,
  reports_progress,
}

-- Each writing statement keeps to the relation, for every tenant.
pub record Writes (R : Db → Db → Type 0) : Type 0 where
  pub rows : (org : String) (d : Deployment) → Steps R (create_row org d)
  pub row_updates : (org : String) (d : Deployment) → Steps R (update_row org d)
  pub statuses :
      (org id : String) (st : DeploymentStatus) (ready : Option ℤ)
      → Steps R (update_status org id st ready)
  pub events :
      (org : String) (actor : Option String) (resource : String) (p : Payload)
      → Steps R (emit org actor resource p)
  pub starting : (org id : String) → Steps R (mark_started org id)
  pub finishing :
      (org id : String) (st : ReleaseStatus) (msg : Option Text)
      → Steps R (mark_finished org id st msg)
  pub rollouts : (org : String) (x : RolloutStatus) → Steps R (upsert_rollout org x)
  pub new_releases : (org : String) (r : Release) → Steps R (create_release org r)

module _ {A : Type 0} {R : Db → Db → Type 0} (o : Order R) where
  pub commit-Steps : (a : A) → Steps R (commit a)
  unfolding commit
  commit-Steps a = search (steps_rules, o) depth 3

  pub Steps-in_tenant : (org : String) (m : Exec Db A) → Steps R m → Steps R (in_tenant org m)
  unfolding in_tenant
  Steps-in_tenant org m k = Steps-with_tenant o org _ (Steps-bind o m _ k commit-Steps)

pub may_deploy-Steps :
    {R : Db → Db → Type 0} (o : Order R) (org user : String) → Steps R (may_deploy org user)
unfolding may_deploy Same
may_deploy-Steps o org user = record {
  at = λ s.
      rw
        ((authorize_org_member-Same {S = Db} (λ s. s.members) new_policy_authorizer org user
            deploy).at
          s)
        (o.same s);
}

pub validate_ownership-Steps :
    {R : Db → Db → Type 0} (o : Order R) (a : Agent) (dep_id rel_id : String)
    → Steps R (validate_ownership a dep_id rel_id)
unfolding validate_ownership get_deployment get_release
validate_ownership-Steps o a dep_id rel_id = search (steps_rules, o) depth 14

module _ {R : Db → Db → Type 0} (w : Writes R) (org : String) where
  create_row-Steps : (d : Deployment) → Steps R (create_row org d)
  create_row-Steps = w.rows org

  update_row-Steps : (d : Deployment) → Steps R (update_row org d)
  update_row-Steps = w.row_updates org

  update_status-Steps :
      (id : String) (st : DeploymentStatus) (ready : Option ℤ)
      → Steps R (update_status org id st ready)
  update_status-Steps = w.statuses org

  emit-Steps :
      (actor : Option String) (resource : String) (p : Payload)
      → Steps R (emit org actor resource p)
  emit-Steps = w.events org

  mark_started-Steps : (id : String) → Steps R (mark_started org id)
  mark_started-Steps = w.starting org

  mark_finished-Steps :
      (id : String) (st : ReleaseStatus) (msg : Option Text) → Steps R (mark_finished org id st msg)
  mark_finished-Steps = w.finishing org

  upsert_rollout-Steps : (x : RolloutStatus) → Steps R (upsert_rollout org x)
  upsert_rollout-Steps = w.rollouts org

  create_release-Steps : (r : Release) → Steps R (create_release org r)
  create_release-Steps = w.new_releases org

ruleset writing = (
  Steps-in_tenant, may_deploy-Steps, create_row-Steps, update_row-Steps, update_status-Steps,
  emit-Steps, mark_started-Steps, mark_finished-Steps, upsert_rollout-Steps, create_release-Steps,
)

module _ {R : Db → Db → Type 0} (o : Order R) (w : Writes R) where
  module _ (c : Codec) (org user : String) where
    pub create_deployment-Steps :
        (dep_id rel_id : String) (req : CreateRequest)
        → Steps R (create_deployment c dep_id rel_id org user req)
    unfolding create_deployment get_app
    create_deployment-Steps dep_id rel_id req = search (steps_rules, o, w, writing) depth 14

    pub update_deployment-Steps :
        (rel_id dep_id : String) (req : UpdateRequest)
        → Steps R (update_deployment c rel_id org user dep_id req)
    unfolding update_deployment update_found publish_update add_release get_deployment get_latest
    update_deployment-Steps rel_id dep_id req = search (steps_rules, o, w, writing) depth 14

    pub rollback_target-Steps :
        (dep_id : String) (n : Option ℕ) (latest : Release)
        → Steps R (rollback_target org dep_id n latest)
    unfolding rollback_target get_by_revision get_previous_successful
    rollback_target-Steps dep_id none latest = search (steps_rules, o) depth 6
    rollback_target-Steps dep_id (some n) latest = search (steps_rules, o) depth 6

    pub rollback-Steps :
        (rel_id dep_id : String) (n : Option ℕ) → Steps R (rollback c rel_id org user dep_id n)
    unfolding rollback rollback_found publish_rollback add_release get_deployment get_latest
    rollback-Steps rel_id dep_id n =
        search (steps_rules, o, w, writing, rollback_target-Steps) depth 14

  module _ (org user dep_id : String) where
    pub delete_deployment-Steps : Steps R (delete_deployment org user dep_id)
    unfolding delete_deployment get_deployment soft_delete
    delete_deployment-Steps = search (steps_rules, o, w, writing) depth 14

    pub mark_deployment_started-Steps :
        (rel_id : String) → Steps R (mark_deployment_started org user dep_id rel_id)
    unfolding mark_deployment_started get_release
    mark_deployment_started-Steps rel_id = search (steps_rules, o, w, writing) depth 14

    pub mark_deployment_succeeded-Steps :
        (rel_id : String) (n : ℤ) → Steps R (mark_deployment_succeeded org user dep_id rel_id n)
    unfolding mark_deployment_succeeded get_release
    mark_deployment_succeeded-Steps rel_id n = search (steps_rules, o, w, writing) depth 14

    pub mark_deployment_failed-Steps :
        (rel_id : String) (msg : Text) → Steps R (mark_deployment_failed org user dep_id rel_id msg)
    unfolding mark_deployment_failed get_release
    mark_deployment_failed-Steps rel_id msg = search (steps_rules, o, w, writing) depth 14

  module _ (h : Handler) (a : Agent) where
    pub emit_event-Steps : (dep_id : String) (p : Payload) → Steps R (emit_event h a dep_id p)
    unfolding emit_event
    emit_event-Steps dep_id p = search (steps_rules, o, w, writing) depth 6

    pub record_status-Steps :
        (dep_id rel_id : String) (req : StatusRequest) (r : Release) (st : ReleaseStatus)
        → Steps R (record_status h a dep_id rel_id req r st)
    unfolding record_status
    record_status-Steps dep_id rel_id req r deploying = search (steps_rules, o, w, writing) depth 9
    record_status-Steps dep_id rel_id req r succeeded = search (steps_rules, o, w, writing) depth 9
    record_status-Steps dep_id rel_id req r failed = search (steps_rules, o, w, writing) depth 9
    record_status-Steps dep_id rel_id req r _ = search (steps_rules, o) depth 3

    pub persist_rollout-Steps :
        (dep_id rel_id : String) (req : ProgressRequest)
        → Steps R (persist_rollout h a dep_id rel_id req)
    unfolding persist_rollout
    persist_rollout-Steps dep_id rel_id req = search (steps_rules, o, w, writing) depth 6

    pub roll_back_to-Steps :
        (new_id : String) (d : Deployment) (r : Release) (req : ProgressRequest) (target : Release)
        → Steps R (roll_back_to h a new_id d r req target)
    unfolding roll_back_to
    roll_back_to-Steps new_id d r req target = search (steps_rules, o, w, writing) depth 12

    pub trigger_auto_rollback-Steps :
        (new_id : String) (d : Deployment) (r : Release) (req : ProgressRequest)
        → Steps R (trigger_auto_rollback h a new_id d r req)
    unfolding trigger_auto_rollback get_previous_successful
    trigger_auto_rollback-Steps new_id d r req = search (steps_rules, o, roll_back_to-Steps) depth 9

    pub apply_transition-Steps :
        (new_id : String) (d : Deployment) (r : Release) (req : ProgressRequest)
        (prev : Option Phase) (was : Bool) (p : Phase)
        → Steps R (apply_transition h a new_id d r req prev was p)
    unfolding apply_transition become_healthy become_failed
    apply_transition-Steps new_id d r req prev was phase_healthy =
        search (steps_rules, o, w, writing) depth 9
    apply_transition-Steps new_id d r req prev was phase_failed =
        search (steps_rules, o, w, writing, trigger_auto_rollback-Steps) depth 9
    apply_transition-Steps new_id d r req prev was _ = search (steps_rules, o) depth 3

  pub update_deployment_status-Steps :
      (h : Handler) (a : Option Agent) (dep_id rel_id : String) (req : StatusRequest)
      → Steps R (update_deployment_status h a dep_id rel_id req)
  unfolding update_deployment_status
  update_deployment_status-Steps h none dep_id rel_id req = search (steps_rules, o) depth 3
  update_deployment_status-Steps h (some a) dep_id rel_id req =
      search (steps_rules, o, w, writing, validate_ownership-Steps, record_status-Steps) depth 9

  pub update_deployment_progress-Steps :
      (h : Handler) (a : Option Agent) (new_id dep_id rel_id : String) (req : ProgressRequest)
      → Steps R (update_deployment_progress h a new_id dep_id rel_id req)
  unfolding update_deployment_progress progress_owned progress_after rollout_get
  update_deployment_progress-Steps h none new_id dep_id rel_id req = search (steps_rules, o) depth 3
  update_deployment_progress-Steps h (some a) new_id dep_id rel_id req =
      search
        (
          steps_rules, o, w, writing, validate_ownership-Steps, persist_rollout-Steps,
          emit_event-Steps, apply_transition-Steps,
        )
        depth 12

  step-Steps : (c : Codec) (h : Handler) (call : Call) (s : Db) → R s (step c h call s)
  unfolding step
  step-Steps c h (creates dep_id rel_id org user req) s =
      (create_deployment-Steps c org user dep_id rel_id req).at s
  step-Steps c h (updates rel_id org user dep_id req) s =
      (update_deployment-Steps c org user rel_id dep_id req).at s
  step-Steps c h (rolls_back rel_id org user dep_id n) s =
      (rollback-Steps c org user rel_id dep_id n).at s
  step-Steps c h (deletes org user dep_id) s = (delete_deployment-Steps org user dep_id).at s
  step-Steps c h (starts org user dep_id rel_id) s =
      (mark_deployment_started-Steps org user dep_id rel_id).at s
  step-Steps c h (succeeds org user dep_id rel_id n) s =
      (mark_deployment_succeeded-Steps org user dep_id rel_id n).at s
  step-Steps c h (fails org user dep_id rel_id msg) s =
      (mark_deployment_failed-Steps org user dep_id rel_id msg).at s
  step-Steps c h (reports_status a dep_id rel_id req) s =
      (update_deployment_status-Steps h a dep_id rel_id req).at s
  step-Steps c h (reports_progress a new_id dep_id rel_id req) s =
      (update_deployment_progress-Steps h a new_id dep_id rel_id req).at s

  pub run-Steps : (c : Codec) (h : Handler) (calls : List Call) (s : Db) → R s (run c h calls s)
  unfolding run
  run-Steps c h [] s = o.same s
  run-Steps c h (call ∷ calls) s =
      o.compose s (step c h call s) (run c h calls (step c h call s)) (step-Steps c h call s)
        (run-Steps c h calls (step c h call s))
