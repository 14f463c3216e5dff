-- ===== src/Deployment/Service.antt =====
-- The methods of the deployment service that write deployments and releases
-- (backend/services/deployment/internal/service.go). Logging is left out, and so is the binding to Argo
-- CD that `CreateDeployment` makes behind its transaction for a request with a GitOps source.
use final_bds.Prelude.{
  ℕ, ℤ, pos, suc, ltb_ℤ, false, String, List, Option, none, some, not, if◌then◌else◌,
}
use final_bds.Errors.{is_not_found, Result}
use final_bds.Text.{Text, trim_space, is_blank}
use final_bds.Exec.{Exec, pure, raise, gets, ◌>>=◌, ◌>>◌, require, attempt}
use final_bds.Authz.{OrgRole, deploy, new_policy_authorizer}
use final_bds.Authz.Membership.{authorize_org_member}
use final_bds.Deployment.{
  release_pending, deployment_pending, Deployment, Release, Payload, deployment_created,
  deployment_rollback, Db, err_app_not_found, err_release_not_found, err_no_rollback_target,
  err_invalid_image, err_invalid_replicas,
}
use final_bds.Deployment.Store.{
  in_tenant, get_app, create_row, get_deployment, update_row, emit, create_release, get_by_revision,
  get_latest, get_previous_successful,
}

-- encoding/json and crypto/sha256, as the service uses them: the list of environment variables of a
-- request (the empty list is `[]`), the configuration of a deployment with its variables, whether a stored
-- configuration decodes into a map and what the error is, and the hash of a configuration.
pub record Codec : Type 0 where
  pub marshal_env : List (String × String) → String
  pub marshal_config : Deployment → String → String
  pub unmarshal_config : String → Result (Unit {0})
  pub hash_config : String → String

pub record CreateRequest : Type 0 where
  pub application_id : String
  pub cluster_id : String
  pub image : Text
  pub replicas : ℤ
  pub cpu_request : Option String
  pub cpu_limit : Option String
  pub memory_request : Option String
  pub memory_limit : Option String
  pub port : Option ℤ
  pub env_vars : List (String × String)

pub record UpdateRequest : Type 0 where
  pub image : Option Text
  pub replicas : Option ℤ
  pub cpu_request : Option String
  pub cpu_limit : Option String
  pub memory_request : Option String
  pub memory_limit : Option String
  pub port : Option ℤ
  pub env_vars : Option (List (String × String))

-- `AuthorizeOrgMember` for a deployment, with the default policy.
unfoldable pub may_deploy : String → String → Exec Db OrgRole
may_deploy org user = authorize_org_member (λ s. s.members) new_policy_authorizer org user deploy

-- `if req.X != nil { dep.X = req.X }`, and the same for a field that is a value.
abbrev pub given {ℓ} : {A : Type ℓ} → Option A → Option A → Option A
given none old = old
given (some a) old = some a

abbrev pub value_or {ℓ} : {A : Type ℓ} → Option A → A → A
value_or none old = old
value_or (some a) old = a

-- The end of both transactions: the new release, its event, and the deployment as `Update` leaves it.
unfoldable pub add_release :
    String → String → String → Deployment → Release → Payload → Exec Db (Deployment × Release)
add_release org user dep_id e r event = do
  create_release org r
  emit org (some user) dep_id event
  pure (record e { version = suc e.version; desired_replicas = e.replicas }, r)

-- The release that a rollback goes to: the revision that is asked for, or the previous successful one.
unfoldable pub rollback_target : String → String → Option ℕ → Release → Exec Db Release
rollback_target org dep_id (some n) latest =
    attempt (get_by_revision org dep_id n) (λ _. raise err_release_not_found) (λ r. pure r)
rollback_target org dep_id none latest =
    attempt (get_previous_successful org dep_id latest.revision) (λ _. raise err_no_rollback_target)
      (λ r. pure r)

module _ (c : Codec) where
  -- The release of a deployment as it stands.
  abbrev pub snapshot : String → String → String → String → ℕ → String → Deployment → Release
  snapshot org user rel_id dep n config d = record {
    release_id = rel_id;
    org_id = org;
    deployment_id = dep;
    revision = n;
    image = d.image;
    replicas = d.replicas;
    config_hash = c.hash_config config;
    config = config;
    status = release_pending;
    started_at = none;
    finished_at = none;
    error_message = none;
    created_by = some user;
  }

  -- `CreateDeployment`; `dep_id` and `rel_id` are the fresh UUIDs.
  unfoldable pub create_deployment :
      String → String → String → String → CreateRequest → Exec Db (Deployment × Release)
  unfolding may_deploy
  create_deployment dep_id rel_id org user req = do
    may_deploy org user
    require (not (is_blank (trim_space req.image))) err_invalid_image
    require (not (ltb_ℤ req.replicas (pos 1))) err_invalid_replicas
    let env_vars = c.marshal_env req.env_vars
    let d : Deployment = record {
      id = dep_id;
      org_id = org;
      application_id = req.application_id;
      cluster_id = req.cluster_id;
      image = req.image;
      replicas = req.replicas;
      cpu_request = req.cpu_request;
      cpu_limit = req.cpu_limit;
      memory_request = req.memory_request;
      memory_limit = req.memory_limit;
      port = req.port;
      env_vars = env_vars;
      status = deployment_pending;
      ready_replicas = pos 0;
      desired_replicas = req.replicas;
      version = 1;
      created_by = some user;
    }
    let r = snapshot org user rel_id dep_id 1 (c.marshal_config d env_vars) d
    in_tenant org do
      attempt (get_app org req.application_id)
          (λ e. raise (if is_not_found e then err_app_not_found else e)) (λ _. pure tt)
      create_row org d
      create_release org r
      emit org (some user) dep_id (
          deployment_created dep_id req.application_id req.cluster_id req.image req.replicas 1 user)
    pure (d, r)

  -- The fields that a request changes.
  unfoldable pub apply_update : UpdateRequest → Deployment → Deployment
  apply_update req d = record d {
    image = value_or req.image d.image;
    replicas = value_or req.replicas d.replicas;
    cpu_request = given req.cpu_request d.cpu_request;
    cpu_limit = given req.cpu_limit d.cpu_limit;
    memory_request = given req.memory_request d.memory_request;
    memory_limit = given req.memory_limit d.memory_limit;
    port = given req.port d.port;
    env_vars = elim req.env_vars [ none ↦ d.env_vars | some vs ↦ c.marshal_env vs ];
  }

  -- The rest of the transaction of `UpdateDeployment` once the deployment is changed to `e`. `Update`
  -- advances the version of the row that it returns.
  unfoldable pub publish_update :
      String → String → String → String → Deployment → Exec Db (Deployment × Release)
  unfolding add_release
  publish_update rel_id org user dep_id e = do
    update_row org e
    n ← attempt (get_latest org dep_id) (λ _. pure 1) (λ r. pure (suc r.revision))
    add_release org user dep_id e
        (snapshot org user rel_id dep_id n (c.marshal_config e e.env_vars) e)
        (deployment_created dep_id e.application_id e.cluster_id e.image e.replicas n user)

  -- The transaction of `UpdateDeployment`.
  unfoldable pub update_found :
      String → String → String → String → UpdateRequest → Exec Db (Deployment × Release)
  unfolding apply_update publish_update
  update_found rel_id org user dep_id req = do
    d ← get_deployment org dep_id
    require (not (elim req.replicas [ none ↦ false | some n ↦ ltb_ℤ n (pos 1) ]))
        err_invalid_replicas
    publish_update rel_id org user dep_id (apply_update req d)

  -- `UpdateDeployment`.
  unfoldable pub update_deployment :
      String → String → String → String → UpdateRequest → Exec Db (Deployment × Release)
  unfolding may_deploy
  update_deployment rel_id org user dep_id req = do
    may_deploy org user
    in_tenant org (update_found rel_id org user dep_id req)

  -- The rest of the transaction of `Rollback`, for the deployment, its latest release and the target.
  -- The status that Go sets on its copy of the deployment is not written by `Update`.
  unfoldable pub publish_rollback :
      String
      → String
      → String
      → String
      → Deployment
      → Release
      → Release
      → Exec Db (Deployment × Release)
  unfolding add_release
  publish_rollback rel_id org user dep_id d latest target = do
    gets (λ _. c.unmarshal_config target.config)
    let e : Deployment = record d {
      image = target.image;
      replicas = target.replicas;
      status = deployment_pending;
    }
    update_row org e
    add_release org user dep_id e
        (record {
          release_id = rel_id;
          org_id = org;
          deployment_id = dep_id;
          revision = suc latest.revision;
          image = target.image;
          replicas = target.replicas;
          config_hash = target.config_hash;
          config = target.config;
          status = release_pending;
          started_at = none;
          finished_at = none;
          error_message = none;
          created_by = some user;
        })
        (deployment_rollback dep_id latest.revision target.revision user)

  -- The transaction of `Rollback`.
  unfoldable pub rollback_found :
      String → String → String → String → Option ℕ → Exec Db (Deployment × Release)
  unfolding publish_rollback
  rollback_found rel_id org user dep_id revision = do
    d ← get_deployment org dep_id
    latest ← get_latest org dep_id
    target ← rollback_target org dep_id revision latest
    publish_rollback rel_id org user dep_id d latest target

  -- `Rollback`.
  unfoldable pub rollback :
      String → String → String → String → Option ℕ → Exec Db (Deployment × Release)
  unfolding may_deploy
  rollback rel_id org user dep_id revision = do
    may_deploy org user
    in_tenant org (rollback_found rel_id org user dep_id revision)
