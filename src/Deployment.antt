-- ===== src/Deployment.antt =====
-- The deployment service: its data (backend/services/deployment/internal/domain.go and rollout.go),
-- the statuses of backend/libs/contracts/deploymentstatus/status.go, and its errors
-- (backend/services/deployment/internal/errors.go). Go's int is an integer where a client gives it and
-- a number where the service counts; the columns that no operation reads are left out.
pub mod Store
pub mod Service
pub mod Marks
pub mod Agent
pub mod Progress
pub mod Calls
pub mod Writes
pub mod Markers
pub mod Seeding
pub mod Snapshots
pub mod Ownership
pub mod Revisions
pub mod Loops
pub mod Conflict
use final_bds.Prelude.{ℕ, ℤ, Bool, true, false, String, List, Option, dec_text}
use final_bds.Errors.{Err, conflict_error, not_found_error, validation_error}
use final_bds.Text.{Text}
use final_bds.Authz.Membership.{OrgMember}
use final_bds.Rollout.{Phase}

pub data ReleaseStatus : Type 0 where
  release_pending deploying succeeded failed rolled_back : ReleaseStatus
  other_release_status : String → ReleaseStatus

unfoldable pub ReleaseStatus-discrete : Discrete ReleaseStatus
ReleaseStatus-discrete = hlevel dec_text

-- The method `IsTerminal` of a release status.
unfoldable pub is_terminal : ReleaseStatus → Bool
is_terminal succeeded = true
is_terminal failed = true
is_terminal rolled_back = true
is_terminal _ = false

-- The method `IsActive`.
unfoldable pub is_active : ReleaseStatus → Bool
is_active release_pending = true
is_active deploying = true
is_active _ = false

unfoldable pub valid_release_status : ReleaseStatus → Bool
valid_release_status (other_release_status s) = false
valid_release_status _ = true

unfoldable pub valid_agent_release_status : ReleaseStatus → Bool
valid_agent_release_status deploying = true
valid_agent_release_status succeeded = true
valid_agent_release_status failed = true
valid_agent_release_status _ = false

-- The statuses of a deployment, and the mark that `SoftDelete` sets.
pub data DeploymentStatus : Type 0 where
  deployment_pending running deployment_succeeded deployment_failed : DeploymentStatus
  deployment_rolled_back deleted : DeploymentStatus

pub record Deployment : Type 0 where
  pub id : String
  pub org_id : String
  pub application_id : String
  pub cluster_id : String
  pub image : Text
  pub replicas : ℤ
  pub cpu_request : Option String
  pub cpu_limit : Option String
  pub memory_request : Option String
  pub memory_limit : Option String
  pub port : Option ℤ
  pub env_vars : String
  pub status : DeploymentStatus
  pub ready_replicas : ℤ
  pub desired_replicas : ℤ
  pub version : ℕ
  pub created_by : Option String

pub record Release : Type 0 where
  pub release_id : String
  pub org_id : String
  pub deployment_id : String
  pub revision : ℕ
  pub image : Text
  pub replicas : ℤ
  pub config_hash : String
  pub config : String
  pub status : ReleaseStatus
  pub started_at : Option ℕ
  pub finished_at : Option ℕ
  pub error_message : Option Text
  pub created_by : Option String

pub record Application : Type 0 where
  pub app_id : String
  pub org_id : String

-- The latest report on the rollout of a release.
pub record RolloutStatus : Type 0 where
  pub deployment_id : String
  pub release_id : String
  pub org_id : String
  pub phase : Phase
  pub revision : ℕ
  pub image : Text
  pub desired_replicas : ℤ
  pub ready_replicas : ℤ
  pub updated_replicas : ℤ
  pub available_replicas : ℤ
  pub unavailable_replicas : ℤ
  pub observed_generation : ℤ
  pub rollout_percentage : ℤ
  pub conditions : String
  pub error_message : Option Text
  pub is_rollback : Bool

-- The payloads of events.go, one constructor for each event type that the modelled code emits.
pub data Payload : Type 0 where
  deployment_created : String → String → String → Text → ℤ → ℕ → String → Payload
  deployment_deleted : String → String → String → Payload
  deployment_rollback : String → ℕ → ℕ → String → Payload
  deployment_started : String → String → ℕ → Text → Payload
  deployment_success : String → String → ℕ → ℤ → Payload
  deployment_failure : String → String → ℕ → Text → Payload
  deployment_progress : String → String → ℕ → Phase → ℤ → ℤ → ℤ → Text → Payload
  deployment_healthy : String → String → ℕ → ℤ → Payload
  deployment_timeout : String → String → ℕ → Text → Payload
  rollback_started : String → String → ℕ → String → ℕ → Text → Payload
  rollback_completed : String → String → ℕ → ℤ → Payload

pub record Event : Type 0 where
  pub event_org : String
  pub actor : Option String
  pub resource : String
  pub payload : Payload

-- The tables. `clusters` holds the ids that a deployment may refer to. `aborted` tells that a
-- statement of the running transaction has been refused by the server, after which Postgres commits
-- nothing.
pub record Db : Type 0 where
  pub members : List OrgMember
  pub apps : List Application
  pub clusters : List String
  pub deployments : List Deployment
  pub releases : List Release
  pub rollouts : List RolloutStatus
  pub outbox : List Event
  pub aborted : Bool
  pub now : ℕ

abbrev pub err_app_not_found : Err
err_app_not_found = not_found_error "application not found"

abbrev pub err_release_not_found : Err
err_release_not_found = not_found_error "release not found"

abbrev pub err_no_rollback_target : Err
err_no_rollback_target = conflict_error "no previous successful release to rollback to"

abbrev pub err_invalid_image : Err
err_invalid_image = validation_error "image is required"

abbrev pub err_invalid_replicas : Err
err_invalid_replicas = validation_error "replicas must be at least 1"
