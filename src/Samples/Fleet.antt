-- ===== src/Samples/Fleet.antt =====
-- A concrete database of the deployment service: a deployment with a succeeded and a failed release, the
-- agent of its cluster, and what users and the agent ask for.
use final_bds.Prelude.{pos, true, false, [], ◌∷◌, none, some}
use final_bds.Errors.{ok}
use final_bds.Rollout.{phase_rolling_out}
use final_bds.Authz.{org_admin}
use final_bds.Authz.Membership.{OrgMember}
use final_bds.Deployment.{
  Deployment, Release, succeeded, failed, release_pending, deployment_pending, running, deploying,
  Db,
}
use final_bds.Deployment.Service.{Codec, UpdateRequest}
use final_bds.Deployment.Agent.{Handler, Agent, StatusRequest, ProgressRequest}
use final_bds.Deployment.{RolloutStatus}
use final_bds.Rollout.{phase_failed}

abbrev pub codec : Codec
codec = record {
  marshal_env = λ vs. "[]";
  marshal_config = λ d env. "{}";
  unmarshal_config = λ s. ok tt;
  hash_config = λ s. "h";
}

abbrev pub handler : Handler
handler = record { has_outbox = true; has_rollouts = true; auto_rollback = true }

abbrev pub ada : OrgMember
ada = record { org_id = "acme"; user_id = "ada"; role = org_admin; status = "active" }

abbrev pub web : Deployment
web = record {
  id = "d1";
  org_id = "acme";
  application_id = "a1";
  cluster_id = "c1";
  image = 2 ∷ [];
  replicas = pos 3;
  cpu_request = none;
  cpu_limit = none;
  memory_request = none;
  memory_limit = none;
  port = none;
  env_vars = "[]";
  status = running;
  ready_replicas = pos 3;
  desired_replicas = pos 3;
  version = 4;
  created_by = some "ada";
}

abbrev pub first : Release
first = record {
  release_id = "r1";
  org_id = "acme";
  deployment_id = "d1";
  revision = 1;
  image = 1 ∷ [];
  replicas = pos 2;
  config_hash = "h";
  config = "{}";
  status = succeeded;
  started_at = some 10;
  finished_at = some 20;
  error_message = none;
  created_by = some "ada";
}

abbrev pub second : Release
second = record first {
  release_id = "r2";
  revision = 2;
  image = 2 ∷ [];
  replicas = pos 3;
  status = failed;
}

abbrev pub db : Db
db = record {
  members = ada ∷ [];
  apps = [];
  clusters = "c1" ∷ [];
  deployments = web ∷ [];
  releases = second ∷ first ∷ [];
  rollouts = [];
  outbox = [];
  aborted = false;
  now = 30;
}

abbrev pub agent : Agent
agent = record { agent_id = "g1"; cluster_id = "c1"; organization_id = "acme" }

abbrev pub scale_up : UpdateRequest
scale_up = record {
  image = none;
  replicas = some (pos 5);
  cpu_request = none;
  cpu_limit = none;
  memory_request = none;
  memory_limit = none;
  port = none;
  env_vars = none;
}

abbrev pub scaled : Deployment
scaled = record web { replicas = pos 5; desired_replicas = pos 5; version = 5 }

abbrev pub third : Release
third = record second {
  release_id = "r3";
  revision = 3;
  replicas = pos 5;
  status = release_pending;
  started_at = none;
  finished_at = none;
}

abbrev pub reverted : Deployment
reverted = record web {
  image = 1 ∷ [];
  replicas = pos 2;
  status = deployment_pending;
  desired_replicas = pos 2;
  version = 5;
}

abbrev pub copy : Release
copy = record first {
  release_id = "r3";
  revision = 3;
  status = release_pending;
  started_at = none;
  finished_at = none;
}

abbrev pub started : StatusRequest
started = record { status = deploying; ready_replicas = none; error_message = none }

abbrev pub halfway : ProgressRequest
halfway = record {
  phase = phase_rolling_out;
  revision = 2;
  image = 2 ∷ [];
  rollout_percentage = pos 50;
  timeout = false;
  desired_replicas = pos 4;
  ready_replicas = pos 2;
  updated_replicas = pos 2;
  available_replicas = pos 2;
  unavailable_replicas = pos 2;
  observed_generation = pos 1;
  conditions = "[]";
  error_message = [];
}

abbrev pub marked : RolloutStatus
marked = record {
  deployment_id = "d1";
  release_id = "r2";
  org_id = "acme";
  phase = phase_rolling_out;
  revision = 2;
  image = 2 ∷ [];
  desired_replicas = pos 3;
  ready_replicas = pos 0;
  updated_replicas = pos 0;
  available_replicas = pos 0;
  unavailable_replicas = pos 3;
  observed_generation = pos 1;
  rollout_percentage = pos 0;
  conditions = "[]";
  error_message = none;
  is_rollback = true;
}

abbrev pub failure : ProgressRequest
failure = record halfway { phase = phase_failed }

abbrev pub crowded : Db
crowded = record db { releases = third ∷ second ∷ first ∷ [] }
