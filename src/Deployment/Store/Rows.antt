-- ===== src/Deployment/Store/Rows.antt =====
-- The application and deployment repositories of backend/services/deployment/internal/repository.go,
-- the outbox, and the transactions of a tenant (backend/libs/database/tx.go). `org` is the tenant that
-- a statement runs for: row-level security shows it the rows of that organisation only.
use final_bds.Prelude.{
  ℤ, suc, Bool, true, false, String, List, [], ◌∷◌, Option, none, some, ◌&&◌, ◌||◌, text_is,
  dec_text, ite, if◌then◌else◌, ◌==◌,
}
use final_bds.Errors.{
  Err, plain, annotated, conflict_error, not_found_error, validation_error, Result, ok, err,
}
use final_bds.Exec.{Exec, gets, ◌>>=◌, with_tenant}
use final_bds.Deployment.{Application, Deployment, DeploymentStatus, deleted, Payload, Db}

module _ {A : Type 0} where
  -- A statement that the server refuses, which aborts the transaction.
  abbrev pub refuse : Err → Exec Db A
  refuse e s = (err e, record s { aborted = true })

  -- The commit of a transaction: an aborted one is rolled back instead.
  unfoldable pub commit : A → Exec Db A
  commit a = gets (λ s.
      if s.aborted
      then err (annotated "database: commit" (plain "commit unexpectedly resulted in rollback"))
      else ok a)

  -- `WithTenant` with its commit.
  unfoldable pub in_tenant : String → Exec Db A → Exec Db A
  unfolding commit
  in_tenant org m = with_tenant org (m >>= λ a. commit a)

unfoldable pub select_app : String → String → List Application → Result Application
select_app org id [] = err (not_found_error "resource not found")
select_app org id (a ∷ rest) =
    ite (dec_text a.org_id org) (ite (dec_text a.app_id id) (ok a) (select_app org id rest))
      (select_app org id rest)

-- `applicationRepo.GetByID`.
unfoldable pub get_app : String → String → Exec Db Application
get_app org id = gets (λ s. select_app org id s.apps)

unfoldable pub has_id : String → List Deployment → Bool
has_id id [] = false
has_id id (d ∷ ds) = ite (dec_text d.id id) true (has_id id ds)

unfoldable pub mentions : String → List String → Bool
mentions id [] = false
mentions id (x ∷ xs) = ite (dec_text x id) true (mentions id xs)

-- `deploymentRepo.Create`: the primary key, the reference to a cluster, and row-level security. It sets
-- the number of desired replicas.
unfoldable pub create_row : String → Deployment → Exec Db (Unit {0})
unfolding has_id mentions
create_row org d s =
    ite (dec_text d.org_id org)
      (if has_id d.id s.deployments
        then refuse (conflict_error "resource already exists") s
        else if mentions d.cluster_id s.clusters
        then (
          ok tt,
          record s {
            deployments = record d { desired_replicas = d.replicas; version = 1 } ∷ s.deployments;
          },
        )
        else refuse (validation_error "referenced resource does not exist") s)
      (refuse (plain "new row violates row-level security policy") s)

abbrev pub is_deleted : DeploymentStatus → Bool
is_deleted deleted = true
is_deleted _ = false

unfoldable pub select_deployment : String → String → List Deployment → Result Deployment
select_deployment org id [] = err (not_found_error "resource not found")
select_deployment org id (d ∷ ds) =
    ite (dec_text d.org_id org)
      (ite (dec_text d.id id) (if is_deleted d.status then select_deployment org id ds else ok d)
        (select_deployment org id ds))
      (select_deployment org id ds)

-- `deploymentRepo.GetByID`, which skips deleted deployments.
unfoldable pub get_deployment : String → String → Exec Db Deployment
get_deployment org id = gets (λ s. select_deployment org id s.deployments)

-- The row that the two deployments share: same id, and the version that was read.
abbrev pub current : Deployment → Deployment → Bool
current d e = text_is e.id d.id && e.version == d.version

unfoldable pub has_version : String → Deployment → List Deployment → Bool
has_version org d [] = false
has_version org d (e ∷ es) = ite (dec_text e.org_id org) (current d e) false || has_version org d es

-- The columns that `Update` writes; the status is not one of them.
abbrev pub updated : Deployment → Deployment → Deployment
updated d e = record e {
  image = d.image;
  replicas = d.replicas;
  cpu_request = d.cpu_request;
  cpu_limit = d.cpu_limit;
  memory_request = d.memory_request;
  memory_limit = d.memory_limit;
  port = d.port;
  env_vars = d.env_vars;
  desired_replicas = d.replicas;
  version = suc e.version;
}

unfoldable pub write_deployment : String → Deployment → List Deployment → List Deployment
write_deployment org d [] = []
write_deployment org d (e ∷ es) =
    ite (dec_text e.org_id org) (if current d e then updated d e else e) e
    ∷ write_deployment org d es

-- `deploymentRepo.Update`, with its optimistic lock.
unfoldable pub update_row : String → Deployment → Exec Db (Unit {0})
unfolding has_version write_deployment
update_row org d s =
    if has_version org d s.deployments
    then (ok tt, record s { deployments = write_deployment org d s.deployments })
    else (err (conflict_error "resource was modified concurrently; reload and retry"), s)

abbrev replicas_or : Option ℤ → ℤ → ℤ
replicas_or none old = old
replicas_or (some n) old = n

unfoldable pub write_status :
    String → String → DeploymentStatus → Option ℤ → List Deployment → List Deployment
write_status org id st ready [] = []
write_status org id st ready (d ∷ ds) =
    ite (dec_text d.org_id org)
      (ite (dec_text d.id id)
        (record d {
          status = st;
          ready_replicas = replicas_or ready d.ready_replicas;
          version = suc d.version;
        })
        d)
      d
    ∷ write_status org id st ready ds

unfoldable pub has_row : String → String → List Deployment → Bool
has_row org id [] = false
has_row org id (d ∷ ds) =
    ite (dec_text d.org_id org) (ite (dec_text d.id id) true (has_row org id ds))
      (has_row org id ds)

-- `deploymentRepo.UpdateStatus`, which does not skip deleted deployments.
unfoldable pub update_status : String → String → DeploymentStatus → Option ℤ → Exec Db (Unit {0})
unfolding has_row write_status
update_status org id st ready s =
    if has_row org id s.deployments
    then (ok tt, record s { deployments = write_status org id st ready s.deployments })
    else (err (not_found_error "deployment not found"), s)

-- `deploymentRepo.SoftDelete`.
unfoldable pub soft_delete : String → String → Exec Db (Unit {0})
unfolding update_status
soft_delete org id = update_status org id deleted none

-- `enqueue` and `emitEvent`, down to `PostgresOutbox.Enqueue`: an envelope without an organisation is
-- invalid.
unfoldable pub emit : String → Option String → String → Payload → Exec Db (Unit {0})
emit org actor resource payload s =
    ite (dec_text org "") (err (plain "events: envelope missing orgId"), s)
      (
        ok tt,
        record s {
          outbox =
              record { event_org = org; actor = actor; resource = resource; payload = payload }
              ∷ s.outbox;
        },
      )
