-- ===== src/Deployment/Store/Releases.antt =====
-- The release repository of backend/services/deployment/internal/repository.go and the rollout
-- snapshots of backend/services/deployment/internal/rollout.go.
use final_bds.Prelude.{
  ℕ, Bool, true, false, String, List, [], ◌∷◌, Option, none, some, ◌&&◌, ◌||◌, text_is, dec_text,
  ite, if◌then◌else◌, ltb, ◌==◌,
}
use final_bds.Errors.{plain, conflict_error, not_found_error, validation_error, Result, ok, err}
use final_bds.Text.{Text}
use final_bds.Exec.{Exec, gets}
use final_bds.Deployment.{Release, ReleaseStatus, deploying, succeeded, RolloutStatus, Db}
use final_bds.Deployment.Store.Rows.{refuse, has_id}

unfoldable pub release_clashes : Release → List Release → Bool
release_clashes r [] = false
release_clashes r (q ∷ qs) =
    text_is q.release_id r.release_id
    || (text_is q.deployment_id r.deployment_id && q.revision == r.revision)
    || release_clashes r qs

-- `releaseRepo.Create`: the primary key, UNIQUE (deployment_id, revision), the reference to a
-- deployment, and row-level security.
unfoldable pub create_release : String → Release → Exec Db (Unit {0})
unfolding release_clashes has_id
create_release org r s =
    ite (dec_text r.org_id org)
      (if release_clashes r s.releases
        then refuse (conflict_error "resource already exists") s
        else if has_id r.deployment_id s.deployments
        then (ok tt, record s { releases = r ∷ s.releases })
        else refuse (validation_error "referenced resource does not exist") s)
      (refuse (plain "new row violates row-level security policy") s)

unfoldable pub select_release : String → String → List Release → Result Release
select_release org id [] = err (not_found_error "resource not found")
select_release org id (r ∷ rs) =
    ite (dec_text r.org_id org) (ite (dec_text r.release_id id) (ok r) (select_release org id rs))
      (select_release org id rs)

-- `releaseRepo.GetByID`.
unfoldable pub get_release : String → String → Exec Db Release
get_release org id = gets (λ s. select_release org id s.releases)

unfoldable pub select_revision : String → String → ℕ → List Release → Result Release
select_revision org dep n [] = err (not_found_error "resource not found")
select_revision org dep n (r ∷ rs) =
    ite (dec_text r.org_id org)
      (ite (dec_text r.deployment_id dep)
        (if r.revision == n then ok r else select_revision org dep n rs)
        (select_revision org dep n rs))
      (select_revision org dep n rs)

-- `releaseRepo.GetByRevision`.
unfoldable pub get_by_revision : String → String → ℕ → Exec Db Release
get_by_revision org dep n = gets (λ s. select_revision org dep n s.releases)

-- The release of the higher revision: ORDER BY revision DESC LIMIT 1.
abbrev pub newer : Release → Result Release → Result Release
newer r (err e) = ok r
newer r (ok q) = if ltb r.revision q.revision then ok q else ok r

unfoldable pub select_latest : String → String → List Release → Result Release
select_latest org dep [] = err (not_found_error "resource not found")
select_latest org dep (r ∷ rs) =
    ite (dec_text r.org_id org)
      (ite (dec_text r.deployment_id dep) (newer r (select_latest org dep rs))
        (select_latest org dep rs))
      (select_latest org dep rs)

-- `releaseRepo.GetLatest`.
unfoldable pub get_latest : String → String → Exec Db Release
get_latest org dep = gets (λ s. select_latest org dep s.releases)

abbrev pub is_succeeded : ReleaseStatus → Bool
is_succeeded succeeded = true
is_succeeded _ = false

unfoldable pub select_previous : String → String → ℕ → List Release → Result Release
select_previous org dep n [] = err (not_found_error "resource not found")
select_previous org dep n (r ∷ rs) =
    ite (dec_text r.org_id org)
      (ite (dec_text r.deployment_id dep)
        (if ltb r.revision n && is_succeeded r.status
          then newer r (select_previous org dep n rs)
          else select_previous org dep n rs)
        (select_previous org dep n rs))
      (select_previous org dep n rs)

-- `releaseRepo.GetPreviousSuccessful`.
unfoldable pub get_previous_successful : String → String → ℕ → Exec Db Release
get_previous_successful org dep n = gets (λ s. select_previous org dep n s.releases)

unfoldable pub start_release : String → String → ℕ → List Release → List Release
start_release org id now [] = []
start_release org id now (r ∷ rs) =
    ite (dec_text r.org_id org)
      (ite (dec_text r.release_id id) (record r { status = deploying; started_at = some now }) r) r
    ∷ start_release org id now rs

unfoldable pub finish_release :
    String → String → ReleaseStatus → Option Text → ℕ → List Release → List Release
finish_release org id st msg now [] = []
finish_release org id st msg now (r ∷ rs) =
    ite (dec_text r.org_id org)
      (ite (dec_text r.release_id id)
        (record r { status = st; finished_at = some now; error_message = msg }) r)
      r
    ∷ finish_release org id st msg now rs

unfoldable pub has_release : String → String → List Release → Bool
has_release org id [] = false
has_release org id (r ∷ rs) =
    ite (dec_text r.org_id org) (ite (dec_text r.release_id id) true (has_release org id rs))
      (has_release org id rs)

-- `releaseRepo.MarkStarted`.
unfoldable pub mark_started : String → String → Exec Db (Unit {0})
unfolding has_release start_release
mark_started org id s =
    if has_release org id s.releases
    then (ok tt, record s { releases = start_release org id s.now s.releases })
    else (err (not_found_error "release not found"), s)

-- `releaseRepo.MarkFinished`.
unfoldable pub mark_finished : String → String → ReleaseStatus → Option Text → Exec Db (Unit {0})
unfolding has_release finish_release
mark_finished org id st msg s =
    if has_release org id s.releases
    then (ok tt, record s { releases = finish_release org id st msg s.now s.releases })
    else (err (not_found_error "release not found"), s)

unfoldable pub select_rollout : String → String → String → List RolloutStatus → Option RolloutStatus
select_rollout org dep rel [] = none
select_rollout org dep rel (x ∷ xs) =
    ite (dec_text x.org_id org)
      (ite (dec_text x.deployment_id dep)
        (ite (dec_text x.release_id rel) (some x) (select_rollout org dep rel xs))
        (select_rollout org dep rel xs))
      (select_rollout org dep rel xs)

-- The rows of the pair, with the new report; the marker is kept once it is set.
unfoldable pub write_rollout : RolloutStatus → List RolloutStatus → List RolloutStatus
write_rollout x [] = []
write_rollout x (y ∷ ys) =
    ite (dec_text y.deployment_id x.deployment_id)
      (ite (dec_text y.release_id x.release_id)
        (record x { org_id = y.org_id; is_rollback = y.is_rollback || x.is_rollback }) y)
      y
    ∷ write_rollout x ys

unfoldable pub has_pair : RolloutStatus → List RolloutStatus → Bool
has_pair x [] = false
has_pair x (y ∷ ys) =
    ite (dec_text y.deployment_id x.deployment_id)
      (ite (dec_text y.release_id x.release_id) true (has_pair x ys)) (has_pair x ys)

unfoldable pub foreign_pair : String → RolloutStatus → List RolloutStatus → Bool
foreign_pair org x [] = false
foreign_pair org x (y ∷ ys) =
    ite (dec_text y.deployment_id x.deployment_id)
      (ite (dec_text y.release_id x.release_id) (ite (dec_text y.org_id org) false true)
        (foreign_pair org x ys))
      (foreign_pair org x ys)

-- `rolloutStatusRepo.Upsert`, for a report with a phase: the pair is the primary key, and a row of
-- another tenant can be neither inserted nor updated.
unfoldable pub upsert_rollout : String → RolloutStatus → Exec Db (Unit {0})
unfolding write_rollout has_pair foreign_pair
upsert_rollout org x s =
    ite (dec_text x.org_id org)
      (if foreign_pair org x s.rollouts
        then refuse (plain "new row violates row-level security policy") s
        else if has_pair x s.rollouts
        then (ok tt, record s { rollouts = write_rollout x s.rollouts })
        else (ok tt, record s { rollouts = x ∷ s.rollouts }))
      (refuse (plain "new row violates row-level security policy") s)
