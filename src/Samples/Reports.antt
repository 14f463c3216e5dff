-- ===== src/Samples/Reports.antt =====
-- Reports of agents at the database of Samples.Fleet.
use final_bds.Prelude.{Bool, List, ◌≢◌, ap, false, true, false, [], ◌∷◌, some, ◌≡◌, refl, dec_text}
use final_bds.Errors.{ok}
use final_bds.Exec.{◌>>=◌, attempt}
use final_bds.Deployment.{Db, Deployment, Release, deploying, valid_agent_release_status}
use final_bds.Deployment.Store.{
  in_tenant, get_deployment, select_deployment, update_status, has_row, write_status, emit,
  get_release, select_release, select_previous, get_previous_successful, mark_started, has_release,
  start_release, create_release, release_clashes, has_id, update_row, has_version, write_deployment,
  upsert_rollout, has_pair, foreign_pair, write_rollout, select_rollout,
}
use final_bds.Deployment.Agent.{
  validate_ownership, emit_event, record_status, update_deployment_status,
}
use final_bds.Deployment.Progress.{
  persist_rollout, apply_transition, rollout_get, progress_owned, update_deployment_progress,
}
use final_bds.Errors.{Err, err}
use final_bds.Deployment.Store.{in_tenant, select_rollout, select_previous, select_revision}
use final_bds.Deployment.Progress.{update_deployment_progress}
use final_bds.Deployment.Calls.{Call, reports_progress, run}
use final_bds.Deployment.Loops.{automatic_rollback_ends}
use final_bds.Deployment.Conflict.{conflict_fails_report}
use final_bds.Deployment.Ownership.{IsOwned, status_report-IsOwned, progress_report-IsOwned}
use final_bds.Samples.Fleet.{
  codec, handler, web, first, second, db, agent, third, started, halfway, failure, crowded,
}

agent_starts : (update_deployment_status handler (some agent) "d1" "r2" started db).0 ≡ ok tt
unfolding update_deployment_status valid_agent_release_status in_tenant validate_ownership
    get_deployment select_deployment get_release select_release record_status mark_started
    has_release start_release update_status has_row write_status emit_event emit dec_text ◌>>=◌
    attempt
agent_starts = refl

status_report-IsOwned_example :
    (valid_agent_release_status deploying ≡ true)
    × (d : Deployment) × (r : Release) × IsOwned agent "d1" "r2" db d r
status_report-IsOwned_example =
    status_report-IsOwned handler agent "d1" "r2" started db tt agent_starts

agent_progresses :
    (update_deployment_progress handler (some agent) "n1" "d1" "r2" halfway db).0 ≡ ok tt
unfolding update_deployment_progress in_tenant validate_ownership get_deployment select_deployment
    get_release select_release progress_owned rollout_get select_rollout persist_rollout
    upsert_rollout foreign_pair has_pair write_rollout emit_event emit apply_transition dec_text
    ◌>>=◌ attempt
agent_progresses = refl

progress_report-IsOwned_example : (d : Deployment) × (r : Release) × IsOwned agent "d1" "r2" db d r
progress_report-IsOwned_example =
    progress_report-IsOwned handler agent "n1" "d1" "r2" halfway db tt agent_progresses

-- Whether a table has three releases.
three : List Release → Bool
three (x ∷ y ∷ z ∷ []) = true
three _ = false

made_release :
    (update_deployment_progress handler (some agent) "n1" "d1" "r2" failure db).1.releases
    ≢ db.releases
unfolding three update_deployment_progress in_tenant validate_ownership get_deployment
    select_deployment get_release select_release progress_owned rollout_get select_rollout
    persist_rollout upsert_rollout foreign_pair has_pair write_rollout emit_event emit
    apply_transition dec_text ◌>>=◌ attempt create_release release_clashes has_id update_row
    has_version write_deployment select_previous get_previous_successful
made_release = λ e. let unlike : true ≡ false = ap three e in cc unlike

abbrev later_calls : List Call
later_calls = reports_progress (some agent) "n9" "d1" "n1" halfway ∷ []

abbrev later_db : Db
later_db =
    run codec handler later_calls
      (update_deployment_progress handler (some agent) "n1" "d1" "r2" failure db).1

automatic_rollback_ends_example :
    ((update_deployment_progress handler (some agent) "n2" "d1" "n1" failure later_db).1.releases
      ≡ later_db.releases)
    × ((update_deployment_progress handler
          (some agent)
          "n2"
          "d1"
          "n1"
          failure
          later_db).1.deployments
        ≡ later_db.deployments)
automatic_rollback_ends_example =
    automatic_rollback_ends codec handler agent agent "n1" "d1" "r2" failure db later_calls "n2"
      failure refl refl made_release

first_is_previous : select_previous "acme" "d1" 2 crowded.releases ≡ ok first
unfolding select_previous dec_text
first_is_previous = refl

third_is_next : select_revision "acme" "d1" 3 crowded.releases ≡ ok third
unfolding select_revision dec_text
third_is_next = refl

may_report : (validate_ownership agent "d1" "r2" crowded).0 ≡ ok (web, second)
unfolding validate_ownership get_deployment select_deployment get_release select_release dec_text
    ◌>>=◌ attempt
may_report = refl

conflict_fails_report_example :
    (e : Err) × ((update_deployment_progress handler (some agent) "n1" "d1" "r2" failure crowded).0
      ≡ err e)
    × ((update_deployment_progress handler (some agent) "n1" "d1" "r2" failure crowded).1 ≡ crowded)
unfolding select_rollout
conflict_fails_report_example =
    conflict_fails_report handler agent "n1" web second first third failure refl "d1" "r2" crowded
      may_report refl refl first_is_previous third_is_next
