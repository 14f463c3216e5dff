-- ===== src/Samples/Deployments.antt =====
-- The deployment service at the database of Samples.Fleet.
use final_bds.Prelude.{List, [], ◌∷◌, ◌++◌, none, ◌≡◌, refl, dec_text}
use final_bds.Errors.{ok}
use final_bds.Exec.{◌>>=◌, attempt}
use final_bds.Authz.{
  Action-discrete, new_policy_authorizer, authorize, any_org_grant, default_org, set,
}
use final_bds.Authz.Membership.{
  authorize_org_member, load_membership, get_org_member, select_member,
}
use final_bds.Deployment.{Release}
use final_bds.Deployment.Store.{
  in_tenant, get_deployment, select_deployment, has_version, write_deployment, update_row, emit,
  create_release, release_clashes, has_id, get_latest, select_latest, get_previous_successful,
  select_previous,
}
use final_bds.Deployment.Service.{
  may_deploy, apply_update, publish_update, publish_rollback, add_release, update_found,
  update_deployment, rollback_target, rollback_found, rollback,
}
use final_bds.Deployment.Calls.{run, updates, rolls_back}
use final_bds.Deployment.Snapshots.{run-snapshots}
use final_bds.Deployment.Snapshots.Statements.{Snapshot, snapshots}
use final_bds.Deployment.Store.{in_tenant, select_previous}
use final_bds.Deployment.Revisions.{Adds, Copies, IsTarget, update_deployment-Adds, rollback-Adds}
use final_bds.Deployment.Revisions.Previous.{IsBest, select_previous-IsBest}
use final_bds.Samples.Fleet.{codec, handler, db, scale_up, scaled, third, reverted, copy}

run-snapshots_example :
    (new : List Snapshot) × (snapshots
        (run codec handler
          (updates "r3" "acme" "ada" "d1" scale_up ∷ rolls_back "r4" "acme" "ada" "d1" none ∷ [])
          db).releases
      ≡ new ++ snapshots db.releases)
run-snapshots_example =
    run-snapshots codec handler
      (updates "r3" "acme" "ada" "d1" scale_up ∷ rolls_back "r4" "acme" "ada" "d1" none ∷ []) db

ada_updates : (update_deployment codec "r3" "acme" "ada" "d1" scale_up db).0 ≡ ok (scaled, third)
unfolding update_deployment may_deploy authorize_org_member load_membership get_org_member
    select_member dec_text ◌>>=◌ attempt authorize any_org_grant new_policy_authorizer default_org
    set Action-discrete in_tenant update_found apply_update publish_update add_release
    get_deployment select_deployment update_row has_version write_deployment get_latest
    select_latest create_release release_clashes has_id emit
ada_updates = refl

update_deployment-Adds_example :
    Adds "acme" "d1" third db (update_deployment codec "r3" "acme" "ada" "d1" scale_up db).1
    × (third.image ≡ scaled.image)
    × (third.replicas ≡ scaled.replicas)
update_deployment-Adds_example =
    update_deployment-Adds codec "r3" "acme" "ada" "d1" scale_up db scaled third ada_updates

ada_rolls_back : (rollback codec "r3" "acme" "ada" "d1" none db).0 ≡ ok (reverted, copy)
unfolding rollback may_deploy authorize_org_member load_membership get_org_member select_member
    dec_text ◌>>=◌ attempt authorize any_org_grant new_policy_authorizer default_org set
    Action-discrete in_tenant rollback_found publish_rollback add_release rollback_target
    get_previous_successful select_previous get_deployment select_deployment update_row has_version
    write_deployment get_latest select_latest create_release release_clashes has_id emit
ada_rolls_back = refl

rollback-Adds_example :
    (latest : Release) × (target : Release) × IsTarget "acme" "d1" db none latest target
    × Adds "acme" "d1" copy db (rollback codec "r3" "acme" "ada" "d1" none db).1
    × Copies target copy
    × (reverted.image ≡ target.image)
    × (reverted.replicas ≡ target.replicas)
rollback-Adds_example =
    rollback-Adds codec "r3" "acme" "ada" "d1" none db reverted copy ada_rolls_back

select_previous-IsBest_example :
    IsBest "acme" "d1" 2 db.releases (select_previous "acme" "d1" 2 db.releases)
select_previous-IsBest_example = select_previous-IsBest "acme" "d1" 2 db.releases
