-- ===== src/Deployment/Revisions.antt =====
-- The revisions of a deployment grow: proofs about Deployment.Service.
pub mod Latest
pub mod Previous
use final_bds.Prelude.{
  ℕ, suc, ◌≤◌, ◌<◌, String, List, [], ◌∷◌, Option, none, some, ◌≡◌, refl, sym, ap, ◌∙◌, inl, inr,
  arith,
}
use final_bds.Errors.{Err, Result-cases, ok, err}
use final_bds.Exec.{pure, gets, attempt}
use final_bds.Exec.Success.{bind_ok, attempt_ok, require_ok}
use final_bds.Exec.Steps.{Same}
use final_bds.Authz.{deploy, new_policy_authorizer}
use final_bds.Authz.Membership.Sound.{authorize_org_member-Same}
use final_bds.Deployment.Ownership.{in_tenant_ok}
use final_bds.Deployment.{Deployment, Release, deployment_pending, Payload, Db}
use final_bds.Deployment.Store.{
  get_deployment, update_row, emit, create_release, get_latest, select_latest, get_by_revision,
  select_revision, get_previous_successful, select_previous,
}
use final_bds.Deployment.Service.{
  Codec, UpdateRequest, add_release, publish_update, publish_rollback, update_found,
  update_deployment, rollback_target, rollback_found, rollback, may_deploy,
}
use Latest.{
  AllBelow, AllBelow-mono, latest_none, latest_above, unwrap, update_row-releases, emit-releases,
  create_release-releases, next_revision,
}

-- The table after a new release of the deployment: the releases that there were, and in front of them
-- the new one, of a higher revision than all that the tenant sees of the deployment.
pub record Adds (org dep_id : String) (r : Release) (s t : Db) : Type 0 where
  pub its_org : r.org_id ≡ org
  pub its_deployment : r.deployment_id ≡ dep_id
  pub newest : AllBelow org dep_id r.revision s.releases
  pub releases : t.releases ≡ r ∷ s.releases

module _ (org user dep_id : String) (e : Deployment) (r : Release) (event : Payload) (s : Db) where
  add_release-Adds :
      (d : Deployment) (q : Release)
      → r.org_id ≡ org
      → r.deployment_id ≡ dep_id
      → AllBelow org dep_id r.revision s.releases
      → (add_release org user dep_id e r event s).0 ≡ ok (d, q)
      → (q ≡ r)
        × Adds org dep_id r s (add_release org user dep_id e r event s).1
        × (d.image ≡ e.image)
        × (d.replicas ≡ e.replicas)
  unfolding add_release pure
  add_release-Adds d q o i above h =
      let (u1, created, h1, l1) = bind_ok _ _ s (d, q) h in
      let (u2, emitted, h2, l2) = bind_ok _ _ _ (d, q) h1 in
      let same = unwrap h2 in
      (
        sym (ap (λ p. p.1) same),
        record {
          its_org = o;
          its_deployment = i;
          newest = above;
          releases =
              ap (λ t. t.releases) (l1 ∙ l2)
              ∙ emit-releases org _ _ _ _
              ∙ create_release-releases org s r u1 created;
        },
        sym (ap (λ p. p.0.image) same),
        sym (ap (λ p. p.0.replicas) same),
      )

-- The same release is added to a table with the same releases.
Adds-same :
    (org dep_id : String) (r : Release) (s t u : Db)
    → t.releases ≡ s.releases
    → Adds org dep_id r t u
    → Adds org dep_id r s u
Adds-same org dep_id r s t u e a = record {
  its_org = a.its_org;
  its_deployment = a.its_deployment;
  newest = rw e at a.newest;
  releases = a.releases ∙ ap (λ l. r ∷ l) e;
}

may_deploy-Same : (org user : String) (s : Db) → (may_deploy org user s).1 ≡ s
unfolding may_deploy Same
may_deploy-Same org user s =
    (authorize_org_member-Same {S = Db} (λ t. t.members) new_policy_authorizer org user deploy).at s

-- The release has the content of the target.
pub record Copies (target r : Release) : Type 0 where
  pub image : r.image ≡ target.image
  pub replicas : r.replicas ≡ target.replicas
  pub config_hash : r.config_hash ≡ target.config_hash
  pub config : r.config ≡ target.config

-- The release that a rollback goes back to, of the deployment and seen by the tenant: the one of the
-- revision that is asked for, or else the succeeded one of the highest revision below the latest.
pub record IsTarget (org dep_id : String) (s : Db) (revision : Option ℕ) (latest target : Release)
    : Type 0 where
  pub newest : select_latest org dep_id s.releases ≡ ok latest
  pub asked : (n : ℕ) → revision ≡ some n → select_revision org dep_id n s.releases ≡ ok target
  pub previous : revision ≡ none → select_previous org dep_id latest.revision s.releases ≡ ok target

module _ (c : Codec) (rel_id org user dep_id : String) (s : Db) where
  publish_update-Adds :
      (e d : Deployment) (r : Release)
      → (publish_update c rel_id org user dep_id e s).0 ≡ ok (d, r)
      → Adds org dep_id r s (publish_update c rel_id org user dep_id e s).1
        × (r.image ≡ d.image)
        × (r.replicas ≡ d.replicas)
  unfolding publish_update
  publish_update-Adds e d r h =
      let (u1, written, h1, l1) = bind_ok _ _ s (d, r) h in
      let (n, next, h2, l2) = bind_ok _ _ _ (d, r) h1 in
      let (above, s2) = next_revision org _ dep_id n next in
      let (same, adds, image, replicas) =
        add_release-Adds org user dep_id e _ _ _ d r refl refl (rw s2 above) h2 in
      let kept = ap (λ t. t.releases) s2 ∙ update_row-releases org s e in
      (
        rw (same, l1, l2) (Adds-same org dep_id _ s _ _ kept adds),
        ap (λ q. q.image) same ∙ sym image,
        ap (λ q. q.replicas) same ∙ sym replicas,
      )

  rollback_target-found :
      (revision : Option ℕ) (latest target : Release)
      → select_latest org dep_id s.releases ≡ ok latest
      → (rollback_target org dep_id revision latest s).0 ≡ ok target
      → IsTarget org dep_id s revision latest target
        × ((rollback_target org dep_id revision latest s).1 ≡ s)
  unfolding rollback_target get_by_revision get_previous_successful gets
  rollback_target-found (some n) latest target newest h =
      let (found, same) = attempt_ok _ _ s target h in
      (
        record {
          newest = newest;
          asked = λ k e. let same : n ≡ k = cc e in rw same at found;
          previous = λ e. absurd (cc e);
        },
        same,
      )
  rollback_target-found none latest target newest h =
      let (found, same) = attempt_ok _ _ s target h in
      (record { newest = newest; asked = λ k e. absurd (cc e); previous = λ e. found }, same)

  publish_rollback-Adds :
      (e d : Deployment) (latest target r : Release)
      → select_latest org dep_id s.releases ≡ ok latest
      → (publish_rollback c rel_id org user dep_id e latest target s).0 ≡ ok (d, r)
      → Adds org dep_id r s (publish_rollback c rel_id org user dep_id e latest target s).1
        × Copies target r
        × (d.image ≡ target.image)
        × (d.replicas ≡ target.replicas)
  unfolding publish_rollback gets
  publish_rollback-Adds e d latest target r newest h =
      let (u1, decoded, h1, l1) = bind_ok _ _ s (d, r) h in
      let (u2, written, h2, l2) = bind_ok _ _ _ (d, r) h1 in
      let changed : Deployment = record e {
        image = target.image;
        replicas = target.replicas;
        status = deployment_pending;
      } in
      let kept = update_row-releases org s changed in
      let above = latest_above org dep_id s.releases latest newest in
      let (same, adds, image, replicas) =
        add_release-Adds org user dep_id changed _ _ _ d r refl refl (rw kept above) h2 in
      (
        rw (same, l1, l2) (Adds-same org dep_id _ s _ _ kept adds),
        record {
          image = ap (λ q. q.image) same;
          replicas = ap (λ q. q.replicas) same;
          config_hash = ap (λ q. q.config_hash) same;
          config = ap (λ q. q.config) same;
        },
        image,
        replicas,
      )

  update_found-Adds :
      (req : UpdateRequest) (d : Deployment) (r : Release)
      → (update_found c rel_id org user dep_id req s).0 ≡ ok (d, r)
      → Adds org dep_id r s (update_found c rel_id org user dep_id req s).1
        × (r.image ≡ d.image)
        × (r.replicas ≡ d.replicas)
  unfolding update_found get_deployment gets
  update_found-Adds req d r h =
      let (e, got, h1, l1) = bind_ok _ _ s (d, r) h in
      let (u2, valid, h2, l2) = bind_ok _ _ s (d, r) h1 in
      let (is_valid, s2) = require_ok _ _ s u2 valid in
      let (adds, image, replicas) = publish_update-Adds _ d r (rw s2 at h2) in
      (rw (l1, l2, s2) adds, image, replicas)

  rollback_found-Adds :
      (revision : Option ℕ) (d : Deployment) (r : Release)
      → (rollback_found c rel_id org user dep_id revision s).0 ≡ ok (d, r)
      → (latest : Release) × (target : Release) × IsTarget org dep_id s revision latest target
        × Adds org dep_id r s (rollback_found c rel_id org user dep_id revision s).1
        × Copies target r
        × (d.image ≡ target.image)
        × (d.replicas ≡ target.replicas)
  unfolding rollback_found get_deployment get_latest gets
  rollback_found-Adds revision d r h =
      let (e, got, h1, l1) = bind_ok _ _ s (d, r) h in
      let (latest, newest, h2, l2) = bind_ok _ _ s (d, r) h1 in
      let (target, found, h3, l3) = bind_ok _ _ s (d, r) h2 in
      let (is_target, s3) = rollback_target-found revision latest target newest found in
      let (adds, copies, image, replicas) =
        publish_rollback-Adds e d latest target r newest (rw s3 at h3) in
      (latest, target, is_target, rw (l1, l2, l3, s3) adds, copies, image, replicas)

-- If `UpdateDeployment` succeeds, the table has one release more, in front of those that there were:
-- one of the deployment with the image and the number of replicas that the method returns, whose revision
-- is higher than that of every release of the deployment that the tenant sees.
pub update_deployment-Adds :
    (c : Codec) (rel_id org user dep_id : String) (req : UpdateRequest) (s : Db) (d : Deployment)
    (r : Release)
    → (update_deployment c rel_id org user dep_id req s).0 ≡ ok (d, r)
    → Adds org dep_id r s (update_deployment c rel_id org user dep_id req s).1
      × (r.image ≡ d.image)
      × (r.replicas ≡ d.replicas)
unfolding update_deployment
update_deployment-Adds c rel_id org user dep_id req s d r h =
    let (role, allowed, h1, l1) = bind_ok _ _ s (d, r) h in
    let same = may_deploy-Same org user s in
    let (body, left, sound) = in_tenant_ok org _ s (d, r) (rw same at h1) in
    let (adds, image, replicas) = update_found-Adds c rel_id org user dep_id s req d r body in
    (rw (l1, same, left) adds, image, replicas)

-- If `Rollback` succeeds, the table has one release more, in front of those that there were: one of the
-- deployment with the image, the number of replicas and the configuration of the target, whose
-- revision is higher than that of every release of the deployment that the tenant sees. The target is
-- the release of the revision that is asked for, or else the succeeded one of the highest revision
-- below the latest.
pub rollback-Adds :
    (c : Codec) (rel_id org user dep_id : String) (revision : Option ℕ) (s : Db) (d : Deployment)
    (r : Release)
    → (rollback c rel_id org user dep_id revision s).0 ≡ ok (d, r)
    → (latest : Release) × (target : Release) × IsTarget org dep_id s revision latest target
      × Adds org dep_id r s (rollback c rel_id org user dep_id revision s).1
      × Copies target r
      × (d.image ≡ target.image)
      × (d.replicas ≡ target.replicas)
unfolding rollback
rollback-Adds c rel_id org user dep_id revision s d r h =
    let (role, allowed, h1, l1) = bind_ok _ _ s (d, r) h in
    let same = may_deploy-Same org user s in
    let (body, left, sound) = in_tenant_ok org _ s (d, r) (rw same at h1) in
    let (latest, target, is_target, adds, copies, image, replicas) =
      rollback_found-Adds c rel_id org user dep_id s revision d r body in
    (latest, target, is_target, rw (l1, same, left) adds, copies, image, replicas)
