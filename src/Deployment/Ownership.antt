-- ===== src/Deployment/Ownership.antt =====
-- What an agent may report on: proofs about Deployment.Agent.
use final_bds.Prelude.{
  true, false, String, List, [], ◌∷◌, some, ◌≡◌, refl, arith, text_is, dec_text, inl, inr, ◌∙◌,
  Bool-cases, sym, ap,
}
use final_bds.Errors.{ok}
use final_bds.Exec.{Exec, pure, gets}
use final_bds.Exec.Success.{bind_ok, attempt_ok, require_ok, with_tenant_ok}
use final_bds.Deployment.{valid_agent_release_status, Deployment, Release, Db}
use final_bds.Deployment.Store.{
  in_tenant, commit, get_deployment, get_release, select_deployment, select_release, is_deleted,
}
use final_bds.Deployment.Agent.{
  Handler, Agent, StatusRequest, ProgressRequest, validate_ownership, update_deployment_status,
}
use final_bds.Deployment.Progress.{update_deployment_progress}

-- The deployment is one of the agent's organisation that is assigned to the agent's cluster and not
-- deleted, and the release is one of that deployment in that organisation.
pub record IsOwned (a : Agent) (dep_id rel_id : String) (s : Db) (d : Deployment) (r : Release)
    : Type 0 where
  pub deployment : select_deployment a.organization_id dep_id s.deployments ≡ ok d
  pub its_org : d.org_id ≡ a.organization_id
  pub its_cluster : d.cluster_id ≡ a.cluster_id
  pub alive : is_deleted d.status ≡ false
  pub release : select_release a.organization_id rel_id s.releases ≡ ok r
  pub release_org : r.org_id ≡ a.organization_id
  pub release_of : r.deployment_id ≡ dep_id

selected_alive :
    (org id : String) (ds : List Deployment) (d : Deployment)
    → select_deployment org id ds ≡ ok d
    → is_deleted d.status ≡ false
unfolding select_deployment
selected_alive org id [] d h = cc
selected_alive org id (x ∷ ds) d h = elim (Bool-cases (is_deleted x.status)) [
  | inl e ↦ ground (arith, selected_alive org id ds d)
  | inr e ↦ elim (dec_text x.org_id org) [
    | no n ↦ selected_alive org id ds d (ground arith)
    | yes p ↦ elim (dec_text x.id id) [
      | no n ↦ selected_alive org id ds d (ground arith)
      | yes q ↦ let same : x ≡ d = ground arith in rw (← same) e
    ]
  ]
]

text_is-≡ : (s t : String) → text_is s t ≡ true → s ≡ t
text_is-≡ s t h = ground arith

unwrap : {A : Type 0} {x y : A} → ok x ≡ ok y → x ≡ y
unwrap h = cc h

module _ (a : Agent) (dep_id rel_id : String) (s : Db) where
  pub validate_ownership-IsOwned :
      (d : Deployment) (r : Release)
      → (validate_ownership a dep_id rel_id s).0 ≡ ok (d, r)
      → IsOwned a dep_id rel_id s d r
  unfolding validate_ownership get_deployment get_release pure gets
  validate_ownership-IsOwned d r h =
      let (d', got, h1, l1) = bind_ok _ _ s (d, r) h in
      let (found, s1) = attempt_ok _ _ s d' got in
      let (u2, org_ok, h2, l2) = bind_ok _ _ _ (d, r) h1 in
      let (u3, cluster_ok, h3, l3) = bind_ok _ _ _ (d, r) h2 in
      let (r', got_r, h4, l4) = bind_ok _ _ _ (d, r) h3 in
      let (there, s4) = attempt_ok _ _ _ r' got_r in
      let (u5, of_ok, h5, l5) = bind_ok _ _ _ (d, r) h4 in
      let (u6, org_ok', h6, l6) = bind_ok _ _ _ (d, r) h5 in
      let (is_org, s2) = require_ok _ _ _ u2 org_ok in
      let (is_cluster, s3) = require_ok _ _ _ u3 cluster_ok in
      let (is_of, s5) = require_ok _ _ _ u5 of_ok in
      let (is_org', s6) = require_ok _ _ _ u6 org_ok' in
      let same : (d', r') ≡ (d, r) = unwrap h6 in
      let same_d : d' ≡ d = ap (λ p. p.0) same in
      let same_r : r' ≡ r = ap (λ p. p.1) same in
      let reached = s3 ∙ s2 ∙ s1 in
      record {
        deployment = found ∙ ap ok same_d;
        its_org = rw same_d at (text_is-≡ _ _ is_org);
        its_cluster = rw same_d at (text_is-≡ _ _ is_cluster);
        alive = rw same_d at (selected_alive _ _ _ d' found);
        release =
            ap (λ t. (get_release a.organization_id rel_id t).0) (sym reached)
            ∙ there
            ∙ ap ok same_r;
        release_org = rw same_r at (text_is-≡ _ _ is_org');
        release_of = rw same_r at (text_is-≡ _ _ is_of);
      }

module _ {A : Type 0} where
  committed :
      (a b : A) (s : Db)
      → (commit a s).0 ≡ ok b
      → (a ≡ b) × ((commit a s).1 ≡ s) × (s.aborted ≡ false)
  unfolding commit gets
  committed a b s h = elim (Bool-cases s.aborted) [
    | inl e ↦ absurd (ground arith)
    | inr e ↦ (ground arith, refl, e)
  ]

  -- A transaction that is committed is its body, which no refused statement has aborted.
  pub in_tenant_ok :
      (org : String) (m : Exec Db A) (s : Db) (b : A)
      → (in_tenant org m s).0 ≡ ok b
      → ((m s).0 ≡ ok b) × ((in_tenant org m s).1 ≡ (m s).1) × ((m s).1.aborted ≡ false)
  unfolding in_tenant
  in_tenant_ok org m s b h =
      let (body, left) = with_tenant_ok _ _ s b h in
      let (a, done, commits, left') = bind_ok _ _ s b body in
      let (same, after, sound) = committed a b (m s).1 commits in
      (done ∙ ap ok same, left ∙ left' ∙ after, sound)

-- An agent reports a status of its own only: if `UpdateDeploymentStatus` succeeds, the status is one
-- that agents may report, the deployment is not deleted, belongs to the agent's organisation and is
-- assigned to the agent's cluster, and the release is one of that deployment in that organisation.
pub status_report-IsOwned :
    (h : Handler) (a : Agent) (dep_id rel_id : String) (req : StatusRequest) (s : Db) (u : Unit {0})
    → (update_deployment_status h (some a) dep_id rel_id req s).0 ≡ ok u
    → (valid_agent_release_status req.status ≡ true)
      × (d : Deployment) × (r : Release) × IsOwned a dep_id rel_id s d r
unfolding update_deployment_status
status_report-IsOwned h a dep_id rel_id req s u done =
    let (u1, valid, h1, l1) = bind_ok _ _ s u done in
    let (is_valid, s1) = require_ok _ _ s u1 valid in
    let (body, left, sound) = in_tenant_ok _ _ _ u h1 in
    let (owned, validated, h2, l2) = bind_ok _ _ _ u body in
    (
      is_valid,
      owned.0,
      owned.1,
      validate_ownership-IsOwned a dep_id rel_id s owned.0 owned.1
          (ap (λ t. (validate_ownership a dep_id rel_id t).0) (sym s1) ∙ validated),
    )

-- An agent reports the progress of its own only: if `UpdateDeploymentProgress` succeeds, the
-- deployment is not deleted, belongs to the agent's organisation and is assigned to the agent's
-- cluster, and the release is one of that deployment in that organisation.
pub progress_report-IsOwned :
    (h : Handler) (a : Agent) (new_id dep_id rel_id : String) (req : ProgressRequest) (s : Db)
    (u : Unit {0})
    → (update_deployment_progress h (some a) new_id dep_id rel_id req s).0 ≡ ok u
    → (d : Deployment) × (r : Release) × IsOwned a dep_id rel_id s d r
unfolding update_deployment_progress
progress_report-IsOwned h a new_id dep_id rel_id req s u done =
    let (body, left, sound) = in_tenant_ok _ _ s u done in
    let (owned, validated, h2, l2) = bind_ok _ _ s u body in
    (owned.0, owned.1, validate_ownership-IsOwned a dep_id rel_id s owned.0 owned.1 validated)
