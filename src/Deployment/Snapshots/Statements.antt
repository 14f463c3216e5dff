-- ===== src/Deployment/Snapshots/Statements.antt =====
-- What each statement does to the snapshots of the releases: proofs about Deployment.Store.
use final_bds.Prelude.{
  ℕ, ℤ, String, List, [], ◌∷◌, ◌++◌, Option, ◌≡◌, refl, ap, ◌∙◌, inl, inr, arith,
}
use final_bds.Errors.{Result-cases}
use final_bds.Text.{Text}
use final_bds.Exec.Steps.{Order, Steps}
use final_bds.Deployment.{
  ReleaseStatus, DeploymentStatus, Deployment, Release, RolloutStatus, Payload, Db,
}
use final_bds.Deployment.Store.{
  create_row, update_row, update_status, emit, create_release, mark_started, start_release,
  mark_finished, finish_release, upsert_rollout,
}
use final_bds.Deployment.Writes.{Writes}

-- What a release says of the revision, without its status, its times and its error.
pub record Snapshot : Type 0 where
  pub release_id : String
  pub org_id : String
  pub deployment_id : String
  pub revision : ℕ
  pub image : Text
  pub replicas : ℤ
  pub config_hash : String
  pub config : String
  pub created_by : Option String

abbrev pub snapshot : Release → Snapshot
snapshot r = record {
  release_id = r.release_id;
  org_id = r.org_id;
  deployment_id = r.deployment_id;
  revision = r.revision;
  image = r.image;
  replicas = r.replicas;
  config_hash = r.config_hash;
  config = r.config;
  created_by = r.created_by;
}

abbrev pub snapshots : List Release → List Snapshot
snapshots [] = []
snapshots (r ∷ rs) = snapshot r ∷ snapshots rs

-- The snapshots of the first database are those of the second behind the new ones, in their order.
unfoldable pub Extends : Db → Db → Type 0
Extends s t = (new : List Snapshot) × (snapshots t.releases ≡ new ++ snapshots s.releases)

pub append_assoc : (xs ys zs : List Snapshot) → xs ++ (ys ++ zs) ≡ (xs ++ ys) ++ zs
append_assoc [] ys zs = refl
append_assoc (x ∷ xs) ys zs = ap (λ l. x ∷ l) (append_assoc xs ys zs)

pub Extends-order : Order Extends
unfolding Extends
Extends-order = record {
  same = λ s. ([], refl);
  compose = λ s t u (new, p) (newer, q).
      (newer ++ new, q ∙ ap (λ l. newer ++ l) p ∙ append_assoc newer new (snapshots s.releases));
}

pub start_release-snapshots :
    (org id : String) (now : ℕ) (rs : List Release)
    → snapshots (start_release org id now rs) ≡ snapshots rs
unfolding start_release
start_release-snapshots org id now [] = refl
start_release-snapshots org id now (r ∷ rs) = ground (arith, start_release-snapshots org id now rs)

pub finish_release-snapshots :
    (org id : String) (st : ReleaseStatus) (msg : Option Text) (now : ℕ) (rs : List Release)
    → snapshots (finish_release org id st msg now rs) ≡ snapshots rs
unfolding finish_release
finish_release-snapshots org id st msg now [] = refl
finish_release-snapshots org id st msg now (r ∷ rs) =
    ground (arith, finish_release-snapshots org id st msg now rs)

-- A statement that leaves the releases alone extends them by nothing.
pub kept : (s t : Db) → snapshots t.releases ≡ snapshots s.releases → Extends s t
unfolding Extends
kept s t e = ([], e)

module _ (org : String) where
  pub create_row-Extends : (d : Deployment) → Steps Extends (create_row org d)
  unfolding create_row
  create_row-Extends d = record { at = λ s. kept s _ (ground arith) }

  pub update_row-Extends : (d : Deployment) → Steps Extends (update_row org d)
  unfolding update_row
  update_row-Extends d = record { at = λ s. kept s _ (ground arith) }

  pub update_status-Extends :
      (id : String) (st : DeploymentStatus) (ready : Option ℤ)
      → Steps Extends (update_status org id st ready)
  unfolding update_status
  update_status-Extends id st ready = record { at = λ s. kept s _ (ground arith) }

  pub emit-Extends :
      (actor : Option String) (resource : String) (p : Payload)
      → Steps Extends (emit org actor resource p)
  unfolding emit
  emit-Extends actor resource p = record { at = λ s. kept s _ (ground arith) }

  pub mark_started-Extends : (id : String) → Steps Extends (mark_started org id)
  unfolding mark_started
  mark_started-Extends id = record {
    at = λ s. kept s _ (ground (arith, start_release-snapshots org id s.now s.releases));
  }

  pub mark_finished-Extends :
      (id : String) (st : ReleaseStatus) (msg : Option Text)
      → Steps Extends (mark_finished org id st msg)
  unfolding mark_finished
  mark_finished-Extends id st msg = record {
    at = λ s. kept s _ (ground (arith, finish_release-snapshots org id st msg s.now s.releases));
  }

  pub upsert_rollout-Extends : (x : RolloutStatus) → Steps Extends (upsert_rollout org x)
  unfolding upsert_rollout
  upsert_rollout-Extends x = record { at = λ s. kept s _ (ground arith) }

  pub create_release-Extends : (r : Release) → Steps Extends (create_release org r)
  unfolding create_release Extends
  create_release-Extends r = record {
    at = λ s. elim (Result-cases (create_release org r s).0) [
      | inl (e, refused) ↦ ([], ground arith)
      | inr (a, done) ↦ (snapshot r ∷ [], ground arith)
    ];
  }

-- All of them.
pub extending : Writes Extends
extending = record {
  rows = create_row-Extends;
  row_updates = update_row-Extends;
  statuses = update_status-Extends;
  events = emit-Extends;
  starting = mark_started-Extends;
  finishing = mark_finished-Extends;
  rollouts = upsert_rollout-Extends;
  new_releases = create_release-Extends;
}
