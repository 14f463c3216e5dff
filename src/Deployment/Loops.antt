-- ===== src/Deployment/Loops.antt =====
-- No automatic rollback follows a rollback: proofs about Deployment.Agent.
use final_bds.Prelude.{
  List, ◌⊎◌, ◌≢◌, Option-cases, sym, Bool, true, false, not, ◌&&◌, String, Option, some, ◌≡◌, refl,
  ap, ◌∙◌, inl, inr, arith,
}
use final_bds.Errors.{Err, Result-cases, ok, err}
use final_bds.Exec.{Exec, gets, ◌>>=◌, continue}
use final_bds.Exec.Steps.{Order, Steps, steps_rules, Same, Same-order}
use final_bds.Exec.Atomic.{Atomic-with_tenant}
use final_bds.Rollout.{Phase, phase_healthy, phase_failed}
use final_bds.Deployment.{Deployment, Release, RolloutStatus, Payload, Db}
use final_bds.Deployment.Store.{in_tenant, emit, upsert_rollout, select_rollout}
use final_bds.Deployment.Agent.{Handler, Agent, ProgressRequest, validate_ownership, emit_event}
use final_bds.Deployment.Progress.{
  persist_rollout, become_healthy, become_failed, apply_transition, rollout_get, progress_after,
  progress_owned, update_deployment_progress,
}
use final_bds.Deployment.Store.{select_deployment, has_version}
use final_bds.Deployment.Service.{Codec}
use final_bds.Deployment.Calls.{Call, run}
use final_bds.Exec.Success.{bind_ok}
use mathlib.Core.Path.{subst}
use final_bds.Deployment.Markers.{has_marker, marker, MarkersKept, MarkersKept-order, keeping}
use final_bds.Deployment.Seeding.{
  Untouched, select_deployment-has_version, progress_owned-Seeds, Seeds-sound,
}
use final_bds.Deployment.Ownership.{in_tenant_ok, validate_ownership-IsOwned}
use final_bds.Deployment.Writes.{validate_ownership-Steps, run-Steps}

pub Untouched-order : Order Untouched
unfolding Untouched
Untouched-order = record {
  same = λ s. (refl, refl);
  compose = λ s t u (p, q) (p', q'). (p' ∙ p, q' ∙ q);
}

module _ (h : Handler) (a : Agent) where
  pub upsert_rollout-Untouched :
      (x : RolloutStatus) → Steps Untouched (upsert_rollout a.organization_id x)
  unfolding upsert_rollout Untouched
  upsert_rollout-Untouched x = record { at = λ s. ground arith }

  pub emit-Untouched :
      (actor : Option String) (resource : String) (p : Payload)
      → Steps Untouched (emit a.organization_id actor resource p)
  unfolding emit Untouched
  emit-Untouched actor resource p = record { at = λ s. ground arith }

  ruleset writing = (upsert_rollout-Untouched, emit-Untouched)

  never : (b : Bool) → (b && not true) ≡ false
  never true = refl
  never false = refl

  become_failed-Untouched :
      (new_id : String) (d : Deployment) (r : Release) (req : ProgressRequest) (prev : Option Phase)
      → Steps Untouched (become_failed h a new_id d r req prev true)
  unfolding become_failed emit_event
  become_failed-Untouched new_id d r req prev =
      rw (never h.auto_rollback) (search (steps_rules, Untouched-order, writing) depth 9)

  apply_transition-Untouched :
      (new_id : String) (d : Deployment) (r : Release) (req : ProgressRequest) (prev : Option Phase)
      (p : Phase)
      → Steps Untouched (apply_transition h a new_id d r req prev true p)
  unfolding apply_transition become_healthy emit_event
  apply_transition-Untouched new_id d r req prev phase_healthy =
      search (steps_rules, Untouched-order, writing) depth 9
  apply_transition-Untouched new_id d r req prev phase_failed =
      become_failed-Untouched new_id d r req prev
  apply_transition-Untouched new_id d r req prev _ = search (steps_rules, Untouched-order) depth 3

  progress_after-Untouched :
      (new_id dep_id rel_id : String) (req : ProgressRequest) (d : Deployment) (r : Release)
      (x : RolloutStatus)
      → x.is_rollback ≡ true
      → Steps Untouched (progress_after h a new_id dep_id rel_id req d r (some x))
  unfolding progress_after persist_rollout emit_event
  progress_after-Untouched new_id dep_id rel_id req d r x mark =
      rw mark (search (steps_rules, Untouched-order, writing, apply_transition-Untouched) depth 9)

pub in_tenant-undone :
    {A : Type 0} (org : String) (m : Exec Db A) (s : Db) (e : Err)
    → (in_tenant org m s).0 ≡ err e
    → (in_tenant org m s).1 ≡ s
unfolding in_tenant
in_tenant-undone org m s e h = (Atomic-with_tenant org _).undone s e h

module _ {A B : Type 0} {R : Db → Db → Type 0} (o : Order R) where
  -- A method that reads, and then one that is fine in the state that was read.
  read_first :
      (m : Exec Db A) (f : A → Exec Db B) (s : Db)
      → Steps Same m
      → ((x : A) → R s (f x s).1)
      → R s ((m >>= f) s).1
  unfolding ◌>>=◌ Same
  read_first m f s reads fine = elim (Result-cases (m s).0) [
    | inl (e, failed) ↦ rw (failed, reads.at s) (o.same s)
    | inr (x, done) ↦ rw (done, reads.at s) (fine x)
  ]

module _ {B : Type 0} {R : Db → Db → Type 0} (o : Order R) where
  -- A transaction is fine where its body is.
  in_transaction : (org : String) (m : Exec Db B) (s : Db) → R s (m s).1 → R s (in_tenant org m s).1
  in_transaction org m s fine = elim (Result-cases (in_tenant org m s).0) [
    | inl (e, failed) ↦ rw (in_tenant-undone org m s e failed) (o.same s)
    | inr (b, done) ↦ rw ((in_tenant_ok org m s b done).1) fine
  ]

pub rollout_get_found :
    (h : Handler) (a : Agent) (dep_id rel_id : String) (s : Db) (x : RolloutStatus)
    → h.has_rollouts ≡ true
    → select_rollout a.organization_id dep_id rel_id s.rollouts ≡ some x
    → rollout_get h a dep_id rel_id s ≡ (ok (some x), s)
unfolding rollout_get gets
rollout_get_found h a dep_id rel_id s x stored found = ground arith

owned_stays :
    (h : Handler) (a : Agent) (new_id dep_id rel_id : String) (req : ProgressRequest) (s : Db)
    (d : Deployment) (r : Release) (x : RolloutStatus)
    → h.has_rollouts ≡ true
    → select_rollout a.organization_id dep_id rel_id s.rollouts ≡ some x
    → x.is_rollback ≡ true
    → Untouched s (progress_owned h a new_id dep_id rel_id req d r s).1
unfolding progress_owned ◌>>=◌
owned_stays h a new_id dep_id rel_id req s d r x stored found mark =
    let get = rollout_get_found h a dep_id rel_id s x stored found in
    let runs =
      ap (λ p. (continue p.0 (progress_after h a new_id dep_id rel_id req d r) p.1).1) get in
    rw runs ((progress_after-Untouched h a new_id dep_id rel_id req d r x mark).at s)

-- Where snapshots are stored and the stored one has the marker, a report changes no release and no
-- deployment.
marked_rollout_stays :
    (h : Handler) (a : Agent) (new_id dep_id rel_id : String) (req : ProgressRequest) (s : Db)
    (x : RolloutStatus)
    → h.has_rollouts ≡ true
    → select_rollout a.organization_id dep_id rel_id s.rollouts ≡ some x
    → x.is_rollback ≡ true
    → Untouched s (update_deployment_progress h (some a) new_id dep_id rel_id req s).1
unfolding update_deployment_progress
marked_rollout_stays h a new_id dep_id rel_id req s x stored found mark =
    in_transaction Untouched-order a.organization_id _ s (
      read_first Untouched-order (validate_ownership a dep_id rel_id) _ s
        (validate_ownership-Steps Same-order a dep_id rel_id)
        (λ owned. owned_stays h a new_id dep_id rel_id req s owned.0 owned.1 x stored found mark))

marker_stays :
    (h : Handler) (a : Agent) (new_id dep_id rel_id : String) (req : ProgressRequest) (s : Db)
    → h.has_rollouts ≡ true
    → marker a.organization_id dep_id rel_id s.rollouts ≡ true
    → Untouched s (update_deployment_progress h (some a) new_id dep_id rel_id req s).1
unfolding marker
marker_stays h a new_id dep_id rel_id req s stored mark =
    elim (Option-cases (select_rollout a.organization_id dep_id rel_id s.rollouts)) [
      | inl e ↦ absurd (cc (mark, ap has_marker e))
      | inr (x, e) ↦
          marked_rollout_stays h a new_id dep_id rel_id req s x stored e
            (sym (ap has_marker e) ∙ mark)
    ]

-- The rest of a transaction that was committed, in the state that the checks met.
owned_seeds :
    (h : Handler) (a : Agent) (new_id dep_id rel_id : String) (req : ProgressRequest) (s t : Db)
    (d : Deployment) (r : Release)
    → h.has_rollouts ≡ true
    → s ≡ t
    → select_deployment a.organization_id dep_id s.deployments ≡ ok d
    → (progress_owned h a new_id dep_id rel_id req d r t).1.aborted ≡ false
    → Untouched s (progress_owned h a new_id dep_id rel_id req d r t).1
      ⊎ (marker a.organization_id dep_id new_id
            (progress_owned h a new_id dep_id rel_id req d r t).1.rollouts
          ≡ true)
owned_seeds h a new_id dep_id rel_id req s t d r stored same found sound =
    let (v, i) = select_deployment-has_version a.organization_id dep_id s.deployments d found in
    let left = (progress_owned h a new_id dep_id rel_id req d r t).1 in
    subst (λ z. Untouched z left ⊎ (marker a.organization_id dep_id new_id left.rollouts ≡ true))
      (sym same)
      (Seeds-sound a.organization_id d.id new_id dep_id d t left
        ((progress_owned-Seeds h a new_id d stored dep_id rel_id req r).at t)
        (subst (λ (z : Db). has_version a.organization_id d z.deployments ≡ true) same v) i sound)

-- What a report leaves: the releases and deployments that there were, or a marked new release.
report_seeds :
    (h : Handler) (a : Agent) (new_id dep_id rel_id : String) (req : ProgressRequest) (s : Db)
    → h.has_rollouts ≡ true
    → Untouched s (update_deployment_progress h (some a) new_id dep_id rel_id req s).1
      ⊎ (marker a.organization_id dep_id new_id
            (update_deployment_progress h (some a) new_id dep_id rel_id req s).1.rollouts
          ≡ true)
unfolding update_deployment_progress Same
report_seeds h a new_id dep_id rel_id req s stored =
    elim (Result-cases (update_deployment_progress h (some a) new_id dep_id rel_id req s).0) [
      | inl (e, failed) ↦ inl (
          subst (Untouched s) (sym (in_tenant-undone a.organization_id _ s e failed))
            (Untouched-order.same s))
      | inr (u, done) ↦
          let (body, left, sound) = in_tenant_ok a.organization_id _ s u done in
          let (owned, validated, more, reached) =
            bind_ok (validate_ownership a dep_id rel_id) _ s u body in
          let is_owned = validate_ownership-IsOwned a dep_id rel_id s owned.0 owned.1 validated in
          subst (λ t. Untouched s t ⊎ (marker a.organization_id dep_id new_id t.rollouts ≡ true))
            (sym (left ∙ reached))
            (owned_seeds h a new_id dep_id rel_id req s (validate_ownership a dep_id rel_id s).1
              owned.0 owned.1 stored
              (sym ((validate_ownership-Steps Same-order a dep_id rel_id).at s)) is_owned.deployment
              (ap (λ (z : Db). z.aborted) (sym reached) ∙ sound))
    ]

-- The release of an automatic rollback is not rolled back automatically. Where snapshots are stored: if
-- a report of an agent, which carries the fresh id of the release that it may make, changed the releases,
-- then after any further calls of users and agents a report on the release of that id, by any agent of
-- the organisation and of any phase, leaves all releases and deployments as they were, whether it
-- succeeds or not.
pub automatic_rollback_ends :
    (c : Codec) (h : Handler) (a b : Agent) (new_id dep_id rel_id : String) (req : ProgressRequest)
    (s : Db) (calls : List Call) (newer_id : String) (again : ProgressRequest)
    → h.has_rollouts ≡ true
    → b.organization_id ≡ a.organization_id
    → (update_deployment_progress h (some a) new_id dep_id rel_id req s).1.releases ≢ s.releases
    → let t = run c h calls (update_deployment_progress h (some a) new_id dep_id rel_id req s).1 in
      ((update_deployment_progress h (some b) newer_id dep_id new_id again t).1.releases
        ≡ t.releases)
      × ((update_deployment_progress h (some b) newer_id dep_id new_id again t).1.deployments
          ≡ t.deployments)
unfolding Untouched MarkersKept
automatic_rollback_ends c h a b new_id dep_id rel_id req s calls newer_id again stored same
      changed =
    let t = (update_deployment_progress h (some a) new_id dep_id rel_id req s).1 in
    elim (report_seeds h a new_id dep_id rel_id req s stored) [
      | inl untouched ↦ absurd (changed untouched.0)
      | inr mark ↦ marker_stays h b newer_id dep_id new_id again (run c h calls t) stored (
          subst (λ o. marker o dep_id new_id (run c h calls t).rollouts ≡ true) (sym same)
            ((run-Steps MarkersKept-order keeping c h calls t).0 a.organization_id dep_id new_id
              mark))
    ]
