-- ===== src/Deployment/Seeding.antt =====
-- An automatic rollback marks the release that it makes: proofs about Deployment.Progress.
use final_bds.Prelude.{
  Bool, true, false, String, List, [], ◌∷◌, Option, ◌≡◌, ◌⊎◌, refl, ap, sym, ◌∙◌, inl, inr, arith,
}
use mathlib.Core.Path.{subst}
use final_bds.Errors.{Err, Result-cases, Result, ok, err}
use final_bds.Exec.{Exec, ◌>>=◌, continue}
use final_bds.Exec.Steps.{Order, Steps, steps_rules}
use final_bds.Rollout.{Phase, phase_healthy, phase_failed}
use final_bds.Deployment.{Deployment, Release, RolloutStatus, Payload, Db}
use final_bds.Deployment.Store.{
  emit, upsert_rollout, has_version, select_deployment, create_release, update_row,
  get_previous_successful,
}
use final_bds.Deployment.Agent.{Handler, Agent, ProgressRequest, emit_event}
use final_bds.Deployment.Progress.{
  persist_rollout, roll_back_to, trigger_auto_rollback, become_healthy, become_failed,
  apply_transition, progress_after, progress_owned, rollout_get,
}
use final_bds.Deployment.Writes.{emit_event-Steps, roll_back_to-Steps}
use final_bds.Deployment.Markers.{
  marker, MarkersKept, MarkersKept-order, keeping, upsert_rollout-marks,
}

-- The releases and the deployments are as they were.
unfoldable pub Untouched : Db → Db → Type 0
Untouched s t = (t.releases ≡ s.releases) × (t.deployments ≡ s.deployments)

-- The deployment that was read can still be written.
pub select_deployment-has_version :
    (org id : String) (ds : List Deployment) (d : Deployment)
    → select_deployment org id ds ≡ ok d
    → (has_version org d ds ≡ true) × (d.id ≡ id)
unfolding select_deployment has_version
select_deployment-has_version org id [] d h = cc
select_deployment-has_version org id (x ∷ ds) d h =
    ground (arith, select_deployment-has_version org id ds d)

module _ (org dep new_id : String) (d : Deployment) where
  -- No release was made, or it is marked, or the transaction will not be committed.
  abbrev IsAccounted : Db → Db → Type 0
  IsAccounted s t = Untouched s t ⊎ ((t.aborted ≡ true) ⊎ (marker org dep new_id t.rollouts ≡ true))

  unfoldable pub Seeds : Db → Db → Type 0
  unfolding Untouched marker MarkersKept
  Seeds s t = MarkersKept s t × (has_version org d s.deployments ≡ true → IsAccounted s t)

  later-IsAccounted :
      (s t u : Db)
      → MarkersKept t u
      → (has_version org d t.deployments ≡ true → IsAccounted t u)
      → has_version org d s.deployments ≡ true
      → IsAccounted s t
      → IsAccounted s u
  unfolding Untouched MarkersKept
  later-IsAccounted s t u k more v (inl (p, q)) = elim (more (ap (has_version org d) q ∙ v)) [
    | inl (p', q') ↦ inl (p' ∙ p, q' ∙ q)
    | inr r ↦ inr r
  ]
  later-IsAccounted s t u k more v (inr (inl a)) = inr (inl (k.1 a))
  later-IsAccounted s t u k more v (inr (inr m)) = inr (inr (k.0 org dep new_id m))

  pub Seeds-order : Order Seeds
  unfolding Seeds Untouched
  Seeds-order = record {
    same = λ s. (MarkersKept-order.same s, λ v. inl (refl, refl));
    compose = λ s t u (k, p) (k', p').
        (MarkersKept-order.compose s t u k k', λ v. later-IsAccounted s t u k' p' v (p v));
  }

  emit-Seeds :
      (o : String) (actor : Option String) (resource : String) (p : Payload)
      → Steps Seeds (emit o actor resource p)
  unfolding emit Seeds Untouched
  emit-Seeds o actor resource p = record {
    at = λ s. ((keeping.events o actor resource p).at s, λ v. ground arith);
  }

  upsert_rollout-Seeds : (o : String) (x : RolloutStatus) → Steps Seeds (upsert_rollout o x)
  unfolding upsert_rollout Seeds Untouched
  upsert_rollout-Seeds o x = record { at = λ s. ((keeping.rollouts o x).at s, λ v. ground arith) }

module _ {A B : Type 0} (m : Exec Db A) (f : A → Exec Db B) (s : Db) where
  runs_on : (a : A) → (m s).0 ≡ ok a → ((m >>= f) s).1 ≡ (f a (m s).1).1
  unfolding ◌>>=◌
  runs_on a h = ap (λ r. (continue r f (m s).1).1) h

  stops_at : (e : Err) → (m s).0 ≡ err e → ((m >>= f) s).1 ≡ (m s).1
  unfolding ◌>>=◌
  stops_at e h = ap (λ r. (continue r f (m s).1).1) h

  kept_after :
      {R : Db → Db → Type 0} (o : Order R) → ((a : A) → Steps R (f a)) → R (m s).1 ((m >>= f) s).1
  unfolding ◌>>=◌
  kept_after {R = R} o k = go (m s).0 (m s).1
    where
      go : (r : Result A) (t : Db) → R t (continue r f t).1
      go (ok a) t = (k a).at t
      go (err e) t = o.same t

rewritten :
    (org : String) (d e : Deployment) (ds : List Deployment)
    → e.id ≡ d.id
    → e.version ≡ d.version
    → has_version org d ds ≡ true
    → has_version org e ds ≡ true
unfolding has_version
rewritten org d e [] i v h = h
rewritten org d e (x ∷ ds) i v h = ground (arith, rewritten org d e ds i v)

update_row_done :
    (org : String) (e : Deployment) (s : Db)
    → has_version org e s.deployments ≡ true
    → (update_row org e s).0 ≡ ok tt
unfolding update_row
update_row_done org e s h = ground arith

create_release-deployments :
    (org : String) (r : Release) (s : Db) → (create_release org r s).1.deployments ≡ s.deployments
unfolding create_release
create_release-deployments org r s = ground arith

create_release_refused :
    (org : String) (r : Release) (s : Db) (e : Err)
    → (create_release org r s).0 ≡ err e
    → Untouched s (create_release org r s).1
unfolding create_release Untouched
create_release_refused org r s e h = ground arith

-- The four writes of a rollback, for a release, a row that can be written, and a marked snapshot.
rollback_writes :
    (org new_id : String) (d e : Deployment) (r : Release) (x : RolloutStatus)
    (last : Exec Db (Unit {0})) (s : Db)
    → Steps MarkersKept last
    → e.id ≡ d.id
    → e.version ≡ d.version
    → x.is_rollback ≡ true
    → has_version org d s.deployments ≡ true
    → IsAccounted org x.deployment_id x.release_id d s
        ((create_release org r >>= λ _.
            (update_row org e >>= λ _. (upsert_rollout org x >>= λ _. last)))
          s).1
unfolding MarkersKept marker
rollback_writes org new_id d e r x last s kept i v m h =
    elim (Result-cases (create_release org r s).0) [
      | inl (bad, refused) ↦ inl (
          subst (Untouched s) (sym (stops_at _ _ s bad refused))
            (create_release_refused org r s bad refused))
      | inr (u, created) ↦
          let s1 = (create_release org r s).1 in
          let writable : has_version org e s1.deployments ≡ true =
            ap (has_version org e) (create_release-deployments org r s)
            ∙ rewritten org d e s.deployments i v h in
          let s2 = (update_row org e s1).1 in
          let whole =
            runs_on (create_release org r) _ s u created
            ∙ runs_on (update_row org e) _ s1 tt (update_row_done org e s1 writable) in
          let later =
            kept_after (upsert_rollout org x) (λ _. last) s2 MarkersKept-order (λ _. kept) in
          subst (λ t. IsAccounted org x.deployment_id x.release_id d s t) (sym whole)
            (elim (upsert_rollout-marks org x s2 m) [
              | inl a ↦ inr (inl (later.1 a))
              | inr k ↦ inr (inr (later.0 org x.deployment_id x.release_id k))
            ])
    ]

module _ (h : Handler) (a : Agent) (new_id : String) (d : Deployment)
    (stored : h.has_rollouts ≡ true) where
  roll_back_to-Seeds :
      (r : Release) (req : ProgressRequest) (target : Release)
      → Steps (Seeds a.organization_id d.id new_id d) (roll_back_to h a new_id d r req target)
  unfolding roll_back_to Seeds
  roll_back_to-Seeds r req target = record {
    at = λ s. (
      (roll_back_to-Steps MarkersKept-order keeping h a new_id d r req target).at s,
      λ v. rw stored (
          rollback_writes a.organization_id new_id d _ _ _ _ s
            (emit_event-Steps MarkersKept-order keeping h a d.id _) refl refl refl v),
    );
  }

  ruleset seeding = (emit-Seeds, upsert_rollout-Seeds, roll_back_to-Seeds)

  apply_transition-Seeds :
      (r : Release) (req : ProgressRequest) (prev : Option Phase) (was : Bool) (p : Phase)
      → Steps
          (Seeds a.organization_id d.id new_id d)
          (apply_transition h a new_id d r req prev was p)
  unfolding apply_transition become_healthy become_failed emit_event trigger_auto_rollback
      get_previous_successful
  apply_transition-Seeds r req prev was phase_healthy =
      search (steps_rules, Seeds-order, seeding) depth 9
  apply_transition-Seeds r req prev was phase_failed =
      search (steps_rules, Seeds-order, seeding) depth 14
  apply_transition-Seeds r req prev was _ = search (steps_rules, Seeds-order) depth 3

  progress_after-Seeds :
      (dep_id rel_id : String) (req : ProgressRequest) (r : Release) (prev : Option RolloutStatus)
      → Steps
          (Seeds a.organization_id d.id new_id d)
          (progress_after h a new_id dep_id rel_id req d r prev)
  unfolding progress_after persist_rollout emit_event
  progress_after-Seeds dep_id rel_id req r prev =
      search (steps_rules, Seeds-order, seeding, apply_transition-Seeds) depth 9

  pub progress_owned-Seeds :
      (dep_id rel_id : String) (req : ProgressRequest) (r : Release)
      → Steps
          (Seeds a.organization_id d.id new_id d)
          (progress_owned h a new_id dep_id rel_id req d r)
  unfolding progress_owned rollout_get
  progress_owned-Seeds dep_id rel_id req r =
      search (steps_rules, Seeds-order, progress_after-Seeds) depth 6

-- What that says of a transaction that was not aborted.
pub Seeds-sound :
    (org dep new_id id : String) (d : Deployment) (s t : Db)
    → Seeds org dep new_id d s t
    → has_version org d s.deployments ≡ true
    → dep ≡ id
    → t.aborted ≡ false
    → Untouched s t ⊎ (marker org id new_id t.rollouts ≡ true)
unfolding Seeds Untouched
Seeds-sound org dep new_id id d s t k v e sound = elim (k.1 v) [
  | inl untouched ↦ inl untouched
  | inr (inl a) ↦ absurd (cc (a, sound))
  | inr (inr m) ↦ inr (subst (λ z. marker org z new_id t.rollouts ≡ true) e m)
]
