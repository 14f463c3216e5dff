-- ===== src/Deployment/Conflict.antt =====
-- An automatic rollback whose revision is taken: proofs about Deployment.Agent.
use final_bds.Prelude.{
  if◌then◌else◌, ◌∙◌, sym, ℕ, suc, true, false, String, List, [], ◌∷◌, none, some, ◌≡◌, refl, ap,
  arith, inl, inr,
}
use final_bds.Errors.{conflict_error, Err, Result, Result-cases, ok, err}
use final_bds.Exec.{Exec, pure, gets, ◌>>=◌, attempt, continue}
use final_bds.Deployment.{deployment_timeout, Deployment, Release, Payload, Db}
use final_bds.Deployment.Store.{
  create_release, release_clashes, select_revision, select_previous, get_previous_successful,
  select_rollout,
}
use final_bds.Deployment.Agent.{Handler, Agent, ProgressRequest, emit_event, validate_ownership}
use final_bds.Rollout.{Phase, phase_failed}
use mathlib.Core.Path.{subst}
use final_bds.Deployment.Writes.{validate_ownership-Steps}
use final_bds.Deployment.Progress.{
  persist_rollout, apply_transition, progress_after, progress_owned, rollout_get,
  update_deployment_progress, roll_back_to, trigger_auto_rollback, become_failed,
}
use final_bds.Deployment.Ownership.{in_tenant_ok, validate_ownership-IsOwned}
use final_bds.Deployment.Seeding.{Untouched, select_deployment-has_version}
use final_bds.Exec.Success.{bind_ok}
use final_bds.Exec.Steps.{Steps, steps_rules, Same, Same-order}
use final_bds.Deployment.Loops.{
  in_tenant-undone, Untouched-order, upsert_rollout-Untouched, emit-Untouched,
}

taken :
    (org dep : String) (n : ℕ) (r q : Release) (rs : List Release)
    → r.deployment_id ≡ dep
    → r.revision ≡ n
    → select_revision org dep n rs ≡ ok q
    → release_clashes r rs ≡ true
unfolding select_revision release_clashes
taken org dep n r q [] i e h = cc
taken org dep n r q (x ∷ rs) i e h = ground (arith, taken org dep n r q rs i e)

refused :
    (org : String) (r : Release) (s : Db)
    → r.org_id ≡ org
    → release_clashes r s.releases ≡ true
    → create_release org r s
      ≡ (err (conflict_error "resource already exists"), record s { aborted = true })
unfolding create_release
refused org r s o c = ground arith

stops :
    {A B : Type 0} (m : Exec Db A) (f : A → Exec Db B) (s t : Db) (e : Err)
    → m s ≡ (err e, t)
    → (m >>= f) s ≡ (err e, t)
unfolding ◌>>=◌
stops m f s t e h = ap (λ p. continue p.0 f p.1) h

module _ (h : Handler) (a : Agent) (new_id : String) (d : Deployment) (r target q : Release)
    (req : ProgressRequest) (s : Db) where
  roll_back_aborts :
      select_revision a.organization_id d.id (suc r.revision) s.releases ≡ ok q
      → roll_back_to h a new_id d r req target s
        ≡ (err (conflict_error "resource already exists"), record s { aborted = true })
  unfolding roll_back_to
  roll_back_aborts found =
      stops _ _ s _ _
        (refused _ _ s refl (taken _ d.id (suc r.revision) _ q s.releases refl refl found))

  trigger_aborts :
      select_previous a.organization_id d.id r.revision s.releases ≡ ok target
      → select_revision a.organization_id d.id (suc r.revision) s.releases ≡ ok q
      → trigger_auto_rollback h a new_id d r req s
        ≡ (err (conflict_error "resource already exists"), record s { aborted = true })
  unfolding trigger_auto_rollback attempt get_previous_successful gets
  trigger_aborts previous found = rw previous (roll_back_aborts found)

  -- The switch goes on without an error, in a transaction that the server has aborted.
  attempt_aborts :
      select_previous a.organization_id d.id r.revision s.releases ≡ ok target
      → select_revision a.organization_id d.id (suc r.revision) s.releases ≡ ok q
      → (attempt
          (trigger_auto_rollback h a new_id d r req)
          (λ e. pure tt)
          (λ u. pure tt)
          s).1.aborted
        ≡ true
  unfolding attempt pure
  attempt_aborts previous found = rw (trigger_aborts previous found) refl

-- A result that is only reached in an aborted transaction.
abbrev AbortsWhenDone : {A : Type 0} → Result A × Db → Type 0
AbortsWhenDone {A = A} p = (x : A) → p.0 ≡ ok x → p.1.aborted ≡ true

then_aborts :
    {A B : Type 0} (m : Exec Db A) (f : A → Exec Db B) (s : Db)
    → ((x : A) → (m s).0 ≡ ok x → AbortsWhenDone (f x (m s).1))
    → AbortsWhenDone ((m >>= f) s)
then_aborts m f s k b h =
    let (x, first, more, left) = bind_ok m f s b h in
    ap (λ (t : Db). t.aborted) left ∙ k x first b more

goes_on :
    {A B : Type 0} (m : Exec Db A) (f : A → Exec Db B) (s t : Db) (x : A)
    → m s ≡ (ok x, t)
    → (m >>= f) s ≡ f x t
unfolding ◌>>=◌
goes_on m f s t x h = ap (λ p. continue p.0 f p.1) h

no_snapshot :
    (h : Handler) (a : Agent) (dep_id rel_id : String) (s : Db)
    → select_rollout a.organization_id dep_id rel_id s.rollouts ≡ none
    → rollout_get h a dep_id rel_id s ≡ (ok none, s)
unfolding rollout_get gets
no_snapshot h a dep_id rel_id s none_found = ground arith

module _ (h : Handler) (a : Agent) (new_id : String) (d : Deployment) (r target q : Release)
    (req : ProgressRequest) (auto : h.auto_rollback ≡ true) where
  timeout-Untouched : Steps Untouched (
      if req.timeout
      then emit_event h a d.id (deployment_timeout d.id r.release_id r.revision req.error_message)
      else pure tt)
  unfolding emit_event
  timeout-Untouched = search (steps_rules, Untouched-order, emit-Untouched) depth 6

  become_failed_aborts :
      (s : Db)
      → select_previous a.organization_id d.id r.revision s.releases ≡ ok target
      → select_revision a.organization_id d.id (suc r.revision) s.releases ≡ ok q
      → AbortsWhenDone (become_failed h a new_id d r req none false s)
  unfolding become_failed Untouched
  become_failed_aborts s previous found = then_aborts _ _ s (λ u first x more.
      let same = (timeout-Untouched.at s).0 in
      rw auto (
        attempt_aborts h a new_id d r target q req _
          (ap (select_previous a.organization_id d.id r.revision) same ∙ previous)
          (ap (select_revision a.organization_id d.id (suc r.revision)) same ∙ found)))

  before-Untouched :
      (dep_id rel_id : String) → Steps Untouched (persist_rollout h a dep_id rel_id req)
  unfolding persist_rollout
  before-Untouched dep_id rel_id =
      search (steps_rules, Untouched-order, upsert_rollout-Untouched) depth 6

  event-Untouched : (dep_id : String) (p : Payload) → Steps Untouched (emit_event h a dep_id p)
  unfolding emit_event
  event-Untouched dep_id p = search (steps_rules, Untouched-order, emit-Untouched) depth 6

  switch_aborts :
      (p : Phase) (s : Db)
      → p ≡ phase_failed
      → select_previous a.organization_id d.id r.revision s.releases ≡ ok target
      → select_revision a.organization_id d.id (suc r.revision) s.releases ≡ ok q
      → AbortsWhenDone (apply_transition h a new_id d r req none false p s)
  unfolding apply_transition
  switch_aborts p s failed previous found =
      subst (λ z. AbortsWhenDone (apply_transition h a new_id d r req none false z s)) (sym failed)
        (become_failed_aborts s previous found)

  progress_after_aborts :
      (dep_id rel_id : String) (s : Db)
      → req.phase ≡ phase_failed
      → select_previous a.organization_id d.id r.revision s.releases ≡ ok target
      → select_revision a.organization_id d.id (suc r.revision) s.releases ≡ ok q
      → AbortsWhenDone (progress_after h a new_id dep_id rel_id req d r none s)
  unfolding progress_after Untouched
  progress_after_aborts dep_id rel_id s failed previous found = then_aborts _ _ s (λ u first.
      then_aborts _ _ _ (λ v second.
        let same = (event-Untouched dep_id _).at (persist_rollout h a dep_id rel_id req s).1 in
        let all_same = same.0 ∙ ((before-Untouched dep_id rel_id).at s).0 in
        switch_aborts req.phase _ failed
          (ap (select_previous a.organization_id d.id r.revision) all_same ∙ previous)
          (ap (select_revision a.organization_id d.id (suc r.revision)) all_same ∙ found)))

  progress_owned_aborts :
      (dep_id rel_id : String) (s : Db)
      → req.phase ≡ phase_failed
      → select_rollout a.organization_id dep_id rel_id s.rollouts ≡ none
      → select_previous a.organization_id d.id r.revision s.releases ≡ ok target
      → select_revision a.organization_id d.id (suc r.revision) s.releases ≡ ok q
      → AbortsWhenDone (progress_owned h a new_id dep_id rel_id req d r s)
  unfolding progress_owned
  progress_owned_aborts dep_id rel_id s failed first previous found =
      subst AbortsWhenDone
        (sym (
          goes_on (rollout_get h a dep_id rel_id) _ s s none
            (no_snapshot h a dep_id rel_id s first)))
        (progress_after_aborts dep_id rel_id s failed previous found)

  -- The body of the transaction of a report.
  body_aborts :
      (dep_id rel_id : String) (s : Db)
      → (validate_ownership a dep_id rel_id s).0 ≡ ok (d, r)
      → req.phase ≡ phase_failed
      → select_rollout a.organization_id dep_id rel_id s.rollouts ≡ none
      → select_previous a.organization_id dep_id r.revision s.releases ≡ ok target
      → select_revision a.organization_id dep_id (suc r.revision) s.releases ≡ ok q
      → AbortsWhenDone (
          (validate_ownership a dep_id rel_id >>= λ owned.
          progress_owned h a new_id dep_id rel_id req owned.0 owned.1)
            s)
  unfolding Same
  body_aborts dep_id rel_id s valid failed first previous found =
      let same = (validate_ownership-Steps Same-order a dep_id rel_id).at s in
      let is_owned = validate_ownership-IsOwned a dep_id rel_id s d r valid in
      let (v, i) =
        select_deployment-has_version a.organization_id dep_id s.deployments d
          is_owned.deployment in
      subst AbortsWhenDone
        (sym (
          goes_on (validate_ownership a dep_id rel_id) _ s s (d, r)
            (ap (λ z. (z, (validate_ownership a dep_id rel_id s).1)) valid
              ∙ ap (λ z. (ok (d, r), z)) same)))
        (progress_owned_aborts dep_id rel_id s failed first
          (ap (λ z. select_previous a.organization_id z r.revision s.releases) i ∙ previous)
          (ap (λ z. select_revision a.organization_id z (suc r.revision) s.releases) i ∙ found))

  -- A failed automatic rollback fails the report. An agent reports that the rollout of its release has
  -- failed, and it is the first report on it; the release has a previous succeeded one, but the revision
  -- behind its own is taken. `UpdateDeploymentProgress` drops the error of the rollback and goes on, but
  -- the server has aborted the transaction: the report answers an error, and the database is as it was,
  -- without the snapshot and the event of the failure.
  pub conflict_fails_report :
      (dep_id rel_id : String) (s : Db)
      → (validate_ownership a dep_id rel_id s).0 ≡ ok (d, r)
      → req.phase ≡ phase_failed
      → select_rollout a.organization_id dep_id rel_id s.rollouts ≡ none
      → select_previous a.organization_id dep_id r.revision s.releases ≡ ok target
      → select_revision a.organization_id dep_id (suc r.revision) s.releases ≡ ok q
      → (e : Err) × ((update_deployment_progress h (some a) new_id dep_id rel_id req s).0 ≡ err e)
        × ((update_deployment_progress h (some a) new_id dep_id rel_id req s).1 ≡ s)
  unfolding update_deployment_progress
  conflict_fails_report dep_id rel_id s valid failed first previous found =
      elim (Result-cases (update_deployment_progress h (some a) new_id dep_id rel_id req s).0) [
        | inl (e, refused) ↦ (e, refused, in_tenant-undone a.organization_id _ s e refused)
        | inr (u, done) ↦
            let (body, left, sound) = in_tenant_ok a.organization_id _ s u done in
            absurd
              (cc (sound, body_aborts dep_id rel_id s valid failed first previous found u body))
      ]
