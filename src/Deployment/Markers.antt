-- ===== src/Deployment/Markers.antt =====
-- The marker of an automatic rollback stays with its release: lemmas about Deployment.Store.
use final_bds.Prelude.{
  ℤ, Bool, true, false, String, List, [], ◌∷◌, Option, none, some, dec_text, ◌≡◌, arith, Bool-cases,
  inl, inr, ◌⊎◌,
}
use final_bds.Text.{Text}
use final_bds.Exec.Steps.{Order, Steps}
use final_bds.Deployment.{
  ReleaseStatus, DeploymentStatus, Deployment, Release, RolloutStatus, Payload, Db,
}
use final_bds.Deployment.Store.{
  create_row, update_row, update_status, emit, create_release, mark_started, mark_finished,
  upsert_rollout, select_rollout, write_rollout, has_pair, foreign_pair,
}
use final_bds.Deployment.Writes.{Writes}

abbrev pub has_marker : Option RolloutStatus → Bool
has_marker none = false
has_marker (some x) = x.is_rollback

-- The stored snapshot of a release has the marker.
unfoldable pub marker : String → String → String → List RolloutStatus → Bool
unfolding select_rollout
marker org dep rel xs = has_marker (select_rollout org dep rel xs)

write_rollout-marker :
    (org dep rel : String) (x : RolloutStatus) (ys : List RolloutStatus)
    → marker org dep rel ys ≡ true
    → marker org dep rel (write_rollout x ys) ≡ true
unfolding marker select_rollout write_rollout
write_rollout-marker org dep rel x [] h = h
write_rollout-marker org dep rel x (y ∷ ys) h =
    ground (arith, write_rollout-marker org dep rel x ys)

marker-has_pair :
    (org : String) (x : RolloutStatus) (ys : List RolloutStatus)
    → marker org x.deployment_id x.release_id ys ≡ true
    → has_pair x ys ≡ true
unfolding marker select_rollout has_pair
marker-has_pair org x [] h = cc
marker-has_pair org x (y ∷ ys) h = ground (arith, marker-has_pair org x ys)

new_row-marker :
    (org dep rel : String) (x : RolloutStatus) (ys : List RolloutStatus)
    → has_pair x ys ≡ false
    → marker org dep rel ys ≡ true
    → marker org dep rel (x ∷ ys) ≡ true
unfolding marker select_rollout
new_row-marker org dep rel x ys h k = ground (arith, marker-has_pair org x ys)

-- The written row of the pair has the marker of the report.
marked_row :
    (org : String) (x : RolloutStatus) (ys : List RolloutStatus)
    → x.is_rollback ≡ true
    → foreign_pair org x ys ≡ false
    → has_pair x ys ≡ true
    → marker org x.deployment_id x.release_id (write_rollout x ys) ≡ true
unfolding marker select_rollout write_rollout foreign_pair has_pair
marked_row org x [] m f h = cc
marked_row org x (y ∷ ys) m f h = ground (arith, marked_row org x ys m)

fresh_row :
    (org : String) (x : RolloutStatus) (ys : List RolloutStatus)
    → x.org_id ≡ org
    → x.is_rollback ≡ true
    → marker org x.deployment_id x.release_id (x ∷ ys) ≡ true
unfolding marker select_rollout
fresh_row org x ys p m = ground arith

-- Markers stay, and an aborted transaction stays aborted.
unfoldable pub MarkersKept : Db → Db → Type 0
MarkersKept s t =
    ((org dep rel : String)
      → marker org dep rel s.rollouts ≡ true
      → marker org dep rel t.rollouts ≡ true)
    × (s.aborted ≡ true → t.aborted ≡ true)

pub MarkersKept-order : Order MarkersKept
unfolding MarkersKept
MarkersKept-order = record {
  same = λ s. (λ org dep rel h. h, λ h. h);
  compose =
      λ s t u (p, q) (p', q'). (λ org dep rel h. p' org dep rel (p org dep rel h), λ h. q' (q h));
}

-- A statement on another table.
elsewhere :
    (s t : Db) → t.rollouts ≡ s.rollouts → (s.aborted ≡ true → t.aborted ≡ true) → MarkersKept s t
unfolding MarkersKept
elsewhere s t e k = (λ org dep rel h. rw e h, k)

module _ (org : String) where
  create_row-MarkersKept : (d : Deployment) → Steps MarkersKept (create_row org d)
  unfolding create_row
  create_row-MarkersKept d = record { at = λ s. elsewhere s _ (ground arith) (ground arith) }

  update_row-MarkersKept : (d : Deployment) → Steps MarkersKept (update_row org d)
  unfolding update_row
  update_row-MarkersKept d = record { at = λ s. elsewhere s _ (ground arith) (ground arith) }

  update_status-MarkersKept :
      (id : String) (st : DeploymentStatus) (ready : Option ℤ)
      → Steps MarkersKept (update_status org id st ready)
  unfolding update_status
  update_status-MarkersKept id st ready = record {
    at = λ s. elsewhere s _ (ground arith) (ground arith);
  }

  emit-MarkersKept :
      (actor : Option String) (resource : String) (p : Payload)
      → Steps MarkersKept (emit org actor resource p)
  unfolding emit
  emit-MarkersKept actor resource p = record {
    at = λ s. elsewhere s _ (ground arith) (ground arith);
  }

  mark_started-MarkersKept : (id : String) → Steps MarkersKept (mark_started org id)
  unfolding mark_started
  mark_started-MarkersKept id = record { at = λ s. elsewhere s _ (ground arith) (ground arith) }

  mark_finished-MarkersKept :
      (id : String) (st : ReleaseStatus) (msg : Option Text)
      → Steps MarkersKept (mark_finished org id st msg)
  unfolding mark_finished
  mark_finished-MarkersKept id st msg = record {
    at = λ s. elsewhere s _ (ground arith) (ground arith);
  }

  create_release-MarkersKept : (r : Release) → Steps MarkersKept (create_release org r)
  unfolding create_release
  create_release-MarkersKept r = record { at = λ s. elsewhere s _ (ground arith) (ground arith) }

  upsert_rollout-MarkersKept : (x : RolloutStatus) → Steps MarkersKept (upsert_rollout org x)
  unfolding upsert_rollout MarkersKept
  upsert_rollout-MarkersKept x = record {
    at = λ s. elim (Bool-cases (has_pair x s.rollouts)) [
      | inl e ↦ (
        λ o dep rel h. ground (arith, write_rollout-marker o dep rel x s.rollouts h),
        ground arith,
      )
      | inr e ↦
          (λ o dep rel h. ground (arith, new_row-marker o dep rel x s.rollouts e h), ground arith)
    ];
  }

  -- A report with the marker leaves its release marked, or aborts the transaction.
  pub upsert_rollout-marks :
      (x : RolloutStatus) (s : Db)
      → x.is_rollback ≡ true
      → ((upsert_rollout org x s).1.aborted ≡ true)
        ⊎ (marker org x.deployment_id x.release_id (upsert_rollout org x s).1.rollouts ≡ true)
  unfolding upsert_rollout
  upsert_rollout-marks x s m = elim (dec_text x.org_id org) [
    | no n ↦ ground arith
    | yes p ↦ elim (Bool-cases (foreign_pair org x s.rollouts)) [
      | inl f ↦ ground arith
      | inr f ↦ elim (Bool-cases (has_pair x s.rollouts)) [
        | inl e ↦ ground (arith, marked_row org x s.rollouts m f e)
        | inr e ↦ ground (arith, fresh_row org x s.rollouts p m)
      ]
    ]
  ]

-- No statement takes a marker away.
pub keeping : Writes MarkersKept
keeping = record {
  rows = create_row-MarkersKept;
  row_updates = update_row-MarkersKept;
  statuses = update_status-MarkersKept;
  events = emit-MarkersKept;
  starting = mark_started-MarkersKept;
  finishing = mark_finished-MarkersKept;
  rollouts = upsert_rollout-MarkersKept;
  new_releases = create_release-MarkersKept;
}
