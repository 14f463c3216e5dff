-- ===== src/Authz/Policy.antt =====
-- The default matrix and the evaluator: proofs about Authz.
use final_bds.Prelude.{
  Bool, ap, Bool-cases, Option-cases, true, false, List, [], ◌∷◌, some, ◌≡◌, ◌≢◌, ◌⊎◌, ◌↔◌, inl,
  inr, refl, arith, not, ◌||◌,
}
use final_bds.Errors.{ok}
use final_bds.Authz.{
  OrgRole, org_owner, org_admin, role_member, org_auditor, ProjectRole, project_admin,
  project_developer, project_viewer, Action, manage_org, Principal, AccessRequest, PolicyAuthorizer,
  default_org, default_project, new_policy_authorizer, any_org_grant, project_grant, authorize,
  Action-discrete,
}

-- One of the roles has the property.
abbrev pub Any : (OrgRole → Type 0) → List OrgRole → Type 0
Any P [] = ⊥
Any P (r ∷ rs) = P r ⊎ Any P rs

-- The principal has a role in the project of the request that grants the action.
abbrev pub HasProjectGrant : PolicyAuthorizer → Principal → AccessRequest → Type 0
HasProjectGrant a p req =
    (req.project_id ≢ "")
    × (r : ProjectRole) × (p.project_roles req.project_id ≡ some r)
    × (a.project r req.action ≡ true)

-- What the documentation of the package promises, independently of the evaluator: the request names
-- the principal's own organisation, and one of the organisation roles grants the action or the
-- request names a project in which the principal has a role that grants it.
abbrev pub IsAllowed : PolicyAuthorizer → Principal → AccessRequest → Type 0
IsAllowed a p req =
    (req.org_id ≢ "")
    × (p.org_id ≡ req.org_id)
    × (Any (λ r. a.org r req.action ≡ true) p.org_roles ⊎ HasProjectGrant a p req)

any_org_grant-Any :
    (a : PolicyAuthorizer) (rs : List OrgRole) (act : Action)
    → any_org_grant a rs act ≡ true
    → Any (λ r. a.org r act ≡ true) rs
unfolding any_org_grant
any_org_grant-Any a [] act h = cc
any_org_grant-Any a (r ∷ rs) act h = ground (arith, any_org_grant-Any a rs act)

Any-any_org_grant :
    (a : PolicyAuthorizer) (rs : List OrgRole) (act : Action)
    → Any (λ r. a.org r act ≡ true) rs
    → any_org_grant a rs act ≡ true
unfolding any_org_grant
Any-any_org_grant a [] act h = absurd h
Any-any_org_grant a (r ∷ rs) act (inl h) = ground arith
Any-any_org_grant a (r ∷ rs) act (inr h) = ground (arith, Any-any_org_grant a rs act h)

project_grant_iff :
    (a : PolicyAuthorizer) (p : Principal) (req : AccessRequest)
    → (project_grant a p req ≡ true) ↔ HasProjectGrant a p req
unfolding project_grant
project_grant_iff a p req = elim (Option-cases (p.project_roles req.project_id)) [
  | inl e ↦ ((λ h. absurd (ground arith)), (λ g. absurd (ground arith)))
  | inr (r, e) ↦ ((λ h. (ground arith, r, e, ground arith)), (λ g. ground arith))
]

-- `Authorize` allows a request exactly when it is allowed in that sense, for every matrix.
pub authorize-IsAllowed :
    (a : PolicyAuthorizer) (p : Principal) (req : AccessRequest)
    → (authorize a p req ≡ ok tt) ↔ IsAllowed a p req
unfolding authorize
authorize-IsAllowed a p req = elim (Bool-cases (any_org_grant a p.org_roles req.action)) [
  | inl e ↦ (
    (λ h. (ground arith, ground arith, inl (any_org_grant-Any a p.org_roles req.action e))),
    (λ g. ground arith),
  )
  | inr e ↦ elim (Bool-cases (project_grant a p req)) [
    | inl k ↦ (
      (λ h. (ground arith, ground arith, inr ((project_grant_iff a p req).0 k))),
      (λ g. ground arith),
    )
    | inr k ↦ (
      (λ h. absurd (ground arith)),
      (λ g. absurd (
          ground
            (arith, Any-any_org_grant a p.org_roles req.action, (project_grant_iff a p req).1))),
    )
  ]
]

-- If the first may, the second may.
abbrev pub at_most : Bool → Bool → Bool
at_most a b = not a || b

-- In the default matrix the roles form a hierarchy: whatever a member may do an auditor may, an
-- auditor's actions are an admin's, and an admin's are an owner's; likewise for viewers, developers
-- and admins of a project.
default_hierarchy :
    (act : Action)
    → (at_most (default_org role_member act) (default_org org_auditor act) ≡ true)
      × (at_most (default_org org_auditor act) (default_org org_admin act) ≡ true)
      × (at_most (default_org org_admin act) (default_org org_owner act) ≡ true)
      × (at_most (default_project project_viewer act) (default_project project_developer act)
          ≡ true)
      × (at_most (default_project project_developer act) (default_project project_admin act) ≡ true)
unfolding default_org default_project Action-discrete
default_hierarchy manage_org = ground arith
default_hierarchy _ = ground arith

manage_org-owner : (r : OrgRole) → default_org r manage_org ≡ true → r ≡ org_owner
unfolding default_org Action-discrete
manage_org-owner org_owner h = refl
manage_org-owner _ h = cc

manage_org-project : (r : ProjectRole) → default_project r manage_org ≡ false
unfolding default_project Action-discrete
manage_org-project project_admin = refl
manage_org-project _ = refl

Any-owner :
    (rs : List OrgRole) (act : Action)
    → act ≡ manage_org
    → Any (λ r. default_org r act ≡ true) rs
    → Any (λ r. r ≡ org_owner) rs
Any-owner [] act e h = h
Any-owner (r ∷ rs) act e (inl h) = inl (manage_org-owner r (rw e at h))
Any-owner (r ∷ rs) act e (inr h) = inr (Any-owner rs act e h)

project_never_manages :
    (p : Principal) (req : AccessRequest)
    → req.action ≡ manage_org
    → ¬ HasProjectGrant new_policy_authorizer p req
unfolding new_policy_authorizer
project_never_manages p req e (given, r, has, grants) =
    ground (arith, manage_org-project r, ap (default_project r) e)

-- Under the default matrix only an owner manages an organisation: if a request for `org:manage` is
-- allowed, the principal belongs to the organisation of the request and one of its roles there is
-- owner, whatever project roles it has.
manage_org_needs_owner :
    (p : Principal) (req : AccessRequest)
    → req.action ≡ manage_org
    → authorize new_policy_authorizer p req ≡ ok tt
    → (p.org_id ≡ req.org_id) × Any (λ r. r ≡ org_owner) p.org_roles
unfolding new_policy_authorizer
manage_org_needs_owner p req e h =
    let (given, same_org, granted) = (authorize-IsAllowed new_policy_authorizer p req).0 h in
    (
      same_org,
      elim granted [
        | inl any ↦ Any-owner p.org_roles req.action e any
        | inr grant ↦ absurd (project_never_manages p req e grant)
      ],
    )
