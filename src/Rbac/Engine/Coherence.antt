-- ===== src/Rbac/Engine/Coherence.antt =====
-- What the entries of the cache say, kept by each operation: lemmas about Rbac.Engine.
use final_bds.Prelude.{
  ℕ, Bool, true, false, List, [], ◌∷◌, Option, none, some, if◌then◌else◌, ltb, leb, length, ◌≡◌,
  ◌≢◌, refl, ap, sym, ◌∙◌, inl, inr, Bool-cases, arith,
}
use mathlib.Core.Path.{subst}
use final_bds.Errors.{Err, Result, ok, err}
use final_bds.Text.{Text}
use final_bds.Rbac.{Permission}
use final_bds.Rbac.Cache.{
  Entry, Cache, entry_at, unexpired, cache_get, evict_oldest, cache_set, contains, drop_containing,
  invalidate_user,
}
use final_bds.Rbac.Engine.{
  RoleAssignment, Stores, cache_key, verdict, remember, decide, answer_of, check_permission, forget,
  assign_role, revoke_role,
}
use final_bds.Rbac.Engine.Frames.{Agree, decide-Agree, IsScoped}
use final_bds.Rbac.Engine.Keys.{IsPlain, cache_key_injective, contains-cache_key}
use final_bds.Rbac.Entries.{
  AllEntries, AllEntries-remove_key, AllEntries-if, AllEntries-evict_oldest, entry_at-AllEntries,
}

module _ (st : Stores) where
  open st use {State}

  -- An entry records what the stores say of a request.
  pub record Justified (s : State) (e : Entry) : Type 0 where
    pub user : Text
    pub org : Text
    pub project : Text
    pub perm : Permission
    pub plain : IsPlain user org project
    pub key_eq : e.key ≡ cache_key user org project perm
    pub fresh : decide st user org project perm s ≡ ok e.allowed

  -- Every entry of the cache does.
  abbrev pub Coherent : State → Cache → Type 0
  Coherent s c = AllEntries (Justified s) c.entries

  -- A hit is the answer of the stores.
  unexpired_lookup :
      (now : ℕ) (o : Option Entry) (b : Bool)
      → unexpired now o ≡ some b
      → (e : Entry) × (o ≡ some e) × (e.allowed ≡ b)
  unexpired_lookup now none b h = cc
  unexpired_lookup now (some e) b h = elim (Bool-cases (ltb e.expires_at now)) [
    | inl late ↦ absurd (expired e late h)
    | inr good ↦ (e, refl, ground (arith, good))
  ]
    where
      expired : (x : Entry) → ltb x.expires_at now ≡ true → unexpired now (some x) ≡ some b → ⊥
      expired x late q = ground arith

  pub hit_is_fresh :
      (s : State) (c : Cache) (u o p : Text) (perm : Permission) (now : ℕ) (b : Bool)
      → Coherent s c
      → IsPlain u o p
      → cache_get c (cache_key u o p perm) now ≡ some b
      → decide st u o p perm s ≡ ok b
  unfolding cache_get
  hit_is_fresh s c u o p perm now b h plain q =
      let (e, found, allowed) =
        unexpired_lookup now (entry_at (cache_key u o p perm) c.entries) b q in
      let (j, k) = entry_at-AllEntries (Justified s) (cache_key u o p perm) c.entries e h found in
      let (a, d, f, g) =
        cache_key_injective j.user j.org j.project u o p j.perm perm j.plain plain
          (sym j.key_eq ∙ k) in
      rw (← a, ← d, ← f, ← g) (j.fresh ∙ ap ok allowed)

  pub Coherent-cache_set :
      (s : State) (c : Cache) (u o p : Text) (perm : Permission) (now : ℕ) (b : Bool)
      → Coherent s c
      → IsPlain u o p
      → decide st u o p perm s ≡ ok b
      → Coherent s (cache_set c (cache_key u o p perm) b now)
  unfolding cache_set
  Coherent-cache_set s c u o p perm now b h plain d = (
    record { user = u; org = o; project = p; perm = perm; plain = plain; key_eq = refl; fresh = d },
    AllEntries-remove_key (Justified s) (cache_key u o p perm)
        (if leb c.max_size (length c.entries) then evict_oldest c.entries else c.entries)
        (AllEntries-if (Justified s) (leb c.max_size (length c.entries)) (evict_oldest c.entries)
          c.entries (AllEntries-evict_oldest (Justified s) c.entries h) h),
  )

  Coherent-remember :
      (s : State) (c : Cache) (u o p : Text) (perm : Permission) (now : ℕ) (r : Result Bool)
      → Coherent s c
      → IsPlain u o p
      → decide st u o p perm s ≡ r
      → Coherent s (remember c (cache_key u o p perm) now r)
  Coherent-remember s c u o p perm now (err e) h plain d = h
  Coherent-remember s c u o p perm now (ok b) h plain d =
      Coherent-cache_set s c u o p perm now b h plain d

  answer_of-Coherent :
      (s : State) (c : Cache) (u o p : Text) (perm : Permission) (now : ℕ) (known : Option Bool)
      → Coherent s c
      → IsPlain u o p
      → cache_get c (cache_key u o p perm) now ≡ known
      → ((answer_of st known c (cache_key u o p perm) now (decide st u o p perm s)).0
          ≡ verdict (decide st u o p perm s))
        × Coherent s (answer_of st known c (cache_key u o p perm) now (decide st u o p perm s)).1
  answer_of-Coherent s c u o p perm now (some b) h plain q =
      (ap verdict (sym (hit_is_fresh s c u o p perm now b h plain q)), h)
  answer_of-Coherent s c u o p perm now none h plain q =
      (refl, Coherent-remember s c u o p perm now (decide st u o p perm s) h plain refl)

  -- With a coherent cache a check answers what the stores say, and leaves a coherent cache.
  pub check_permission-Coherent :
      (s : State) (c : Cache) (u o p : Text) (perm : Permission) (now : ℕ)
      → Coherent s c
      → IsPlain u o p
      → ((check_permission st u o p perm now s c).0 ≡ verdict (decide st u o p perm s))
        × Coherent s (check_permission st u o p perm now s c).1
  unfolding check_permission
  check_permission-Coherent s c u o p perm now h plain =
      answer_of-Coherent s c u o p perm now (cache_get c (cache_key u o p perm) now) h plain refl

  -- An entry whose key does not contain a user is about another one.
  about_another :
      (s : State) (e : Entry) (user : Text) (j : Justified s e)
      → contains user e.key ≡ false
      → j.user ≢ user
  about_another s e user j h same =
      let held : contains user e.key ≡ true =
        ap (contains user) j.key_eq
        ∙ ap (λ z. contains z (cache_key j.user j.org j.project j.perm)) (sym same)
        ∙ contains-cache_key j.user j.org j.project j.perm in
      let clash : true ≡ false = sym held ∙ h in cc

  Justified-Agree :
      (s t : State) (e : Entry) (j : Justified s e) → Agree st j.user s t → Justified t e
  Justified-Agree s t e j a = record {
    user = j.user;
    org = j.org;
    project = j.project;
    perm = j.perm;
    plain = j.plain;
    key_eq = j.key_eq;
    fresh = decide-Agree st j.user j.org j.project j.perm a ∙ j.fresh;
  }

  -- `t` differs from `s` at one user at most.
  record DiffersAt (user : Text) (s t : State) : Type 0 where
    elsewhere : (other : Text) → other ≢ user → Agree st other s t

  AllEntries-drop_containing :
      (s t : State) (user : Text) (es : List Entry)
      → DiffersAt user s t
      → AllEntries (Justified s) es
      → AllEntries (Justified t) (drop_containing user es)
  unfolding drop_containing
  AllEntries-drop_containing s t user [] d h = tt
  AllEntries-drop_containing s t user (e ∷ es) d (j, js) = elim (Bool-cases (contains user e.key)) [
    | inl held ↦ rw held (AllEntries-drop_containing s t user es d js)
    | inr free ↦ rw free (
      Justified-Agree s t e j (d.elsewhere j.user (about_another s e user j free)),
      AllEntries-drop_containing s t user es d js,
    )
  ]

  forget-Coherent :
      (user : Text) (s : State) (c : Cache) (r : Result (Unit {0})) (t : State)
      → Coherent s c
      → ((e : Err) → r ≡ err e → t ≡ s)
      → DiffersAt user s t
      → Coherent (forget st user (r, t) c).1 (forget st user (r, t) c).2
  unfolding invalidate_user
  forget-Coherent user s c (err e) t h same d = subst (λ z. Coherent z c) (sym (same e refl)) h
  forget-Coherent user s c (ok u) t h same d = AllEntries-drop_containing s t user c.entries d h

  pub assign_role-Coherent :
      (a : RoleAssignment) (s : State) (c : Cache)
      → IsScoped st
      → Coherent s c
      → Coherent (assign_role st a s c).1 (assign_role st a s c).2
  unfolding assign_role
  assign_role-Coherent a s c w h =
      forget-Coherent a.user_id s c (st.assign a s).0 (st.assign a s).1 h (w.assign_failed a s)
        (record { elsewhere = w.assign_others a s })

  pub revoke_role-Coherent :
      (user role org project : Text) (s : State) (c : Cache)
      → IsScoped st
      → Coherent s c
      → Coherent
          (revoke_role st user role org project s c).1
          (revoke_role st user role org project s c).2
  unfolding revoke_role
  revoke_role-Coherent user role org project s c w h =
      forget-Coherent user s c (st.revoke user role org project s).0
        (st.revoke user role org project s).1 h (w.revoke_failed user role org project s)
        (record { elsewhere = w.revoke_others user role org project s })
