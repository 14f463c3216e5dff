-- ===== src/Events/Upcasters/Chain.antt =====
-- The chain of upcasters ends, at a version from which none leads on: proofs about Events.Upcasters.
use final_bds.Prelude.{
  Bool-cases, inl, inr, ◌≢◌, ◌==◌, ◌+◌, ◌∙◌, ℕ, zero, suc, ◌≤◌, ◌<◌, ℤ, pos, negsuc, eq_ℤ, ◌≤ℤ◌,
  Option, none, some, length, Bool, true, false, ◌≡◌, refl, ap, sym, arith,
}
use mathlib.Core.Path.{subst}
use final_bds.Errors.{annotated, Result, ok, err}
use final_bds.Events.{Envelope}
use final_bds.Events.Upcasters.Rank.{
  key_version, key_version-upcaster_key, ahead, ahead_self, ahead-next_version, next_version-IsInt,
  rank, rank-le-length, rank-found,
}
use final_bds.Text.{Text}
use final_bds.Events.Upcasters.{
  max_int, IsInt, Upcaster, Registry, upcaster_key, find_upcaster, next_version, upgrade_loop,
  upgrade, wrong_version, check_version, upcasted, looked_up,
}

same_version : (a b : ℤ) → eq_ℤ a b ≡ true → a ≡ b
same_version a b h = ground arith

key_at : (e : Envelope) → key_version (upcaster_key e.event_type e.version) ≡ some e.version
key_at e = key_version-upcaster_key e.event_type e.version

module _ (again : Envelope → Option (Result Envelope)) (v : ℤ) where
  checked_total :
      (b : Bool) (next : Envelope)
      → (b ≡ true → (res : Result Envelope) × (again next ≡ some res))
      → (res : Result Envelope) × (check_version b again next ≡ some res)
  checked_total true next h = h refl
  checked_total false next h = (err wrong_version, refl)

  upcasted_total :
      (u : Result Envelope)
      → ((next : Envelope)
          → next.version ≡ next_version v
          → (res : Result Envelope) × (again next ≡ some res))
      → (res : Result Envelope) × (upcasted u again v ≡ some res)
  upcasted_total (err x) h = (err (annotated "events: upcast" x), refl)
  upcasted_total (ok next) h =
      checked_total (eq_ℤ next.version (next_version v)) next
        (λ good. h next (same_version next.version (next_version v) good))

looked_up_total :
    (again : Envelope → Option (Result Envelope)) (e : Envelope) (o : Option Upcaster)
    → ((up : Upcaster) (next : Envelope)
        → o ≡ some up
        → next.version ≡ next_version e.version
        → (res : Result Envelope) × (again next ≡ some res))
    → (res : Result Envelope) × (looked_up o again e ≡ some res)
looked_up_total again e none h = (ok e, refl)
looked_up_total again e (some up) h = upcasted_total again e.version (up e) (λ next. h up next refl)

-- After `k` rounds from version `v`: how far the envelope is, and that the fuel is enough.
record IsUnderway (v : ℤ) (r : Registry) (k f : ℕ) (e : Envelope) : Type 0 where
  start_int : IsInt v
  here_int : IsInt e.version
  far : ahead v e.version ≡ k
  rounds_left : rank v k r < f
  few : rank v k r + k ≤ length r

one_round :
    (v : ℤ) (r : Registry) (k f : ℕ) (e next : Envelope) (up : Upcaster)
    → length r ≤ max_int
    → IsUnderway v r k (suc f) e
    → find_upcaster (upcaster_key e.event_type e.version) r ≡ some up
    → next.version ≡ next_version e.version
    → IsUnderway v r (suc k) f next
one_round v r k f e next up small h q w =
    let less =
      rank-found (upcaster_key e.event_type e.version) v e.version k r up (key_at e) h.far q in
    record {
      start_int = h.start_int;
      here_int = subst IsInt (sym w) (next_version-IsInt e.version h.here_int);
      far =
          ap (ahead v) w
          ∙ ahead-next_version v e.version k h.start_int h.here_int h.far
              (omega (arith, less, h.few, small));
      rounds_left = omega (arith, less, h.rounds_left);
      few = omega (arith, less, h.few);
    }

-- A round ends the loop, or goes on with an upcaster less.
upgrade_loop_total :
    (f : ℕ) (v : ℤ) (r : Registry) (k : ℕ) (e : Envelope)
    → length r ≤ max_int
    → IsUnderway v r k f e
    → (res : Result Envelope) × (upgrade_loop f r e ≡ some res)
unfolding upgrade_loop
upgrade_loop_total zero v r k e small h = absurd (omega (arith, h.rounds_left))
upgrade_loop_total (suc f) v r k e small h =
    looked_up_total (upgrade_loop f r) e (find_upcaster (upcaster_key e.event_type e.version) r)
      (λ up next q w.
        upgrade_loop_total f v r (suc k) next small (one_round v r k f e next up small h q w))

-- Upgrading ends: whatever upcasters are registered and whatever they return, as many rounds as
-- there are upcasters, and one more, are enough for a result. The version and the number of upcasters
-- are those of Go: an int of 64 bits, and no more than the largest int.
pub upgrade_total :
    (r : Registry) (e : Envelope)
    → IsInt e.version
    → length r ≤ max_int
    → (res : Result Envelope) × (upgrade r e ≡ some res)
unfolding upgrade
upgrade_total r e int small =
    let few = rank-le-length e.version 0 r in
    upgrade_loop_total (suc (length r)) e.version r 0 e small (record {
      start_int = int;
      here_int = int;
      far = ahead_self e.version;
      rounds_left = omega (arith, few);
      few = omega (arith, few);
    })

newer : (v : ℤ) → v ≢ pos max_int → v ≤ℤ next_version v
unfolding next_version
newer (pos n) h = elim (Bool-cases (n == max_int)) [
  | inl e ↦ absurd (h (ap pos (ground arith)))
  | inr e ↦ rw e (omega arith)
]
newer (negsuc zero) h = omega arith
newer (negsuc (suc n)) h = omega arith

-- No upcaster is registered for the largest int.
abbrev pub IsBelowMax : Registry → Type 0
IsBelowMax r = (t : Text) → find_upcaster (upcaster_key t (pos max_int)) r ≡ none

-- The result of a chain: no upcaster leads on from it, and it is no older than the start.
record IsLatest (r : Registry) (v : ℤ) (last : Envelope) : Type 0 where
  at_end : find_upcaster (upcaster_key last.event_type last.version) r ≡ none
  no_older : v ≤ℤ last.version

checked_latest :
    (again : Envelope → Option (Result Envelope)) (b : Bool) (next last : Envelope)
    → check_version b again next ≡ some (ok last)
    → (b ≡ true) × (again next ≡ some (ok last))
checked_latest again true next last h = (refl, h)
checked_latest again false next last h = cc

IsLatest-next :
    (r : Registry) (v : ℤ) (last : Envelope)
    → v ≢ pos max_int
    → IsLatest r (next_version v) last
    → IsLatest r v last
IsLatest-next r v last below h = record {
  at_end = h.at_end;
  no_older = omega (arith, newer v below, h.no_older);
}

upcasted-IsLatest :
    (again : Envelope → Option (Result Envelope)) (r : Registry) (v : ℤ) (u : Result Envelope)
    (last : Envelope)
    → v ≢ pos max_int
    → ((next : Envelope) → again next ≡ some (ok last) → IsLatest r next.version last)
    → upcasted u again v ≡ some (ok last)
    → IsLatest r v last
upcasted-IsLatest again r v (err x) last below h k = cc
upcasted-IsLatest again r v (ok next) last below h k =
    let (good, more) = checked_latest again (eq_ℤ next.version (next_version v)) next last k in
    IsLatest-next r v last below (
      subst (λ z. IsLatest r z last) (same_version next.version (next_version v) good)
        (h next more))

not_at_max :
    (r : Registry) (e : Envelope) (up : Upcaster)
    → IsBelowMax r
    → find_upcaster (upcaster_key e.event_type e.version) r ≡ some up
    → e.version ≢ pos max_int
not_at_max r e up below q w =
    let at_max : find_upcaster (upcaster_key e.event_type e.version) r ≡ none =
      ap (λ v. find_upcaster (upcaster_key e.event_type v) r) w ∙ below e.event_type in
    cc (q, at_max)

looked_up-IsLatest :
    (again : Envelope → Option (Result Envelope)) (r : Registry) (e : Envelope)
    (o : Option Upcaster) (last : Envelope)
    → IsBelowMax r
    → find_upcaster (upcaster_key e.event_type e.version) r ≡ o
    → ((next : Envelope) → again next ≡ some (ok last) → IsLatest r next.version last)
    → looked_up o again e ≡ some (ok last)
    → IsLatest r e.version last
looked_up-IsLatest again r e none last below q h k =
    let same : e ≡ last = cc in
    subst (IsLatest r e.version) same (record { at_end = q; no_older = omega arith })
looked_up-IsLatest again r e (some up) last below q h k =
    upcasted-IsLatest again r e.version (up e) last (not_at_max r e up below q) h k

upgrade_loop-IsLatest :
    (f : ℕ) (r : Registry) (e last : Envelope)
    → IsBelowMax r
    → upgrade_loop f r e ≡ some (ok last)
    → IsLatest r e.version last
unfolding upgrade_loop
upgrade_loop-IsLatest zero r e last below h = cc
upgrade_loop-IsLatest (suc f) r e last below h =
    looked_up-IsLatest (upgrade_loop f r) r e _ last below refl
      (λ next. upgrade_loop-IsLatest f r next last below) h

-- Where no upcaster is registered for the largest int, an upgraded envelope has no older version than
-- the original, no upcaster is registered for its type and version, and so upgrading it again
-- changes nothing.
pub upgrade_latest :
    (r : Registry) (e last : Envelope)
    → IsBelowMax r
    → upgrade r e ≡ some (ok last)
    → (e.version ≤ℤ last.version)
      × (find_upcaster (upcaster_key last.event_type last.version) r ≡ none)
      × (upgrade r last ≡ some (ok last))
unfolding upgrade upgrade_loop
upgrade_latest r e last below h =
    let l = upgrade_loop-IsLatest (suc (length r)) r e last below h in
    (l.no_older, l.at_end, ap (λ o. looked_up o (upgrade_loop (length r) r) last) l.at_end)
