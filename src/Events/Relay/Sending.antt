-- ===== src/Events/Relay/Sending.antt =====
-- What the broker has taken: lemmas about the sending part of Events.Relay.
use final_bds.Prelude.{
  String, List, [], ◌∷◌, Option, none, some, Bool, true, false, ◌≡◌, ◌⊎◌, inl, inr, refl, ap, ◌∙◌,
}
use final_bds.Errors.{Err, Result, ok, err}
use final_bds.Events.{Envelope, validate}
use final_bds.Events.Relay.{Row, publish, publish_all, go_on, with_id, if_valid}
use final_bds.Events.Relay.Rows.{AllRows, ids_of}

-- The broker has taken the event.
abbrev pub Sent : Envelope → List Envelope → Type 0
Sent e [] = ⊥
Sent e (x ∷ xs) = (e ≡ x) ⊎ Sent e xs

abbrev pub SentIf : Bool → Envelope → List Envelope → Type 0
SentIf true e sent = Sent e sent
SentIf false e sent = Unit

-- What was sent stays sent.
pub record Extends (before after : List Envelope) : Type 0 where
  pub still : (e : Envelope) → Sent e before → Sent e after

pub Extends-refl : (s : List Envelope) → Extends s s
Extends-refl s = record { still = λ e h. h }

if_valid-Extends :
    (v : Result (Unit {0})) (o : Option Err) (e : Envelope) (s : List Envelope)
    → Extends s (if_valid v o e s).1
if_valid-Extends (err x) o e s = Extends-refl s
if_valid-Extends (ok u) (some x) e s = Extends-refl s
if_valid-Extends (ok u) none e s = record { still = λ x h. inr h }

with_id-rest : (i : String) (p : Result (List String) × List Envelope) → (with_id i p).1 ≡ p.1
with_id-rest i (ok ids, s) = refl
with_id-rest i (err x, s) = refl

go_on-Extends :
    (p : Result (Unit {0}) × List Envelope) (i : String)
    (more : List Envelope → Result (List String) × List Envelope) (s : List Envelope)
    → Extends s p.1
    → ((t : List Envelope) → Extends t (more t).1)
    → Extends s (go_on p i more).1
go_on-Extends (ok u, t) i more s h k =
    rw (with_id-rest i (more t)) (record { still = λ e m. (k t).still e (h.still e m) })
go_on-Extends (err x, t) i more s h k = h

pub publish_all-Extends :
    (broker : Envelope → Option Err) (rs : List Row) (s : List Envelope)
    → Extends s (publish_all broker rs s).1
unfolding publish_all publish
publish_all-Extends broker [] s = Extends-refl s
publish_all-Extends broker (r ∷ rs) s =
    go_on-Extends (publish broker r.envelope s) r.id (publish_all broker rs) s
      (if_valid-Extends (validate r.envelope) (broker r.envelope) r.envelope s)
      (λ t. publish_all-Extends broker rs t)

if_valid-sends :
    (v : Result (Unit {0})) (o : Option Err) (e : Envelope) (s : List Envelope) (u : Unit {0})
    → (if_valid v o e s).0 ≡ ok u
    → Sent e (if_valid v o e s).1
if_valid-sends (err x) o e s u h = cc
if_valid-sends (ok v) (some x) e s u h = cc
if_valid-sends (ok v) none e s u h = inl refl

-- A batch that was sent as a whole.
pub record Delivered (rs : List Row) (ids : List String) (after : List Envelope) : Type 0 where
  pub all_ids : ids ≡ ids_of rs
  pub all_sent : AllRows (λ r. Sent r.envelope after) rs

with_id_ok :
    (i : String) (p : Result (List String) × List Envelope) (ids : List String)
    → (with_id i p).0 ≡ ok ids
    → (more : List String) × (p.0 ≡ ok more) × (ids ≡ i ∷ more)
with_id_ok i (ok more, s) ids h = (more, refl, cc)
with_id_ok i (err x, s) ids h = cc

go_on-delivers :
    (p : Result (Unit {0}) × List Envelope) (r : Row) (rs : List Row)
    (more : List Envelope → Result (List String) × List Envelope) (ids : List String)
    → ((u : Unit {0}) → p.0 ≡ ok u → Sent r.envelope p.1)
    → ((t : List Envelope) → Extends t (more t).1)
    → ((t : List Envelope) (js : List String) → (more t).0 ≡ ok js → Delivered rs js (more t).1)
    → (go_on p r.id more).0 ≡ ok ids
    → Delivered (r ∷ rs) ids (go_on p r.id more).1
go_on-delivers (err x, t) r rs more ids h k d g = cc
go_on-delivers (ok u, t) r rs more ids h k d g =
    let (js, a, b) = with_id_ok r.id (more t) ids g in
    let rest = d t js a in
    rw (with_id-rest r.id (more t)) (record {
      all_ids = b ∙ ap (λ z. r.id ∷ z) rest.all_ids;
      all_sent = ((k t).still r.envelope (h u refl), rest.all_sent);
    })

pub publish_all-delivers :
    (broker : Envelope → Option Err) (rs : List Row) (s : List Envelope) (ids : List String)
    → (publish_all broker rs s).0 ≡ ok ids
    → Delivered rs ids (publish_all broker rs s).1
unfolding publish_all publish
publish_all-delivers broker [] s ids h = record { all_ids = cc; all_sent = tt }
publish_all-delivers broker (r ∷ rs) s ids h =
    go_on-delivers (publish broker r.envelope s) r rs (publish_all broker rs) ids
      (λ u. if_valid-sends (validate r.envelope) (broker r.envelope) r.envelope s u)
      (λ t. publish_all-Extends broker rs t) (λ t js. publish_all-delivers broker rs t js) h
