-- ===== src/Events/Relay/AtLeastOnce.antt =====
-- What is marked was sent, and nothing is lost, whatever fails: proofs about Events.Relay.
use final_bds.Prelude.{
  ℕ, String, dec_text, if_pos, if_neg, List, [], ◌∷◌, Option, none, some, Bool, true, false, ◌≡◌,
  refl, ap, sym, ◌∙◌,
}
use mathlib.Core.Path.{subst}
use final_bds.Errors.{Err, Result, ok, err}
use final_bds.Events.{Envelope, validate}
use final_bds.Events.Relay.{
  Row, World, Surroundings, fetch_unpublished, publish_all, finish, drain_batch, drain, holds_id,
  add_row, enqueue_event,
}
use final_bds.Events.Relay.Rows.{AllRows, ids_of}
use final_bds.Events.Relay.Sending.{Sent, Extends, publish_all-Extends, publish_all-delivers}
use final_bds.Events.Relay.Marks.{
  envelope_at, IsSent, Covers, keyed-mark_published, covered-mark_published, covered-Extends,
  batch-Covers, envelope_at-mark_published,
}

finish-IsSent :
    (answer : Option Err) (p : Result (List String) × List Envelope) (w : World)
    → IsSent w
    → Extends w.sent p.1
    → ((ids : List String) → p.0 ≡ ok ids → Covers ids w.outbox p.1)
    → IsSent (finish answer p w).1
finish-IsSent answer (err x, t) w v h c = record {
  keyed = v.keyed;
  covered = covered-Extends w.outbox h v.covered;
}
finish-IsSent (some x) (ok ids, t) w v h c = record {
  keyed = v.keyed;
  covered = covered-Extends w.outbox h v.covered;
}
finish-IsSent none (ok ids, t) w v h c = record {
  keyed = keyed-mark_published ids w.outbox w.outbox v.keyed;
  covered = covered-mark_published ids w.outbox w.outbox w.sent t h (c ids refl) v.keyed v.covered;
}

drain_batch-IsSent :
    (s : Surroundings) (rs : List Row) (w : World)
    → IsSent w
    → ((after : List Envelope)
        → AllRows (λ r. Sent r.envelope after) rs
        → Covers (ids_of rs) w.outbox after)
    → IsSent (drain_batch s rs w).1
drain_batch-IsSent s [] w v c = v
drain_batch-IsSent s (r ∷ rs) w v c =
    finish-IsSent s.commit (publish_all s.broker (r ∷ rs) w.sent) w v
      (publish_all-Extends s.broker (r ∷ rs) w.sent)
      (λ ids h.
        let d = publish_all-delivers s.broker (r ∷ rs) w.sent ids h in
        subst (λ z. Covers z w.outbox (publish_all s.broker (r ∷ rs) w.sent).1) (sym d.all_ids)
          (c (publish_all s.broker (r ∷ rs) w.sent).1 d.all_sent))

pub drain-IsSent :
    (s : Surroundings) (batch : ℕ) (w : World) → IsSent w → IsSent (drain s batch w).1
unfolding drain
drain-IsSent s batch w v =
    drain_batch-IsSent s (fetch_unpublished s.locked batch w.outbox) w v
      (λ after. batch-Covers s.locked batch w after v)

finish_keeps :
    (answer : Option Err) (p : Result (List String) × List Envelope) (w : World) (x : String)
    → envelope_at x (finish answer p w).1.outbox ≡ envelope_at x w.outbox
finish_keeps answer (err e, t) w x = refl
finish_keeps (some e) (ok ids, t) w x = refl
finish_keeps none (ok ids, t) w x = envelope_at-mark_published ids x w.outbox

drain_batch_keeps :
    (s : Surroundings) (rs : List Row) (w : World) (x : String)
    → envelope_at x (drain_batch s rs w).1.outbox ≡ envelope_at x w.outbox
drain_batch_keeps s [] w x = refl
drain_batch_keeps s (r ∷ rs) w x = finish_keeps s.commit (publish_all s.broker (r ∷ rs) w.sent) w x

drain_keeps :
    (s : Surroundings) (batch : ℕ) (w : World) (x : String)
    → envelope_at x (drain s batch w).1.outbox ≡ envelope_at x w.outbox
unfolding drain
drain_keeps s batch w x = drain_batch_keeps s (fetch_unpublished s.locked batch w.outbox) w x

unheld : (x : String) (rs : List Row) → holds_id x rs ≡ false → envelope_at x rs ≡ none
unfolding holds_id envelope_at
unheld x [] h = refl
unheld x (r ∷ rs) h = elim (dec_text r.id x) [
  | yes e ↦ let c : true ≡ false = sym (if_pos _ e true (holds_id x rs)) ∙ h in cc
  | no e ↦
      if_neg _ e (some r.envelope) (envelope_at x rs)
      ∙ unheld x rs (sym (if_neg _ e true (holds_id x rs)) ∙ h)
]

-- A new row hides none of the old ones.
beside :
    (r : Row) (x : String) (e : Envelope) (rs : List Row)
    → envelope_at r.id rs ≡ none
    → envelope_at x rs ≡ some e
    → envelope_at x (r ∷ rs) ≡ some e
unfolding envelope_at
beside r x e rs h k = elim (dec_text r.id x) [
  | yes q ↦ let c : none ≡ some e = sym h ∙ ap (λ z. envelope_at z rs) q ∙ k in cc
  | no q ↦ if_neg _ q (some r.envelope) (envelope_at x rs) ∙ k
]

keyed-beside :
    (r : Row) (all rs : List Row)
    → envelope_at r.id all ≡ none
    → AllRows (λ q. envelope_at q.id all ≡ some q.envelope) rs
    → AllRows (λ q. envelope_at q.id (r ∷ all) ≡ some q.envelope) rs
keyed-beside r all [] h k = tt
keyed-beside r all (q ∷ qs) h (k, ks) =
    (beside r q.id q.envelope all h k, keyed-beside r all qs h ks)

at_head : (r : Row) (rs : List Row) → envelope_at r.id (r ∷ rs) ≡ some r.envelope
unfolding envelope_at
at_head r rs = if_pos (dec_text r.id r.id) refl (some r.envelope) (envelope_at r.id rs)

add_row-IsSent :
    (v : Result (Unit {0})) (taken : Bool) (r : Row) (w : World)
    → r.published ≡ false
    → holds_id r.id w.outbox ≡ taken
    → IsSent w
    → IsSent (add_row v taken r w)
add_row-IsSent (err x) taken r w p h k = k
add_row-IsSent (ok u) true r w p h k = k
add_row-IsSent (ok u) false r w p h k = record {
  keyed = (at_head r w.outbox, keyed-beside r w.outbox w.outbox (unheld r.id w.outbox h) k.keyed);
  covered = (rw p tt, k.covered);
}

add_row_keeps :
    (v : Result (Unit {0})) (taken : Bool) (r : Row) (w : World) (x : String) (e : Envelope)
    → holds_id r.id w.outbox ≡ taken
    → envelope_at x w.outbox ≡ some e
    → envelope_at x (add_row v taken r w).outbox ≡ some e
add_row_keeps (err q) taken r w x e h k = k
add_row_keeps (ok u) true r w x e h k = k
add_row_keeps (ok u) false r w x e h k = beside r x e w.outbox (unheld r.id w.outbox h) k

-- What happens to an outbox: a service enqueues an event, or a relay drains a batch in surroundings
-- of its own.
pub data Happening : Type 0 where
  enqueued : String → ℕ → Envelope → Happening
  drained : Surroundings → ℕ → Happening

unfoldable pub happen : Happening → World → World
happen (enqueued id now e) w = enqueue_event id now e w
happen (drained s batch) w = (drain s batch w).1

unfoldable pub happen_all : List Happening → World → World
happen_all [] w = w
happen_all (h ∷ hs) w = happen_all hs (happen h w)

happen-IsSent : (h : Happening) (w : World) → IsSent w → IsSent (happen h w)
unfolding happen enqueue_event
happen-IsSent (enqueued id now e) w v =
    add_row-IsSent (validate e) (holds_id id w.outbox) _ w refl refl v
happen-IsSent (drained s batch) w v = drain-IsSent s batch w v

happen_keeps :
    (h : Happening) (w : World) (x : String) (e : Envelope)
    → envelope_at x w.outbox ≡ some e
    → envelope_at x (happen h w).outbox ≡ some e
unfolding happen enqueue_event
happen_keeps (enqueued id now a) w x e k =
    add_row_keeps (validate a) (holds_id id w.outbox) _ w x e refl k
happen_keeps (drained s batch) w x e k = drain_keeps s batch w x ∙ k

-- Whatever is enqueued and drained, with whatever answers of broker and database and whatever locks
-- of other relays: a row is marked as published only when the broker has taken its event, the ids
-- stay a key, and the event of a row stays in the table as it was.
pub happen_all-IsSent :
    (hs : List Happening) (w : World) (x : String) (e : Envelope)
    → IsSent w
    → envelope_at x w.outbox ≡ some e
    → IsSent (happen_all hs w) × (envelope_at x (happen_all hs w).outbox ≡ some e)
unfolding happen_all
happen_all-IsSent [] w x e v k = (v, k)
happen_all-IsSent (h ∷ hs) w x e v k =
    happen_all-IsSent hs (happen h w) x e (happen-IsSent h w v) (happen_keeps h w x e k)
