-- ===== src/Events/Relay/Marks.antt =====
-- The marks of a batch on the table, and the invariant of the outbox: lemmas about Events.Relay.
use final_bds.Prelude.{
  ℕ, String, dec_text, ite, List, [], ◌∷◌, Option, none, some, if◌then◌else◌, Bool, true, false,
  ◌≡◌, inl, inr, refl, ap, sym, ◌∙◌, arith, Bool-cases,
}
use mathlib.Core.Path.{subst}
use final_bds.Events.{Envelope}
use final_bds.Events.Relay.{Row, World, fetch_unpublished, in_ids, mark_published}
use final_bds.Events.Relay.Rows.{AllRows, AllRows-at, Among-fetch, ids_of, in_ids-Among}
use final_bds.Events.Relay.Sending.{Sent, SentIf, Extends}

-- The event that the table holds under an id.
unfoldable pub envelope_at : String → List Row → Option Envelope
envelope_at x [] = none
envelope_at x (r ∷ rs) = ite (dec_text r.id x) (some r.envelope) (envelope_at x rs)

-- The ids of the table are a key, and the event of every row that is marked was sent.
pub record IsSent (w : World) : Type 0 where
  pub keyed : AllRows (λ r. envelope_at r.id w.outbox ≡ some r.envelope) w.outbox
  pub covered : AllRows (λ r. SentIf r.published r.envelope w.sent) w.outbox

abbrev pub marked : List String → Row → Row
marked ids r = if in_ids r.id ids then record r { published = true } else r

marked-id : (ids : List String) (r : Row) → (marked ids r).id ≡ r.id
marked-id ids r = ground arith

marked-envelope : (ids : List String) (r : Row) → (marked ids r).envelope ≡ r.envelope
marked-envelope ids r = ground arith

-- Marks change no id and no event.
pub envelope_at-mark_published :
    (ids : List String) (x : String) (rs : List Row)
    → envelope_at x (mark_published ids rs) ≡ envelope_at x rs
unfolding envelope_at mark_published
envelope_at-mark_published ids x [] = refl
envelope_at-mark_published ids x (r ∷ rs) =
    rw (marked-id ids r, marked-envelope ids r, envelope_at-mark_published ids x rs) refl

pub keyed-mark_published :
    (ids : List String) (all rs : List Row)
    → AllRows (λ r. envelope_at r.id all ≡ some r.envelope) rs
    → AllRows
        (λ r. envelope_at r.id (mark_published ids all) ≡ some r.envelope)
        (mark_published ids rs)
unfolding mark_published
keyed-mark_published ids all [] h = tt
keyed-mark_published ids all (r ∷ rs) (h, hs) = (
  envelope_at-mark_published ids (marked ids r).id all
      ∙ ap (λ x. envelope_at x all) (marked-id ids r)
      ∙ h
      ∙ ap some (sym (marked-envelope ids r)),
  keyed-mark_published ids all rs hs,
)

-- The rows with one of the ids were sent.
pub record Covers (ids : List String) (all : List Row) (after : List Envelope) : Type 0 where
  pub sent_at :
      (r : Row)
      → in_ids r.id ids ≡ true
      → envelope_at r.id all ≡ some r.envelope
      → Sent r.envelope after

SentIf-Extends :
    (b : Bool) (e : Envelope) {s t : List Envelope} → Extends s t → SentIf b e s → SentIf b e t
SentIf-Extends true e x h = x.still e h
SentIf-Extends false e x h = tt

pub covered-mark_published :
    (ids : List String) (all rs : List Row) (s t : List Envelope)
    → Extends s t
    → Covers ids all t
    → AllRows (λ r. envelope_at r.id all ≡ some r.envelope) rs
    → AllRows (λ r. SentIf r.published r.envelope s) rs
    → AllRows (λ r. SentIf r.published r.envelope t) (mark_published ids rs)
unfolding mark_published
covered-mark_published ids all [] s t x c k h = tt
covered-mark_published ids all (r ∷ rs) s t x c (k, ks) (h, hs) = (
  elim (Bool-cases (in_ids r.id ids)) [
    | inl in_batch ↦ rw in_batch (c.sent_at r in_batch k)
    | inr not_in ↦ rw not_in (SentIf-Extends r.published r.envelope x h)
  ],
  covered-mark_published ids all rs s t x c ks hs,
)

pub covered-Extends :
    (rs : List Row) {s t : List Envelope}
    → Extends s t
    → AllRows (λ r. SentIf r.published r.envelope s) rs
    → AllRows (λ r. SentIf r.published r.envelope t) rs
covered-Extends [] x h = tt
covered-Extends (r ∷ rs) x (h, hs) =
    (SentIf-Extends r.published r.envelope x h, covered-Extends rs x hs)

pub batch-Covers :
    (locked : String → Bool) (n : ℕ) (w : World) (after : List Envelope)
    → IsSent w
    → AllRows (λ r. Sent r.envelope after) (fetch_unpublished locked n w.outbox)
    → Covers (ids_of (fetch_unpublished locked n w.outbox)) w.outbox after
batch-Covers locked n w after v d = record {
  sent_at = λ r h k.
      let (f, m, e) = in_ids-Among r.id (fetch_unpublished locked n w.outbox) h in
      let at_f =
        AllRows-at (λ q. envelope_at q.id w.outbox ≡ some q.envelope) f w.outbox v.keyed
          (Among-fetch locked n f w.outbox m).0 in
      let same : some f.envelope ≡ some r.envelope =
        sym at_f ∙ ap (λ x. envelope_at x w.outbox) e ∙ k in
      let same_event : f.envelope ≡ r.envelope = cc in
      subst (λ z. Sent z after) same_event
        (AllRows-at (λ q. Sent q.envelope after) f (fetch_unpublished locked n w.outbox) d m);
}
