-- ===== src/Samples/Bus.antt =====
-- The event framework at concrete inputs.
use final_bds.Prelude.{
  sym, ap, ◌∙◌, if_neg, ℕ_discrete, ◌*◌, pos, ◌≤ℤ◌, pos_part, List, [], ◌∷◌, ◌++◌, map, none, some,
  true, false, ◌≡◌, refl, arith, dec_text,
}
use Prim.Native.Nat.{◌^◌, min}
use final_bds.Errors.{plain, Result, ok, err}
use final_bds.Text.{Text, Text-discrete, is_blank}
use final_bds.Text.Numbers.{itoa, digits}
use final_bds.Events.{Envelope, validate}
use final_bds.Events.Subjects.{subject_for, parse_subject, parse_subject-subject_for}
use final_bds.Events.Retry.{RetryPolicy, normalized, backoff, backoff_schedule}
use final_bds.Events.Retry.Bounds.{backoff_closed}
use final_bds.Events.Upcasters.{
  max_int, Registry, upcaster_key, find_upcaster, upgrade, upgrade_loop, next_version,
}
use final_bds.Events.Upcasters.Chain.{IsBelowMax, upgrade_total, upgrade_latest}
use final_bds.Events.Upcasters.Rank.{key_version, key_version-upcaster_key}
use final_bds.Events.Subscriber.{dead, nak_with_delay, term, Message, Consumer, event_of, redeliver}
use final_bds.Events.Subscriber.Delivery.{attempts_from, failing_handler_buried}
use final_bds.Events.Relay.{World, Surroundings, tick}
use final_bds.Events.Relay.Rows.{AllRows}
use final_bds.Events.Relay.Sending.{Sent}
use final_bds.Events.Relay.Marks.{IsSent, envelope_at}
use final_bds.Events.Relay.AtLeastOnce.{Happening, enqueued, drained, happen_all, happen_all-IsSent}
use final_bds.Events.Relay.Clears.{tick_clears}
use final_bds.Events.Relay.Backlog.{count_pending}

-- "a.v1" and "evt".
abbrev kind : Text
kind = b'a' ∷ b'.' ∷ b'v' ∷ b'1' ∷ []

abbrev evt : Text
evt = b'e' ∷ b'v' ∷ b't' ∷ []

parse_subject-subject_for_example :
    parse_subject evt (subject_for evt kind (pos 12)) ≡ some (kind, pos 12)
parse_subject-subject_for_example =
    parse_subject-subject_for evt kind 12 (omega arith) (omega arith)

abbrev brisk : RetryPolicy
brisk = record { max_attempts = pos 3; base_delay = pos 1000; max_delay = pos 3000 }

backoff_closed_example :
    backoff (normalized brisk) (pos 2)
    ≡ pos (
        min
          (pos_part (normalized brisk).base_delay * 2 ^ 1)
          (pos_part (normalized brisk).max_delay))
backoff_closed_example =
    backoff_closed brisk 1 (record { base_fits = omega arith; max_fits = omega arith })

abbrev first_event : Envelope
first_event = record {
  event_id = b'e' ∷ [];
  event_type = kind;
  version = pos 1;
  org_id = b'o' ∷ [];
  correlation_id = [];
  payload = [];
}

abbrev second_event : Envelope
second_event = record first_event { version = pos 2 }

abbrev registry : Registry
registry = (kind ++ (b':' ∷ b'1' ∷ []), λ e. ok (record e { version = pos 2 })) ∷ []

upgrade_total_example : (res : Result Envelope) × (upgrade registry first_event ≡ some res)
upgrade_total_example = upgrade_total registry first_event (omega arith) (omega arith)

upgraded_once : upgrade registry first_event ≡ some (ok second_event)
unfolding upgrade upgrade_loop upcaster_key find_upcaster next_version itoa digits Text-discrete
    ℕ_discrete
upgraded_once = refl

abbrev first_key : Text
first_key = kind ++ (b':' ∷ b'1' ∷ [])

key_of_first : key_version first_key ≡ some (pos 1)
unfolding upcaster_key itoa digits
key_of_first = key_version-upcaster_key kind (pos 1)

registry-IsBelowMax : IsBelowMax registry
unfolding find_upcaster
registry-IsBelowMax t = elim (Text-discrete first_key (upcaster_key t (pos max_int))) [
  | yes p ↦
      let clash : some (pos 1) ≡ some (pos max_int) =
        sym key_of_first ∙ ap key_version p ∙ key_version-upcaster_key t (pos max_int) in
      absurd (ground arith)
  | no p ↦ if_neg _ p (some _) none
]

upgrade_latest_example :
    (pos 1 ≤ℤ pos 2)
    × (find_upcaster (upcaster_key kind (pos 2)) registry ≡ none)
    × (upgrade registry second_event ≡ some (ok second_event))
upgrade_latest_example =
    upgrade_latest registry first_event second_event registry-IsBelowMax upgraded_once

-- A consumer whose handler always fails, and one whose messages are no events.
abbrev failing : Consumer
failing = record {
  durable = b'c' ∷ [];
  policy = brisk;
  upcasters = some registry;
  handler = λ e. err (plain "boom");
  decode = λ body. ok first_event;
  accepts = λ d. true;
}

abbrev message : Message
message = record { msg_subject = evt; body = []; delivered = some (pos 3) }

failing_event : event_of failing message ≡ ok second_event
unfolding event_of upgrade upgrade_loop upcaster_key find_upcaster next_version itoa digits
    Text-discrete ℕ_discrete
failing_event = refl

failing_handler_buried_example : redeliver failing message (attempts_from 0 3) [] ≡ (
  map nak_with_delay (backoff_schedule failing.policy) ++ (term ∷ []),
  dead second_event message.msg_subject failing.durable (plain "boom") (pos 3) ∷ [],
)
failing_handler_buried_example =
    failing_handler_buried failing message second_event (plain "boom") 2 [] failing_event refl
      (λ d. refl) refl

abbrev healthy : Surroundings
healthy = record { locked = λ i. false; broker = λ e. none; commit = none }

-- The broker is away, and the commit fails.
abbrev troubled : Surroundings
troubled = record {
  locked = λ i. false;
  broker = λ e. some (plain "no responders");
  commit = some (plain "database: commit");
}

abbrev one_row : World
one_row = record {
  outbox = record { id = "r1"; envelope = first_event; created_at = 5; published = false } ∷ [];
  sent = [];
}

found : envelope_at "r1" one_row.outbox ≡ some first_event
unfolding envelope_at dec_text
found = refl

abbrev happenings : List Happening
happenings = drained troubled 100 ∷ enqueued "r2" 6 second_event ∷ drained healthy 100 ∷ []

happen_all-IsSent_example :
    IsSent (happen_all happenings one_row)
    × (envelope_at "r1" (happen_all happenings one_row).outbox ≡ some first_event)
happen_all-IsSent_example =
    happen_all-IsSent happenings one_row "r1" first_event
      (record { keyed = (found, tt); covered = (tt, tt) }) found

valid_row : validate first_event ≡ ok tt
unfolding validate is_blank
valid_row = refl

tick_clears_example :
    (w : World) × (tick 2 healthy 100 one_row ≡ some w)
    × AllRows (λ r. Sent r.envelope w.sent) w.outbox
unfolding count_pending
tick_clears_example =
    tick_clears 2 healthy 100 one_row
      (record { unlocked = λ i. refl; taken = λ e. refl; committed = refl }) (omega arith)
      (valid_row, tt) (record { keyed = (found, tt); covered = (tt, tt) }) (omega arith)
