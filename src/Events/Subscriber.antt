-- ===== src/Events/Subscriber.antt =====
-- The consumer: `handleMessage` of backend/libs/events/subscriber.go and the dead letters of dlq.go.
-- JSON decoding, the handler of the service and the answer of the broker to a dead letter are
-- parameters.
pub mod Delivery
use final_bds.Prelude.{
  ℕ, zero, suc, ◌+◌, ℤ, pos, leb_ℤ, List, [], ◌∷◌, Option, none, some, if◌then◌else◌, Bool, true,
  false,
}
use final_bds.Errors.{Err, plain, Result, ok, err}
use final_bds.Text.{Text}
use final_bds.Events.{Envelope}
use final_bds.Events.Retry.{RetryPolicy, backoff}
use final_bds.Events.Upcasters.{Registry, upgrade}

-- `DeadLetter`, and the record that `deadLetterRaw` publishes for a message that is no event.
pub data DeadLetter : Type 0 where
  dead : Envelope → Text → Text → Err → ℤ → DeadLetter
  raw : Text → Text → Text → ℤ → Err → DeadLetter

-- What the consumer tells the broker about a message.
pub data Settlement : Type 0 where
  ack term nak : Settlement
  nak_with_delay : ℤ → Settlement

-- A message with its delivery count; `none` where its metadata cannot be read.
pub record Message : Type 0 where
  pub msg_subject : Text
  pub body : Text
  pub delivered : Option ℤ

-- A subscription: its durable name, its normalised policy, its upcasters, its handler. `decode` is
-- `json.Unmarshal` and `accepts` says whether the broker takes a dead letter.
pub record Consumer : Type 0 where
  pub durable : Text
  pub policy : RetryPolicy
  pub upcasters : Option Registry
  pub handler : Envelope → Result (Unit {0})
  pub decode : Text → Result Envelope
  pub accepts : DeadLetter → Bool

-- The `MaxDeliver` that `Subscribe` creates the consumer with: the broker delivers a message no more
-- often.
abbrev pub max_deliver : Consumer → ℤ
max_deliver c = c.policy.max_attempts

-- `publishDeadLetter`, on the dead letters that the broker holds: did it take this one?
unfoldable pub publish_dead_letter :
    Consumer → DeadLetter → List DeadLetter → Bool × List DeadLetter
publish_dead_letter c d letters = if c.accepts d then (true, d ∷ letters) else (false, letters)

abbrev pub attempt_of : Option ℤ → ℤ
attempt_of none = pos 1
attempt_of (some n) = n

-- The chain of upcasters always gives a result, so the first clause is never reached.
abbrev pub result_of : Option (Result Envelope) → Result Envelope
result_of none = err (plain "events: upcast")
result_of (some r) = r

abbrev pub upgraded : Option Registry → Envelope → Result Envelope
upgraded none e = ok e
upgraded (some r) e = result_of (upgrade r e)

-- The event of a message: decoded, and upgraded where the subscription has upcasters.
abbrev pub upgraded_of : Option Registry → Result Envelope → Result Envelope
upgraded_of r (err x) = err x
upgraded_of r (ok e) = upgraded r e

unfoldable pub event_of : Consumer → Message → Result Envelope
event_of c m = upgraded_of c.upcasters (c.decode m.body)

abbrev pub after_dead_letter : Bool × List DeadLetter → Settlement × List DeadLetter
after_dead_letter (true, letters) = (term, letters)
after_dead_letter (false, letters) = (nak, letters)

-- What follows the handler.
abbrev pub after_handler :
    Consumer
    → Message
    → Envelope
    → Result (Unit {0})
    → List DeadLetter
    → Settlement × List DeadLetter
after_handler c m e (ok u) letters = (ack, letters)
after_handler c m e (err x) letters =
    let attempt = attempt_of m.delivered in
    if leb_ℤ c.policy.max_attempts attempt
    then after_dead_letter
        (publish_dead_letter c (dead e m.msg_subject c.durable x attempt) letters)
    else (nak_with_delay (backoff c.policy attempt), letters)

-- What follows decoding and upgrading: a message that is no event is dead-lettered as it is, and the
-- answer of the broker is ignored.
abbrev pub after_event :
    Consumer → Message → Result Envelope → List DeadLetter → Settlement × List DeadLetter
after_event c m (err x) letters = (
  term,
  (publish_dead_letter c (raw c.durable m.msg_subject m.body (attempt_of m.delivered) x) letters).1,
)
after_event c m (ok e) letters = after_handler c m e (c.handler e) letters

-- `handleMessage`.
unfoldable pub handle_message : Consumer → Message → List DeadLetter → Settlement × List DeadLetter
unfolding event_of publish_dead_letter
handle_message c m letters = after_event c m (event_of c m) letters

-- The broker, which delivers a message again and again: the calls of `handleMessage` with the delivery
-- counts of a list.
unfoldable pub redeliver :
    Consumer → Message → List ℤ → List DeadLetter → List Settlement × List DeadLetter
redeliver c m [] letters = ([], letters)
redeliver c m (n ∷ ns) letters =
    let first = handle_message c (record m { delivered = some n }) letters in
    let later = redeliver c m ns first.1 in (first.0 ∷ later.0, later.1)
