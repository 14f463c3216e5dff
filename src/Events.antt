-- ===== src/Events.antt =====
-- The event framework (backend/libs/events): the envelope of envelope.go.
pub mod Subjects
pub mod Upcasters
pub mod Subscriber
pub mod Relay
pub mod Retry
use final_bds.Prelude.{ℕ, ℤ, pos, ltb_ℤ, Bool, true, false, [], if◌then◌else◌}
use final_bds.Errors.{Err, plain, Result, ok, err}
use final_bds.Text.{Text, is_blank}

-- `Envelope`, with the JSON of the payload as a text. Of the other fields the framework reads none.
pub record Envelope : Type 0 where
  pub event_id : Text
  pub event_type : Text
  pub version : ℤ
  pub org_id : Text
  pub correlation_id : Text
  pub payload : Text

-- `Validate`.
unfoldable pub validate : Envelope → Result (Unit {0})
unfolding is_blank
validate e =
    if is_blank e.event_id
    then err (plain "events: envelope missing eventId")
    else if is_blank e.event_type
    then err (plain "events: envelope missing type")
    else if ltb_ℤ e.version (pos 1)
    then err (plain "events: envelope version must be >= 1")
    else if is_blank e.org_id
    then err (plain "events: envelope missing orgId")
    else ok tt
