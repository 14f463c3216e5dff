-- ===== src/Events/Upcasters.antt =====
-- The registry of upcasters: backend/libs/events/versioning.go.
pub mod Rank
pub mod Chain
use final_bds.Prelude.{
  ℕ, zero, suc, ◌-◌, ◌≤◌, ◌==◌, ℤ, pos, negsuc, eq_ℤ, List, [], ◌∷◌, ◌++◌, Option, none, some, ite,
  if◌then◌else◌, length, Bool, true, false,
}
use final_bds.Errors.{Err, plain, annotated, Result, ok, err}
use final_bds.Text.{Text, Text-discrete}
use final_bds.Text.Numbers.{itoa}
use final_bds.Events.{Envelope}

-- `Upcaster`: the function of a service that migrates an envelope by one version.
abbrev pub Upcaster : Type 0
Upcaster = Envelope → Result Envelope

-- `Registry`, whose map is keyed by "<type>:<fromVersion>".
abbrev pub Registry : Type 0
Registry = List (Text × Upcaster)

-- `upcasterKey`.
unfoldable pub upcaster_key : Text → ℤ → Text
upcaster_key event_type from_version = event_type ++ (b':' ∷ itoa from_version)

-- The lookup in the map.
unfoldable pub find_upcaster : Text → Registry → Option Upcaster
unfolding Text-discrete
find_upcaster key [] = none
find_upcaster key ((k, up) ∷ r) = ite (Text-discrete k key) (some up) (find_upcaster key r)

abbrev add_unless_found : Option Upcaster → Text → Upcaster → Registry → Option Registry
add_unless_found (some old) key up r = none
add_unless_found none key up r = some ((key, up) ∷ r)

-- `Register`: `none` is the panic on a key that is taken.
unfoldable pub register : Text → ℤ → Upcaster → Registry → Option Registry
unfolding upcaster_key find_upcaster
register event_type from_version up r =
    let key = upcaster_key event_type from_version in
    add_unless_found (find_upcaster key r) key up r

-- The largest value of a Go int, which has 64 bits.
abbrev pub max_int : ℕ
max_int = 9_223_372_036_854_775_807

-- The values of a Go int.
abbrev pub IsInt : ℤ → Type 0
IsInt (pos n) = n ≤ max_int
IsInt (negsuc n) = n ≤ max_int

-- `prevVersion+1`, which wraps around.
unfoldable pub next_version : ℤ → ℤ
next_version (pos n) = if n == max_int then negsuc max_int else pos (suc n)
next_version (negsuc zero) = pos 0
next_version (negsuc (suc n)) = negsuc n

abbrev pub wrong_version : Err
wrong_version = plain "events: upcaster must produce the next version"

-- The rest of a round, behind the call of the upcaster and behind the lookup; `again` is the loop.
abbrev pub check_version :
    Bool → (Envelope → Option (Result Envelope)) → Envelope → Option (Result Envelope)
check_version true again next = again next
check_version false again next = some (err wrong_version)

abbrev pub upcasted :
    Result Envelope → (Envelope → Option (Result Envelope)) → ℤ → Option (Result Envelope)
upcasted (err x) again version = some (err (annotated "events: upcast" x))
upcasted (ok next) again version =
    check_version (eq_ℤ next.version (next_version version)) again next

abbrev pub looked_up :
    Option Upcaster → (Envelope → Option (Result Envelope)) → Envelope → Option (Result Envelope)
looked_up none again e = some (ok e)
looked_up (some up) again e = upcasted (up e) again e.version

-- The loop of `Upgrade`; `none` means that the fuel ran out.
unfoldable pub upgrade_loop : ℕ → Registry → Envelope → Option (Result Envelope)
unfolding next_version upcaster_key find_upcaster
upgrade_loop zero r e = none
upgrade_loop (suc fuel) r e =
    looked_up (find_upcaster (upcaster_key e.event_type e.version) r) (upgrade_loop fuel r) e

-- `Upgrade`. Each round uses up an upcaster, so one round more than there are upcasters is enough.
unfoldable pub upgrade : Registry → Envelope → Option (Result Envelope)
unfolding upgrade_loop
upgrade r e = upgrade_loop (suc (length r)) r e
