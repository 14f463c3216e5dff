-- ===== src/Events/Retry.antt =====
-- Redelivery delays: backend/libs/events/retry.go. A Duration is an int64 of nanoseconds.
pub mod Bounds
use final_bds.Prelude.{
  ℕ, zero, suc, ◌+◌, ◌-◌, ◌*◌, ◌≤◌, ◌<◌, ℤ, pos, negsuc, ltb_ℤ, leb_ℤ, ◌≤ℤ◌, List, [], ◌∷◌, ◌++◌,
  Option, none, some, if◌then◌else◌, ltb, leb, ◌≡◌, refl, arith, true, false, length,
}
use Prim.Native.Nat.{◌^◌, ◌%◌}

-- `RetryPolicy`.
pub record RetryPolicy : Type 0 where
  pub max_attempts : ℤ
  pub base_delay : ℤ
  pub max_delay : ℤ

-- `DefaultRetryPolicy`: 5 attempts, 1s to 30s.
abbrev pub default_retry_policy : RetryPolicy
default_retry_policy = record {
  max_attempts = pos 5;
  base_delay = pos 1_000_000_000;
  max_delay = pos 30_000_000_000;
}

abbrev or_default : ℤ → ℤ → ℤ
or_default value fallback = if leb_ℤ value (pos 0) then fallback else value

abbrev sound_max : ℤ → ℤ → ℤ
sound_max base max =
    if ltb_ℤ max base
    then if ltb_ℤ default_retry_policy.max_delay base then base else default_retry_policy.max_delay
    else max

-- `normalized`.
unfoldable pub normalized : RetryPolicy → RetryPolicy
normalized p =
    let base = or_default p.base_delay default_retry_policy.base_delay in
    record {
      max_attempts = or_default p.max_attempts default_retry_policy.max_attempts;
      base_delay = base;
      max_delay = sound_max base p.max_delay;
    }

-- The bit pattern of an int64 and back; `delay *= 2` wraps.
abbrev to_word : ℤ → ℕ
to_word (pos n) = n % 2 ^ 64
to_word (negsuc n) = 2 ^ 64 - 1 - n % 2 ^ 64

abbrev of_word : ℕ → ℤ
of_word w = if ltb w (2 ^ 63) then pos w else negsuc (2 ^ 64 - 1 - w)

unfoldable pub double : ℤ → ℤ
double d = of_word (2 * to_word d % 2 ^ 64)

-- The loop of `backoff` with the rounds that are left, and what follows it.
unfoldable pub grow : ℕ → ℤ → ℤ → ℤ
unfolding double
grow zero max delay = if ltb_ℤ max delay then max else delay
grow (suc n) max delay =
    let next = double delay in let more = grow n max next in if leb_ℤ max next then max else more

-- The number of rounds of `for i := 1; i < attempt; i++`.
abbrev pub rounds : ℤ → ℕ
rounds (pos n) = n - 1
rounds (negsuc n) = 0

-- `backoff`.
unfoldable pub backoff : RetryPolicy → ℤ → ℤ
unfolding grow
backoff p attempt = grow (rounds attempt) p.max_delay p.base_delay

-- The loop of `backoffSchedule`, from the attempt `i + 1` on.
unfoldable pub delays_from : RetryPolicy → ℕ → ℕ → List ℤ
unfolding backoff
delays_from p i zero = []
delays_from p i (suc n) = backoff p (pos (i + 1)) ∷ delays_from p (i + 1) n

-- `backoffSchedule`: the gaps between the attempts.
unfoldable pub backoff_schedule : RetryPolicy → List ℤ
unfolding delays_from
backoff_schedule p = delays_from p 0 (rounds p.max_attempts)
