-- ===== src/Events/Retry/Bounds.antt =====
-- The delays in closed form and their bounds: proofs about Events.Retry.
use final_bds.Prelude.{
  ℕ, zero, suc, ◌+◌, ◌-◌, ◌*◌, ◌≤◌, ◌<◌, ℤ, pos, negsuc, ◌≤ℤ◌, pos_part, List, [], ◌∷◌, ◌≡◌, refl,
  ap, ◌∙◌, sym, arith, length,
}
use Prim.Native.Nat.{◌^◌, min}
use mathlib.Core.Path.{subst}
use final_bds.Events.Retry.{
  RetryPolicy, normalized, double, grow, backoff, backoff_schedule, delays_from, rounds,
}

double-pos : (d : ℕ) → d < 2 ^ 62 → double (pos d) ≡ pos (2 * d)
unfolding double
double-pos d h = ground arith

power_suc : (d n : ℕ) → d * 2 ^ suc n ≡ 2 * d * 2 ^ n
power_suc d n = grind arith

power_ge : (d n : ℕ) → d ≤ d * 2 ^ n
power_ge d zero = omega arith
power_ge d (suc n) = let e = power_suc d n in omega (arith, e, power_ge (2 * d) n)

grow_lem :
    (n max d : ℕ) → d ≤ max → max < 2 ^ 62 → grow n (pos max) (pos d) ≡ pos (min (d * 2 ^ n) max)
unfolding grow
grow_lem zero max d h k = ground arith
grow_lem (suc n) max d h k =
    rw (double-pos d (omega arith))
      (ground (arith, power_suc d n, power_ge (2 * d) n, grow_lem n max (2 * d)))

-- The two delays are small enough to be doubled in an int64.
pub record Fits (p : RetryPolicy) : Type 0 where
  pub base_fits : pos_part p.base_delay < 2 ^ 62
  pub max_fits : pos_part p.max_delay < 2 ^ 62

abbrev base_of : RetryPolicy → ℕ
base_of p = pos_part (normalized p).base_delay

abbrev max_of : RetryPolicy → ℕ
max_of p = pos_part (normalized p).max_delay

record IsSound (p : RetryPolicy) : Type 0 where
  base_eq : p.base_delay ≡ pos (pos_part p.base_delay)
  max_eq : p.max_delay ≡ pos (pos_part p.max_delay)
  ordered : pos_part p.base_delay ≤ pos_part p.max_delay

-- Normalising makes every policy usable, whatever its numbers are: one attempt at least, and
-- 0 < base delay ≤ maximal delay.
pub normalized_sound :
    (p : RetryPolicy)
    → (pos 1 ≤ℤ (normalized p).max_attempts)
      × (pos 1 ≤ℤ (normalized p).base_delay)
      × ((normalized p).base_delay ≤ℤ (normalized p).max_delay)
unfolding normalized
normalized_sound p = ground arith

normalized-IsSound : (p : RetryPolicy) → IsSound (normalized p)
unfolding normalized
normalized-IsSound p = ground arith

normalized-Fits : (p : RetryPolicy) → Fits p → max_of p < 2 ^ 62
unfolding normalized
normalized-Fits p h = ground arith

-- The delay before the redelivery after attempt `n + 1` is the base delay doubled `n` times, or the
-- maximal delay where that is less; no doubling wraps.
pub backoff_closed :
    (p : RetryPolicy) (n : ℕ)
    → Fits p
    → backoff (normalized p) (pos (suc n))
      ≡ pos (min (pos_part (normalized p).base_delay * 2 ^ n) (pos_part (normalized p).max_delay))
unfolding backoff
backoff_closed p n h =
    let s = normalized-IsSound p in
    let e : suc n - 1 ≡ n = omega arith in
    rw (e, s.base_eq, s.max_eq) (grow_lem n (max_of p) (base_of p) s.ordered (normalized-Fits p h))

-- Delays that never fall, from `low` on, and stay at `high` at most.
abbrev pub Rises : ℤ → ℤ → List ℤ → Type 0
Rises low high [] = Unit
Rises low high (d ∷ ds) = (low ≤ℤ d) × (d ≤ℤ high) × Rises d high ds

backoff_at :
    (p : RetryPolicy) (i : ℕ)
    → Fits p
    → backoff (normalized p) (pos (i + 1)) ≡ pos (min (base_of p * 2 ^ i) (max_of p))
backoff_at p i h = let e : i + 1 ≡ suc i = omega arith in rw e (backoff_closed p i h)

length-delays_from : (p : RetryPolicy) (i n : ℕ) → length (delays_from p i n) ≡ n
unfolding delays_from
length-delays_from p i zero = refl
length-delays_from p i (suc n) = omega (arith, length-delays_from p (i + 1) n)

next_delay : (b m i : ℕ) → min (b * 2 ^ i) m ≤ min (b * 2 ^ (i + 1)) m
next_delay b m i =
    let e : i + 1 ≡ suc i = omega arith in
    rw (e, power_suc b i) (let k : b * 2 ^ i ≤ 2 * b * 2 ^ i = grind arith in ground arith)

delays_from-Rises :
    (p : RetryPolicy) (i n low : ℕ)
    → Fits p
    → low ≤ min (base_of p * 2 ^ i) (max_of p)
    → Rises (pos low) (pos (max_of p)) (delays_from (normalized p) i n)
unfolding delays_from
delays_from-Rises p i zero low h k = tt
delays_from-Rises p i (suc n) low h k =
    let top = min (base_of p * 2 ^ i) (max_of p) in
    rw (backoff_at p i h) (
      omega arith,
      ground arith,
      delays_from-Rises p (i + 1) n top h (next_delay (base_of p) (max_of p) i),
    )

suc-rounds : (z : ℤ) → pos 1 ≤ℤ z → suc (rounds z) ≡ pos_part z
suc-rounds (pos n) h = omega arith
suc-rounds (negsuc n) h = absurd (omega arith)

first_delay : (b m : ℕ) → b ≤ m → b ≤ min (b * 2 ^ 0) m
first_delay b m h = ground arith

delays_along :
    {low high : ℤ} {a b : ℕ} (ds : List ℤ)
    → low ≡ pos a
    → high ≡ pos b
    → Rises (pos a) (pos b) ds
    → Rises low high ds
delays_along {high} {a} ds e k h =
    subst (λ x. Rises x high ds) (sym e) (subst (λ x. Rises (pos a) x ds) (sym k) h)

-- The schedule of a normalised policy has one delay fewer than attempts; the delays begin at the
-- base delay or later, never fall, and never exceed the maximal delay.
pub backoff_schedule-Rises :
    (p : RetryPolicy)
    → Fits p
    → (suc (length (backoff_schedule (normalized p))) ≡ pos_part (normalized p).max_attempts)
      × Rises (normalized p).base_delay (normalized p).max_delay (backoff_schedule (normalized p))
unfolding backoff_schedule
backoff_schedule-Rises p h =
    let s = normalized-IsSound p in
    let n = rounds (normalized p).max_attempts in
    (
      ap suc (length-delays_from (normalized p) 0 n)
          ∙ suc-rounds (normalized p).max_attempts (normalized_sound p).0,
      delays_along _ s.base_eq s.max_eq
          (delays_from-Rises p 0 n (base_of p) h (first_delay (base_of p) (max_of p) s.ordered)),
    )
