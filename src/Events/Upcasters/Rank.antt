-- ===== src/Events/Upcasters/Rank.antt =====
-- How many upcasters may still be used from a version on, read off the keys: for proofs about
-- Events.Upcasters.
use final_bds.Prelude.{
  Bool-cases, inl, inr, ◌⊎◌, ◌<◌, leb, ◌-◌, ℕ, zero, suc, ◌+◌, ◌≤◌, ℤ, pos, negsuc, [], ◌∷◌, ◌++◌,
  Option, none, some, if◌then◌else◌, length, true, ◌≡◌, refl, ap, ◌∙◌, arith, ◌==◌, if_neg, ◌≢◌,
}
use mathlib.Core.Path.{subst}
use final_bds.Text.{Text, Text-discrete}
use final_bds.Text.Numbers.{itoa, split_last, digits_value, after_prefix, digits}
use final_bds.Text.Numbers.RoundTrip.{
  split_last-append, split_last-all_digits, all_digits-digits, digits_value_round, all_digits,
  starts_digit, nonempty-digits,
}
use final_bds.Events.Upcasters.{
  max_int, IsInt, Upcaster, Registry, upcaster_key, find_upcaster, next_version,
}

negated : ℕ → ℤ
negated zero = pos 0
negated (suc n) = negsuc n

value_as : (ℕ → ℤ) → Option ℕ → Option ℤ
value_as f none = none
value_as f (some n) = some (f n)

-- The number that stands in a text, without a bound.
read_int : Text → Option ℤ
unfolding value_as negated
read_int [] = none
read_int (c ∷ s) =
    if c == b'-' then value_as negated (digits_value 0 s) else value_as pos (digits_value 0 (c ∷ s))

read_digits :
    (s : Text) (n : ℕ)
    → all_digits s ≡ true
    → digits_value 0 s ≡ some n
    → s ≢ []
    → read_int s ≡ some (pos n)
unfolding read_int
read_digits [] n a v e = absurd (e refl)
read_digits (c ∷ s) n a v e = ground (arith, starts_digit c s a)

read_int-itoa : (v : ℤ) → read_int (itoa v) ≡ some v
unfolding itoa
read_int-itoa (pos n) =
    read_digits (digits (suc n) n) n (all_digits-digits (suc n) n)
      (digits_value_round (suc n) n (omega arith)) (nonempty-digits n n)
read_int-itoa (negsuc n) =
    unfold read_int in
    ap (value_as negated) (digits_value_round (suc (suc n)) (suc n) (omega arith))

behind_colon : Option (Text × Text) → Option ℤ
unfolding read_int
behind_colon none = none
behind_colon (some (before, behind)) = read_int behind

-- The version in a key.
pub key_version : Text → Option ℤ
unfolding behind_colon
key_version k = behind_colon (split_last (b':' ∷ []) k)

no_colon : (v : ℤ) → split_last (b':' ∷ []) (itoa v) ≡ none
unfolding itoa split_last after_prefix
no_colon (pos n) =
    split_last-all_digits b':' [] (digits (suc n) n) refl (all_digits-digits (suc n) n)
no_colon (negsuc n) =
    rw
      (split_last-all_digits b':' [] (digits (suc (suc n)) (suc n)) refl
        (all_digits-digits (suc (suc n)) (suc n)))
      refl

split_key : (t : Text) (v : ℤ) → split_last (b':' ∷ []) (t ++ (b':' ∷ itoa v)) ≡ some (t, itoa v)
unfolding split_last after_prefix
split_key t v = split_last-append (b':' ∷ []) t (itoa v) (rw (no_colon v) refl)

pub key_version-upcaster_key : (t : Text) (v : ℤ) → key_version (upcaster_key t v) ≡ some v
unfolding key_version upcaster_key
key_version-upcaster_key t v = ap behind_colon (split_key t v) ∙ read_int-itoa v

-- The ints in a row, from the least one on.
place : ℤ → ℕ
place (pos n) = n + 9_223_372_036_854_775_808
place (negsuc n) = max_int - n

-- The steps from one int to another, with the wrap around.
pub ahead : ℤ → ℤ → ℕ
unfolding place
ahead v w =
    if leb (place v) (place w)
    then place w - place v
    else place w + 18_446_744_073_709_551_616 - place v

pub ahead_self : (v : ℤ) → ahead v v ≡ 0
unfolding ahead
ahead_self v = ground arith

pub next_version-IsInt : (v : ℤ) → IsInt v → IsInt (next_version v)
unfolding next_version
next_version-IsInt (pos n) h = elim (Bool-cases (n == max_int)) [
  | inl e ↦ rw e (omega arith)
  | inr e ↦ rw e (ground arith)
]
next_version-IsInt (negsuc zero) h = omega arith
next_version-IsInt (negsuc (suc n)) h = omega arith

place_bound : (v : ℤ) → IsInt v → place v < 18_446_744_073_709_551_616
unfolding place
place_bound (pos n) h = omega arith
place_bound (negsuc n) h = omega arith

place_next :
    (v : ℤ)
    → IsInt v
    → (place (next_version v) ≡ suc (place v))
      ⊎ ((place (next_version v) ≡ 0) × (suc (place v) ≡ 18_446_744_073_709_551_616))
unfolding place next_version
place_next (pos n) h = ground arith
place_next (negsuc zero) h = ground arith
place_next (negsuc (suc n)) h = ground arith

pub ahead-next_version :
    (v w : ℤ) (k : ℕ)
    → IsInt v
    → IsInt w
    → ahead v w ≡ k
    → suc k < 18_446_744_073_709_551_616
    → ahead v (next_version w) ≡ suc k
unfolding ahead
ahead-next_version v w k iv iw h b =
    ground (arith, place_next w iw, place_bound v iv, place_bound w iw)

-- An upcaster counts while the version in its key is `k` steps or more ahead of `v`.
counts : ℤ → ℕ → Option ℤ → ℕ
counts v k none = 0
counts v k (some w) = if leb k (ahead v w) then 1 else 0

counts-suc : (v : ℤ) (k : ℕ) (o : Option ℤ) → counts v (suc k) o ≤ counts v k o
unfolding counts
counts-suc v k none = omega arith
counts-suc v k (some w) = ground arith

counts_one : (v : ℤ) (k : ℕ) (o : Option ℤ) → counts v k o ≤ 1
unfolding counts
counts_one v k none = omega arith
counts_one v k (some w) = ground arith

-- The upcasters that may still be used after `k` rounds from version `v`.
pub rank : ℤ → ℕ → Registry → ℕ
rank v k [] = 0
rank v k ((key, up) ∷ r) = counts v k (key_version key) + rank v k r

pub rank-le-length : (v : ℤ) (k : ℕ) (r : Registry) → rank v k r ≤ length r
unfolding rank
rank-le-length v k [] = omega arith
rank-le-length v k ((key, up) ∷ r) =
    omega (arith, rank-le-length v k r, counts_one v k (key_version key))

rank-suc : (v : ℤ) (k : ℕ) (r : Registry) → rank v (suc k) r ≤ rank v k r
unfolding rank
rank-suc v k [] = omega arith
rank-suc v k ((key, up) ∷ r) = omega (arith, rank-suc v k r, counts-suc v k (key_version key))

counts_at :
    (v w : ℤ) (k : ℕ) (o : Option ℤ)
    → o ≡ some w
    → ahead v w ≡ k
    → suc (counts v (suc k) o) ≤ counts v k o
unfolding counts
counts_at v w k o e h = rw (e, h) (ground arith)

pub rank-found :
    (key : Text) (v w : ℤ) (k : ℕ) (r : Registry) (up : Upcaster)
    → key_version key ≡ some w
    → ahead v w ≡ k
    → find_upcaster key r ≡ some up
    → suc (rank v (suc k) r) ≤ rank v k r
unfolding rank find_upcaster
rank-found key v w k [] up e i h = cc
rank-found key v w k ((name, u) ∷ r) up e i h = elim (Text-discrete name key) [
  | yes p ↦
      let q = counts_at v w k (key_version name) (ap key_version p ∙ e) i in
      omega (arith, q, rank-suc v k r)
  | no p ↦ omega (
    arith,
    counts-suc v k (key_version name),
    rank-found key v w k r up e i (
        subst (λ (o : Option Upcaster). o ≡ some up) (if_neg _ p (some u) (find_upcaster key r)) h),
  )
]
