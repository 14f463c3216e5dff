-- ===== src/Text/Numbers.antt =====
-- Decimal numbers and searches in texts, as Go's strconv and strings packages define them:
-- `Itoa`, `Atoi`, `TrimPrefix` and `LastIndex`, over the bytes of a text.
pub mod RoundTrip
use final_bds.Prelude.{
  ℕ, zero, suc, ◌+◌, ◌-◌, ◌*◌, ℤ, pos, negsuc, List, [], ◌∷◌, ◌++◌, Option, none, some, ltb, leb,
  ◌==◌, if◌then◌else◌,
}
use Prim.Native.Nat.{◌/◌, ◌%◌, ◌^◌}
use final_bds.Text.{Text, is_digit}

-- The decimal digits of a number. Each round drops one, so as many rounds as its value are enough.
unfoldable pub digits : ℕ → ℕ → Text
digits zero n = []
digits (suc f) n =
    let more = digits f (n / 10) ++ ((48 + n % 10) ∷ []) in if ltb n 10 then (48 + n) ∷ [] else more

-- `strconv.Itoa`.
unfoldable pub itoa : ℤ → Text
unfolding digits
itoa (pos n) = digits (suc n) n
itoa (negsuc n) = b'-' ∷ digits (suc (suc n)) (suc n)

-- The value of a text of digits behind those that give `acc`.
unfoldable pub digits_value : ℕ → Text → Option ℕ
digits_value acc [] = some acc
digits_value acc (c ∷ s) =
    let more = digits_value (acc * 10 + (c - 48)) s in if is_digit c then more else none

abbrev negated : ℕ → ℤ
negated zero = pos 0
negated (suc n) = negsuc n

abbrev positive_of : Option ℕ → Option ℤ
positive_of none = none
positive_of (some n) = if ltb n (2 ^ 63) then some (pos n) else none

abbrev negative_of : Option ℕ → Option ℤ
negative_of none = none
negative_of (some n) = if leb n (2 ^ 63) then some (negated n) else none

-- A sign may stand before the digits, and one digit must follow it.
abbrev unsigned : Text → Option ℕ
unsigned [] = none
unsigned (c ∷ s) = digits_value 0 (c ∷ s)

-- `strconv.Atoi`: `none` is its error, for a text that is no number or is out of range.
unfoldable pub atoi : Text → Option ℤ
unfolding digits_value
atoi [] = none
atoi (c ∷ s) =
    if c == b'-'
    then negative_of (unsigned s)
    else if c == b'+'
    then positive_of (unsigned s)
    else positive_of (digits_value 0 (c ∷ s))

-- What follows a prefix; `none` where the text does not begin with it.
unfoldable pub after_prefix : Text → Text → Option Text
after_prefix [] s = some s
after_prefix (p ∷ ps) [] = none
after_prefix (p ∷ ps) (c ∷ s) = let more = after_prefix ps s in if p == c then more else none

abbrev keep_first : ℕ → Option (Text × Text) → Option Text → Option (Text × Text)
keep_first c (some (before, behind)) here = some (c ∷ before, behind)
keep_first c none none = none
keep_first c none (some behind) = some ([], behind)

-- The text split at the last occurrence of a separator, which is not empty: `strings.LastIndex` and
-- the two slices.
unfoldable pub split_last : Text → Text → Option (Text × Text)
unfolding after_prefix
split_last sep [] = none
split_last sep (c ∷ s) = keep_first c (split_last sep s) (after_prefix sep (c ∷ s))
