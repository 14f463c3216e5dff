-- ===== src/Text/Numbers/RoundTrip.antt =====
-- Reading back what was written: proofs about Text.Numbers.
use final_bds.Prelude.{
  ℕ, zero, suc, ◌+◌, ◌-◌, ◌*◌, ◌<◌, pos, [], ◌∷◌, ◌++◌, none, some, ltb, ◌≡◌, ◌≢◌, Bool, ◌&&◌, ap,
  sym, refl, ◌∙◌, arith, true, false, Bool-cases, inl, inr,
}
use Prim.Native.Nat.{◌/◌, ◌%◌, ◌^◌}
use mathlib.Core.List.{append_assoc, append-nil}
use final_bds.Text.{Text, is_digit}
use final_bds.Text.Numbers.{digits, itoa, digits_value, atoi, after_prefix, split_last}

digits_value-digit :
    (acc n : ℕ) (s : Text)
    → n < 10
    → digits_value acc ((48 + n) ∷ s) ≡ digits_value (acc * 10 + n) s
unfolding digits_value
digits_value-digit acc n s h = let e : 48 + n - 48 ≡ n = omega arith in ground (arith, e)

from_value : (a b : ℕ) (s : Text) → a ≡ b → digits_value a s ≡ digits_value b s
from_value a b s e = ap (λ v. digits_value v s) e

-- Behind a number the reader goes on from its value.
pub digits_value-digits :
    (f n : ℕ) (s : Text) → n < f → digits_value 0 (digits f n ++ s) ≡ digits_value n s
unfolding digits
digits_value-digits zero n s h = elim h [ ]
digits_value-digits (suc f) n s h = elim (Bool-cases (ltb n 10)) [
  | inl small ↦
      rw small (digits_value-digit 0 n s (ground arith) ∙ from_value (0 * 10 + n) n s (omega arith))
  | inr big ↦
      rw (big, append_assoc (digits f (n / 10)) ((48 + n % 10) ∷ []) s)
        (digits_value-digits f (n / 10) ((48 + n % 10) ∷ s) (ground arith)
          ∙ digits_value-digit (n / 10) (n % 10) s (omega arith)
          ∙ from_value (n / 10 * 10 + n % 10) n s (omega arith))
]

pub after_prefix-append : (p s : Text) → after_prefix p (p ++ s) ≡ some s
unfolding after_prefix
after_prefix-append [] s = refl
after_prefix-append (c ∷ p) s = ground (arith, after_prefix-append p s)

-- Every byte of the text is a decimal digit.
unfoldable pub all_digits : Text → Bool
all_digits [] = true
all_digits (c ∷ s) = is_digit c && all_digits s

all_digits-append :
    (s t : Text) → all_digits s ≡ true → all_digits t ≡ true → all_digits (s ++ t) ≡ true
unfolding all_digits
all_digits-append [] t h k = k
all_digits-append (c ∷ s) t h k = ground (arith, all_digits-append s t)

all_digits-digit : (n : ℕ) → n < 10 → all_digits ((48 + n) ∷ []) ≡ true
unfolding all_digits
all_digits-digit n h = ground arith

pub all_digits-digits : (f n : ℕ) → all_digits (digits f n) ≡ true
unfolding digits
all_digits-digits zero n = unfold all_digits in refl
all_digits-digits (suc f) n = elim (Bool-cases (ltb n 10)) [
  | inl small ↦ rw small (all_digits-digit n (ground arith))
  | inr big ↦ rw big (
      all_digits-append (digits f (n / 10)) ((48 + n % 10) ∷ []) (all_digits-digits f (n / 10))
        (all_digits-digit (n % 10) (omega arith)))
]

-- A separator that begins with no digit does not occur in a number.
pub split_last-all_digits :
    (b : ℕ) (sep s : Text)
    → is_digit b ≡ false
    → all_digits s ≡ true
    → split_last (b ∷ sep) s ≡ none
unfolding split_last after_prefix all_digits
split_last-all_digits b sep [] h k = refl
split_last-all_digits b sep (c ∷ s) h k = ground (arith, split_last-all_digits b sep s)

-- What stands before the last separator does not matter.
pub split_last-append :
    (sep t d : Text)
    → split_last sep (sep ++ d) ≡ some ([], d)
    → split_last sep (t ++ (sep ++ d)) ≡ some (t, d)
unfolding split_last
split_last-append sep [] d h = h
split_last-append sep (c ∷ t) d h = rw (split_last-append sep t d h) refl

pub starts_digit : (c : ℕ) (s : Text) → all_digits (c ∷ s) ≡ true → is_digit c ≡ true
unfolding all_digits
starts_digit c s h = ground arith

unsigned_number :
    (s : Text) (n : ℕ)
    → all_digits s ≡ true
    → digits_value 0 s ≡ some n
    → s ≢ []
    → n < 2 ^ 63
    → atoi s ≡ some (pos n)
unfolding atoi
unsigned_number [] n a v e h = absurd (e refl)
unsigned_number (c ∷ s) n a v e h = ground (arith, starts_digit c s a)

nonempty-append : (s : Text) (c : ℕ) → (s ++ (c ∷ [])) ≢ []
nonempty-append [] c e = cc
nonempty-append (d ∷ s) c e = cc

pub nonempty-digits : (f n : ℕ) → digits (suc f) n ≢ []
unfolding digits
nonempty-digits f n = elim (Bool-cases (ltb n 10)) [
  | inl small ↦ rw small (λ e. cc)
  | inr big ↦ rw big (nonempty-append (digits f (n / 10)) (48 + n % 10))
]

pub digits_value_round : (f n : ℕ) → n < f → digits_value 0 (digits f n) ≡ some n
digits_value_round f n h =
    ap (digits_value 0) (sym (append-nil (digits f n)))
    ∙ digits_value-digits f n [] h
    ∙ (unfold digits_value in refl)

-- `Atoi` reads what `Itoa` wrote, for numbers of an int64.
pub atoi-itoa : (n : ℕ) → n < 2 ^ 63 → atoi (itoa (pos n)) ≡ some (pos n)
unfolding itoa
atoi-itoa n h =
    unsigned_number (digits (suc n) n) n (all_digits-digits (suc n) n)
      (digits_value_round (suc n) n (omega arith)) (nonempty-digits n n) h
