-- ===== src/Text/Normal.antt =====
-- Trimming and lowering are idempotent, together too: proofs about Text.
use final_bds.Prelude.{ℕ, [], ◌∷◌, ◌≡◌, refl, arith, Bool, true, false, if◌then◌else◌}
use final_bds.Text.{
  Text, is_space, lower_byte, to_lower, trim_left, trim_right, trim_space, cons_unless_blank,
}

lower_byte_idem : (c : ℕ) → lower_byte (lower_byte c) ≡ lower_byte c
unfolding lower_byte
lower_byte_idem c = ground arith

is_space-lower_byte : (c : ℕ) → is_space (lower_byte c) ≡ is_space c
unfolding lower_byte is_space
is_space-lower_byte c = ground arith

to_lower_idem : (s : Text) → to_lower (to_lower s) ≡ to_lower s
unfolding to_lower
to_lower_idem [] = refl
to_lower_idem (c ∷ s) = cc (lower_byte_idem c, to_lower_idem s)

trim_left-to_lower : (s : Text) → trim_left (to_lower s) ≡ to_lower (trim_left s)
unfolding trim_left to_lower
trim_left-to_lower [] = refl
trim_left-to_lower (c ∷ s) = ground (arith, is_space-lower_byte c, trim_left-to_lower s)

cons_unless_blank-lower :
    (c : ℕ) (s : Text)
    → cons_unless_blank (lower_byte c) (to_lower s) ≡ to_lower (cons_unless_blank c s)
unfolding to_lower
cons_unless_blank-lower c [] = ground (arith, is_space-lower_byte c)
cons_unless_blank-lower c (d ∷ s) = refl

trim_right-to_lower : (s : Text) → trim_right (to_lower s) ≡ to_lower (trim_right s)
unfolding trim_right to_lower
trim_right-to_lower [] = refl
trim_right-to_lower (c ∷ s) = rw (trim_right-to_lower s) (cons_unless_blank-lower c (trim_right s))

-- A text that begins with no space.
starts_solid : Text → Bool
starts_solid [] = true
starts_solid (c ∷ s) = if is_space c then false else true

trim_left-starts_solid : (s : Text) → starts_solid (trim_left s) ≡ true
unfolding trim_left starts_solid
trim_left-starts_solid [] = refl
trim_left-starts_solid (c ∷ s) = ground (arith, trim_left-starts_solid s)

starts_solid-trim_left : (s : Text) → starts_solid s ≡ true → trim_left s ≡ s
unfolding trim_left starts_solid
starts_solid-trim_left [] h = refl
starts_solid-trim_left (c ∷ s) h = ground arith

cons_unless_blank-starts_solid :
    (c : ℕ) (s : Text) → is_space c ≡ false → starts_solid (cons_unless_blank c s) ≡ true
unfolding starts_solid
cons_unless_blank-starts_solid c [] h = ground arith
cons_unless_blank-starts_solid c (d ∷ s) h = ground arith

trim_right-starts_solid : (s : Text) → starts_solid s ≡ true → starts_solid (trim_right s) ≡ true
unfolding trim_right starts_solid
trim_right-starts_solid [] h = refl
trim_right-starts_solid (c ∷ s) h = ground (arith, cons_unless_blank-starts_solid c (trim_right s))

cons_unless_blank-trim :
    (c : ℕ) (s : Text)
    → trim_right s ≡ s
    → trim_right (cons_unless_blank c s) ≡ cons_unless_blank c s
unfolding trim_right
cons_unless_blank-trim c [] h = ground arith
cons_unless_blank-trim c (d ∷ s) h = rw (h, trim_right)

trim_right_idem : (s : Text) → trim_right (trim_right s) ≡ trim_right s
unfolding trim_right
trim_right_idem [] = refl
trim_right_idem (c ∷ s) = cons_unless_blank-trim c (trim_right s) (trim_right_idem s)

trim_space_idem : (s : Text) → trim_space (trim_space s) ≡ trim_space s
unfolding trim_space
trim_space_idem s =
    rw
      (starts_solid-trim_left (trim_right (trim_left s))
        (trim_right-starts_solid (trim_left s) (trim_left-starts_solid s)))
      (trim_right_idem (trim_left s))

pub trim_space-to_lower : (s : Text) → trim_space (to_lower s) ≡ to_lower (trim_space s)
unfolding trim_space
trim_space-to_lower s = rw (trim_left-to_lower s) (trim_right-to_lower (trim_left s))

-- `strings.ToLower(strings.TrimSpace(s))`, which normalises slugs and emails, is idempotent.
normalize_idem :
    (s : Text) → to_lower (trim_space (to_lower (trim_space s))) ≡ to_lower (trim_space s)
normalize_idem s =
    rw (trim_space-to_lower (trim_space s), trim_space_idem s) (to_lower_idem (trim_space s))
