-- ===== src/Text.antt =====
-- What the services use of Go's strings and regexp packages, over the bytes of a text. ASCII only:
-- bytes from 128 on are neither spaces nor letters here.
pub mod Normal
pub mod Numbers
use Prim.Native.Char.{code}
use final_bds.Prelude.{
  String, ite, ℕ, zero, suc, ◌+◌, ◌-◌, Bool, true, false, List, [], ◌∷◌, ◌++◌, Option, none, some,
  ◌&&◌, ◌||◌, not, ltb, leb, ◌==◌, if◌then◌else◌, length, ℕ_discrete,
}

abbrev pub Text : Type 0
Text = List ℕ

unfoldable pub Text-discrete : Discrete Text
Text-discrete = hlevel ℕ_discrete

-- Space, \t, \n, \v, \f and \r.
unfoldable pub is_space : ℕ → Bool
is_space c = c == 32 || (leb 9 c && leb c 13)

abbrev pub is_lower : ℕ → Bool
is_lower c = leb b'a' c && leb c b'z'

abbrev pub is_digit : ℕ → Bool
is_digit c = leb b'0' c && leb c b'9'

unfoldable pub lower_byte : ℕ → ℕ
lower_byte c = if leb b'A' c && leb c b'Z' then c + 32 else c

-- `strings.ToLower`.
unfoldable pub to_lower : Text → Text
to_lower [] = []
to_lower (c ∷ s) = lower_byte c ∷ to_lower s

unfoldable pub trim_left : Text → Text
trim_left [] = []
trim_left (c ∷ s) = if is_space c then trim_left s else c ∷ s

abbrev pub cons_unless_blank : ℕ → Text → Text
cons_unless_blank c [] = if is_space c then [] else c ∷ []
cons_unless_blank c (d ∷ s) = c ∷ d ∷ s

unfoldable pub trim_right : Text → Text
trim_right [] = []
trim_right (c ∷ s) = cons_unless_blank c (trim_right s)

-- `strings.TrimSpace`.
unfoldable pub trim_space : Text → Text
unfolding trim_left trim_right is_space
trim_space s = trim_right (trim_left s)

-- `strings.IndexByte`, with the rest of the text behind the byte that was found.
unfoldable pub after_byte : ℕ → Text → Option (ℕ × Text)
after_byte b [] = none
after_byte b (c ∷ s) =
    if c == b
    then some (0, s)
    else elim (after_byte b s) [ none ↦ none | some (i, rest) ↦ some (suc i, rest) ]

unfoldable pub contains_byte : ℕ → Text → Bool
contains_byte b [] = false
contains_byte b (c ∷ s) = c == b || contains_byte b s

unfoldable pub is_blank : Text → Bool
is_blank [] = true
is_blank (c ∷ s) = false

abbrev is_slug_end : ℕ → Bool
is_slug_end c = is_lower c || is_digit c

abbrev is_slug_inner : ℕ → Bool
is_slug_inner c = is_lower c || is_digit c || c == b'-'

-- The rest of a slug behind its first byte: nothing, or inner bytes and an end byte.
unfoldable pub slug_rest : Text → Bool
slug_rest [] = true
slug_rest (c ∷ []) = is_slug_end c
slug_rest (c ∷ d ∷ s) = is_slug_inner c && slug_rest (d ∷ s)

-- The pattern ^[a-z0-9]([a-z0-9-]{0,62}[a-z0-9])?$ of the tenant and deployment services.
unfoldable pub slug_matches : Text → Bool
unfolding slug_rest
slug_matches [] = false
slug_matches (c ∷ s) = is_slug_end c && slug_rest s && leb (length s) 63

-- The bytes of an ASCII text.
abbrev pub codes : String → Text
codes String.[] = []
codes (String.◌∷◌ c s) = code c ∷ codes s

unfoldable pub same_text : Text → Text → Bool
unfolding Text-discrete
same_text s t = ite (Text-discrete s t) true false

abbrev pub put_before : ℕ → Option (Text × Text) → Option (Text × Text)
put_before c none = none
put_before c (some (before, behind)) = some (c ∷ before, behind)

-- `strings.Cut` at a byte, and the first two parts of `strings.SplitN`.
unfoldable pub cut : ℕ → Text → Option (Text × Text)
cut b [] = none
cut b (c ∷ s) = let later = put_before c (cut b s) in if c == b then some ([], s) else later
