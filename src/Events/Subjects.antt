-- ===== src/Events/Subjects.antt =====
-- Subjects and catalog names of backend/libs/events/versioning.go and dlq.go: an event of type
-- "deployment.succeeded" in version 2 goes to "evt.deployment.succeeded.v2".
use final_bds.Prelude.{
  ℕ, suc, ◌≤◌, ◌<◌, ℤ, pos, ltb_ℤ, [], ◌∷◌, ◌++◌, Option, none, some, if◌then◌else◌, ◌≡◌, ap, ◌∙◌,
  refl, arith,
}
use Prim.Native.Nat.{◌^◌}
use final_bds.Text.{Text}
use final_bds.Text.Numbers.{itoa, atoi, after_prefix, split_last}
use final_bds.Text.Numbers.RoundTrip.{
  atoi-itoa, after_prefix-append, split_last-append, split_last-all_digits, all_digits-digits,
}
use final_bds.Events.{Envelope}

-- ".v", which stands before the version.
abbrev version_mark : Text
version_mark = b'.' ∷ b'v' ∷ []

-- `CatalogName`.
unfoldable pub catalog_name : Text → ℤ → Text
catalog_name event_type version = event_type ++ (version_mark ++ itoa version)

-- `CanonicalName`.
unfoldable pub canonical_name : Envelope → Text
unfolding catalog_name
canonical_name e = catalog_name e.event_type e.version

-- `SubjectFor`.
unfoldable pub subject_for : Text → Text → ℤ → Text
subject_for prefix event_type version =
    (prefix ++ (b'.' ∷ [])) ++ (event_type ++ (version_mark ++ itoa version))

-- `Subject`.
unfoldable pub subject : Text → Envelope → Text
unfolding subject_for
subject prefix e = subject_for prefix e.event_type e.version

-- `dlqSubject`: the subject of a dead letter.
unfoldable pub dlq_subject : Envelope → Text
unfolding subject_for
dlq_subject e = subject_for (b'd' ∷ b'l' ∷ b'q' ∷ []) e.event_type e.version

abbrev checked_version : Text → Option ℤ → Option (Text × ℤ)
checked_version event_type none = none
checked_version event_type (some v) = if ltb_ℤ v (pos 1) then none else some (event_type, v)

abbrev parse_catalog : Option (Text × Text) → Option (Text × ℤ)
parse_catalog none = none
parse_catalog (some (event_type, behind)) = checked_version event_type (atoi behind)

abbrev parse_trimmed : Option Text → Option (Text × ℤ)
parse_trimmed none = none
parse_trimmed (some trimmed) = parse_catalog (split_last version_mark trimmed)

-- `ParseSubject`: `none` is `ok=false`.
unfoldable pub parse_subject : Text → Text → Option (Text × ℤ)
parse_subject prefix text = parse_trimmed (after_prefix (prefix ++ (b'.' ∷ [])) text)

split_version :
    (t : Text) (n : ℕ)
    → split_last version_mark (t ++ (version_mark ++ itoa (pos n))) ≡ some (t, itoa (pos n))
unfolding split_last after_prefix itoa
split_version t n = split_last-append version_mark t (itoa (pos n)) (
    rw (split_last-all_digits b'.' (b'v' ∷ []) (itoa (pos n)) refl (all_digits-digits (suc n) n))
      refl)

accepted_version : (t : Text) (v : ℕ) → 1 ≤ v → checked_version t (some (pos v)) ≡ some (t, pos v)
accepted_version t v h = ground arith

-- Parsing a subject gives back the type and the version from which it was made, whatever the type
-- and the prefix are, for a version from 1 on that an int64 holds.
pub parse_subject-subject_for :
    (prefix event_type : Text) (v : ℕ)
    → 1 ≤ v
    → v < 2 ^ 63
    → parse_subject prefix (subject_for prefix event_type (pos v)) ≡ some (event_type, pos v)
unfolding parse_subject subject_for
parse_subject-subject_for prefix event_type v h k =
    ap parse_trimmed
      (after_prefix-append (prefix ++ (b'.' ∷ [])) (event_type ++ (version_mark ++ itoa (pos v))))
    ∙ ap parse_catalog (split_version event_type v)
    ∙ ap (checked_version event_type) (atoi-itoa v k)
    ∙ accepted_version event_type v h
