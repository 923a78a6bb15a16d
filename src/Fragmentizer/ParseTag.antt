-- ===== src/Fragmentizer/ParseTag.antt =====
-- `parse_tag` and `Fragmentizer::decode_tag` of imap-codec/src/fragmentizer.rs.
use native.Mathlib.Nat.{zero-add}
use mathlib.Core.List.{cons-ne-nil}
use imap_codec.Prelude.{
  ℕ, suc, ◌+◌, ◌≡◌, ◌≢◌, ◌↔◌, ◌⊎◌, inl, inr, refl, ap, true, Option, none, some, Result, ok, err,
  [], ◌∷◌, ◌++◌, Bytes, All, length, take, take-append_length, arith, ◌==◌, ==_iff, Bool-cases,
  if◌then◌else◌,
}
use imap_codec.Core.Tag
use imap_codec.Core.Tag.{Tag, is_tag_char}
use imap_codec.Core.Validation.{validate_nonempty, validate_bytes_cases, FirstInvalid-not_All}
use imap_codec.Fragmentizer.State.{Fragmentizer}

-- The loop: the index of the first space, unless a `\n` or the end comes first.
unfoldable pub find_space : ℕ → Bytes → Option ℕ
find_space i [] = none
find_space i (byte ∷ bytes) =
    let more = find_space (suc i) bytes in
    if byte == b' ' then some i else if byte == b'\n' then none else more

-- `Result::ok`
abbrev pub to_option {ℓ κ} : {A : Type ℓ} {E : Type κ} → Result A E → Option A
to_option (ok a) = some a
to_option (err e) = none

-- `?` on the index, and the tag made of the bytes before it.
unfoldable pub tag_before : Bytes → Option ℕ → Option Tag
tag_before message_bytes none = none
tag_before message_bytes (some sp) = to_option (Tag.try_from (take sp message_bytes))

unfoldable pub parse_tag : Bytes → Option Tag
parse_tag message_bytes = tag_before message_bytes (find_space 0 message_bytes)

unfoldable pub decode_tag : Fragmentizer → Option Tag
decode_tag f = parse_tag f.message_buffer

-- One or more tag characters.
abbrev pub IsTag : Bytes → Type 0
IsTag value = (value ≢ []) × All (λ b. is_tag_char b ≡ true) value

pub IsTag-cases :
    (value : Bytes)
    → (IsTag value × (Tag.try_from value ≡ ok (record { inner = value })))
      ⊎ ((¬ (IsTag value)) × (to_option (Tag.try_from value) ≡ none))
unfolding Tag.try_from Tag.validate validate_nonempty
IsTag-cases [] = inr (λ t. t.0 refl, refl)
IsTag-cases (b ∷ value) = elim (validate_bytes_cases is_tag_char (b ∷ value)) [
  | inl (e, chars) ↦ inl ((cons-ne-nil b value, chars), rw e)
  | inr (c, at, e, first) ↦ inr (λ t. FirstInvalid-not_All is_tag_char first t.1, rw e)
]

find_space_lem :
    (i : ℕ) (value rest : Bytes)
    → All (λ b. is_tag_char b ≡ true) value
    → find_space i (value ++ b' ' ∷ rest) ≡ some (i + length value)
unfolding find_space is_tag_char
find_space_lem i [] rest h = ground arith
find_space_lem i (b ∷ value) rest (hb, h) = ground (arith, find_space_lem (suc i) value rest h)

-- Where the space is found.
find_space-split :
    (i j : ℕ) (bytes : Bytes)
    → find_space i bytes ≡ some j
    → (value : Bytes) × (rest : Bytes) × (bytes ≡ value ++ b' ' ∷ rest) × (j ≡ i + length value)
unfolding find_space
find_space-split i j [] h = cc
find_space-split i j (b ∷ bytes) h = elim (Bool-cases (b == b' ')) [
  | inl sp ↦ ([], bytes, ap (λ c. c ∷ bytes) ((==_iff b b' ').0 sp), ground arith)
  | inr more ↦ elim (Bool-cases (b == b'\n')) [
    | inl lf ↦ let stop = rw (more, lf) at h in cc
    | inr go ↦
        let (value, rest, e, n) = find_space-split (suc i) j bytes (rw (more, go) at h) in
        (b ∷ value, rest, ap (λ t. b ∷ t) e, omega arith)
  ]
]

parse_tag-found :
    (value rest : Bytes)
    → IsTag value
    → parse_tag (value ++ b' ' ∷ rest) ≡ some (record { inner = value })
unfolding parse_tag tag_before
parse_tag-found value rest t = elim (IsTag-cases value) [
  | inr (bad, e) ↦ absurd (bad t)
  | inl (good, e) ↦
      rw (find_space_lem 0 value rest t.1, zero-add, take-append_length value (b' ' ∷ rest), e)
]

tag_of :
    (value : Bytes) (t : Tag)
    → to_option (Tag.try_from value) ≡ some t
    → IsTag value × (value ≡ t.inner)
tag_of value t h = elim (IsTag-cases value) [
  | inr (bad, e) ↦ cc
  | inl (good, e) ↦ let same : some (record { inner = value }) ≡ some t = rw e at h in (good, cc)
]

tag_before-split :
    (bytes : Bytes) (t : Tag) (o : Option ℕ)
    → find_space 0 bytes ≡ o
    → tag_before bytes o ≡ some t
    → IsTag t.inner × ((rest : Bytes) × (bytes ≡ t.inner ++ b' ' ∷ rest))
unfolding tag_before
tag_before-split bytes t none e h = cc
tag_before-split bytes t (some sp) e h =
    let (value, rest, same, n) = find_space-split 0 sp bytes e in
    let index : sp ≡ length value = omega arith in
    let cut : take sp bytes ≡ value = rw (index, same) (take-append_length value (b' ' ∷ rest)) in
    let (good, it_is) = tag_of value t (rw cut at h) in
    (rw (← it_is) good, (rest, rw (← it_is) same))

parse_tag-split :
    (bytes : Bytes) (t : Tag)
    → parse_tag bytes ≡ some t
    → IsTag t.inner × ((rest : Bytes) × (bytes ≡ t.inner ++ b' ' ∷ rest))
unfolding parse_tag
parse_tag-split bytes t h = tag_before-split bytes t (find_space 0 bytes) refl h

-- A tag is decoded exactly when the message begins with it and a space: one or more tag
-- characters, none of which is a space or a line end.
pub decode_tag-eq-some_iff :
    (f : Fragmentizer) (t : Tag)
    → (decode_tag f ≡ some t)
      ↔ (IsTag t.inner × ((rest : Bytes) × (f.message_buffer ≡ t.inner ++ b' ' ∷ rest)))
unfolding decode_tag
decode_tag-eq-some_iff f t = (
  parse_tag-split f.message_buffer t,
  λ (good, (rest, e)). rw e (parse_tag-found t.inner rest good),
)
