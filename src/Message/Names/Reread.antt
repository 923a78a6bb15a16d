-- ===== src/Message/Names/Reread.antt =====
-- A `match` on a text without regard to case, and the names that `Display` writes.
use imap_codec.Prelude.{
  ◌≡◌, ◌∙◌, subst, err, ◌>>◌, refl, ap, List, [], ◌∷◌, Bytes, All, Bool-cases, inl, inr, ok, arith,
}
use imap_codec.Core.Atom
use imap_codec.Indicators.{is_atom_char}
use imap_codec.Core.Atom.{Atom}
use imap_codec.Core.Validation.{Checked, validate_nonempty}
use imap_codec.Message.Names.{ascii_lowercase, to_ascii_lowercase, same_bytes, keyword}

-- What holds of the value of each arm and of the default holds of the result.
pub keyword_cases {ℓ κ} :
    {A : Type ℓ} (Q : A → Type κ) (text : Bytes) (arms : List (Bytes × A)) (otherwise : A)
    → All (λ (arm : Bytes × A). Q arm.1) arms
    → Q otherwise
    → Q (keyword text arms otherwise)
unfolding keyword
keyword_cases Q text [] otherwise h q = q
keyword_cases Q text ((name, value) ∷ arms) otherwise (hv, h) q =
    elim (Bool-cases (same_bytes text name)) [
      | inl same ↦ rw same hv
      | inr differs ↦ rw differs (keyword_cases Q text arms otherwise h q)
    ]

pub lowercase_idempotent :
    (text : Bytes) → to_ascii_lowercase (to_ascii_lowercase text) ≡ to_ascii_lowercase text
unfolding to_ascii_lowercase
lowercase_idempotent [] = refl
lowercase_idempotent (b ∷ text) =
    let head : ascii_lowercase (ascii_lowercase b) ≡ ascii_lowercase b =
      unfold ascii_lowercase in ground arith in
    rw (head, lowercase_idempotent text) refl

-- An accepted text is that of the atom.
pub inner-try_from : (value : Bytes) {a : Atom} → Atom.try_from value ≡ ok a → a.inner ≡ value
unfolding Atom.try_from Atom.validate validate_nonempty
inner-try_from value {a} h = subst (Made value) h (made (validate_nonempty is_atom_char value))
  where
    Made : Bytes → Checked Atom → Type 0
    Made value (ok a) = a.inner ≡ value
    Made value (err e) = Unit

    made : (r : Checked (Unit {0})) → Made value (r >> ok (record { inner = value }))
    made (ok u) = refl
    made (err e) = tt

-- An atom is accepted again.
pub try_from-inner :
    (value : Bytes) {a : Atom} → Atom.try_from value ≡ ok a → Atom.try_from a.inner ≡ ok a
try_from-inner value h = ap Atom.try_from (inner-try_from value h) ∙ h

-- The name that a value is displayed with is an atom, and is read as the value.
abbrev pub IsReread {ℓ} : {A : Type ℓ} → (Atom → A) → (A → Bytes) → A → Type ℓ
IsReread read display c =
    (Atom.try_from (display c) ≡ ok (record { inner = display c }))
    × (read (record { inner = display c }) ≡ c)

-- A type with a name for each value and one value `other` for all other atoms: what is read from an
-- atom, is read again from the name that it is displayed with.
module _ {ℓ} {A : Type ℓ} (change : Bytes → Bytes) (arms : List (Bytes × A)) (other : Atom → A)
    (display : A → Bytes) where
  abbrev pub reading : Atom → A
  reading a = keyword (change a.inner) arms (other a)

  each :
      (a : Atom) (arms' : List (Bytes × A))
      → All (λ (arm : Bytes × A). IsReread reading display arm.1) arms'
      → All (λ (arm : Bytes × A). reading a ≡ arm.1 → IsReread reading display arm.1) arms'
  each a [] u = tt
  each a (arm ∷ arms') (k, ks) = ((λ e. k), each a arms' ks)

  pub reading-IsReread :
      (a : Atom)
      → Atom.try_from a.inner ≡ ok a
      → display (other a) ≡ a.inner
      → All (λ (arm : Bytes × A). IsReread reading display arm.1) arms
      → IsReread reading display (reading a)
  reading-IsReread a accepted display_other h =
      keyword_cases (λ c. reading a ≡ c → IsReread reading display c) (change a.inner) arms
        (other a) (each a arms h) (λ e. rw display_other (accepted, e)) refl
