-- ===== src/Message/Response/Capabilities/Reread.antt =====
-- A capability (imap-types/src/response.rs) that is displayed and read again.
use imap_codec.Prelude.{
  ℕ, sym, ◌≡◌, ◌>>=◌, ◌∙◌, refl, List, [], ◌∷◌, Bytes, codes, Option, none, some, All, ok, err, ap,
  ◌==◌, Bool-cases, inl, inr,
}
use imap_codec.Core.Atom
use imap_codec.Core.Atom.{Atom}
use imap_codec.Core.Validation.{Checked, validate_nonempty, validate_bytes, position}
use imap_codec.Indicators.{is_atom_char}
use imap_codec.Message.Auth
use imap_codec.Message.Auth.Reread.{
  auth-IsReread, sort_algorithm-IsReread, threading-IsReread, lowercase_resource-IsReread,
}
use imap_codec.Message.Extensions.{
  CompressionAlgorithm, deflate, compression_try_from, display_compression, resource_from,
  sort_algorithm_from, threading_from,
}
use imap_codec.Message.Names.{keyword, to_ascii_lowercase}
use imap_codec.Message.Names.Reread.{
  keyword_cases, try_from-inner, inner-try_from, lowercase_idempotent,
}
use imap_codec.Message.Response.{Capability, auth, compress, quota_res, display}
use imap_codec.Message.Response.Capabilities.{
  names, from, otherwise, parametrised, if_ok, auth_value, compress_value, quota_value, sort_value,
  thread_value, values, split_once, strip_prefix,
}

abbrev IsReread : Capability → Type 0
IsReread c = from (record { inner = display c }) ≡ c

names-IsReread : All (λ (arm : Bytes × Capability). IsReread arm.1) names
unfolding from keyword to_ascii_lowercase display parametrised values otherwise
names-IsReread = (
  refl,
  (
    refl,
    (
      refl,
      (
        refl,
        (refl, (refl, (refl, (refl, (refl, (refl, (refl, (refl, (refl, (refl, (refl, tt))))))))))),
      ),
    ),
  ),
)

-- A value behind `=`, if there is one.
abbrev Rereads : Option Capability → Type 0
Rereads none = Unit
Rereads (some c) = IsReread c

if_ok-Rereads :
    (value : Bytes) (next : Atom → Option Capability)
    → ((a : Atom) → Atom.try_from value ≡ ok a → Rereads (next a))
    → Rereads (if_ok (Atom.try_from value) next)
unfolding if_ok
if_ok-Rereads value next h = go (Atom.try_from value) h
  where
    go : (r : Checked Atom) → ((a : Atom) → r ≡ ok a → Rereads (next a)) → Rereads (if_ok r next)
    go (ok a) k = k a refl
    go (err e) k = tt

auth_value-Rereads : (right : Bytes) → Rereads (auth_value right)
unfolding auth_value if_ok Auth.try_from from keyword to_ascii_lowercase display parametrised values
    otherwise split_once strip_prefix
auth_value-Rereads right = go (Atom.try_from right) (λ a h. h)
  where
    go :
        (r : Checked Atom)
        → ((a : Atom) → r ≡ ok a → Atom.try_from right ≡ ok a)
        → Rereads (if_ok (r >>= λ a. ok (Auth.from a)) (λ mechanism. some (auth mechanism)))
    go (err e) k = tt
    go (ok a) k =
        let (accepted, again) = auth-IsReread a (try_from-inner right (k a refl)) in
        rw (accepted, again) refl

compress_value-Rereads : (right : Bytes) → Rereads (compress_value right)
unfolding compress_value if_ok from keyword to_ascii_lowercase display parametrised values otherwise
    split_once strip_prefix display_compression compression_try_from Atom.try_from Atom.validate
    validate_nonempty validate_bytes position is_atom_char
compress_value-Rereads right =
    if_ok-Rereads right
      (λ a. if_ok (compression_try_from a.inner) (λ algorithm. some (compress algorithm)))
      (λ a h. go (compression_try_from a.inner))
  where
    go :
        (r : Checked CompressionAlgorithm)
        → Rereads (if_ok r (λ algorithm. some (compress algorithm)))
    go (err e) = tt
    go (ok deflate) = refl

sort_value-Rereads : (right : Bytes) → Rereads (sort_value right)
unfolding sort_value if_ok from keyword to_ascii_lowercase display parametrised values otherwise
    split_once strip_prefix
sort_value-Rereads right =
    if_ok-Rereads right (λ a. some (Capability.sort (some (sort_algorithm_from a))))
      (λ a h.
        let (accepted, again) = sort_algorithm-IsReread a (try_from-inner right h) in
        rw (accepted, again) refl)

thread_value-Rereads : (right : Bytes) → Rereads (thread_value right)
unfolding thread_value if_ok from keyword to_ascii_lowercase display parametrised values otherwise
    split_once strip_prefix
thread_value-Rereads right =
    if_ok-Rereads right (λ a. some (Capability.thread (threading_from a)))
      (λ a h.
        let (accepted, again) = threading-IsReread a (try_from-inner right h) in
        rw (accepted, again) refl)

-- What is left of a text in lower case.
abbrev IsLowercase : Bytes → Type 0
IsLowercase text = to_ascii_lowercase text ≡ text

IsLowercase-tail : (b : ℕ) (text : Bytes) → IsLowercase (b ∷ text) → IsLowercase text
unfolding to_ascii_lowercase
IsLowercase-tail b text h = ap tail h
  where
    tail : Bytes → Bytes
    tail [] = []
    tail (c ∷ rest) = rest

abbrev Stripped : Option Bytes → Type 0
Stripped none = Unit
Stripped (some rest) = IsLowercase rest

strip_prefix-Stripped :
    (pattern text : Bytes) → IsLowercase text → Stripped (strip_prefix pattern text)
unfolding strip_prefix
strip_prefix-Stripped [] text h = h
strip_prefix-Stripped (p ∷ pattern) [] h = tt
strip_prefix-Stripped (p ∷ pattern) (b ∷ text) h = elim (Bool-cases (p == b)) [
  | inl same ↦ rw same (strip_prefix-Stripped pattern text (IsLowercase-tail b text h))
  | inr differs ↦ rw differs tt
]

abbrev Split : Option (Bytes × Bytes) → Type 0
Split none = Unit
Split (some (left, right)) = IsLowercase right

split_once-Split : (pattern text : Bytes) → IsLowercase text → Split (split_once pattern text)
unfolding split_once
split_once-Split pattern [] h = tt
split_once-Split pattern (b ∷ text) h =
    go (strip_prefix pattern (b ∷ text)) (strip_prefix-Stripped pattern (b ∷ text) h)
      (split_once pattern text) (split_once-Split pattern text (IsLowercase-tail b text h))
  where
    go :
        (o : Option Bytes)
        → Stripped o
        → (rest : Option (Bytes × Bytes)) → Split rest
        → Split (elim o [
          | some right ↦ some ([], right)
          | none ↦ elim rest [ some (left, right) ↦ some (b ∷ left, right) | none ↦ none ]
        ])
    go (some right) k rest r = k
    go none k none r = tt
    go none k (some (left, right)) r = r

quota_value-Rereads : (right : Bytes) → Rereads (quota_value right)
unfolding quota_value if_ok from keyword to_ascii_lowercase display parametrised values otherwise
    split_once strip_prefix
quota_value-Rereads right =
    go (split_once (codes "res-") (to_ascii_lowercase right))
      (split_once-Split (codes "res-") (to_ascii_lowercase right) (lowercase_idempotent right))
  where
    go :
        (o : Option (Bytes × Bytes))
        → Split o
        → Rereads (elim o [
          | some (left, resource) ↦
              if_ok (Atom.try_from resource) (λ a. some (quota_res (resource_from a)))
          | none ↦ none
        ])
    go none k = tt
    go (some (left, resource)) k =
        if_ok-Rereads resource (λ a. some (quota_res (resource_from a)))
          (λ a h.
            let same = inner-try_from resource h in
            let (accepted, again) =
              lowercase_resource-IsReread a (try_from-inner resource h)
                (ap to_ascii_lowercase same ∙ k ∙ sym same) in
            rw (accepted, again) refl)

parametrised-Rereads : (cow : Bytes) → Rereads (parametrised cow)
unfolding parametrised values
parametrised-Rereads cow = go (split_once (codes "=") cow)
  where
    go :
        (o : Option (Bytes × Bytes))
        → Rereads (elim o [
          | some (left, right) ↦ keyword (to_ascii_lowercase left) (values right) none
          | none ↦ none
        ])
    go none = tt
    go (some (left, right)) =
        keyword_cases Rereads (to_ascii_lowercase left) (values right) none
          (
            auth_value-Rereads right,
            (
              compress_value-Rereads right,
              (
                quota_value-Rereads right,
                (sort_value-Rereads right, (thread_value-Rereads right, tt)),
              ),
            ),
          )
          tt

-- A capability that is read from an atom is read again from the text that it is displayed as,
-- whatever the atom is: `Display` and `From<Atom>` agree on all of the values that can be read.
pub from-display : (a : Atom) → from (record { inner = display (from a) }) ≡ from a
unfolding from otherwise display
from-display a =
    keyword_cases (λ c. from a ≡ c → IsReread c) (to_ascii_lowercase a.inner) names
      (otherwise a (parametrised a.inner)) (known names names-IsReread)
      (others (parametrised a.inner) (parametrised-Rereads a.inner)) refl
  where
    known :
        (arms : List (Bytes × Capability))
        → All (λ (arm : Bytes × Capability). IsReread arm.1) arms
        → All (λ (arm : Bytes × Capability). from a ≡ arm.1 → IsReread arm.1) arms
    known [] u = tt
    known (arm ∷ arms) (k, ks) = ((λ e. k), known arms ks)

    others : (o : Option Capability) → Rereads o → from a ≡ otherwise a o → IsReread (otherwise a o)
    others none k e = e
    others (some c) k e = k
