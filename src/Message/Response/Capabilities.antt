-- ===== src/Message/Response/Capabilities.antt =====
-- `From<Atom>` of Capability (imap-types/src/response.rs).
pub mod Reread
use imap_codec.Prelude.{
  ℕ, List, [], ◌∷◌, Bytes, codes, Option, none, some, ok, err, ◌==◌, if◌then◌else◌,
}
use imap_codec.Core.Atom
use imap_codec.Core.Atom.{Atom}
use imap_codec.Core.Validation.{Checked}
use imap_codec.Message.Auth
use imap_codec.Message.Extensions.{
  compression_try_from, resource_from, sort_algorithm_from, threading_from,
}
use imap_codec.Message.Names.{keyword, to_ascii_lowercase}
use imap_codec.Message.Response.{
  Capability, imap4_rev1, auth, login_disabled, sasl_ir, compress, quota_res, quota_set,
  literal_plus, literal_minus, uid_plus, list_extended,
}

unfoldable pub strip_prefix : Bytes → Bytes → Option Bytes
strip_prefix [] text = some text
strip_prefix (p ∷ pattern) [] = none
strip_prefix (p ∷ pattern) (b ∷ text) =
    let rest = strip_prefix pattern text in if p == b then rest else none

-- `str::split_once`, for a pattern that is not empty.
unfoldable pub split_once : Bytes → Bytes → Option (Bytes × Bytes)
unfolding strip_prefix
split_once pattern [] = none
split_once pattern (b ∷ text) = elim (strip_prefix pattern (b ∷ text)) [
  | some right ↦ some ([], right)
  | none ↦ elim (split_once pattern text) [
    | some (left, right) ↦ some (b ∷ left, right)
    | none ↦ none
  ]
]

-- `if let Ok(value) = ...`
unfoldable pub if_ok {ℓ} : {A : Type ℓ} → Checked A → (A → Option Capability) → Option Capability
if_ok (ok value) next = next value
if_ok (err e) next = none

-- What stands in the arms of the second `match`; `none` is the way out of it.
unfoldable pub auth_value : Bytes → Option Capability
unfolding if_ok Auth.try_from
auth_value right = if_ok (Auth.try_from right) (λ mechanism. some (auth mechanism))

unfoldable pub compress_value : Bytes → Option Capability
unfolding if_ok Atom.try_from compression_try_from
compress_value right =
    if_ok (Atom.try_from right)
      (λ a. if_ok (compression_try_from a.inner) (λ algorithm. some (compress algorithm)))

unfoldable pub quota_value : Bytes → Option Capability
unfolding if_ok Atom.try_from resource_from split_once to_ascii_lowercase
quota_value right = elim (split_once (codes "res-") (to_ascii_lowercase right)) [
  | some (left, resource) ↦ if_ok (Atom.try_from resource) (λ a. some (quota_res (resource_from a)))
  | none ↦ none
]

unfoldable pub sort_value : Bytes → Option Capability
unfolding if_ok Atom.try_from sort_algorithm_from
sort_value right =
    if_ok (Atom.try_from right) (λ a. some (Capability.sort (some (sort_algorithm_from a))))

unfoldable pub thread_value : Bytes → Option Capability
unfolding if_ok Atom.try_from threading_from
thread_value right = if_ok (Atom.try_from right) (λ a. some (Capability.thread (threading_from a)))

unfoldable pub values : Bytes → List (Bytes × Option Capability)
unfolding auth_value compress_value quota_value sort_value thread_value
values right =
    (codes "auth", auth_value right)
    ∷ (codes "compress", compress_value right)
    ∷ (codes "quota", quota_value right)
    ∷ (codes "sort", sort_value right)
    ∷ (codes "thread", thread_value right)
    ∷ []

unfoldable pub parametrised : Bytes → Option Capability
unfolding split_once keyword to_ascii_lowercase values
parametrised cow = elim (split_once (codes "=") cow) [
  | some (left, right) ↦ keyword (to_ascii_lowercase left) (values right) none
  | none ↦ none
]

abbrev pub names : List (Bytes × Capability)
names =
    (codes "imap4rev1", imap4_rev1)
    ∷ (codes "logindisabled", login_disabled)
    ∷ (codes "idle", Capability.idle)
    ∷ (codes "sasl-ir", sasl_ir)
    ∷ (codes "enable", Capability.enable)
    ∷ (codes "quota", Capability.quota)
    ∷ (codes "quotaset", quota_set)
    ∷ (codes "literal+", literal_plus)
    ∷ (codes "literal-", literal_minus)
    ∷ (codes "move", Capability.move)
    ∷ (codes "sort", Capability.sort none)
    ∷ (codes "binary", Capability.binary)
    ∷ (codes "list-extended", list_extended)
    ∷ (codes "unselect", Capability.unselect)
    ∷ (codes "uidplus", uid_plus)
    ∷ []

unfoldable pub otherwise : Atom → Option Capability → Capability
otherwise a (some capability) = capability
otherwise a none = Capability.other a

unfoldable pub from : Atom → Capability
unfolding keyword to_ascii_lowercase parametrised otherwise
from a = keyword (to_ascii_lowercase a.inner) names (otherwise a (parametrised a.inner))
