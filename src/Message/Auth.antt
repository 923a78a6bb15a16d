-- ===== src/Message/Auth.antt =====
-- imap-types/src/auth.rs
pub mod Reread
use imap_codec.Prelude.{List, Bytes, [], ◌∷◌, codes, ◌>>=◌, ok}
use imap_codec.Core.Atom
use imap_codec.Core.Atom.{Atom}
use imap_codec.Core.Validation.{Checked}
use imap_codec.Message.Names.{keyword, to_ascii_uppercase}

pub data AuthMechanism : Type 0 where
  plain : AuthMechanism
  login : AuthMechanism
  o_auth_bearer : AuthMechanism
  x_o_auth2 : AuthMechanism
  scram_sha1 : AuthMechanism
  scram_sha1_plus : AuthMechanism
  scram_sha256 : AuthMechanism
  scram_sha256_plus : AuthMechanism
  scram_sha3_512 : AuthMechanism
  scram_sha3_512_plus : AuthMechanism
  -- `AuthMechanismOther`
  other : Atom → AuthMechanism

unfoldable pub as_ref : AuthMechanism → Bytes
as_ref plain = codes "PLAIN"
as_ref login = codes "LOGIN"
as_ref o_auth_bearer = codes "OAUTHBEARER"
as_ref x_o_auth2 = codes "XOAUTH2"
as_ref scram_sha1 = codes "SCRAM-SHA-1"
as_ref scram_sha1_plus = codes "SCRAM-SHA-1-PLUS"
as_ref scram_sha256 = codes "SCRAM-SHA-256"
as_ref scram_sha256_plus = codes "SCRAM-SHA-256-PLUS"
as_ref scram_sha3_512 = codes "SCRAM-SHA3-512"
as_ref scram_sha3_512_plus = codes "SCRAM-SHA3-512-PLUS"
as_ref (other a) = a.inner

abbrev pub names : List (Bytes × AuthMechanism)
names =
    (codes "PLAIN", plain)
    ∷ (codes "LOGIN", login)
    ∷ (codes "OAUTHBEARER", o_auth_bearer)
    ∷ (codes "XOAUTH2", x_o_auth2)
    ∷ (codes "SCRAM-SHA-1", scram_sha1)
    ∷ (codes "SCRAM-SHA-1-PLUS", scram_sha1_plus)
    ∷ (codes "SCRAM-SHA-256", scram_sha256)
    ∷ (codes "SCRAM-SHA-256-PLUS", scram_sha256_plus)
    ∷ []

-- `From<Atom>`
unfoldable pub from : Atom → AuthMechanism
unfolding keyword to_ascii_uppercase
from a = keyword (to_ascii_uppercase a.inner) names (other a)

-- `TryFrom` of byte strings, and `FromStr`.
unfoldable pub try_from : Bytes → Checked AuthMechanism
unfolding from Atom.try_from
try_from value = Atom.try_from value >>= λ a. ok (from a)

-- `Continue` holds the data behind a `Secret`.
pub data AuthenticateData : Type 0 where
  continue : (data_bytes : Bytes) → AuthenticateData
  cancel : AuthenticateData
