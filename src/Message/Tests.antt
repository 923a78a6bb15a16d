-- ===== src/Message/Tests.antt =====
-- Names that are displayed and read (imap-types/src/response.rs and imap-types/src/auth.rs).
use imap_codec.Prelude.{◌≡◌, refl, ok, codes}
use imap_codec.Indicators.{is_atom_char}
use imap_codec.Core.Atom
use imap_codec.Core.Validation.{validate_nonempty, validate_bytes, position}
use imap_codec.Message.Auth
use imap_codec.Message.Extensions.{Resource, resource_from}
use imap_codec.Message.Names.{keyword, to_ascii_lowercase, to_ascii_uppercase}
use imap_codec.Message.Response.{quota_res, display}
use imap_codec.Message.Response.Capabilities.{
  from, parametrised, values, otherwise, split_once, strip_prefix, quota_value, if_ok,
}
use imap_codec.Message.Response.Capabilities.Reread.{from-display}

from-display_example :
    from (record { inner = display (from (record { inner = codes "quota=res-Message" })) })
    ≡ from (record { inner = codes "quota=res-Message" })
from-display_example = from-display (record { inner = codes "quota=res-Message" })

-- The text in front of `RES-` is ignored.
res_anywhere : from (record { inner = codes "QUOTA=NORES-STORAGE" }) ≡ quota_res Resource.storage
unfolding from keyword to_ascii_lowercase to_ascii_uppercase parametrised values otherwise
    split_once strip_prefix quota_value if_ok resource_from Atom.try_from Atom.validate
    validate_nonempty validate_bytes position is_atom_char
res_anywhere = refl

-- The letters of a resource are changed.
res_lower :
    from (record { inner = codes "QUOTA=RES-X" })
    ≡ quota_res (Resource.other (record { inner = codes "x" }))
unfolding from keyword to_ascii_lowercase to_ascii_uppercase parametrised values otherwise
    split_once strip_prefix quota_value if_ok resource_from Atom.try_from Atom.validate
    validate_nonempty validate_bytes position is_atom_char
res_lower = refl

-- This mechanism is not read from its own name.
sha3_name :
    Auth.try_from (Auth.as_ref Auth.scram_sha3_512)
    ≡ ok (Auth.other (record { inner = codes "SCRAM-SHA3-512" }))
unfolding Auth.try_from Auth.as_ref Auth.from keyword to_ascii_uppercase Atom.try_from Atom.validate
    validate_nonempty validate_bytes position is_atom_char
sha3_name = refl
