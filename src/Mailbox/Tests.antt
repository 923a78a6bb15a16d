-- ===== src/Mailbox/Tests.antt =====
-- A mailbox name (imap-types/src/mailbox.rs).
use imap_codec.Mailbox.{list_mailbox_try_from}
use imap_codec.Mailbox.Patterns.{AsListMailbox, list_mailbox-AsListMailbox}
use imap_codec.Prelude.{◌≡◌, ◌⊎◌, true, false, some, codes}
use imap_codec.Core.AString
use imap_codec.Core.AString.{AString, atom}
use imap_codec.Mailbox.{eq_ignore_ascii_case, inbox_name, inbox, other, from_astring}
use imap_codec.Mailbox.Reserved.{from_astring_cases}

abbrev mixed_case : AString
mixed_case = atom (record { inner = codes "InBoX" })

from_astring_cases_example :
    ((eq_ignore_ascii_case (AString.as_ref mixed_case) inbox_name ≡ true)
      × (from_astring mixed_case ≡ some inbox))
    ⊎ ((eq_ignore_ascii_case (AString.as_ref mixed_case) inbox_name ≡ false)
        × (from_astring mixed_case ≡ some (other (record { inner = mixed_case }))))
from_astring_cases_example = from_astring_cases mixed_case

list_mailbox-AsListMailbox_example :
    AsListMailbox (codes "INBOX.%") (list_mailbox_try_from (codes "INBOX.%"))
list_mailbox-AsListMailbox_example = list_mailbox-AsListMailbox (codes "INBOX.%")
