-- ===== src/Message/Flag.antt =====
-- imap-types/src/flag.rs
use imap_codec.Prelude.{Bool, true, false, [], ◌∷◌, Bytes, codes, ◌==◌, if◌then◌else◌, ok, ◌>>=◌}
use imap_codec.Core.Atom
use imap_codec.Core.Atom.{Atom}
use imap_codec.Core.Validation.{Checked}
use imap_codec.Message.Names
use imap_codec.Message.Names.{to_ascii_lowercase}

pub data Flag : Type 0 where
  answered : Flag
  deleted : Flag
  draft : Flag
  flagged : Flag
  seen : Flag
  -- `FlagExtension`
  extension : Atom → Flag
  keyword : Atom → Flag

unfoldable pub system : Atom → Flag
unfolding Names.keyword to_ascii_lowercase
system a =
    Names.keyword (to_ascii_lowercase a.inner)
      ((codes "answered", answered)
        ∷ (codes "deleted", deleted)
        ∷ (codes "draft", draft)
        ∷ (codes "flagged", flagged)
        ∷ (codes "seen", seen)
        ∷ [])
      (extension a)

-- `TryFrom<&str>`
unfoldable pub try_from : Bytes → Checked Flag
unfolding system Atom.try_from
try_from [] = Atom.try_from [] >>= λ a. ok (keyword a)
try_from (b ∷ rest) =
    if b == b'\\'
    then (Atom.try_from rest >>= λ a. ok (system a))
    else Atom.try_from (b ∷ rest) >>= λ a. ok (keyword a)

-- `Display`
unfoldable pub display : Flag → Bytes
display answered = codes "\\Answered"
display deleted = codes "\\Deleted"
display draft = codes "\\Draft"
display flagged = codes "\\Flagged"
display seen = codes "\\Seen"
display (extension a) = b'\\' ∷ a.inner
display (keyword a) = a.inner

pub data FlagFetch : Type 0 where
  flag : Flag → FlagFetch
  recent : FlagFetch

pub data FlagPerm : Type 0 where
  flag : Flag → FlagPerm
  asterisk : FlagPerm

pub data FlagNameAttribute : Type 0 where
  noinferiors : FlagNameAttribute
  noselect : FlagNameAttribute
  marked : FlagNameAttribute
  unmarked : FlagNameAttribute
  -- `FlagNameAttributeExtension`
  extension : Atom → FlagNameAttribute

unfoldable pub is_selectability : FlagNameAttribute → Bool
is_selectability noinferiors = false
is_selectability noselect = true
is_selectability marked = true
is_selectability unmarked = true
is_selectability (FlagNameAttribute.extension a) = false

-- `From<Atom>`
unfoldable pub name_attribute_from : Atom → FlagNameAttribute
unfolding Names.keyword to_ascii_lowercase
name_attribute_from a =
    Names.keyword (to_ascii_lowercase a.inner)
      ((codes "noinferiors", noinferiors)
        ∷ (codes "noselect", noselect)
        ∷ (codes "marked", marked)
        ∷ (codes "unmarked", unmarked)
        ∷ [])
      (FlagNameAttribute.extension a)

-- `Display`
unfoldable pub display_name_attribute : FlagNameAttribute → Bytes
display_name_attribute noinferiors = codes "\\Noinferiors"
display_name_attribute noselect = codes "\\Noselect"
display_name_attribute marked = codes "\\Marked"
display_name_attribute unmarked = codes "\\Unmarked"
display_name_attribute (FlagNameAttribute.extension a) = b'\\' ∷ a.inner

pub data StoreType : Type 0 where
  replace : StoreType
  add : StoreType
  remove : StoreType

pub data StoreResponse : Type 0 where
  answer : StoreResponse
  silent : StoreResponse
