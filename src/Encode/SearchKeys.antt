-- ===== src/Encode/SearchKeys.antt =====
-- Search keys (imap-types/src/search.rs) as imap-codec/src/codec/encode.rs writes them.
use imap_codec.Prelude.{◌++◌, codes}
use imap_codec.Encode.Values.{encode_atom, encode_astring, encode_sequence_set}
use imap_codec.Encode.Writer.{Writer, ◌>>◌, write, skip, encode_number}
use imap_codec.Message.Packages.{Packages}
use imap_codec.Message.Search.{SearchKey, SearchKeys, nil, cons}

module _ {NaiveDate DateTime : Type 0} (packages : Packages NaiveDate DateTime) where
  unfoldable pub encode_date : NaiveDate → Writer
  unfolding ◌>>◌ write
  encode_date date = write (codes "\"" ++ (packages.format_date date ++ codes "\""))

  -- The keys of a list are joined by spaces.
  unfoldable mutual
    unfolding ◌>>◌ write skip encode_date encode_atom encode_astring encode_number
        encode_sequence_set

    pub encode_search_key : SearchKey NaiveDate → Writer
    encode_search_key SearchKey.all = write (codes "ALL")
    encode_search_key SearchKey.answered = write (codes "ANSWERED")
    encode_search_key (SearchKey.bcc value) = do write (codes "BCC "); encode_astring value
    encode_search_key (SearchKey.before value) = do write (codes "BEFORE "); encode_date value
    encode_search_key (SearchKey.body value) = do write (codes "BODY "); encode_astring value
    encode_search_key (SearchKey.cc_to value) = do write (codes "CC "); encode_astring value
    encode_search_key SearchKey.deleted = write (codes "DELETED")
    encode_search_key SearchKey.flagged = write (codes "FLAGGED")
    encode_search_key (SearchKey.from value) = do write (codes "FROM "); encode_astring value
    encode_search_key (SearchKey.keyword value) = do write (codes "KEYWORD "); encode_atom value
    encode_search_key SearchKey.new = write (codes "NEW")
    encode_search_key SearchKey.old = write (codes "OLD")
    encode_search_key (SearchKey.on value) = do write (codes "ON "); encode_date value
    encode_search_key SearchKey.recent = write (codes "RECENT")
    encode_search_key SearchKey.seen = write (codes "SEEN")
    encode_search_key (SearchKey.since value) = do write (codes "SINCE "); encode_date value
    encode_search_key (SearchKey.subject value) = do write (codes "SUBJECT "); encode_astring value
    encode_search_key (SearchKey.text value) = do write (codes "TEXT "); encode_astring value
    encode_search_key (SearchKey.to value) = do write (codes "TO "); encode_astring value
    encode_search_key SearchKey.unanswered = write (codes "UNANSWERED")
    encode_search_key SearchKey.undeleted = write (codes "UNDELETED")
    encode_search_key SearchKey.unflagged = write (codes "UNFLAGGED")
    encode_search_key (SearchKey.unkeyword value) = do write (codes "UNKEYWORD "); encode_atom value
    encode_search_key SearchKey.unseen = write (codes "UNSEEN")
    encode_search_key SearchKey.draft = write (codes "DRAFT")
    encode_search_key (SearchKey.header header_fld_name value) = do
      write (codes "HEADER ")
      encode_astring header_fld_name
      write (codes " ")
      encode_astring value
    encode_search_key (SearchKey.larger value) = do write (codes "LARGER "); encode_number value
    encode_search_key (SearchKey.not search_key) = do
      write (codes "NOT ")
      encode_search_key search_key
    encode_search_key (SearchKey.or search_key_a search_key_b) = do
      write (codes "OR ")
      encode_search_key search_key_a
      write (codes " ")
      encode_search_key search_key_b
    encode_search_key (SearchKey.sent_before value) = do
      write (codes "SENTBEFORE ")
      encode_date value
    encode_search_key (SearchKey.sent_on value) = do write (codes "SENTON "); encode_date value
    encode_search_key (SearchKey.sent_since value) = do
      write (codes "SENTSINCE ")
      encode_date value
    encode_search_key (SearchKey.smaller value) = do write (codes "SMALLER "); encode_number value
    encode_search_key (SearchKey.uid value) = do
      write (codes "UID ")
      encode_sequence_set packages.iteration_order value
    encode_search_key SearchKey.undraft = write (codes "UNDRAFT")
    encode_search_key (SearchKey.sequence_set set) =
        encode_sequence_set packages.iteration_order set
    encode_search_key (SearchKey.and search_keys) = do
      write (codes "(")
      encode_search_keys search_keys
      write (codes ")")

    pub encode_search_keys : SearchKeys NaiveDate → Writer
    encode_search_keys nil = skip
    encode_search_keys (cons key keys) = do encode_search_key key; encode_more_keys keys

    -- What follows the first key.
    pub encode_more_keys : SearchKeys NaiveDate → Writer
    encode_more_keys nil = skip
    encode_more_keys (cons key keys) = do
      write (codes " ")
      encode_search_key key
      encode_more_keys keys
