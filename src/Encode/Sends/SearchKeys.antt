-- ===== src/Encode/Sends/SearchKeys.antt =====
-- Search keys as parts of a message.
use imap_codec.Prelude.{refl, codes}
use imap_codec.Encode.Strings.{IsEncodable}
use imap_codec.Encode.SearchKeys.{encode_search_key, encode_search_keys, encode_more_keys}
use imap_codec.Encode.Sends.{Sends, Sends->>, Sends-plain, Sends-skip, Sends-number}
use imap_codec.Encode.Sends.Strings.{IsEncodableAtom, Sends-atom, Sends-astring}
use imap_codec.Encode.Sends.Sets.{IsPlain, Sends-sequence_set, Sends-date}
use imap_codec.Message.Packages.{Packages}
use imap_codec.Message.Search.{SearchKey, SearchKeys, nil, cons}

-- The strings in a search key are those that their types allow.
abbrev mutual
  pub IsEncodableKey : {NaiveDate : Type 0} → SearchKey NaiveDate → Type 0
  IsEncodableKey SearchKey.all = Unit
  IsEncodableKey SearchKey.answered = Unit
  IsEncodableKey (SearchKey.bcc value) = IsEncodable value
  IsEncodableKey (SearchKey.before value) = Unit
  IsEncodableKey (SearchKey.body value) = IsEncodable value
  IsEncodableKey (SearchKey.cc_to value) = IsEncodable value
  IsEncodableKey SearchKey.deleted = Unit
  IsEncodableKey SearchKey.flagged = Unit
  IsEncodableKey (SearchKey.from value) = IsEncodable value
  IsEncodableKey (SearchKey.keyword value) = IsEncodableAtom value
  IsEncodableKey SearchKey.new = Unit
  IsEncodableKey SearchKey.old = Unit
  IsEncodableKey (SearchKey.on value) = Unit
  IsEncodableKey SearchKey.recent = Unit
  IsEncodableKey SearchKey.seen = Unit
  IsEncodableKey (SearchKey.since value) = Unit
  IsEncodableKey (SearchKey.subject value) = IsEncodable value
  IsEncodableKey (SearchKey.text value) = IsEncodable value
  IsEncodableKey (SearchKey.to value) = IsEncodable value
  IsEncodableKey SearchKey.unanswered = Unit
  IsEncodableKey SearchKey.undeleted = Unit
  IsEncodableKey SearchKey.unflagged = Unit
  IsEncodableKey (SearchKey.unkeyword value) = IsEncodableAtom value
  IsEncodableKey SearchKey.unseen = Unit
  IsEncodableKey SearchKey.draft = Unit
  IsEncodableKey (SearchKey.header name value) = IsEncodable name × IsEncodable value
  IsEncodableKey (SearchKey.larger value) = Unit
  IsEncodableKey (SearchKey.not key) = IsEncodableKey key
  IsEncodableKey (SearchKey.or a b) = IsEncodableKey a × IsEncodableKey b
  IsEncodableKey (SearchKey.sent_before value) = Unit
  IsEncodableKey (SearchKey.sent_on value) = Unit
  IsEncodableKey (SearchKey.sent_since value) = Unit
  IsEncodableKey (SearchKey.smaller value) = Unit
  IsEncodableKey (SearchKey.uid value) = Unit
  IsEncodableKey SearchKey.undraft = Unit
  IsEncodableKey (SearchKey.sequence_set set) = Unit
  IsEncodableKey (SearchKey.and keys) = IsEncodableKeys keys

  pub IsEncodableKeys : {NaiveDate : Type 0} → SearchKeys NaiveDate → Type 0
  IsEncodableKeys nil = Unit
  IsEncodableKeys (cons key keys) = IsEncodableKey key × IsEncodableKeys keys

module _ {NaiveDate DateTime : Type 0} (packages : Packages NaiveDate DateTime)
    (plain : IsPlain packages) where
  mutual
    unfolding encode_search_key encode_search_keys encode_more_keys

    pub Sends-search_key :
        (key : SearchKey NaiveDate) → IsEncodableKey key → Sends (encode_search_key packages key)
    Sends-search_key SearchKey.all h = Sends-plain (codes "ALL") refl
    Sends-search_key SearchKey.answered h = Sends-plain (codes "ANSWERED") refl
    Sends-search_key (SearchKey.bcc value) h =
        Sends->> (Sends-plain (codes "BCC ") refl) (Sends-astring value h)
    Sends-search_key (SearchKey.before value) h =
        Sends->> (Sends-plain (codes "BEFORE ") refl) (Sends-date packages plain value)
    Sends-search_key (SearchKey.body value) h =
        Sends->> (Sends-plain (codes "BODY ") refl) (Sends-astring value h)
    Sends-search_key (SearchKey.cc_to value) h =
        Sends->> (Sends-plain (codes "CC ") refl) (Sends-astring value h)
    Sends-search_key SearchKey.deleted h = Sends-plain (codes "DELETED") refl
    Sends-search_key SearchKey.flagged h = Sends-plain (codes "FLAGGED") refl
    Sends-search_key (SearchKey.from value) h =
        Sends->> (Sends-plain (codes "FROM ") refl) (Sends-astring value h)
    Sends-search_key (SearchKey.keyword value) h =
        Sends->> (Sends-plain (codes "KEYWORD ") refl) (Sends-atom value h)
    Sends-search_key SearchKey.new h = Sends-plain (codes "NEW") refl
    Sends-search_key SearchKey.old h = Sends-plain (codes "OLD") refl
    Sends-search_key (SearchKey.on value) h =
        Sends->> (Sends-plain (codes "ON ") refl) (Sends-date packages plain value)
    Sends-search_key SearchKey.recent h = Sends-plain (codes "RECENT") refl
    Sends-search_key SearchKey.seen h = Sends-plain (codes "SEEN") refl
    Sends-search_key (SearchKey.since value) h =
        Sends->> (Sends-plain (codes "SINCE ") refl) (Sends-date packages plain value)
    Sends-search_key (SearchKey.subject value) h =
        Sends->> (Sends-plain (codes "SUBJECT ") refl) (Sends-astring value h)
    Sends-search_key (SearchKey.text value) h =
        Sends->> (Sends-plain (codes "TEXT ") refl) (Sends-astring value h)
    Sends-search_key (SearchKey.to value) h =
        Sends->> (Sends-plain (codes "TO ") refl) (Sends-astring value h)
    Sends-search_key SearchKey.unanswered h = Sends-plain (codes "UNANSWERED") refl
    Sends-search_key SearchKey.undeleted h = Sends-plain (codes "UNDELETED") refl
    Sends-search_key SearchKey.unflagged h = Sends-plain (codes "UNFLAGGED") refl
    Sends-search_key (SearchKey.unkeyword value) h =
        Sends->> (Sends-plain (codes "UNKEYWORD ") refl) (Sends-atom value h)
    Sends-search_key SearchKey.unseen h = Sends-plain (codes "UNSEEN") refl
    Sends-search_key SearchKey.draft h = Sends-plain (codes "DRAFT") refl
    Sends-search_key (SearchKey.header name value) (hn, hv) =
        Sends->> (Sends-plain (codes "HEADER ") refl) (
          Sends->> (Sends-astring name hn)
            (Sends->> (Sends-plain (codes " ") refl) (Sends-astring value hv)))
    Sends-search_key (SearchKey.larger value) h =
        Sends->> (Sends-plain (codes "LARGER ") refl) (Sends-number value)
    Sends-search_key (SearchKey.not key) h =
        Sends->> (Sends-plain (codes "NOT ") refl) (Sends-search_key key h)
    Sends-search_key (SearchKey.or a b) (ha, hb) = Sends->> (Sends-plain (codes "OR ") refl) (
        Sends->> (Sends-search_key a ha)
          (Sends->> (Sends-plain (codes " ") refl) (Sends-search_key b hb)))
    Sends-search_key (SearchKey.sent_before value) h =
        Sends->> (Sends-plain (codes "SENTBEFORE ") refl) (Sends-date packages plain value)
    Sends-search_key (SearchKey.sent_on value) h =
        Sends->> (Sends-plain (codes "SENTON ") refl) (Sends-date packages plain value)
    Sends-search_key (SearchKey.sent_since value) h =
        Sends->> (Sends-plain (codes "SENTSINCE ") refl) (Sends-date packages plain value)
    Sends-search_key (SearchKey.smaller value) h =
        Sends->> (Sends-plain (codes "SMALLER ") refl) (Sends-number value)
    Sends-search_key (SearchKey.uid value) h =
        Sends->> (Sends-plain (codes "UID ") refl)
          (Sends-sequence_set packages.iteration_order value)
    Sends-search_key SearchKey.undraft h = Sends-plain (codes "UNDRAFT") refl
    Sends-search_key (SearchKey.sequence_set set) h =
        Sends-sequence_set packages.iteration_order set
    Sends-search_key (SearchKey.and keys) h =
        Sends->> (Sends-plain (codes "(") refl)
          (Sends->> (Sends-search_keys keys h) (Sends-plain (codes ")") refl))

    pub Sends-search_keys :
        (keys : SearchKeys NaiveDate)
        → IsEncodableKeys keys
        → Sends (encode_search_keys packages keys)
    Sends-search_keys nil h = Sends-skip
    Sends-search_keys (cons key keys) (hk, h) =
        Sends->> (Sends-search_key key hk) (Sends-more_keys keys h)

    Sends-more_keys :
        (keys : SearchKeys NaiveDate)
        → IsEncodableKeys keys
        → Sends (encode_more_keys packages keys)
    Sends-more_keys nil h = Sends-skip
    Sends-more_keys (cons key keys) (hk, h) =
        Sends->> (Sends-plain (codes " ") refl)
          (Sends->> (Sends-search_key key hk) (Sends-more_keys keys h))
