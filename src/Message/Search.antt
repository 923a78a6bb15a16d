-- ===== src/Message/Search.antt =====
-- imap-types/src/search.rs
use imap_codec.Prelude.{ℕ}
use imap_codec.Core.Atom.{Atom}
use imap_codec.Core.AString.{AString}
use imap_codec.Sequence.Types.{SequenceSet}

-- `SearchKeys` stands for `Vec1<SearchKey>`.
mutual
  pub data SearchKey (NaiveDate : Type 0) : Type 0 where
    and : SearchKeys NaiveDate → SearchKey NaiveDate
    sequence_set : SequenceSet → SearchKey NaiveDate
    all : SearchKey NaiveDate
    answered : SearchKey NaiveDate
    bcc : AString → SearchKey NaiveDate
    before : NaiveDate → SearchKey NaiveDate
    body : AString → SearchKey NaiveDate
    cc_to : AString → SearchKey NaiveDate
    deleted : SearchKey NaiveDate
    draft : SearchKey NaiveDate
    flagged : SearchKey NaiveDate
    from : AString → SearchKey NaiveDate
    header : AString → AString → SearchKey NaiveDate
    keyword : Atom → SearchKey NaiveDate
    larger : ℕ → SearchKey NaiveDate
    new : SearchKey NaiveDate
    not : SearchKey NaiveDate → SearchKey NaiveDate
    old : SearchKey NaiveDate
    on : NaiveDate → SearchKey NaiveDate
    or : SearchKey NaiveDate → SearchKey NaiveDate → SearchKey NaiveDate
    recent : SearchKey NaiveDate
    seen : SearchKey NaiveDate
    sent_before : NaiveDate → SearchKey NaiveDate
    sent_on : NaiveDate → SearchKey NaiveDate
    sent_since : NaiveDate → SearchKey NaiveDate
    since : NaiveDate → SearchKey NaiveDate
    smaller : ℕ → SearchKey NaiveDate
    subject : AString → SearchKey NaiveDate
    text : AString → SearchKey NaiveDate
    to : AString → SearchKey NaiveDate
    uid : SequenceSet → SearchKey NaiveDate
    unanswered : SearchKey NaiveDate
    undeleted : SearchKey NaiveDate
    undraft : SearchKey NaiveDate
    unflagged : SearchKey NaiveDate
    unkeyword : Atom → SearchKey NaiveDate
    unseen : SearchKey NaiveDate

  pub data SearchKeys (NaiveDate : Type 0) : Type 0 where
    nil : SearchKeys NaiveDate
    cons : SearchKey NaiveDate → SearchKeys NaiveDate → SearchKeys NaiveDate
