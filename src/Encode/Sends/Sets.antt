-- ===== src/Encode/Sends/Sets.antt =====
-- Sequence sets, dates and base64 as parts of a message.
use imap_codec.Prelude.{ℕ, ◌≡◌, refl, true, List, [], ◌∷◌, ◌++◌, Bytes, codes, all, All, arith}
use imap_codec.Sequence.Types.{
  SeqOrUid, value, asterisk, Sequence, single, range, SequenceSet, sequences,
}
use imap_codec.Sequence.Order
use imap_codec.Sequence.Normalize
use imap_codec.Encode.Values.{encode_seq_or_uid, encode_ends, encode_sequence, encode_sequence_set}
use imap_codec.Encode.Settled.{is_plain}
use imap_codec.Encode.Writer.{◌>>◌, write, encode_number}
use imap_codec.Encode.SearchKeys.{encode_date}
use imap_codec.Encode.Sends.{Sends, Sends->>, Sends-plain, Sends-number, Sends-join}
use imap_codec.Message.Packages.{Packages}

-- The other packages write digits, letters and a few signs, and no line end or bracket.
pub record IsPlain {NaiveDate DateTime : Type 0} (packages : Packages NaiveDate DateTime)
    : Type 0 where
  pub base64_plain : (data_bytes : Bytes) → all is_plain (packages.base64_encode data_bytes) ≡ true
  pub date_plain : (date : NaiveDate) → all is_plain (packages.format_date date) ≡ true
  pub date_time_plain : (date : DateTime) → all is_plain (packages.format_date_time date) ≡ true

pub plain-append :
    (xs ys : Bytes)
    → all is_plain xs ≡ true
    → all is_plain ys ≡ true
    → all is_plain (xs ++ ys) ≡ true
plain-append [] ys h k = k
plain-append (x ∷ xs) ys h k = ground (arith, plain-append xs ys)

pub plain_quoted :
    (text : Bytes)
    → all is_plain text ≡ true
    → all is_plain (codes "\"" ++ (text ++ codes "\"")) ≡ true
plain_quoted text h = plain-append text (codes "\"") h refl

pub Sends-date :
    {NaiveDate DateTime : Type 0} (packages : Packages NaiveDate DateTime)
    → IsPlain packages
    → (date : NaiveDate) → Sends (encode_date packages date)
unfolding encode_date
Sends-date packages plain date =
    Sends-plain (codes "\"" ++ (packages.format_date date ++ codes "\""))
      (plain_quoted (packages.format_date date) (plain.date_plain date))

Sends-seq_or_uid : (seq : SeqOrUid) → Sends (encode_seq_or_uid seq)
unfolding encode_seq_or_uid write encode_number
Sends-seq_or_uid (value n) = Sends-number n
Sends-seq_or_uid asterisk = Sends-plain (codes "*") refl

Sends-ends : (s : Sequence) → Sends (encode_ends s)
unfolding encode_ends ◌>>◌ write
Sends-ends (single seq) = Sends-seq_or_uid seq
Sends-ends (range from to) =
    Sends->> (Sends-seq_or_uid from) (Sends->> (Sends-plain (codes ":") refl) (Sends-seq_or_uid to))

Sends-sequence : (s : Sequence) → Sends (encode_sequence s)
unfolding encode_sequence
Sends-sequence s = Sends-ends (Order.normalize s)

pub All-Unit {ℓ} : {A : Type ℓ} (items : List A) → All (λ _. Unit {0}) items
All-Unit [] = tt
All-Unit (item ∷ items) = (tt, All-Unit items)

pub Sends-sequence_set :
    (iteration_order : List ℕ → List ℕ) (set : SequenceSet)
    → Sends (encode_sequence_set iteration_order set)
unfolding encode_sequence_set
Sends-sequence_set iteration_order set =
    let seqs = sequences (Normalize.normalize iteration_order set) in
    Sends-join (λ _. Unit {0}) seqs (codes ",") (λ s _. Sends-sequence s) refl (All-Unit seqs)
