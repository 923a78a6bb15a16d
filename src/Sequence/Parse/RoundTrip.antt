-- ===== src/Sequence/Parse/RoundTrip.antt =====
-- Sequence sets that are written by imap-codec/src/codec/encode.rs and read by `FromStr` of
-- imap-types/src/sequence.rs.
use imap_codec.Prelude.{
  ltb, suc, length, ℕ, ◌≡◌, ◌≢◌, ◌∙◌, refl, ap, false, List, [], ◌∷◌, ◌++◌, map, append_assoc,
  Bytes, codes, All, All-append, arith, ◌⊎◌, inl, inr, ok,
}
use imap_codec.Core.VecN
use imap_codec.Fragmentizer.LineParser.Grammar.{IsDigit}
use imap_codec.Sequence.Types.{
  SeqOrUid, value, asterisk, Sequence, single, range, SequenceSet, sequences, IsValidSeq,
  IsValidSequence,
}
use imap_codec.Sequence.Order
use imap_codec.Sequence.Normalize
use imap_codec.Sequence.Normalize.Singles.{IsIteration}
use imap_codec.Sequence.Normalize.Named.{normalize-IsValidSequence}
use imap_codec.Sequence.Normalize.Canonical.{normalize-nonempty}
use imap_codec.Sequence.Parse.{
  split, extend_first, seq_or_uid_from_str, sequence_of_parts, sequence_from_str,
  sequences_of_parts, from_sequences, from_str,
}
use imap_codec.Sequence.Parse.Numbers.{seq_or_uid_from_str-display}
use imap_codec.Encode.Context.{EncodeContext, new, write_all}
use imap_codec.Encode.Decimal.{display, display-IsDigit}
use imap_codec.Encode.Values.{
  encode_seq_or_uid, encode_ends, encode_sequence, encode_sequence_set, join_serializable,
}

abbrev seq_text : SeqOrUid → Bytes
seq_text (value n) = display n
seq_text asterisk = codes "*"

abbrev sequence_text : Sequence → Bytes
sequence_text (single a) = seq_text a
sequence_text (range a b) = seq_text a ++ b':' ∷ seq_text b

abbrev set_text : List Sequence → Bytes
set_text [] = []
set_text (s ∷ []) = sequence_text s
set_text (s ∷ t ∷ seqs) = sequence_text s ++ b',' ∷ set_text (t ∷ seqs)

-- What is written.
encode_seq_or_uid-seq_text :
    (a : SeqOrUid) (ctx : EncodeContext) → encode_seq_or_uid a ctx ≡ write_all ctx (seq_text a)
unfolding encode_seq_or_uid
encode_seq_or_uid-seq_text (value n) ctx = refl
encode_seq_or_uid-seq_text asterisk ctx = refl

write_all-append :
    (ctx : EncodeContext) (xs ys : Bytes)
    → write_all (write_all ctx xs) ys ≡ write_all ctx (xs ++ ys)
unfolding write_all
write_all-append ctx xs ys = rw append_assoc

encode_ends-sequence_text :
    (s : Sequence) (ctx : EncodeContext) → encode_ends s ctx ≡ write_all ctx (sequence_text s)
unfolding encode_ends
encode_ends-sequence_text (single a) ctx = encode_seq_or_uid-seq_text a ctx
encode_ends-sequence_text (range a b) ctx =
    rw (encode_seq_or_uid-seq_text a ctx, encode_seq_or_uid-seq_text b)
      (ap (λ (c : EncodeContext). write_all c (seq_text b))
          (write_all-append ctx (seq_text a) (codes ":"))
        ∙ write_all-append ctx (seq_text a ++ codes ":") (seq_text b)
        ∙ ap (write_all ctx) (append_assoc (seq_text a) (codes ":") (seq_text b)))

join-set_text :
    (s : Sequence) (seqs : List Sequence) (ctx : EncodeContext)
    → join_serializable encode_sequence (s ∷ seqs) (codes ",") ctx
      ≡ write_all ctx (set_text (map Order.normalize (s ∷ seqs)))
unfolding join_serializable encode_sequence
join-set_text s [] ctx = encode_ends-sequence_text (Order.normalize s) ctx
join-set_text s (t ∷ seqs) ctx =
    let text = sequence_text (Order.normalize s) in
    let rest = set_text (map Order.normalize (t ∷ seqs)) in
    join-set_text t seqs (write_all (encode_sequence s ctx) (codes ","))
    ∙ ap (λ (c : EncodeContext). write_all (write_all c (codes ",")) rest)
        (encode_ends-sequence_text (Order.normalize s) ctx)
    ∙ ap (λ (c : EncodeContext). write_all c rest) (write_all-append ctx text (codes ","))
    ∙ write_all-append ctx (text ++ codes ",") rest
    ∙ ap (write_all ctx) (append_assoc text (codes ",") rest)

-- A text without the separator is one part.
split-one : (sep : ℕ) (part : Bytes) → All (λ b. b ≢ sep) part → split sep part ≡ part ∷ []
unfolding split extend_first
split-one sep [] h = refl
split-one sep (b ∷ part) (hb, h) = ground (arith, split-one sep part h)

split-first :
    (sep : ℕ) (part rest : Bytes)
    → All (λ b. b ≢ sep) part
    → split sep (part ++ sep ∷ rest) ≡ part ∷ split sep rest
unfolding split extend_first
split-first sep [] rest h = ground arith
split-first sep (b ∷ part) rest (hb, h) = ground (arith, split-first sep part rest h)

digits_without :
    (sep : ℕ) (ds : Bytes) → (sep ≡ b':') ⊎ (sep ≡ b',') → All IsDigit ds → All (λ b. b ≢ sep) ds
digits_without sep [] e h = tt
digits_without sep (d ∷ ds) e (hd, h) = ((λ same. omega arith), digits_without sep ds e h)

seq_text_without :
    (sep : ℕ) (a : SeqOrUid) → (sep ≡ b':') ⊎ (sep ≡ b',') → All (λ b. b ≢ sep) (seq_text a)
seq_text_without sep (value n) e = digits_without sep (display n) e (display-IsDigit n)
seq_text_without sep asterisk e = ((λ same. omega arith), tt)

sequence_text_without : (s : Sequence) → All (λ b. b ≢ b',') (sequence_text s)
sequence_text_without (single a) = seq_text_without b',' a (inr refl)
sequence_text_without (range a b) =
    All-append (λ c. c ≢ b',') (seq_text a) (b':' ∷ seq_text b) (seq_text_without b',' a (inr refl))
      ((omega arith), seq_text_without b',' b (inr refl))

-- What is read.
read_seq : (a : SeqOrUid) → IsValidSeq a → seq_or_uid_from_str (seq_text a) ≡ ok a
read_seq (value n) h = seq_or_uid_from_str-display n h
read_seq asterisk h = unfold seq_or_uid_from_str in refl

read_sequence : (s : Sequence) → IsValidSequence s → sequence_from_str (sequence_text s) ≡ ok s
unfolding sequence_from_str sequence_of_parts
read_sequence (single a) h =
    rw (split-one b':' (seq_text a) (seq_text_without b':' a (inl refl)), read_seq a h)
read_sequence (range a b) (ha, hb) = rw (
  split-first b':' (seq_text a) (seq_text b) (seq_text_without b':' a (inl refl)),
  split-one b':' (seq_text b) (seq_text_without b':' b (inl refl)),
  read_seq a ha,
  read_seq b hb,
)

split-set_text :
    (s : Sequence) (seqs : List Sequence)
    → split b',' (set_text (s ∷ seqs)) ≡ map sequence_text (s ∷ seqs)
split-set_text s [] = split-one b',' (sequence_text s) (sequence_text_without s)
split-set_text s (t ∷ seqs) =
    split-first b',' (sequence_text s) (set_text (t ∷ seqs)) (sequence_text_without s)
    ∙ ap (λ (parts : List Bytes). sequence_text s ∷ parts) (split-set_text t seqs)

read_parts :
    (seqs : List Sequence)
    → All IsValidSequence seqs
    → sequences_of_parts (map sequence_text seqs) ≡ ok seqs
unfolding sequences_of_parts
read_parts [] h = refl
read_parts (s ∷ seqs) (hs, h) = rw (read_sequence s hs, read_parts seqs h)

from_sequences-cons :
    (s : Sequence) (seqs : List Sequence)
    → from_sequences (s ∷ seqs) ≡ ok (record { inner = record { inner = s ∷ seqs } })
unfolding from_sequences VecN.try_from VecN.validate
from_sequences-cons s seqs =
    let enough : ltb (suc (length seqs)) 1 ≡ false = ground arith in rw (enough, from_sequences)

from_str-set_text :
    (s : Sequence) (seqs : List Sequence)
    → All IsValidSequence (s ∷ seqs)
    → from_str (set_text (s ∷ seqs)) ≡ ok (record { inner = record { inner = s ∷ seqs } })
unfolding from_str
from_str-set_text s seqs v =
    rw (split-set_text s seqs, read_parts (s ∷ seqs) v) (from_sequences-cons s seqs)

join-text :
    (seqs : List Sequence)
    → seqs ≢ []
    → map Order.normalize seqs ≡ seqs
    → (join_serializable encode_sequence seqs (codes ",") new).accumulator ≡ set_text seqs
unfolding write_all new
join-text [] h e = absurd (h refl)
join-text (s ∷ seqs) h e =
    ap (λ (c : EncodeContext). c.accumulator) (join-set_text s seqs new) ∙ ap set_text e

from_str-text :
    (seqs : List Sequence)
    → seqs ≢ []
    → All IsValidSequence seqs
    → from_str (set_text seqs) ≡ ok (record { inner = record { inner = seqs } })
from_str-text [] h v = absurd (h refl)
from_str-text (s ∷ seqs) h v = from_str-set_text s seqs v

-- A sequence set that is written is read as its normal form: for a set that is not empty and whose
-- numbers are from 1 to 2 ^ 32 - 1, parsing the encoded text succeeds with the normalized set, if
-- the iteration over the `HashSet` visits its members and nothing else.
pub from_str-encode_sequence_set :
    (order : List ℕ → List ℕ) (set : SequenceSet)
    → IsIteration order
    → sequences set ≢ []
    → All IsValidSequence (sequences set)
    → from_str (encode_sequence_set order set new).accumulator ≡ ok (Normalize.normalize order set)
unfolding encode_sequence_set
from_str-encode_sequence_set order set fair h v =
    let seqs = sequences (Normalize.normalize order set) in
    let nonempty = normalize-nonempty order set fair v h in
    let (valid, same) = normalize-IsValidSequence order set fair v in
    ap from_str (join-text seqs nonempty same) ∙ from_str-text seqs nonempty valid
