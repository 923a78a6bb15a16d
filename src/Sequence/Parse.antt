-- ===== src/Sequence/Parse.antt =====
-- `FromStr` of sequence sets (imap-types/src/sequence.rs).
pub mod Numbers
pub mod RoundTrip
use imap_codec.Prelude.{
  ℕ, ◌+◌, ◌-◌, ◌*◌, Bool, true, false, Option, none, some, Result, ok, err, List, [], ◌∷◌, Bytes,
  ◌==◌, leb, ◌&&◌, if◌then◌else◌, ◌>>=◌, map,
}
use imap_codec.Core.Validation.{Checked, fail, invalid, empty}
use imap_codec.Core.VecN
use imap_codec.Core.VecN.{Vec1}
use imap_codec.Fragmentizer.LineParser.{checked_mul, checked_add, is_digit}
use imap_codec.Sequence.Types.{
  SeqOrUid, value, asterisk, Sequence, single, range, SequenceSet, from_non_zero,
}

-- `str::split` by one character: there is always a first part.
unfoldable pub extend_first : ℕ → List Bytes → List Bytes
extend_first b [] = (b ∷ []) ∷ []
extend_first b (part ∷ parts) = (b ∷ part) ∷ parts

unfoldable pub split : ℕ → Bytes → List Bytes
unfolding extend_first
split sep [] = [] ∷ []
split sep (b ∷ text) =
    let parts = split sep text in if b == sep then [] ∷ parts else extend_first b parts

-- The loop of `u32::from_str`: every byte is a digit, and the number does not overflow.
unfoldable pub parse_digits : ℕ → Bytes → Option ℕ
unfolding checked_mul checked_add
parse_digits n [] = some n
parse_digits n (b ∷ digits) = elim (is_digit b) [
  | false ↦ none
  | true ↦ elim (checked_mul n 10) [
    | none ↦ none
    | some m ↦ elim (checked_add m (b - b'0')) [ none ↦ none | some m' ↦ parse_digits m' digits ]
  ]
]

-- At least one digit.
unfoldable pub parse_number : Bytes → Option ℕ
unfolding parse_digits
parse_number [] = none
parse_number (b ∷ digits) = parse_digits 0 (b ∷ digits)

-- `u32::from_str`: a `+` may stand in front of the digits.
unfoldable pub parse_u32 : Bytes → Option ℕ
unfolding parse_number
parse_u32 [] = none
parse_u32 (b ∷ text) = if b == b'+' then parse_number text else parse_number (b ∷ text)

-- `NonZeroU32::from_str`
unfoldable pub parse_non_zero_u32 : Bytes → Option ℕ
unfolding parse_u32
parse_non_zero_u32 text = elim (parse_u32 text) [
  | none ↦ none
  | some n ↦ if n == 0 then none else some n
]

abbrev starts_with : ℕ → Bytes → Bool
starts_with c [] = false
starts_with c (b ∷ text) = b == c

abbrev is_asterisk : Bytes → Bool
is_asterisk [] = false
is_asterisk (b ∷ []) = b == b'*'
is_asterisk (b ∷ c ∷ text) = false

unfoldable pub seq_or_uid_from_str : Bytes → Checked SeqOrUid
unfolding parse_non_zero_u32
seq_or_uid_from_str text =
    if is_asterisk text
    then ok asterisk
    else if starts_with b'0' text
    then fail invalid
    else elim (parse_non_zero_u32 text) [ none ↦ fail invalid | some n ↦ ok (value n) ]

-- The `match` on the number of parts.
unfoldable pub sequence_of_parts : Bytes → List Bytes → Checked Sequence
unfolding seq_or_uid_from_str
sequence_of_parts text [] = fail empty
sequence_of_parts text (part ∷ []) = seq_or_uid_from_str text >>= λ a. ok (single a)
sequence_of_parts text (start ∷ end ∷ []) =
    seq_or_uid_from_str start >>= λ a. seq_or_uid_from_str end >>= λ b. ok (range a b)
sequence_of_parts text (_ ∷ _ ∷ _ ∷ _) = fail invalid

unfoldable pub sequence_from_str : Bytes → Checked Sequence
unfolding split sequence_of_parts
sequence_from_str text = sequence_of_parts text (split b':' text)

-- `TryFrom<Vec<Sequence>>` and `TryFrom<Vec<NonZeroU32>>`: the only error of `Vec1` is renamed.
unfoldable pub from_sequences : List Sequence → Checked SequenceSet
from_sequences seqs = elim (VecN.try_from 1 seqs) [
  | ok v ↦ ok (record { inner = v })
  | err _ ↦ fail empty
]

unfoldable pub from_non_zeros : List ℕ → Checked SequenceSet
unfolding from_sequences from_non_zero
from_non_zeros numbers = from_sequences (map (λ n. single (from_non_zero n)) numbers)

-- The loop over the parts.
unfoldable pub sequences_of_parts : List Bytes → Checked (List Sequence)
unfolding sequence_from_str
sequences_of_parts [] = ok []
sequences_of_parts (part ∷ parts) =
    sequence_from_str part >>= λ s. sequences_of_parts parts >>= λ more. ok (s ∷ more)

unfoldable pub from_str : Bytes → Checked SequenceSet
unfolding split sequences_of_parts from_sequences
from_str text = sequences_of_parts (split b',' text) >>= from_sequences
