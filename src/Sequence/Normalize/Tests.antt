-- ===== src/Sequence/Normalize/Tests.antt =====
-- Normalized sequence sets (imap-types/src/sequence.rs).
use imap_codec.Prelude.{ℕ, ◌||◌, ◌≡◌, ◌↔◌, refl, List, [], ◌∷◌, ◌++◌, map, All, ok, arith}
use mathlib.Core.List.{cons-ne-nil}
use imap_codec.Encode.Context.{new}
use imap_codec.Encode.Values.{encode_sequence_set}
use imap_codec.Sequence.Types.{
  value, asterisk, single, range, SequenceSet, sequences, IsValidSequence, u32_max,
}
use imap_codec.Sequence.Iter.Ascending.{Named}
use imap_codec.Sequence.Order
use imap_codec.Sequence.Parse.{from_str}
use imap_codec.Sequence.Parse.RoundTrip.{from_str-encode_sequence_set}
use imap_codec.Sequence.Normalize.{normalize, normalized, contains}
use imap_codec.Sequence.Normalize.Singles.{IsIteration}
use imap_codec.Sequence.Normalize.Rebuilt.{IsGapped}
use imap_codec.Sequence.Normalize.Named.{normalize-Named, normalize-IsGapped}
use imap_codec.Sequence.Normalize.Canonical.{normalize_unordered}

abbrev as_stored : List ℕ → List ℕ
as_stored set = set

abbrev backwards : List ℕ → List ℕ
backwards [] = []
backwards (n ∷ set) = backwards set ++ n ∷ []

as_stored-IsIteration : IsIteration as_stored
as_stored-IsIteration set n = refl

contains-append :
    (n : ℕ) (xs ys : List ℕ) → contains n (xs ++ ys) ≡ (contains n xs || contains n ys)
contains-append n [] ys = refl
contains-append n (x ∷ xs) ys = ground (arith, contains-append n xs ys)

backwards-IsIteration : IsIteration backwards
backwards-IsIteration [] n = refl
backwards-IsIteration (m ∷ set) n =
    ground (arith, contains-append n (backwards set) (m ∷ []), backwards-IsIteration set n)

-- `8:10,12,3:1,2:5,9`
abbrev mixed : SequenceSet
mixed = record {
  inner = record {
    inner =
        range (value 8) (value 10)
        ∷ single (value 12)
        ∷ range (value 3) (value 1)
        ∷ range (value 2) (value 5)
        ∷ single (value 9)
        ∷ [];
  };
}

mixed-IsValid : All IsValidSequence (sequences mixed)
mixed-IsValid = omega arith

mixed_normalized : normalize as_stored mixed ≡ record {
  inner = record {
    inner = range (value 1) (value 5) ∷ range (value 8) (value 10) ∷ single (value 12) ∷ [];
  };
}
unfolding normalize
mixed_normalized = refl

-- `4294967294:*` and `4294967294,*` lose the `*`.
lost_asterisk :
    normalized as_stored (range (value 4294967294) asterisk ∷ []) ≡ single (value 4294967294) ∷ []
unfolding normalized
lost_asterisk = refl

lost_single :
    normalized as_stored (single (value 4294967294) ∷ single asterisk ∷ [])
    ≡ single (value 4294967294) ∷ []
unfolding normalized
lost_single = refl

normalize-Named_example :
    Named u32_max 9 (sequences (normalize as_stored mixed)) ↔ Named u32_max 9 (sequences mixed)
normalize-Named_example =
    normalize-Named as_stored mixed 9 as_stored-IsIteration mixed-IsValid (omega arith)

normalize-IsGapped_example :
    IsGapped (sequences (normalize as_stored mixed))
    × (map Order.normalize (sequences (normalize as_stored mixed))
        ≡ sequences (normalize as_stored mixed))
normalize-IsGapped_example = normalize-IsGapped as_stored mixed as_stored-IsIteration mixed-IsValid

normalize_unordered_example : normalize as_stored mixed ≡ normalize backwards mixed
normalize_unordered_example =
    normalize_unordered as_stored backwards mixed as_stored-IsIteration backwards-IsIteration
      mixed-IsValid

from_str-encode_sequence_set_example :
    from_str (encode_sequence_set as_stored mixed new).accumulator ≡ ok (normalize as_stored mixed)
from_str-encode_sequence_set_example =
    from_str-encode_sequence_set as_stored mixed as_stored-IsIteration (cons-ne-nil _ _)
      mixed-IsValid
