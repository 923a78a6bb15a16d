-- ===== src/Sequence/Order.antt =====
-- `normalize` and `partial_cmp` of a `Sequence` (imap-types/src/sequence.rs).
pub mod Names
use Prim.Native.Nat.{Ordering}
use imap_codec.Prelude.{ℕ, Bool, true, false, ◌&&◌, Option, none, some, ◌==◌, if◌then◌else◌}
use imap_codec.Sequence.Types.{SeqOrUid, value, asterisk, Sequence, single, range, cmp}

-- The derived `PartialEq`, and `<` and `>` by way of `partial_cmp`.
unfoldable pub same_seq : SeqOrUid → SeqOrUid → Bool
same_seq (value a) (value b) = a == b
same_seq (value a) asterisk = false
same_seq asterisk (value b) = false
same_seq asterisk asterisk = true

unfoldable pub less : SeqOrUid → SeqOrUid → Bool
unfolding cmp
less a b = elim (cmp a b) [ Ordering.lt ↦ true | Ordering.eq ↦ false | Ordering.gt ↦ false ]

-- `Ord::min` and `Ord::max`
unfoldable pub seq_min : SeqOrUid → SeqOrUid → SeqOrUid
unfolding less
seq_min a b = if less b a then b else a

unfoldable pub seq_max : SeqOrUid → SeqOrUid → SeqOrUid
unfolding less
seq_max a b = if less b a then a else b

unfoldable pub normalize : Sequence → Sequence
unfolding same_seq less
normalize (single a) = single a
normalize (range a b) = if same_seq a b then single a else if less b a then range b a else range a b

unfoldable pub partial_cmp : Sequence → Sequence → Option Ordering
unfolding cmp less seq_min seq_max
partial_cmp (single a) (single b) = some (cmp a b)
partial_cmp (single a) (range b1 b2) =
    if less a (seq_min b1 b2)
    then some Ordering.lt
    else if less (seq_max b1 b2) a
    then some Ordering.gt
    else none
partial_cmp (range a1 a2) (single b) =
    if less b (seq_min a1 a2)
    then some Ordering.gt
    else if less (seq_max a1 a2) b
    then some Ordering.lt
    else none
partial_cmp (range a1 a2) (range b1 b2) =
    if less (seq_max a1 a2) b1 && less (seq_max a1 a2) b2
    then some Ordering.lt
    else if less b1 (seq_min a1 a2) && less b2 (seq_min a1 a2)
    then some Ordering.gt
    else none
