-- ===== src/Encode/Threads.antt =====
-- `Display` of `Thread` (imap-types/src/extensions/thread.rs), which walks over the tree with a
-- stack of iterators.
pub mod Walk
use imap_codec.Prelude.{ℕ, zero, suc, ◌+◌, List, [], ◌∷◌, ◌++◌, Bytes, codes, Option, none, some}
use imap_codec.Encode.Decimal
use imap_codec.Encode.Writer.{Writer, write, if_some}
use imap_codec.Message.Extensions.{Thread, members, members_with, nested, Threads, nil, cons}

-- `for element in tail`
unfoldable pub write_elements : List ℕ → Bytes
unfolding Decimal.display
write_elements [] = []
write_elements (element ∷ tail) = codes " " ++ (Decimal.display element ++ write_elements tail)

-- A `Vec1` has a first element.
unfoldable pub write_prefix : List ℕ → Bytes
unfolding write_elements Decimal.display
write_prefix [] = []
write_prefix (head ∷ tail) = Decimal.display head ++ write_elements tail

-- What is written when a thread is reached.
unfoldable pub opening : Thread → Bytes
unfolding write_prefix
opening (members prefix) = codes "(" ++ write_prefix prefix.inner
opening (members_with prefix answers) = codes "(" ++ (write_prefix prefix.inner ++ codes " ")
opening (nested answers) = codes "("

-- What is walked over next.
unfoldable pub answers_of : Thread → Threads
answers_of (members prefix) = nil
answers_of (members_with prefix answers) = answers
answers_of (nested answers) = answers

-- The loop, with the top of `stack` first. `none` means that the fuel ran out.
unfoldable pub walk : ℕ → List Threads → Bytes → Option Bytes
unfolding opening answers_of
walk zero stack out = none
walk (suc fuel) [] out = some out
walk (suc fuel) (nil ∷ stack) out = walk fuel stack (out ++ codes ")")
walk (suc fuel) (cons thread more ∷ stack) out =
    walk fuel (answers_of thread ∷ more ∷ stack) (out ++ opening thread)

-- A round for each thread, and one for the end of each list.
unfoldable mutual
  pub rounds : Thread → ℕ
  rounds (members prefix) = 1
  rounds (members_with prefix answers) = rounds_each answers
  rounds (nested answers) = rounds_each answers

  pub rounds_each : Threads → ℕ
  rounds_each nil = 1
  rounds_each (cons thread more) = suc (rounds thread + rounds_each more)

unfoldable pub display : Thread → Option Bytes
unfolding walk rounds opening answers_of
display thread = walk (suc (rounds thread)) (answers_of thread ∷ []) (opening thread)

unfoldable pub encode_thread : Thread → Writer
unfolding display write if_some
encode_thread thread = if_some (display thread) write
