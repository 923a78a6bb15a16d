-- ===== src/Encode/Sends/Threads.antt =====
-- Lists of numbers and threads in a response (imap-codec/src/codec/encode.rs).
use imap_codec.Prelude.{
  ℕ, ◌≡◌, refl, true, List, [], ◌∷◌, ◌++◌, Bytes, Option, none, some, codes, all,
}
use imap_codec.Encode.Decimal.{display}
use imap_codec.Encode.Settled.{is_plain}
use imap_codec.Encode.Writer.{if_some}
use imap_codec.Encode.Sends.{
  Sends, Sends->>, Sends-plain, Sends-skip, Sends-number, Sends-for_each, plain_number,
}
use imap_codec.Encode.Sends.Sets.{All-Unit, plain-append}
use imap_codec.Encode.Sends.Sections.{Sends-numbers}
use imap_codec.Encode.Threads.{write_prefix, write_elements, encode_thread}
use imap_codec.Encode.Threads.Walk.{thread_text, threads_text, display-thread_text}
use imap_codec.Encode.Responses.{encode_seqs, encode_threads, encode_origin}
use imap_codec.Message.Extensions.{Thread, members, members_with, nested, Threads, nil, cons}

pub Sends-seqs :
    (name : Bytes) (seqs : List ℕ) → all is_plain name ≡ true → Sends (encode_seqs name seqs)
unfolding encode_seqs
Sends-seqs name [] h = Sends-plain name h
Sends-seqs name (seq ∷ seqs) h =
    Sends->> (Sends-plain (name ++ codes " ") (plain-append name (codes " ") h refl))
      (Sends-numbers (seq ∷ seqs) (codes " ") refl)

pub Sends-origin : (origin : Option ℕ) → Sends (if_some origin encode_origin)
unfolding if_some encode_origin
Sends-origin none = Sends-skip
Sends-origin (some n) =
    Sends->> (Sends-plain (codes "<") refl)
      (Sends->> (Sends-number n) (Sends-plain (codes ">") refl))

plain_elements : (numbers : List ℕ) → all is_plain (write_elements numbers) ≡ true
unfolding write_elements
plain_elements [] = refl
plain_elements (n ∷ numbers) =
    plain-append (display n) (write_elements numbers) (plain_number n) (plain_elements numbers)

plain_prefix : (numbers : List ℕ) → all is_plain (write_prefix numbers) ≡ true
unfolding write_prefix
plain_prefix [] = refl
plain_prefix (n ∷ numbers) =
    plain-append (display n) (write_elements numbers) (plain_number n) (plain_elements numbers)

mutual
  plain_thread : (t : Thread) → all is_plain (thread_text t) ≡ true
  plain_thread (members prefix) =
      plain-append (write_prefix prefix.inner) (codes ")") (plain_prefix prefix.inner) refl
  plain_thread (members_with prefix answers) =
      plain-append (write_prefix prefix.inner) (codes " " ++ (threads_text answers ++ codes ")"))
        (plain_prefix prefix.inner)
        (plain-append (threads_text answers) (codes ")") (plain_threads answers) refl)
  plain_thread (nested answers) =
      plain-append (threads_text answers) (codes ")") (plain_threads answers) refl

  plain_threads : (ts : Threads) → all is_plain (threads_text ts) ≡ true
  plain_threads nil = refl
  plain_threads (cons t ts) =
      plain-append (thread_text t) (threads_text ts) (plain_thread t) (plain_threads ts)

Sends-thread : (t : Thread) → Sends (encode_thread t)
unfolding encode_thread if_some
Sends-thread t = rw (display-thread_text t) (Sends-plain (thread_text t) (plain_thread t))

pub Sends-threads : (ts : List Thread) → Sends (encode_threads ts)
unfolding encode_threads
Sends-threads [] = Sends-plain (codes "* THREAD") refl
Sends-threads (t ∷ ts) =
    Sends->> (Sends-plain (codes "* THREAD ") refl)
      (Sends-for_each (λ _. Unit {0}) (t ∷ ts) (λ t' _. Sends-thread t') (All-Unit (t ∷ ts)))
