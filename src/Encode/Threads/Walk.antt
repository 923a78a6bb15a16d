-- ===== src/Encode/Threads/Walk.antt =====
-- The walk over a tree of threads, and the tree's text.
use imap_codec.Prelude.{
  ℕ, suc, ◌+◌, ◌≡◌, ◌∙◌, refl, sym, ap, List, [], ◌∷◌, ◌++◌, append_assoc, Bytes, codes, some,
  arith,
}
use imap_codec.Message.Extensions.{Thread, members, members_with, nested, Threads, nil, cons}
use imap_codec.Encode.Threads.{
  write_prefix, opening, answers_of, walk, rounds, rounds_each, display,
}

-- A thread in parentheses: the numbers of its members, and the threads that answer them.
abbrev mutual
  pub thread_text : Thread → Bytes
  thread_text (members prefix) = codes "(" ++ (write_prefix prefix.inner ++ codes ")")
  thread_text (members_with prefix answers) =
      codes "(" ++ (write_prefix prefix.inner ++ (codes " " ++ (threads_text answers ++ codes ")")))
  thread_text (nested answers) = codes "(" ++ (threads_text answers ++ codes ")")

  pub threads_text : Threads → Bytes
  threads_text nil = []
  threads_text (cons thread more) = thread_text thread ++ threads_text more

opening-thread_text :
    (t : Thread) → opening t ++ (threads_text (answers_of t) ++ codes ")") ≡ thread_text t
unfolding opening answers_of
opening-thread_text (members prefix) = refl
opening-thread_text (members_with prefix answers) =
    ap (λ (r : Bytes). codes "(" ++ r)
      (append_assoc (write_prefix prefix.inner) (codes " ") (threads_text answers ++ codes ")"))
opening-thread_text (nested answers) = refl

rounds_end : (fuel : ℕ) → rounds_each nil + fuel ≡ suc fuel
unfolding rounds_each
rounds_end fuel = omega arith

rounds_next :
    (t : Thread) (ts : Threads) (fuel : ℕ)
    → rounds_each (cons t ts) + fuel ≡ suc (rounds t + (rounds_each ts + fuel))
unfolding rounds_each
rounds_next t ts fuel = omega arith

walk-nil :
    (fuel : ℕ) (stack : List Threads) (out : Bytes)
    → walk (suc fuel) (nil ∷ stack) out ≡ walk fuel stack (out ++ codes ")")
unfolding walk
walk-nil fuel stack out = refl

walk-cons :
    (fuel : ℕ) (t : Thread) (ts : Threads) (stack : List Threads) (out : Bytes)
    → walk (suc fuel) (cons t ts ∷ stack) out
      ≡ walk fuel (answers_of t ∷ ts ∷ stack) (out ++ opening t)
unfolding walk
walk-cons fuel t ts stack out = refl

walk-opened :
    (t : Thread) (fuel : ℕ) (stack : List Threads) (out : Bytes)
    → walk fuel stack ((out ++ opening t) ++ (threads_text (answers_of t) ++ codes ")"))
      ≡ walk fuel stack (out ++ thread_text t)
walk-opened t fuel stack out = ap (walk fuel stack) (
    append_assoc out (opening t) (threads_text (answers_of t) ++ codes ")")
    ∙ ap (λ (r : Bytes). out ++ r) (opening-thread_text t))

-- The loop writes the list on top of its stack and a closing parenthesis, and goes on.
mutual
  unfolding rounds answers_of rounds_each

  walk-each :
      (ts : Threads) (fuel : ℕ) (stack : List Threads) (out : Bytes)
      → walk (rounds_each ts + fuel) (ts ∷ stack) out
        ≡ walk fuel stack (out ++ (threads_text ts ++ codes ")"))
  walk-each nil fuel stack out =
      ap (λ (n : ℕ). walk n (nil ∷ stack) out) (rounds_end fuel) ∙ walk-nil fuel stack out
  walk-each (cons t ts) fuel stack out =
      ap (λ (n : ℕ). walk n (cons t ts ∷ stack) out) (rounds_next t ts fuel)
      ∙ walk-cons (rounds t + (rounds_each ts + fuel)) t ts stack out
      ∙ walk-answers t (rounds_each ts + fuel) (ts ∷ stack) out
      ∙ walk-each ts fuel stack (out ++ thread_text t)
      ∙ ap (walk fuel stack) (
          append_assoc out (thread_text t) (threads_text ts ++ codes ")")
          ∙ ap (λ (r : Bytes). out ++ r)
              (sym (append_assoc (thread_text t) (threads_text ts) (codes ")"))))

  walk-answers :
      (t : Thread) (fuel : ℕ) (stack : List Threads) (out : Bytes)
      → walk (rounds t + fuel) (answers_of t ∷ stack) (out ++ opening t)
        ≡ walk fuel stack (out ++ thread_text t)
  walk-answers (members prefix) fuel stack out =
      ap (λ (n : ℕ). walk n (nil ∷ stack) (out ++ opening (members prefix))) (rounds_end fuel)
      ∙ walk-nil fuel stack (out ++ opening (members prefix))
      ∙ walk-opened (members prefix) fuel stack out
  walk-answers (members_with prefix answers) fuel stack out =
      walk-each answers fuel stack (out ++ opening (members_with prefix answers))
      ∙ walk-opened (members_with prefix answers) fuel stack out
  walk-answers (nested answers) fuel stack out =
      walk-each answers fuel stack (out ++ opening (nested answers))
      ∙ walk-opened (nested answers) fuel stack out

-- The walk with a stack ends, and writes every thread as a text in parentheses that holds the
-- numbers of its members and then, behind a space if there are members, the threads that answer
-- them.
pub display-thread_text : (t : Thread) → display t ≡ some (thread_text t)
display-thread_text t =
    let enough : suc (rounds t) ≡ rounds t + 1 = omega arith in
    unfold display in
    ap (λ (n : ℕ). walk n (answers_of t ∷ []) (opening t)) enough
    ∙ walk-answers t 1 [] []
    ∙ unfold walk in refl
