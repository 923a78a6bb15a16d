-- ===== src/Escape/Quoted.antt =====
-- `escape_quoted` and `unescape_quoted` (imap-types/src/utils.rs), byte by byte.
use imap_codec.Prelude.{
  ℕ, ◌≡◌, ◌∙◌, refl, sym, ap, false, [], ◌∷◌, ◌++◌, Bytes, ◌==◌, if◌then◌else◌, any, arith,
  Bool-cases, inl, inr, append_assoc,
}
use imap_codec.Escape.{
  backslash, quote, replace_char, contains_pair, replace_pair, escape_quoted, unescape_quoted,
}

-- Replacing what does not occur changes nothing, so the tests in front of the replacements only
-- save copies.
replace_char-absent : (c : ℕ) (to s : Bytes) → any (λ x. x == c) s ≡ false → replace_char c to s ≡ s
unfolding replace_char
replace_char-absent c to [] h = refl
replace_char-absent c to (x ∷ s) h = ground (arith, replace_char-absent c to s)

replace_pair-absent :
    (a b to : ℕ) (s : Bytes) → contains_pair a b s ≡ false → replace_pair a b to s ≡ s
unfolding replace_pair contains_pair
replace_pair-absent a b to [] h = refl
replace_pair-absent a b to (x ∷ []) h = refl
replace_pair-absent a b to (x ∷ y ∷ s) h = ground (arith, replace_pair-absent a b to (y ∷ s))

-- What one byte becomes, and what the first replacement of `unescape_quoted` leaves of it.
abbrev pub escaped_byte : ℕ → Bytes
escaped_byte x =
    if x == backslash
    then backslash ∷ backslash ∷ []
    else if x == quote
    then backslash ∷ quote ∷ []
    else x ∷ []

abbrev pub escaped : Bytes → Bytes
escaped [] = []
escaped (x ∷ s) = escaped_byte x ++ escaped s

abbrev half_byte : ℕ → Bytes
half_byte x = if x == quote then backslash ∷ quote ∷ [] else x ∷ []

abbrev half : Bytes → Bytes
half [] = []
half (x ∷ s) = half_byte x ++ half s

replace_char-append :
    (c : ℕ) (to xs ys : Bytes)
    → replace_char c to (xs ++ ys) ≡ replace_char c to xs ++ replace_char c to ys
unfolding replace_char
replace_char-append c to [] ys = refl
replace_char-append c to (x ∷ xs) ys = rw (replace_char-append c to xs ys, append_assoc)

guarded_char :
    (c : ℕ) (to s : Bytes)
    → (if any (λ x. x == c) s then replace_char c to s else s) ≡ replace_char c to s
guarded_char c to s = elim (Bool-cases (any (λ x. x == c) s)) [
  | inl e ↦ rw e
  | inr e ↦ rw e (sym (replace_char-absent c to s e))
]

guarded_pair :
    (a b to : ℕ) (s : Bytes)
    → (if contains_pair a b s then replace_pair a b to s else s) ≡ replace_pair a b to s
guarded_pair a b to s = elim (Bool-cases (contains_pair a b s)) [
  | inl e ↦ rw e
  | inr e ↦ rw e (sym (replace_pair-absent a b to s e))
]

escape_quoted-replace :
    (s : Bytes)
    → escape_quoted s
      ≡ replace_char quote
          (backslash ∷ quote ∷ [])
          (replace_char backslash (backslash ∷ backslash ∷ []) s)
unfolding escape_quoted
escape_quoted-replace s =
    guarded_char quote (backslash ∷ quote ∷ []) (
      if any (λ c. c == backslash) s
      then replace_char backslash (backslash ∷ backslash ∷ []) s
      else s)
    ∙ ap (replace_char quote (backslash ∷ quote ∷ []))
        (guarded_char backslash (backslash ∷ backslash ∷ []) s)

replaced :
    (s : Bytes)
    → replace_char quote
        (backslash ∷ quote ∷ [])
        (replace_char backslash (backslash ∷ backslash ∷ []) s)
      ≡ escaped s
unfolding replace_char
replaced [] = refl
replaced (x ∷ s) = ground (arith, replaced s)

-- `escape_quoted` puts a backslash in front of every backslash and every quote.
pub escape_quoted-escaped : (s : Bytes) → escape_quoted s ≡ escaped s
escape_quoted-escaped s = escape_quoted-replace s ∙ replaced s

unescape_quoted-replace :
    (s : Bytes)
    → unescape_quoted s
      ≡ replace_pair backslash quote quote (replace_pair backslash backslash backslash s)
unfolding unescape_quoted
unescape_quoted-replace s =
    guarded_pair backslash quote quote (
      if contains_pair backslash backslash s
      then replace_pair backslash backslash backslash s
      else s)
    ∙ ap (replace_pair backslash quote quote) (guarded_pair backslash backslash backslash s)

-- A byte that cannot begin a match stays.
replace_pair-skip :
    (a b to x : ℕ) (s : Bytes)
    → (x == a) ≡ false
    → replace_pair a b to (x ∷ s) ≡ x ∷ replace_pair a b to s
unfolding replace_pair
replace_pair-skip a b to x [] h = refl
replace_pair-skip a b to x (y ∷ s) h = ground arith

-- A match is replaced.
replace_pair_match :
    (a b to : ℕ) (s : Bytes) → replace_pair a b to (a ∷ b ∷ s) ≡ to ∷ replace_pair a b to s
unfolding replace_pair
replace_pair_match a b to s = ground arith

-- No half-escaped text begins with a quote.
replace_pair-half :
    (x : ℕ) (s : Bytes)
    → replace_pair backslash quote quote (x ∷ half s)
      ≡ x ∷ replace_pair backslash quote quote (half s)
unfolding replace_pair
replace_pair-half x [] = refl
replace_pair-half x (y ∷ s) = ground arith

-- An escaped quote is no match of the first replacement.
replace_pair-escaped_quote :
    (s : Bytes)
    → replace_pair backslash backslash backslash (backslash ∷ quote ∷ s)
      ≡ backslash ∷ quote ∷ replace_pair backslash backslash backslash s
unfolding replace_pair
replace_pair-escaped_quote [] = refl
replace_pair-escaped_quote (y ∷ s) = ground arith

first_pass_byte :
    (x : ℕ) (s : Bytes)
    → replace_pair backslash backslash backslash (escaped_byte x ++ s)
      ≡ half_byte x ++ replace_pair backslash backslash backslash s
first_pass_byte x s = ground (
  arith,
  replace_pair_match backslash backslash backslash s,
  replace_pair-escaped_quote s,
  replace_pair-skip backslash backslash backslash x s,
)

first_pass : (s : Bytes) → replace_pair backslash backslash backslash (escaped s) ≡ half s
unfolding replace_pair
first_pass [] = refl
first_pass (x ∷ s) =
    first_pass_byte x (escaped s) ∙ ap (λ (t : Bytes). half_byte x ++ t) (first_pass s)

second_pass_byte :
    (x : ℕ) (s : Bytes)
    → replace_pair backslash quote quote (half_byte x ++ half s)
      ≡ x ∷ replace_pair backslash quote quote (half s)
second_pass_byte x s =
    ground (arith, replace_pair_match backslash quote quote (half s), replace_pair-half x s)

second_pass : (s : Bytes) → replace_pair backslash quote quote (half s) ≡ s
unfolding replace_pair
second_pass [] = refl
second_pass (x ∷ s) = second_pass_byte x s ∙ ap (λ (t : Bytes). x ∷ t) (second_pass s)

-- Every text comes back from escaping and unescaping.
pub unescape_quoted-escape_quoted : (s : Bytes) → unescape_quoted (escape_quoted s) ≡ s
unescape_quoted-escape_quoted s =
    rw (escape_quoted-escaped s, unescape_quoted-replace (escaped s), first_pass s) (second_pass s)
