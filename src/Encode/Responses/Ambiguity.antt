-- ===== src/Encode/Responses/Ambiguity.antt =====
-- Continuation requests that cannot be told apart (imap-types/src/response.rs and
-- imap-codec/src/codec/encode.rs).
use imap_codec.Prelude.{
  ◌≡◌, ◌≢◌, ◌∙◌, All, refl, sym, ap, subst, List, [], ◌∷◌, ◌++◌, append_assoc, append-nil, Bytes,
  codes, Option, none, some, ok, err, Result, true, false, Bool-cases, inl, inr, if◌then◌else◌,
  arith,
}
use mathlib.Core.List.{append_cancel_left, append_cancel_right}
use imap_codec.Core.Validation.{Checked}
use imap_codec.Core.Text
use imap_codec.Core.Text.{Text}
use imap_codec.Encode.Context.{EncodeContext, fragment_data, new, write_all, into_items, dump}
use imap_codec.Encode.Values.{encode_text, announcement}
use imap_codec.Encode.Writes.{
  Write, text_write, literal_write, write_each, fragments_of, into_items-write_each,
}
use imap_codec.Encode.Writer.{◌>>◌, write}
use imap_codec.Encode.Sends.{Sends->>, Sends-plain, IfSome, write_each-append}
use imap_codec.Encode.Sends.Codes.{IsEncodableCode, Sends-code}
use imap_codec.Encode.Responses
use imap_codec.Encode.Responses.{encode_response, encode_continuation}
use imap_codec.Message.Packages.{Packages}
use imap_codec.Message.Continuation.{
  basic_new, is_ambiguous, is_none, is_ok, starts_with_bracket, ContinueError, ambiguity,
  invalid_text,
}
use imap_codec.Message.Response.{
  Code, CommandContinuationRequest, basic, base64, command_continuation_request,
}

-- The bytes of texts and literals.
abbrev pub written : List Write → Bytes
written [] = []
written (text_write text ∷ writes) = text ++ written writes
written (literal_write l ∷ writes) =
    announcement l.mode l.data_bytes ++ (l.data_bytes ++ written writes)

dump-fragments_of :
    (writes : List Write) (open_line : Bytes)
    → dump (fragments_of open_line writes) ≡ open_line ++ (written writes ++ codes "\r\n")
unfolding dump fragment_data
dump-fragments_of [] open_line = append-nil (open_line ++ codes "\r\n")
dump-fragments_of (text_write text ∷ writes) open_line =
    dump-fragments_of writes (open_line ++ text) ∙ rw (append_assoc, append_assoc)
dump-fragments_of (literal_write l ∷ writes) open_line =
    rw (dump-fragments_of writes [], append_assoc, append_assoc, append_assoc) refl

pub dump-write_each :
    (writes : List Write) (open_line : Bytes)
    → dump (
        into_items (
          write_all
            (write_each writes (record { accumulator = open_line; items = [] }))
            (codes "\r\n")))
      ≡ open_line ++ (written writes ++ codes "\r\n")
dump-write_each writes open_line =
    ap dump (into_items-write_each writes open_line []) ∙ dump-fragments_of writes open_line

-- What the documentation of the package base64 says of `STANDARD`: what is encoded can be decoded,
-- and no bracket is a letter of its alphabet.
pub record IsBase64 {NaiveDate DateTime : Type 0} (packages : Packages NaiveDate DateTime)
    : Type 0 where
  pub decodes :
      (data_bytes : Bytes)
      → packages.base64_decode (packages.base64_encode data_bytes) ≡ some data_bytes
  pub alphabet : (data_bytes : Bytes) → All (λ b. b ≢ b'[') (packages.base64_encode data_bytes)

-- A text without brackets does not start with one.
no_bracket : (text rest : Bytes) → All (λ b. b ≢ b'[') text → b'[' ∷ rest ≢ text ++ codes "\r\n"
no_bracket [] rest h e = cc
no_bracket (b ∷ text) rest (hb, h) e = hb cc

starts : (text rest : Bytes) → starts_with_bracket text ≡ false → text ++ codes "\r\n" ≢ b'[' ∷ rest
unfolding starts_with_bracket
starts [] rest h e = cc
starts (b ∷ text) rest h e = let bracket : b ≡ b'[' = cc in ground (bracket, arith)

module _ {NaiveDate DateTime : Type 0} (packages : Packages NaiveDate DateTime) where
  -- The bytes of a continuation request.
  unfoldable pub sent : CommandContinuationRequest → Bytes
  unfolding Responses.encode dump
  sent request = dump (Responses.encode packages (command_continuation_request request))

  sent-basic : (t : Text) → sent (basic none t) ≡ codes "+ " ++ (t.inner ++ codes "\r\n")
  unfolding sent Responses.encode encode_response encode_continuation ◌>>◌ write encode_text new
      write_each write_all
  sent-basic t = dump-write_each (text_write t.inner ∷ []) (codes "+ ") ∙ rw append-nil refl

  sent-base64 :
      (data_bytes : Bytes)
      → sent (base64 data_bytes) ≡ codes "+ " ++ (packages.base64_encode data_bytes ++ codes "\r\n")
  unfolding sent Responses.encode encode_response encode_continuation ◌>>◌ write new write_each
      write_all
  sent-base64 data_bytes =
      dump-write_each (text_write (packages.base64_encode data_bytes) ∷ []) (codes "+ ")
      ∙ rw append-nil refl

  sent-coded :
      (code : Code) (t : Text)
      → IsEncodableCode code
      → (rest : Bytes) × (sent (basic (some code) t) ≡ codes "+ [" ++ rest)
  unfolding sent Responses.encode encode_response encode_continuation ◌>>◌ write encode_text new
      write_each write_all
  sent-coded code t h =
      let s = Sends->> (Sends-code code h) (Sends-plain (codes "] ") refl) in
      let ctx : EncodeContext = record { accumulator = codes "+ ["; items = [] } in
      (
        written (s.writes ++ text_write t.inner ∷ []) ++ codes "\r\n",
        ap (λ c. dump (into_items (write_all (write_all c t.inner) (codes "\r\n")))) (s.encodes ctx)
            ∙ ap (λ c. dump (into_items (write_all c (codes "\r\n"))))
                (sym (write_each-append s.writes (text_write t.inner ∷ []) ctx))
            ∙ dump-write_each (s.writes ++ text_write t.inner ∷ []) (codes "+ ["),
      )

  -- A text without a code that is not ambiguous.
  clear :
      (text : Bytes)
      → is_ambiguous packages none text ≡ false
      → (starts_with_bracket text ≡ false) × (is_ok (packages.base64_decode text) ≡ false)
  unfolding is_ambiguous is_none
  clear text h = elim (Bool-cases (starts_with_bracket text)) [
    | inl starts ↦ absurd starts (rw starts at h)
    | inr other ↦ (other, rw other at h)
  ]
    where
      absurd :
          starts_with_bracket text ≡ true
          → true ≡ false
          → (starts_with_bracket text ≡ false) × (is_ok (packages.base64_decode text) ≡ false)
      absurd starts e = (cc, cc)

  basic-base64 :
      (code : Option Code) (t : Text) (data_bytes : Bytes)
      → IsBase64 packages
      → IfSome IsEncodableCode code
      → is_ambiguous packages code t.inner ≡ false
      → sent (basic code t) ≢ sent (base64 data_bytes)
  unfolding is_ok
  basic-base64 none t data_bytes engine h a e =
      let same = append_cancel_right t.inner (packages.base64_encode data_bytes) (codes "\r\n") (
        append_cancel_left (codes "+ ") (t.inner ++ codes "\r\n")
          (packages.base64_encode data_bytes ++ codes "\r\n")
          (sym (sent-basic t) ∙ e ∙ sent-base64 data_bytes)) in
      let refused = (clear t.inner a).1 in
      let decoded : is_ok (packages.base64_decode t.inner) ≡ true =
        ap (λ (text : Bytes). is_ok (packages.base64_decode text)) same
        ∙ ap is_ok (engine.decodes data_bytes) in
      cc
  basic-base64 (some code) t data_bytes engine h a e =
      let (rest, coded) = sent-coded code t h in
      no_bracket (packages.base64_encode data_bytes) rest (engine.alphabet data_bytes) (
        append_cancel_left (codes "+ ") (b'[' ∷ rest)
          (packages.base64_encode data_bytes ++ codes "\r\n")
          (sym coded ∙ e ∙ sent-base64 data_bytes))

  abbrev Accepted :
      Option Code
      → (CommandContinuationRequest → Type 0)
      → Result CommandContinuationRequest ContinueError
      → Type 0
  Accepted code P (ok request) = P request
  Accepted code P (err e) = Unit

  accepted :
      (code : Option Code) (value : Bytes) (P : CommandContinuationRequest → Type 0)
      → ((t : Text) → is_ambiguous packages code t.inner ≡ false → P (basic code t))
      → Accepted code P (basic_new packages code value)
  unfolding basic_new
  accepted code value P h = go (Text.try_from value)
    where
      go :
          (r : Checked Text)
          → Accepted code P (elim r [
            | err e ↦ err (invalid_text e)
            | ok t ↦ if is_ambiguous packages code t.inner then err ambiguity else ok (basic code t)
          ])
      go (err e) = tt
      go (ok t) = elim (Bool-cases (is_ambiguous packages code t.inner)) [
        | inl ambiguous ↦ rw ambiguous tt
        | inr good ↦ rw good (h t good)
      ]

  -- A basic continuation request that `new` accepts is never sent as the same bytes as one with
  -- data in base64, if the values in its code are those that their types allow, and base64 decodes
  -- what it encodes and has no bracket in its alphabet.
  pub basic_new-base64 :
      (code : Option Code) (value : Bytes) {request : CommandContinuationRequest}
      (data_bytes : Bytes)
      → IsBase64 packages
      → IfSome IsEncodableCode code
      → basic_new packages code value ≡ ok request
      → sent request ≢ sent (base64 data_bytes)
  basic_new-base64 code value data_bytes engine h made =
      subst (Accepted code (λ request. sent request ≢ sent (base64 data_bytes))) made (
        accepted code value (λ request. sent request ≢ sent (base64 data_bytes))
          (λ t a. basic-base64 code t data_bytes engine h a))

  -- A basic continuation request that `new` accepts without a code is never sent as the same bytes
  -- as one with a code, whose values are those that their types allow.
  pub basic_new-coded :
      (value : Bytes) {request : CommandContinuationRequest} (code : Code) (t : Text)
      → IsEncodableCode code
      → basic_new packages none value ≡ ok request
      → sent request ≢ sent (basic (some code) t)
  basic_new-coded value code t h made =
      subst (Accepted none (λ request. sent request ≢ sent (basic (some code) t))) made
        (accepted none value (λ request. sent request ≢ sent (basic (some code) t)) bare-coded)
    where
      bare-coded :
          (u : Text)
          → is_ambiguous packages none u.inner ≡ false
          → sent (basic none u) ≢ sent (basic (some code) t)
      bare-coded u a e =
          let (rest, coded) = sent-coded code t h in
          starts u.inner rest (clear u.inner a).0 (
            append_cancel_left (codes "+ ") (u.inner ++ codes "\r\n") (b'[' ∷ rest)
              (sym (sent-basic u) ∙ e ∙ coded))
