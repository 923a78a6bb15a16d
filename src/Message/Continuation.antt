-- ===== src/Message/Continuation.antt =====
-- `CommandContinuationRequestBasic::new` of imap-types/src/response.rs.
use imap_codec.Prelude.{
  Bool, true, false, ◌&&◌, ◌==◌, [], ◌∷◌, Bytes, Option, none, some, Result, ok, err, if◌then◌else◌,
}
use imap_codec.Core.Text
use imap_codec.Core.Validation.{ValidationError}
use imap_codec.Message.Packages.{Packages}
use imap_codec.Message.Response.{Code, CommandContinuationRequest, basic}

pub data ContinueError : Type 0 where
  invalid_text : ValidationError → ContinueError
  ambiguity : ContinueError

unfoldable pub is_none {ℓ} : {A : Type ℓ} → Option A → Bool
is_none none = true
is_none (some value) = false

unfoldable pub starts_with_bracket : Bytes → Bool
starts_with_bracket [] = false
starts_with_bracket (b ∷ rest) = b == b'['

unfoldable pub is_ok {ℓ} : {A : Type ℓ} → Option A → Bool
is_ok none = false
is_ok (some value) = true

module _ {NaiveDate DateTime : Type 0} (packages : Packages NaiveDate DateTime) where
  unfoldable pub is_ambiguous : Option Code → Bytes → Bool
  unfolding is_none starts_with_bracket is_ok
  is_ambiguous code text =
      if is_none code && starts_with_bracket text
      then true
      else is_none code && is_ok (packages.base64_decode text)

  unfoldable pub basic_new : Option Code → Bytes → Result CommandContinuationRequest ContinueError
  unfolding Text.try_from is_ambiguous
  basic_new code value = elim (Text.try_from value) [
    | err e ↦ err (invalid_text e)
    | ok t ↦ if is_ambiguous code t.inner then err ambiguity else ok (basic code t)
  ]
