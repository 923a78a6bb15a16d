-- ===== src/Encode/Writer.antt =====
-- How the functions of imap-codec/src/codec/encode.rs are put together: an `encode_ctx` changes
-- its context, and a sequence of calls with `?` is a `do` block, since writing into a context never
-- fails.
use imap_codec.Prelude.{ℕ, List, [], ◌∷◌, Bytes, Option, none, some}
use imap_codec.Encode.Context.{EncodeContext, write_all}
use imap_codec.Encode.Decimal.{display}

abbrev pub Writer : Type 0
Writer = EncodeContext → EncodeContext

infixl 5 ◌>>◌
unfoldable pub ◌>>◌ : Writer → Writer → Writer
◌>>◌ first second ctx = second (first ctx)

-- `ctx.write_all(bytes)?` and `write!`.
unfoldable pub write : Bytes → Writer
unfolding write_all
write bytes ctx = write_all ctx bytes

-- `Ok(())`
unfoldable pub skip : Writer
skip ctx = ctx

-- `if let Some(value) = option { ... }`
unfoldable pub if_some {ℓ} : {A : Type ℓ} → Option A → (A → Writer) → Writer
unfolding skip
if_some none encode = skip
if_some (some value) encode = encode value

-- `for item in items { ... }`
unfoldable pub for_each {ℓ} : {A : Type ℓ} → List A → (A → Writer) → Writer
unfolding skip ◌>>◌
for_each [] encode = skip
for_each (item ∷ items) encode = encode item >> for_each items encode

-- `{}` of an unsigned number.
unfoldable pub encode_number : ℕ → Writer
unfolding write display
encode_number n = write (display n)
