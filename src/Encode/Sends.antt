-- ===== src/Encode/Sends.antt =====
-- Parts of a message (imap-codec/src/codec/encode.rs) that do not disturb the fragmentizer
-- (imap-codec/src/fragmentizer.rs) on the other side.
pub mod Strings
pub mod Message
pub mod Sets
pub mod SearchKeys
pub mod Items
pub mod Bodies
pub mod Codes
pub mod Sections
pub mod Threads
pub mod Data
pub mod Statuses
pub mod Commands
pub mod Begins
pub mod Called
use imap_codec.Prelude.{
  ℕ, ◌≡◌, ◌∙◌, refl, ap, Bool, true, false, List, [], ◌∷◌, ◌++◌, Bytes, Option, none, some, codes,
  all, All, All-append, if◌then◌else◌, arith,
}
use imap_codec.Encode.Context.{EncodeContext, write_all}
use imap_codec.Encode.Values.{join_serializable}
use imap_codec.Encode.Decimal.{display, display-IsDigit}
use imap_codec.Encode.Writes.{Write, text_write, write_to, write_each}
use imap_codec.Encode.Settled.{Settled, is_plain, Settled-plain}
use imap_codec.Encode.Strings.{IsSettledWrite}
use imap_codec.Encode.Writer.{Writer, ◌>>◌, write, skip, if_some, for_each, encode_number}
use imap_codec.Fragmentizer.LineParser.Grammar.{IsDigit}

-- What is written is a list of texts and literals, and no text ends within an announcement.
pub record Sends (writer : Writer) : Type 0 where
  pub writes : List Write
  pub encodes : (ctx : EncodeContext) → writer ctx ≡ write_each writes ctx
  pub settled : All IsSettledWrite writes

pub write_each-append :
    (ws ws' : List Write) (ctx : EncodeContext)
    → write_each (ws ++ ws') ctx ≡ write_each ws' (write_each ws ctx)
unfolding write_each
write_each-append [] ws' ctx = refl
write_each-append (w ∷ ws) ws' ctx = write_each-append ws ws' (write_to w ctx)

pub Sends->> : {first second : Writer} → Sends first → Sends second → Sends (first >> second)
unfolding ◌>>◌
Sends->> {first} {second} s t = record {
  writes = s.writes ++ t.writes;
  encodes = λ ctx.
      ap second (s.encodes ctx)
      ∙ t.encodes (write_each s.writes ctx)
      ∙ (rw (write_each-append s.writes t.writes ctx));
  settled = All-append IsSettledWrite s.writes t.writes s.settled t.settled;
}

-- One text or literal.
pub Sends-write_to :
    (w : Write) {writer : Writer}
    → ((ctx : EncodeContext) → writer ctx ≡ write_to w ctx)
    → IsSettledWrite w
    → Sends writer
unfolding write_each
Sends-write_to w e h = record { writes = w ∷ []; encodes = e; settled = (h, tt) }

pub Sends-Settled : (text : Bytes) → Settled text → Sends (write text)
unfolding write write_to
Sends-Settled text h = Sends-write_to (text_write text) (λ ctx. refl) h

pub Sends-plain : (text : Bytes) → all is_plain text ≡ true → Sends (write text)
Sends-plain text h = Sends-Settled text (Settled-plain text h)

pub Sends-skip : Sends skip
unfolding skip write_each
Sends-skip = record { writes = []; encodes = λ ctx. refl; settled = tt }

pub Sends-if :
    (b : Bool) {first second : Writer}
    → Sends first
    → Sends second
    → Sends (if b then first else second)
Sends-if true s t = s
Sends-if false s t = t

-- A condition on a value that may be missing.
abbrev pub IfSome {ℓ κ} : {A : Type ℓ} → (A → Type κ) → Option A → Type κ
IfSome P none = Unit
IfSome P (some value) = P value

pub Sends-if_some {ℓ κ} :
    {A : Type ℓ} (P : A → Type κ) {encode : A → Writer} (option : Option A)
    → ((value : A) → P value → Sends (encode value))
    → IfSome P option
    → Sends (if_some option encode)
unfolding if_some
Sends-if_some P none each h = Sends-skip
Sends-if_some P (some value) each h = each value h

pub Sends-for_each {ℓ κ} :
    {A : Type ℓ} (P : A → Type κ) {encode : A → Writer} (items : List A)
    → ((item : A) → P item → Sends (encode item))
    → All P items
    → Sends (for_each items encode)
unfolding for_each
Sends-for_each P [] each h = Sends-skip
Sends-for_each P (item ∷ items) each (hi, h) =
    Sends->> (each item hi) (Sends-for_each P items each h)

pub Sends-join {ℓ κ} :
    {A : Type ℓ} (P : A → Type κ) {encode : A → Writer} (items : List A) (sep : Bytes)
    → ((item : A) → P item → Sends (encode item))
    → all is_plain sep ≡ true
    → All P items
    → Sends (join_serializable encode items sep)
unfolding join_serializable ◌>>◌ write write_each
Sends-join P [] sep each plain h = record { writes = []; encodes = λ ctx. refl; settled = tt }
Sends-join P (item ∷ []) sep each plain h = each item h.0
Sends-join P {encode} (item ∷ next ∷ items) sep each plain (hi, h) =
    let rest = Sends-join P {encode = encode} (next ∷ items) sep each plain h in
    let parts = Sends->> (each item hi) (Sends->> (Sends-plain sep plain) rest) in
    record { writes = parts.writes; encodes = λ ctx. parts.encodes ctx; settled = parts.settled }

digits_plain : (ds : Bytes) → All IsDigit ds → all is_plain ds ≡ true
digits_plain [] h = refl
digits_plain (d ∷ ds) (hd, h) = ground (arith, digits_plain ds h)

pub plain_number : (n : ℕ) → all is_plain (display n) ≡ true
plain_number n = digits_plain (display n) (display-IsDigit n)

pub Sends-number : (n : ℕ) → Sends (encode_number n)
unfolding encode_number
Sends-number n = Sends-plain (display n) (plain_number n)
