-- ===== src/Fragmentizer/LineParser/Grammar.antt =====
-- How a line announces a literal, as the grammar says it (the announcements that
-- imap-codec/src/fragmentizer.rs looks for).
use imap_codec.Prelude.{
  ℕ, ◌+◌, ◌-◌, ◌*◌, ◌≤◌, ◌≡◌, ◌≢◌, refl, ◌⊎◌, [], ◌∷◌, ◌++◌, Bytes, All, arith,
}
use imap_codec.Core.Literal.{LiteralMode, sync, non_sync}
use imap_codec.Fragmentizer.Fragment.{LiteralAnnouncement}
use imap_codec.Fragmentizer.LineParser.{u32_max}

abbrev pub IsDigit : ℕ → Type 0
IsDigit c = (b'0' ≤ c) × (c ≤ b'9')

-- The number that digits spell behind `n`, with no bound.
abbrev pub value : ℕ → Bytes → ℕ
value n [] = n
value n (c ∷ ds) = value (n * 10 + (c - b'0')) ds

-- `{` number [`+`] `}`
abbrev pub announcement_bytes : LiteralMode → Bytes → Bytes
announcement_bytes sync ds = b'{' ∷ (ds ++ b'}' ∷ [])
announcement_bytes non_sync ds = b'{' ∷ (ds ++ b'+' ∷ b'}' ∷ [])

-- Digits, at least one of them, that spell the number `n` of 32 bits.
pub record Spells (ds : Bytes) (n : ℕ) : Type 0 where
  pub nonempty : ds ≢ []
  pub digits : All IsDigit ds
  pub exact : value 0 ds ≡ n
  pub fits : n ≤ u32_max

-- The bytes end in an announcement of a literal.
pub record Announces (w : Bytes) (a : LiteralAnnouncement) : Type 0 where
  pub before : Bytes
  pub ds : Bytes
  pub number : Spells ds a.length
  pub spelled : w ≡ before ++ announcement_bytes a.mode ds

-- The same for a line without its `\n`: a `\r` may stand behind the announcement.
abbrev pub LineAnnounces : Bytes → LiteralAnnouncement → Type 0
LineAnnounces w a = Announces w a ⊎ ((v : Bytes) × (w ≡ v ++ b'\r' ∷ []) × Announces v a)

pub value-append : (n : ℕ) (ds es : Bytes) → value n (ds ++ es) ≡ value (value n ds) es
value-append n [] es = refl
value-append n (c ∷ ds) es = value-append (n * 10 + (c - b'0')) ds es

pub le-value : (n : ℕ) (ds : Bytes) → n ≤ value n ds
le-value n [] = omega arith
le-value n (c ∷ ds) = omega (arith, le-value (n * 10 + (c - b'0')) ds)
