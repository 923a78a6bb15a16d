-- ===== src/Message/Names.antt =====
-- Names without regard to case: `to_ascii_lowercase`, `to_ascii_uppercase`, and a `match` on a
-- text.
pub mod Reread
use imap_codec.Prelude.{
  ℕ, ◌+◌, ◌-◌, Bool, true, false, ◌&&◌, List, [], ◌∷◌, map, Bytes, leb, ◌==◌, if◌then◌else◌,
}

unfoldable pub ascii_lowercase : ℕ → ℕ
ascii_lowercase b = if leb b'A' b && leb b b'Z' then b + 32 else b

unfoldable pub ascii_uppercase : ℕ → ℕ
ascii_uppercase b = if leb b'a' b && leb b b'z' then b - 32 else b

unfoldable pub to_ascii_lowercase : Bytes → Bytes
unfolding ascii_lowercase
to_ascii_lowercase text = map ascii_lowercase text

unfoldable pub to_ascii_uppercase : Bytes → Bytes
unfolding ascii_uppercase
to_ascii_uppercase text = map ascii_uppercase text

unfoldable pub same_bytes : Bytes → Bytes → Bool
same_bytes [] [] = true
same_bytes [] (c ∷ cs) = false
same_bytes (b ∷ bs) [] = false
same_bytes (b ∷ bs) (c ∷ cs) = b == c && same_bytes bs cs

-- `match text { "A" => a, "B" => b, ..., _ => otherwise }`
unfoldable pub keyword {ℓ} : {A : Type ℓ} → Bytes → List (Bytes × A) → A → A
unfolding same_bytes
keyword text [] otherwise = otherwise
keyword text ((name, value) ∷ arms) otherwise =
    if same_bytes text name then value else keyword text arms otherwise
