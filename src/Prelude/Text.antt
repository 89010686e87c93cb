-- ===== src/Prelude/Text.antt =====
-- Text: comparison, ASCII case, and the `0x` prefix. Only ASCII letters change case here, which is
-- what `to_ascii_lowercase` and `eq_ignore_ascii_case` do.
use Prim.Native.Nat.{ℕ, ◌+◌, ◌-◌}
use Prim.Native.Char.{code}
use Prim.Native.String.{String}
use mathlib.Core.Bool.{Bool, true, false, ◌&&◌}
use mathlib.Core.List.{List, [], ◌∷◌, map}
use mathlib.Core.Path.{◌≡◌, refl}
use native.Mathlib.Omega.{arith}
use boltz_client.Prelude.Tests.{leb, ◌==◌, if◌then◌else◌}
pub use text.Mathlib.Text.{◌==◌ as same_text}
pub use text.Mathlib.TextEquality.{eq_iff}
pub use text.Mathlib.TextPositions.{eq_refl}

-- The code points of a text: its bytes, if it is ASCII.
abbrev pub codes : String → List ℕ
codes String.[] = []
codes (String.◌∷◌ c s) = code c ∷ codes s

abbrev pub same_codes : List ℕ → List ℕ → Bool
same_codes [] [] = true
same_codes (x ∷ xs) (y ∷ ys) = (x == y) && same_codes xs ys
same_codes _ _ = false

-- `to_ascii_lowercase` of one character.
abbrev pub to_lower : ℕ → ℕ
to_lower c = if leb b'A' c && leb c b'Z' then c + 32 else c

-- `to_ascii_uppercase` of one character.
abbrev pub to_upper : ℕ → ℕ
to_upper c = if leb b'a' c && leb c b'z' then c - 32 else c

abbrev pub lower_codes : String → List ℕ
lower_codes s = map to_lower (codes s)

-- `str::eq_ignore_ascii_case`.
abbrev pub eq_ignore_ascii_case : String → String → Bool
eq_ignore_ascii_case s t = same_codes (lower_codes s) (lower_codes t)

pub same_codes_refl : (xs : List ℕ) → same_codes xs xs ≡ true
same_codes_refl [] = refl
same_codes_refl (x ∷ xs) = ground (arith, same_codes_refl xs)

strip_x : String → String → String
strip_x whole String.[] = whole
strip_x whole (String.◌∷◌ c s) = if code c == b'x' then s else whole

-- `s.strip_prefix("0x").unwrap_or(s)`.
unfoldable pub strip_0x : String → String
unfolding strip_x
strip_0x String.[] = String.[]
strip_0x (String.◌∷◌ c s) = if code c == b'0' then strip_x (String.◌∷◌ c s) s else String.◌∷◌ c s
