-- ===== src/Prelude/Texts.antt =====
-- What the code asks of a string: `strings.TrimSpace(s) == ""`, and its length in bytes.
use Prim.Native.Nat.{ℕ}
use Prim.Native.Char.{code}
use Prim.Native.String.{String, [], ◌∷◌, len}
use mathlib.Core.Bool.{Bool, false, not, true, ◌&&◌, ◌||◌}
use worms_ng.Prelude.Tests.{if◌then◌else◌, leb, ◌==◌}

-- `unicode.IsSpace`
abbrev is_space : ℕ → Bool
is_space c =
    leb 9 c && leb c 13
    || c == 0x20
    || c == 0x85
    || c == 0xa0
    || c == 0x1680
    || leb 0x2000 c && leb c 0x200a
    || c == 0x2028
    || c == 0x2029
    || c == 0x202f
    || c == 0x205f
    || c == 0x3000

unfoldable pub is_blank : String → Bool
is_blank [] = true
is_blank (c ∷ s) = is_space (code c) && is_blank s

-- The bytes of the UTF-8 of a string.
abbrev pub byte_length : String → ℕ
byte_length s = len s

-- `a < b` for strings. The order of the bytes of UTF-8 is the order of the code points.
unfoldable pub text_less : String → String → Bool
text_less a [] = false
text_less [] (d ∷ t) = true
text_less (c ∷ s) (d ∷ t) =
    let rest = text_less s t in if code c == code d then rest else not (leb (code d) (code c))
