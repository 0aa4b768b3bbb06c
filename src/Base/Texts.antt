-- ===== src/Base/Texts.antt =====
-- `strings.TrimSpace` of Go: the text without the white space, in Unicode's sense, at its two ends.
use Prim.Native.Nat.{ℕ}
use Prim.Native.Char.{Char, code}
use Prim.Native.String.{String, ◌++◌}
use mathlib.Core.Path.{◌≡◌, refl}
use mathlib.Core.Bool.{Bool, ◌&&◌, ◌||◌}
use staging_platform.Base.Tests.{leb, ◌==◌, str_eq, if◌then◌else◌}

-- `unicode.IsSpace`
unfoldable pub is_space : ℕ → Bool
is_space c =
    (leb 9 c && leb c 13)
    || c == 32
    || c == 0x85
    || c == 0xa0
    || c == 0x1680
    || (leb 0x2000 c && leb c 0x200a)
    || c == 0x2028
    || c == 0x2029
    || c == 0x202f
    || c == 0x205f
    || c == 0x3000

unfoldable pub trim_left : String → String
trim_left String.[] = ""
trim_left (String.◌∷◌ c s) =
    let rest = trim_left s in if is_space (code c) then rest else String.◌∷◌ c s

-- A character is dropped where it is white space and nothing that is kept follows it.
abbrev pub push_left : Char → String → String
push_left c String.[] = if is_space (code c) then "" else String.◌∷◌ c ""
push_left c (String.◌∷◌ d s) = String.◌∷◌ c (String.◌∷◌ d s)

unfoldable pub trim_right : String → String
unfolding is_space
trim_right String.[] = ""
trim_right (String.◌∷◌ c s) = push_left c (trim_right s)

unfoldable pub trim_space : String → String
unfolding trim_left trim_right is_space
trim_space s = trim_right (trim_left s)

-- A text of white space alone, as every required name is tested.
unfoldable pub is_blank : String → Bool
unfolding trim_space
is_blank s = str_eq (trim_space s) ""

trimmed : trim_space "  a b\t\n" ≡ "a b"
unfolding trim_space
trimmed = refl

-- `s + t` of Go's texts
abbrev pub append_text : String → String → String
append_text s t = s ++ t
