-- ===== src/Prelude/Text.antt =====
-- Go's `strings` functions that the program calls, on texts of Unicode code points.
use Prim.Native.Nat.{ℕ, ◌+◌}
use Prim.Native.Char.{code}
use Prim.Native.String.{String, ◌++◌ as string_append}
use mathlib.Core.Bool.{Bool, true, false, not, ◌&&◌, ◌||◌}
use agent_os_backend.Prelude.Tests.{leb, nat_beq, if◌then◌else◌}
use agent_os_backend.Prelude.Equality.{string_eq}

-- unicode.IsSpace
is_space : ℕ → Bool
is_space c =
    (leb 9 c && leb c 13)
    || nat_beq c 32
    || nat_beq c 0x85
    || nat_beq c 0xa0
    || nat_beq c 0x1680
    || (leb 0x2000 c && leb c 0x200a)
    || nat_beq c 0x2028
    || nat_beq c 0x2029
    || nat_beq c 0x202f
    || nat_beq c 0x205f
    || nat_beq c 0x3000

trim_left : String → String
trim_left String.[] = String.[]
trim_left (String.◌∷◌ c s) =
    let rest = trim_left s in if is_space (code c) then rest else String.◌∷◌ c s

is_empty : String → Bool
is_empty String.[] = true
is_empty (String.◌∷◌ c s) = false

trim_right : String → String
trim_right String.[] = String.[]
trim_right (String.◌∷◌ c s) =
    let rest = trim_right s in
    if is_space (code c) && is_empty rest then String.[] else String.◌∷◌ c rest

-- strings.TrimSpace
unfoldable pub trim_space : String → String
unfolding trim_left trim_right is_space is_empty
trim_space s = trim_left (trim_right s)

-- Go's `+` on strings
abbrev pub concat : String → String → String
concat s t = string_append s t

-- unicode.ToLower, exact wherever the lower case is an ASCII letter: A to Z, the Kelvin sign and
-- the dotted capital I. Any other character is kept, and never becomes an ASCII letter.
lower : ℕ → ℕ
lower c =
    if leb b'A' c && leb c b'Z'
    then c + 32
    else if nat_beq c 0x212a
    then b'k'
    else if nat_beq c 0x130
    then b'i'
    else c

-- strings.ToLower(s) == t, for a text `t` of ASCII letters
unfoldable pub lower_is : String → String → Bool
unfolding lower
lower_is String.[] String.[] = true
lower_is (String.◌∷◌ c s) (String.◌∷◌ d t) = nat_beq (lower (code c)) (code d) && lower_is s t
lower_is _ _ = false

-- Go's `<` on strings: code points compare as their UTF-8 bytes do.
unfoldable pub text_before : String → String → Bool
text_before String.[] String.[] = false
text_before String.[] (String.◌∷◌ d t) = true
text_before (String.◌∷◌ c s) String.[] = false
text_before (String.◌∷◌ c s) (String.◌∷◌ d t) =
    let rest = text_before s t in
    if nat_beq (code c) (code d) then rest else not (leb (code d) (code c))
