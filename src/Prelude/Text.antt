-- ===== src/Prelude/Text.antt =====
-- Go's `strings` package as the program uses it, over the characters of a text.
use custom_mcps.Prelude.Tests.{leb, nat_eq, if◌then◌else◌}
use Prim.Native.Nat.{ℕ, zero, suc}
use Prim.Native.Char.{Char, code}
use Prim.Native.String.{String, [], ◌∷◌}
use mathlib.Core.Bool.{Bool, ◌&&◌, ◌||◌}
use mathlib.Core.Option.{Option, none, some}
use mathlib.Core.List.{List}

abbrev one : Char → String
one c = c ∷ []

-- The length in characters: in bytes, if the text is ASCII.
unfoldable pub text_length : String → ℕ
text_length [] = zero
text_length (c ∷ s) = suc (text_length s)

-- `s[:n]`
unfoldable pub take_text : ℕ → String → String
take_text zero s = []
take_text (suc n) [] = []
take_text (suc n) (c ∷ s) = c ∷ take_text n s

-- `strings.CutPrefix`: the rest behind a prefix.
unfoldable pub strip_prefix : String → String → Option String
strip_prefix [] s = some s
strip_prefix (p ∷ ps) [] = none
strip_prefix (p ∷ ps) (c ∷ s) = if nat_eq (code p) (code c) then strip_prefix ps s else none

-- `unicode.IsSpace`
abbrev pub is_space : ℕ → Bool
is_space c =
    (leb 0x9 c && leb c 0xd)
    || nat_eq c 0x20
    || nat_eq c 0x85
    || nat_eq c 0xa0
    || nat_eq c 0x1680
    || (leb 0x2000 c && leb c 0x200a)
    || nat_eq c 0x2028
    || nat_eq c 0x2029
    || nat_eq c 0x202f
    || nat_eq c 0x205f
    || nat_eq c 0x3000

unfoldable pub trim_left : String → String
trim_left [] = []
trim_left (c ∷ s) = if is_space (code c) then trim_left s else c ∷ s

abbrev put_unless_blank : Char → String → String
put_unless_blank c [] = if is_space (code c) then [] else c ∷ []
put_unless_blank c (d ∷ s) = c ∷ d ∷ s

unfoldable pub trim_right : String → String
trim_right [] = []
trim_right (c ∷ s) = put_unless_blank c (trim_right s)

-- `strings.TrimSpace`
unfoldable pub trim_space : String → String
unfolding trim_left trim_right
trim_space s = trim_right (trim_left s)

abbrev pub extend_first : Char → List String → List String
extend_first c List.[] = List.◌∷◌ (one c) List.[]
extend_first c (List.◌∷◌ p ps) = List.◌∷◌ (c ∷ p) ps

-- `strings.Split(s, sep)` for a separator of one character.
unfoldable pub split : ℕ → String → List String
split sep [] = List.◌∷◌ [] List.[]
split sep (c ∷ s) =
    if nat_eq (code c) sep then List.◌∷◌ [] (split sep s) else extend_first c (split sep s)

abbrev keep_head : Char → Option (String × String) → Option (String × String)
keep_head c none = none
keep_head c (some (before, after)) = some (c ∷ before, after)

-- `strings.Cut(s, sep)` for a separator of one character: `none` if it does not occur.
unfoldable pub cut : ℕ → String → Option (String × String)
cut sep [] = none
cut sep (c ∷ s) = if nat_eq (code c) sep then some ([], s) else keep_head c (cut sep s)

-- The character before the first separator, or the whole text.
unfoldable pub before : ℕ → String → String
unfolding cut
before sep s = elim (cut sep s) [ some p ↦ p.0 | none ↦ s ]
