-- ===== src/Prelude/Int.antt =====
-- Signed integers over the native numbers, and their decimal text.
use Prim.Native.Nat.{ℕ, zero, suc, ◌+◌, ◌-◌, ◌*◌, ◌/◌, ◌%◌, ◌^◌}
use Prim.Native.Char.{code}
use Prim.Native.String.{String, [], ◌∷◌}
use mathlib.Core.Bool.{Bool, ◌&&◌}
use mathlib.Core.Option.{Option, none, some}
use custom_mcps.Prelude.Tests.{ltb, leb, nat_eq, if◌then◌else◌}
use custom_mcps.Prelude.Go.{◌<>◌}

-- `negsuc n` is -(n + 1).
pub data ℤ : Type 0 where
  pos : ℕ → ℤ
  negsuc : ℕ → ℤ

abbrev digit : ℕ → String
digit n =
    if nat_eq n 0
    then "0"
    else if nat_eq n 1
    then "1"
    else if nat_eq n 2
    then "2"
    else if nat_eq n 3
    then "3"
    else if nat_eq n 4
    then "4"
    else if nat_eq n 5
    then "5"
    else if nat_eq n 6
    then "6"
    else if nat_eq n 7
    then "7"
    else if nat_eq n 8
    then "8"
    else "9"

-- One round for each digit; a number has no more digits than one more than itself.
digits : ℕ → ℕ → String → String
digits zero n out = out
digits (suc f) n out = elim (leb n 9) [
  | Bool.true ↦ digit n <> out
  | Bool.false ↦ digits f (n / 10) (digit (n % 10) <> out)
]

-- `strconv.Itoa`, which `%d` prints too.
unfoldable pub itoa : ℤ → String
unfolding digits
itoa (pos n) = digits (suc n) n ""
itoa (negsuc n) = "-" <> digits (suc (suc n)) (suc n) ""

-- The values of an `int` of 64 bits.
unfoldable pub is_int64 : ℤ → Bool
is_int64 (pos n) = ltb n (2 ^ 63)
is_int64 (negsuc n) = ltb n (2 ^ 63)

-- Decimal digits, behind those that `n` was read from.
unfoldable pub digits_value : ℕ → String → Option ℕ
digits_value n [] = some n
digits_value n (c ∷ s) = elim (leb b'0' (code c) && leb (code c) b'9') [
  | Bool.true ↦ digits_value (n * 10 + (code c - b'0')) s
  | Bool.false ↦ none
]

abbrev unsigned : String → Option ℕ
unsigned [] = none
unsigned (c ∷ s) = digits_value 0 (c ∷ s)

abbrev negated : ℕ → ℤ
negated zero = pos zero
negated (suc n) = negsuc n

abbrev in_range : ℤ → Option ℤ
in_range z = if is_int64 z then some z else none

abbrev signed : (ℕ → ℤ) → Option ℕ → Option ℤ
signed sign none = none
signed sign (some n) = in_range (sign n)

-- `strconv.Atoi`: `none` for an error.
unfoldable pub atoi : String → Option ℤ
unfolding digits_value is_int64
atoi [] = none
atoi (c ∷ s) =
    if nat_eq (code c) b'-'
    then signed negated (unsigned s)
    else if nat_eq (code c) b'+'
    then signed pos (unsigned s)
    else signed pos (unsigned (c ∷ s))

-- a - b, as an integer.
abbrev pub sub_ℕ : ℕ → ℕ → ℤ
sub_ℕ a b = if leb b a then pos (a - b) else negsuc (b - a - 1)
