-- ===== src/Json/Numerals.antt =====
-- Which JSON number literals stand for a whole number: JSON Schema 2020-12 counts those, such as
-- 1.0, as integers.
use custom_mcps.Prelude.{
  ℕ, suc, ◌+◌, ◌≡◌, refl, String, code, Bool, true, false, ◌||◌, ◌&&◌, Option, none, some, leb,
  nat_eq, if◌then◌else◌,
}
use custom_mcps.Prelude.Int.{digits_value}

-- The digits of a literal up to here: whether all are 0, how many zeros stand last, and how many
-- digits stand behind the point.
record Digits : Type 0 where
  all_zero : Bool
  last_zeros : ℕ
  behind_point : ℕ
  after_point : Bool

abbrev no_digits : Digits
no_digits = record { all_zero = true; last_zeros = 0; behind_point = 0; after_point = false }

abbrev read_digit : Bool → Digits → Digits
read_digit is_zero d = record {
  all_zero = d.all_zero && is_zero;
  last_zeros = if is_zero then suc d.last_zeros else 0;
  behind_point = if d.after_point then suc d.behind_point else d.behind_point;
  after_point = d.after_point;
}

-- A sign is no digit.
abbrev read_code : ℕ → Digits → Digits
read_code c d =
    if nat_eq c b'.'
    then record d { after_point = true }
    else if nat_eq c b'-'
    then d
    else read_digit (nat_eq c b'0') d

-- With the exponent `e`, or `- e`.
abbrev scaled_up : Digits → Option ℕ → Bool
scaled_up d none = false
scaled_up d (some e) = d.all_zero || leb d.behind_point (d.last_zeros + e)

abbrev scaled_down : Digits → Option ℕ → Bool
scaled_down d none = false
scaled_down d (some e) = d.all_zero || leb (d.behind_point + e) d.last_zeros

abbrev exponent : Digits → String → Bool
exponent d String.[] = false
exponent d (String.◌∷◌ c s) =
    if nat_eq (code c) b'-'
    then scaled_down d (digits_value 0 s)
    else if nat_eq (code c) b'+'
    then scaled_up d (digits_value 0 s)
    else scaled_up d (digits_value 0 (String.◌∷◌ c s))

whole_from : Digits → String → Bool
whole_from d String.[] = scaled_up d (some 0)
whole_from d (String.◌∷◌ c s) = elim (nat_eq (code c) b'e' || nat_eq (code c) b'E') [
  | true ↦ exponent d s
  | false ↦ whole_from (read_code (code c) d) s
]

unfoldable pub is_whole : String → Bool
unfolding whole_from digits_value
is_whole t = whole_from no_digits t

-- 1.0, 1.50e1 and 200e-2 are whole, and 1.5, 25e-1 and -0.12e+1 are not.
whole_literals :
    (is_whole "1.0" && is_whole "1.50e1" && is_whole "200e-2" && is_whole "-0.0") ≡ true
unfolding is_whole
whole_literals = refl

fractions : (is_whole "1.5" || is_whole "25e-1" || is_whole "-0.12e+1") ≡ false
unfolding is_whole
fractions = refl
