-- ===== src/Cloud/Address/Number.antt =====
-- The value of `Number(s)` for a text: decimal and exponent notation with a sign, hexadecimal, octal
-- and binary notation, and `Infinity`. Values are exact; a double keeps 53 bits of them.
use private_deploy.Base.{
  ℕ, zero, suc, ◌+◌, ◌*◌, ◌-◌, ◌/◌, ◌%◌, ◌^◌, Bool, true, false, ◌&&◌, ◌||◌, Option, none, some,
  List, [], ◌∷◌, ◌++◌, String, str_eq, ◌==◌, leb, ltb, length, if◌then◌else◌, trim, codes,
}

-- A number that is finite is a sign, digits, and how many of them stand behind the point; the last of
-- those is not zero.
pub data Numeral : Type 0 where
  nan : Numeral
  infinite : Bool → Numeral
  decimal : Bool → ℕ → ℕ → Numeral

abbrev pub natural : ℕ → Numeral
natural n = decimal false n 0

abbrev pub is_digit : ℕ → Bool
is_digit c = leb b'0' c && leb c b'9'

-- The digits at the start of a text, behind those already read.
unfoldable pub digits_value : ℕ → List ℕ → ℕ
digits_value acc [] = acc
digits_value acc (c ∷ cs) = if is_digit c then digits_value (acc * 10 + (c - b'0')) cs else acc

unfoldable pub all_digits : List ℕ → Bool
all_digits [] = true
all_digits (c ∷ cs) = is_digit c && all_digits cs

-- Zeros at the end of the places are dropped.
unfoldable strip : Bool → ℕ → ℕ → Numeral
strip negative digits zero = decimal negative digits 0
strip negative digits (suc places) =
    let rest = strip negative (digits / 10) places in
    if digits % 10 == 0 then rest else decimal negative digits (suc places)

abbrev ahead : ℕ → List ℕ × List ℕ → List ℕ × List ℕ
ahead c (ds, rest) = (c ∷ ds, rest)

-- The digits at the start of a text, and what follows them.
unfoldable span_digits : List ℕ → List ℕ × List ℕ
span_digits [] = ([], [])
span_digits (c ∷ cs) =
    let more = ahead c (span_digits cs) in if is_digit c then more else ([], c ∷ cs)

-- The digits of an exponent, at least one.
abbrev exponent_digits : Bool → List ℕ → Option (Bool × ℕ)
exponent_digits negative [] = none
exponent_digits negative (c ∷ cs) =
    if all_digits (c ∷ cs) then some (negative, digits_value 0 (c ∷ cs)) else none

abbrev signed_exponent : List ℕ → Option (Bool × ℕ)
signed_exponent [] = none
signed_exponent (c ∷ cs) =
    if c == b'-'
    then exponent_digits true cs
    else if c == b'+'
    then exponent_digits false cs
    else exponent_digits false (c ∷ cs)

-- The exponent that ends a number; there may be none.
abbrev exponent_of : List ℕ → Option (Bool × ℕ)
exponent_of [] = some (false, 0)
exponent_of (c ∷ cs) = if c == b'e' || c == b'E' then signed_exponent cs else none

abbrev scale : Bool → ℕ → ℕ → Option (Bool × ℕ) → Numeral
scale negative digits places none = nan
scale negative digits places (some (true, e)) = strip negative digits (places + e)
scale negative digits places (some (false, e)) = strip negative (digits * 10 ^ e) places

abbrev with_exponent : Bool → List ℕ → ℕ → List ℕ → Numeral
with_exponent negative [] places rest = nan
with_exponent negative (d ∷ ds) places rest =
    scale negative (digits_value 0 (d ∷ ds)) places (exponent_of rest)

abbrev with_fraction : Bool → List ℕ × List ℕ → Numeral
with_fraction negative (ds, []) = with_exponent negative ds 0 []
with_fraction negative (ds, c ∷ cs) =
    let (fs, rest) = span_digits cs in
    if c == b'.'
    then with_exponent negative (ds ++ fs) (length fs) rest
    else with_exponent negative ds 0 (c ∷ cs)

abbrev unsigned : Bool → List ℕ → Numeral
unsigned negative cs = with_fraction negative (span_digits cs)

-- The value of a digit; sixteen where it is none.
abbrev digit_value : ℕ → ℕ
digit_value c =
    if is_digit c
    then c - b'0'
    else if leb b'a' c && leb c b'f'
    then c - b'a' + 10
    else if leb b'A' c && leb c b'F'
    then c - b'A' + 10
    else 16

unfoldable radix_value : ℕ → ℕ → List ℕ → Numeral
radix_value base acc [] = natural acc
radix_value base acc (c ∷ cs) =
    let rest = radix_value base (acc * base + digit_value c) cs in
    if ltb (digit_value c) base then rest else nan

abbrev radix_number : ℕ → List ℕ → Numeral
radix_number base [] = nan
radix_number base (c ∷ cs) = radix_value base 0 (c ∷ cs)

abbrev is_either : ℕ → ℕ → ℕ → Bool
is_either a b c = c == a || c == b

-- Behind a leading zero.
abbrev after_zero : List ℕ → Numeral
after_zero [] = natural 0
after_zero (c ∷ cs) =
    if is_either b'x' b'X' c
    then radix_number 16 cs
    else if is_either b'o' b'O' c
    then radix_number 8 cs
    else if is_either b'b' b'B' c
    then radix_number 2 cs
    else unsigned false (b'0' ∷ c ∷ cs)

abbrev signed : List ℕ → Numeral
signed [] = natural 0
signed (c ∷ cs) =
    if c == b'-'
    then unsigned true cs
    else if c == b'+'
    then unsigned false cs
    else if c == b'0'
    then after_zero cs
    else unsigned false (c ∷ cs)

-- A text without white space at its ends.
unfoldable notation : String → Numeral
unfolding strip span_digits radix_value all_digits digits_value
notation s =
    if str_eq s "Infinity" || str_eq s "+Infinity"
    then infinite false
    else if str_eq s "-Infinity"
    then infinite true
    else signed (codes s)

-- `Number(s)`
unfoldable pub to_number : String → Numeral
unfolding digits_value all_digits notation
to_number s =
    if all_digits (codes (trim s))
    then natural (digits_value 0 (codes (trim s)))
    else notation (trim s)
