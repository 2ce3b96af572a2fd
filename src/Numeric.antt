-- ===== src/Numeric.antt =====
-- lib/ui/numeric.go: the texts of integers of every width, and a numeric input. A float type, whose
-- texts are strconv's, is not among the types here; int, uint and uintptr have the width of the
-- machine.
pub mod RoundTrip
pub mod Widget
use jaws.Base.{
  ℕ, zero, suc, ◌+◌, ◌-◌, ◌%◌, ◌^◌, ◌<◌, List, [], ◌∷◌, ◌++◌, Option, none, some, Bool, true, false,
  ◌&&◌, ltb, leb, ◌==◌, if◌then◌else◌,
}
use jaws.Strconv.{Text, format_uint, parse_uint, max_int64, max_uint64}

-- Integers over the native numbers: `negsuc n` is -(n + 1).
pub data ℤ : Type 0 where
  pos : ℕ → ℤ
  negsuc : ℕ → ℤ

abbrev pub z_eq : ℤ → ℤ → Bool
z_eq (pos a) (pos b) = a == b
z_eq (negsuc a) (negsuc b) = a == b
z_eq _ _ = false

pub data Width : Type 0 where
  w8 w16 w32 w64 : Width

-- numericClassOf, of an integer type.
pub data Class : Type 0 where
  signed unsigned : Width → Class

-- 2 ^ (bits - 1) and 2 ^ bits.
abbrev pub half : Width → ℕ
half w8 = 2 ^ 7
half w16 = 2 ^ 15
half w32 = 2 ^ 31
half w64 = 2 ^ 63

abbrev pub whole : Width → ℕ
whole w8 = 2 ^ 8
whole w16 = 2 ^ 16
whole w32 = 2 ^ 32
whole w64 = 2 ^ 64

abbrev pub or_minus : Option ℕ → Option ℤ
or_minus none = none
or_minus (some zero) = some (pos zero)
or_minus (some (suc n)) = some (negsuc n)

abbrev pub or_plus : Option ℕ → Option ℤ
or_plus none = none
or_plus (some n) = some (pos n)

-- parseNumericInt, strconv.ParseInt(text, 10, 64).
unfoldable pub parse_numeric_int : Text → Option ℤ
parse_numeric_int [] = none
parse_numeric_int (c ∷ s) =
    if c == b'-'
    then or_minus (parse_uint 10 (2 ^ 63) s)
    else if c == b'+'
    then or_plus (parse_uint 10 max_int64 s)
    else or_plus (parse_uint 10 max_int64 (c ∷ s))

-- parseNumericUint, strconv.ParseUint(text, 10, 64).
unfoldable pub parse_numeric_uint : Text → Option ℕ
parse_numeric_uint text = parse_uint 10 max_uint64 text

-- The conversion T(parsed) to a type of this class, which keeps the low bits.
unfoldable pub low_bits : Width → ℤ → ℕ
low_bits w (pos n) = n % whole w
low_bits w (negsuc n) = whole w - 1 - n % whole w

unfoldable pub from_bits : Width → ℕ → ℤ
from_bits w u = if ltb u (half w) then pos u else negsuc (whole w - 1 - u)

-- A value that the conversion keeps.
abbrev pub kept_signed : Width → Option ℤ → Option ℤ
kept_signed w none = none
kept_signed w (some z) = if z_eq (from_bits w (low_bits w z)) z then some z else none

abbrev pub kept_unsigned : Width → Option ℕ → Option ℤ
kept_unsigned w none = none
kept_unsigned w (some n) = if n % whole w == n then some (pos n) else none

-- parseNumeric.
unfoldable pub parse_numeric : Class → Text → Option ℤ
unfolding parse_numeric_int parse_numeric_uint low_bits from_bits
parse_numeric (Class.signed w) text = kept_signed w (parse_numeric_int text)
parse_numeric (Class.unsigned w) text = kept_unsigned w (parse_numeric_uint text)

-- formatNumeric: FormatInt and FormatUint in base 10.
unfoldable pub format_numeric : ℤ → Text
format_numeric (pos n) = format_uint 10 n
format_numeric (negsuc n) = b'-' ∷ format_uint 10 (suc n)

-- reflect's OverflowInt and OverflowUint: whether a type of this width lacks the number.
abbrev pub overflow_int : Width → ℤ → Bool
overflow_int w (pos n) = leb (half w) n
overflow_int w (negsuc n) = leb (half w) n

abbrev pub overflow_uint : Width → ℕ → Bool
overflow_uint w n = leb (whole w) n

abbrev pub unless_int : Width → Option ℤ → Option ℤ
unless_int w none = none
unless_int w (some z) = if overflow_int w z then none else some z

abbrev pub unless_uint : Width → Option ℕ → Option ℤ
unless_uint w none = none
unless_uint w (some n) = if overflow_uint w n then none else some (pos n)

-- numericOps.parseValue, which templates use.
unfoldable pub parse_value : Class → Text → Option ℤ
unfolding parse_numeric_int parse_numeric_uint
parse_value (Class.signed w) text = unless_int w (parse_numeric_int text)
parse_value (Class.unsigned w) text = unless_uint w (parse_numeric_uint text)

-- numericOps.formatValue.
unfoldable pub format_value : ℤ → Text
format_value (pos n) = format_uint 10 n
format_value (negsuc n) = b'-' ∷ format_uint 10 (suc n)

-- The values of a type.
abbrev pub InRange : Class → ℤ → Type 0
InRange (Class.signed w) (pos n) = n < half w
InRange (Class.signed w) (negsuc n) = n < half w
InRange (Class.unsigned w) (pos n) = n < whole w
InRange (Class.unsigned w) (negsuc n) = ⊥
