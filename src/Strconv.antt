-- ===== src/Strconv.antt =====
-- The calls of Go's strconv that lib/jid/jid.go and lib/key/key.go make: AppendUint (and AppendInt on
-- numbers that are not negative), ParseUint and ParseInt, in a base up to 36. Text is a list of bytes.
pub mod RoundTrip
pub mod Canonical
use jaws.Base.{
  ℕ, zero, suc, ◌+◌, ◌-◌, ◌*◌, ◌/◌, ◌%◌, ◌^◌, List, [], ◌∷◌, Option, none, some, ◌&&◌, Bool, ltb,
  leb, ◌==◌, if◌then◌else◌,
}

abbrev pub Text : Type 0
Text = List ℕ

abbrev pub max_uint64 : ℕ
max_uint64 = 2 ^ 64 - 1

abbrev pub max_int64 : ℕ
max_int64 = 2 ^ 63 - 1

-- The digit of a value below 36, in lower case.
unfoldable pub digit : ℕ → ℕ
digit d = if ltb d 10 then b'0' + d else b'a' + (d - 10)

-- The value of a digit, in either case.
unfoldable pub digit_value : ℕ → Option ℕ
digit_value c =
    if leb b'0' c && leb c b'9'
    then some (c - b'0')
    else if leb b'a' c && leb c b'z'
    then some (c - b'a' + 10)
    else if leb b'A' c && leb c b'Z'
    then some (c - b'A' + 10)
    else none

-- `for n > 0`: each round puts the last digit in front; `fuel` bounds the rounds.
unfoldable pub digits : ℕ → ℕ → ℕ → Text → Text
unfolding digit
digits zero base n out = out
digits (suc fuel) base n out =
    let rest = digits fuel base (n / base) (digit (n % base) ∷ out) in if n == 0 then out else rest

-- strconv.AppendUint(nil, n, base).
unfoldable pub format_uint : ℕ → ℕ → Text
format_uint base n = if n == 0 then b'0' ∷ [] else digits (suc n) base n []

-- A digit of the base extends the number; a byte that is no digit of the base, or a number above
-- `max`, is an error.
unfoldable pub extend : ℕ → ℕ → ℕ → ℕ → Option ℕ
extend base max n c = elim (digit_value c) [
  | none ↦ none
  | some d ↦
      if leb base d then none else if ltb max (n * base + d) then none else some (n * base + d)
]

unfoldable pub scan : ℕ → ℕ → Text → ℕ → Option ℕ
unfolding extend digit_value
scan base max [] n = some n
scan base max (c ∷ s) n = elim (extend base max n c) [ none ↦ none | some m ↦ scan base max s m ]

-- strconv.ParseUint(s, base, 64): `none` is any error.
unfoldable pub parse_uint : ℕ → ℕ → Text → Option ℕ
unfolding scan
parse_uint base max [] = none
parse_uint base max (c ∷ s) = scan base max (c ∷ s) 0
