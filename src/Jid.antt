-- ===== src/Jid.antt =====
-- lib/jid/jid.go: the HTML id of an Element, as a number and as text.
pub mod Codec
use jaws.Base.{
  ℕ, zero, suc, ◌<◌, List, [], ◌∷◌, ◌++◌, Option, none, some, Bool, true, false, ◌&&◌, ltb, leb,
  ◌==◌, if◌then◌else◌,
}
use jaws.Strconv.{Text, format_uint, parse_uint, max_int64}

-- type Jid int64. `negsuc n` is the number -(n + 1).
pub data Jid : Type 0 where
  pos : ℕ → Jid
  negsuc : ℕ → Jid

-- Jid(-1).
abbrev pub invalid : Jid
invalid = negsuc 0

abbrev pub is_valid : Jid → Bool
is_valid (pos n) = true
is_valid (negsuc n) = false

-- "Jid."
abbrev pub prefix : Text
prefix = b'J' ∷ b'i' ∷ b'd' ∷ b'.' ∷ []

unfoldable pub append_int : Text → Jid → Text
append_int dst (pos n) = if n == 0 then dst else dst ++ format_uint 10 n
append_int dst (negsuc n) = dst

-- Jid.Append.
unfoldable pub append : Text → Jid → Text
unfolding append_int
append dst (pos n) = if n == 0 then dst else append_int (dst ++ prefix) (pos n)
append dst (negsuc n) = dst

unfoldable pub append_quote : Text → Jid → Text
unfolding append
append_quote dst j = append (dst ++ b'"' ∷ []) j ++ b'"' ∷ []

-- ` id=`
abbrev id_attr : Text
id_attr = b' ' ∷ b'i' ∷ b'd' ∷ b'=' ∷ []

unfoldable pub append_start_tag_attr : Text → Jid → Text → Text
unfolding append_quote
append_start_tag_attr dst (pos n) start_tag =
    let opened = (dst ++ b'<' ∷ []) ++ start_tag in
    if n == 0 then opened else append_quote (opened ++ id_attr) (pos n)
append_start_tag_attr dst (negsuc n) start_tag = (dst ++ b'<' ∷ []) ++ start_tag

-- Jid.String.
unfoldable pub string : Jid → Text
unfolding append
string j = append [] j

-- strconv.ParseInt(s, 10, 64) and the test n >= 0. A sign stands in front of the digits; the least
-- negative number is -2^63.
unfoldable pub parse_int : Text → Jid
parse_int [] = invalid
parse_int (c ∷ s) =
    if c == b'-'
    then (elim (parse_uint 10 (suc max_int64) s) [
      | none ↦ invalid
      | some n ↦ if n == 0 then pos 0 else invalid
    ])
    else elim (parse_uint 10 max_int64 (if c == b'+' then s else c ∷ s)) [
      | none ↦ invalid
      | some n ↦ pos n
    ]

abbrev pub is_digit : ℕ → Bool
is_digit c = leb b'0' c && leb c b'9'

all_digits : Text → Bool
all_digits [] = true
all_digits (c ∷ s) = is_digit c && all_digits s

-- `id > 0`
positive : Jid → Jid
positive (pos n) = if n == 0 then invalid else pos n
positive (negsuc n) = invalid

-- The text behind the prefix: a positive number with no sign and no leading zero.
parse_digits : Text → Jid
unfolding all_digits positive
parse_digits [] = invalid
parse_digits (c ∷ s) =
    if leb b'1' c && leb c b'9'
    then if all_digits s then positive (parse_int (c ∷ s)) else invalid
    else invalid

-- strings.HasPrefix and the slice behind it.
cut_prefix : Text → Text → Option Text
cut_prefix [] s = some s
cut_prefix (p ∷ ps) [] = none
cut_prefix (p ∷ ps) (c ∷ s) = if c == p then cut_prefix ps s else none

unfoldable pub parse_string : Text → Jid
unfolding parse_digits cut_prefix parse_int
parse_string [] = pos 0
parse_string (c ∷ s) = elim (cut_prefix prefix (c ∷ s)) [
  | none ↦ invalid
  | some rest ↦ parse_digits rest
]
