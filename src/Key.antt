-- ===== src/Key.antt =====
-- lib/key/key.go: request and session keys, as uint64 numbers and as base-32 text.
pub mod Codec
use jaws.Base.{
  ℕ, zero, suc, ◌≤◌, ◌<◌, List, [], ◌∷◌, ◌++◌, Option, none, some, Bool, true, false, ◌==◌, ◌≡◌,
  refl, if◌then◌else◌, arith,
}
use jaws.Strconv.{Text, format_uint, parse_uint, max_uint64}

-- key.Append.
unfoldable pub append : Text → ℕ → Text
append b key = if key == 0 then b else b ++ format_uint 32 key

-- Key.String.
unfoldable pub string : ℕ → Text
unfolding append
string key = append [] key

-- The text before the first slash, and the slash with what follows it.
unfoldable pub split_slash : Text → Text × Text
split_slash [] = ([], [])
split_slash (c ∷ s) =
    let (keystr, tail) = split_slash s in if c == b'/' then ([], c ∷ s) else (c ∷ keystr, tail)

or_zero : Option ℕ → ℕ
or_zero none = 0
or_zero (some n) = n

-- key.Parse: the key, and the tail.
unfoldable pub parse : Text → ℕ × Text
unfolding split_slash or_zero
parse s = let (keystr, tail) = split_slash s in (or_zero (parse_uint 32 max_uint64 keystr), tail)
