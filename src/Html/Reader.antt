-- ===== src/Html/Reader.antt =====
-- How a browser reads a start tag: the states of the HTML tokenizer (HTML Standard, 13.2.5) that a tag
-- with double-quoted attributes goes through. The reader is partial: where the tokenizer goes on to
-- another state, as at a slash, at an attribute without a value or at a value in other quotes, and at
-- a reference that is not one of those below, nothing is read. No input is read in another way than
-- a browser reads it, but that a browser drops the second of two attributes with one name.
use jaws.Base.{
  ℕ, List, [], ◌∷◌, ◌++◌, Option, none, some, Bool, true, false, ◌&&◌, ◌||◌, ltb, leb, ◌==◌,
  if◌then◌else◌, All, ◌≡◌,
}
use jaws.Strconv.{Text, parse_uint}
use jaws.Bytes.{codes, lower, text_eq}

pub record StartTag : Type 0 where
  pub name : Text
  pub attributes : List (Text × Text)

pub data Mode : Type 0 where
  in_name : Text → Mode
  in_attribute : Text → Mode
  before_value : Text → Mode
  in_value : Text → Text → Mode
  in_reference : Text → Text → Text → Mode
  after_value : Mode

-- White space in a tag. The input stream has a newline for a raw carriage return.
abbrev pub is_blank : ℕ → Bool
is_blank c = (c == b' ') || (c == b'\t') || (c == b'\n') || (c == b'\r') || (c == 12)

abbrev pub is_letter : ℕ → Bool
is_letter c = (leb b'a' c && leb c b'z') || (leb b'A' c && leb c b'Z')

-- A byte that ends the name of an attribute, or that may not stand in it.
abbrev pub ends_name : ℕ → Bool
ends_name c =
    is_blank c
    || (c == b'/')
    || (c == b'>')
    || (c == b'"')
    || (c == b'\'')
    || (c == b'<')
    || (c == 0)

-- The ASCII character of a numeric reference.
abbrev pub numeric : Option ℕ → Option Text
numeric none = none
numeric (some n) = if ltb 0 n && ltb n 128 then some (n ∷ []) else none

abbrev pub named : Text → Option Text
named name =
    if text_eq name (codes "amp")
    then some (b'&' ∷ [])
    else if text_eq name (codes "lt")
    then some (b'<' ∷ [])
    else if text_eq name (codes "gt")
    then some (b'>' ∷ [])
    else none

-- What the reference &name; stands for.
unfoldable pub reference : Text → Option Text
unfolding text_eq parse_uint
reference [] = none
reference (c ∷ s) = if c == b'#' then numeric (parse_uint 10 0x10ffff s) else named (c ∷ s)

-- A byte of a value. A NUL is replaced.
abbrev pub clean : ℕ → Text
clean c = if c == b'\r' then b'\n' ∷ [] else if c == 0 then 0xef ∷ 0xbf ∷ 0xbd ∷ [] else c ∷ []

abbrev pub attach : StartTag → Text → Text → StartTag
attach t name value = record t { attributes = t.attributes ++ (name, value) ∷ [] }

-- The tag, and what follows it.
unfoldable pub read : Mode → StartTag → Text → Option (StartTag × Text)
unfolding reference
read m t [] = none
read (in_name n) t (c ∷ s) = elim (is_blank c) [
  | true ↦ read (in_attribute []) (record t { name = n }) s
  | false ↦ elim (c == b'>') [
    | true ↦ some (record t { name = n }, s)
    | false ↦ elim ((c == b'/') || (c == 0)) [
      | true ↦ none
      | false ↦ read (in_name (n ++ lower c ∷ [])) t s
    ]
  ]
]
read (in_attribute n) t (c ∷ s) = elim (c == b'=') [
  | true ↦ read (before_value n) t s
  | false ↦ elim (ends_name c) [ true ↦ none | false ↦ read (in_attribute (n ++ lower c ∷ [])) t s ]
]
read (before_value []) t (c ∷ s) = none
read (before_value (d ∷ n)) t (c ∷ s) = elim (c == b'"') [
  | true ↦ read (in_value (d ∷ n) []) t s
  | false ↦ none
]
read (in_value n v) t (c ∷ s) = elim (c == b'"') [
  | true ↦ read after_value (attach t n v) s
  | false ↦ elim (c == b'&') [
    | true ↦ read (in_reference n v []) t s
    | false ↦ read (in_value n (v ++ clean c)) t s
  ]
]
read (in_reference n v r) t (c ∷ s) = elim (c == b';') [
  | true ↦ elim (reference r) [ none ↦ none | some d ↦ read (in_value n (v ++ d)) t s ]
  | false ↦ elim (c == b'"') [ true ↦ none | false ↦ read (in_reference n v (r ++ c ∷ [])) t s ]
]
read after_value t (c ∷ s) = elim (is_blank c) [
  | true ↦ read (in_attribute []) t s
  | false ↦ elim (c == b'>') [ true ↦ some (t, s) | false ↦ none ]
]

-- A start tag from its `<` on: the first byte of the name is a letter.
unfoldable pub read_start_tag : Text → Option (StartTag × Text)
unfolding read
read_start_tag [] = none
read_start_tag (c ∷ []) = none
read_start_tag (c ∷ d ∷ s) =
    if (c == b'<') && is_letter d
    then read (in_name []) (record { name = []; attributes = [] }) (d ∷ s)
    else none

-- A name for a tag.
abbrev pub IsNameByte : ℕ → Type 0
IsNameByte c = ends_name c ≡ false

abbrev pub IsTagName : Text → Type 0
IsTagName [] = ⊥
IsTagName (c ∷ s) = (is_letter c ≡ true) × All IsNameByte (c ∷ s)
