-- ===== src/Wire/Json.antt =====
-- JSON strings as RFC 8259 has them, and that the quoted data are such strings.
use jaws.Base.{
  ℕ, zero, suc, ◌+◌, ◌-◌, ◌*◌, ◌<◌, ◌/◌, ◌%◌, [], ◌∷◌, ◌++◌, append_assoc, Option, none, some, Bool,
  true, false, ◌&&◌, ◌||◌, ltb, leb, ◌==◌, if◌then◌else◌, ◌≡◌, refl, ap, ◌∙◌, ==→eq, arith,
  Option-cases, Bool-cases, inl, inr,
}
use jaws.Strconv.{Text}
use jaws.Wire.{tail_size, escape, rune_head, quoted_from, append_json_quote, hex_digit}
use jaws.Wire.Quote.{Continues, tail_size-Continues}

-- Well-formed UTF-8, behind `left` bytes of a rune.
unfoldable pub is_utf8 : ℕ → Text → Bool
is_utf8 left [] = left == 0
is_utf8 zero (c ∷ s) =
    if ltb c 128 then is_utf8 0 s else elim (tail_size c s) [ none ↦ false | some n ↦ is_utf8 n s ]
is_utf8 (suc left) (c ∷ s) = is_utf8 left s

abbrev pub hex_value : ℕ → Option ℕ
hex_value c =
    if leb b'0' c && leb c b'9'
    then some (c - b'0')
    else if leb b'a' c && leb c b'f'
    then some (c - 87)
    else if leb b'A' c && leb c b'F'
    then some (c - 55)
    else none

-- The character of a short escape. There are eight of them.
abbrev pub meaning : ℕ → Option ℕ
meaning c =
    if (c == b'"') || (c == b'\\') || (c == b'/')
    then some c
    else if c == b'b'
    then some 8
    else if c == b'f'
    then some 12
    else if c == b'n'
    then some b'\n'
    else if c == b'r'
    then some b'\r'
    else if c == b't'
    then some b'\t'
    else none

-- Where a reader of a JSON string is: in the text, behind a backslash, behind the closing quote, at
-- what is no JSON string, or in the digits of a \u escape with the value so far.
pub data Mode : Type 0 where
  inside escaped closed refused : Mode
  digits : ℕ → ℕ → Mode

abbrev pub given : Option ℕ → Text × Mode
given none = ([], refused)
given (some c) = (c ∷ [], inside)

-- A \u escape stands for an ASCII character; others are not read here.
abbrev pub ascii : Option ℕ → ℕ → Option ℕ
ascii none v = none
ascii (some d) v = if ltb (v * 16 + d) 128 then some (v * 16 + d) else none

abbrev pub digit_then : Option ℕ → ℕ → ℕ → Text × Mode
digit_then none n v = ([], refused)
digit_then (some d) n v = ([], digits n (v * 16 + d))

-- One byte: what it gives, and the new mode. Control characters must be escaped.
unfoldable pub next : Mode → ℕ → Text × Mode
next inside c =
    if c == b'"'
    then ([], closed)
    else if c == b'\\'
    then ([], escaped)
    else if ltb c 32
    then ([], refused)
    else (c ∷ [], inside)
next escaped c = if c == b'u' then ([], digits 3 0) else given (meaning c)
next (digits zero v) c = given (ascii (hex_value c) v)
next (digits (suc n) v) c = digit_then (hex_value c) n v
next closed c = ([], refused)
next refused c = ([], refused)

abbrev prefixed : Text → Option Text → Option Text
prefixed out none = none
prefixed out (some s) = some (out ++ s)

unfoldable pub read : Mode → Text → Option Text
unfolding next
read closed [] = some []
read inside [] = none
read escaped [] = none
read refused [] = none
read (digits n v) [] = none
read mode (c ∷ s) = let (out, after) = next mode c in prefixed out (read after s)

-- The text of a JSON string.
unfoldable pub read_json : Text → Option Text
unfolding read
read_json [] = none
read_json (c ∷ s) = if c == b'"' then read inside s else none

prefixed-nil : (o : Option Text) → prefixed [] o ≡ o
prefixed-nil none = refl
prefixed-nil (some s) = refl

nils : (o : Option Text) → prefixed [] (prefixed [] (prefixed [] (prefixed [] (prefixed [] o)))) ≡ o
nils none = refl
nils (some s) = refl

read_plain :
    (c : ℕ) (s : Text)
    → (c == b'"') ≡ false
    → (c == b'\\') ≡ false
    → ltb c 32 ≡ false
    → read inside (c ∷ s) ≡ prefixed (c ∷ []) (read inside s)
unfolding read next
read_plain c s q b l = rw (q, b, l) refl

read_short :
    (d c : ℕ) (s : Text)
    → (d == b'u') ≡ false
    → meaning d ≡ some c
    → read inside (b'\\' ∷ d ∷ s) ≡ prefixed (c ∷ []) (read inside s)
unfolding read next
read_short d c s u m = rw (u, m) (prefixed-nil (prefixed (c ∷ []) (read inside s)))

hex_value-hex_digit : (n : ℕ) → n < 16 → hex_value (hex_digit n) ≡ some n
hex_value-hex_digit n h = ground arith

read_long :
    (c : ℕ) (s : Text)
    → c < 32
    → read inside (b'\\' ∷ b'u' ∷ b'0' ∷ b'0' ∷ hex_digit (c / 16) ∷ hex_digit (c % 16) ∷ s)
      ≡ prefixed (c ∷ []) (read inside s)
unfolding read next
read_long c s h =
    let hi = hex_value-hex_digit (c / 16) (omega (arith, h)) in
    let lo = hex_value-hex_digit (c % 16) (omega arith) in
    let value : (0 + c / 16) * 16 + c % 16 ≡ c = omega arith in
    let small : ltb c 128 ≡ true = ground (arith, h) in
    rw (hi, lo, value, small) (nils (prefixed (c ∷ []) (read inside s)))

is : (c d : ℕ) → (c == d) ≡ true → c ≡ d
is c d h = ==→eq c d h

read-escape :
    (c : ℕ) (s : Text) → c < 128 → read inside (escape c ++ s) ≡ prefixed (c ∷ []) (read inside s)
unfolding escape
read-escape c s h = elim (Bool-cases (c == b'"')) [
  | inl e ↦ rw (is c b'"' e) (read_short b'"' b'"' s refl refl)
  | inr q ↦ elim (Bool-cases (c == b'\\')) [
    | inl e ↦ rw (is c b'\\' e) (read_short b'\\' b'\\' s refl refl)
    | inr b ↦ elim (Bool-cases (c == b'\n')) [
      | inl e ↦ rw (is c b'\n' e) (read_short b'n' b'\n' s refl refl)
      | inr n ↦ elim (Bool-cases (c == b'\r')) [
        | inl e ↦ rw (is c b'\r' e) (read_short b'r' b'\r' s refl refl)
        | inr r ↦ elim (Bool-cases (c == b'\t')) [
          | inl e ↦ rw (is c b'\t' e) (read_short b't' b'\t' s refl refl)
          | inr t ↦ elim (Bool-cases (ltb c 32)) [
            | inl e ↦ rw (q, b, n, r, t, e) (read_long c s (ground (arith, e)))
            | inr e ↦ rw (q, b, n, r, t, e) (read_plain c s q b e)
          ]
        ]
      ]
    ]
  ]
]

rune_head_ascii : (c : ℕ) (s : Text) → ltb c 128 ≡ true → rune_head c s ≡ (escape c, 0)
unfolding rune_head
rune_head_ascii c s e = rw e refl

rune_head_long :
    (c : ℕ) (s : Text) (n : ℕ)
    → ltb c 128 ≡ false
    → tail_size c s ≡ some n
    → rune_head c s ≡ (c ∷ [], n)
unfolding rune_head
rune_head_long c s n e o = rw (e, o) refl

-- A rune of several bytes in a well-formed text.
utf8_rune :
    (c : ℕ) (s : Text)
    → ltb c 128 ≡ false
    → is_utf8 0 (c ∷ s) ≡ true
    → (n : ℕ) × (tail_size c s ≡ some n) × (is_utf8 n s ≡ true)
unfolding is_utf8
utf8_rune c s e u = elim (Option-cases (tail_size c s)) [
  | inl o ↦ absurd (ground (arith, u, e, o))
  | inr (n, o) ↦ (n, o, ground (arith, u, e, o))
]

read-quoted_from :
    (left : ℕ) (s : Text)
    → Continues left s
    → is_utf8 left s ≡ true
    → read inside (quoted_from left s ++ b'"' ∷ []) ≡ some s
unfolding quoted_from is_utf8 rune_head
read-quoted_from zero [] k u = unfold read next in refl
read-quoted_from (suc left) [] k u = unfold read next in refl
read-quoted_from zero (c ∷ s) k u = elim (Bool-cases (ltb c 128)) [
  | inl e ↦
      ap (λ r. read inside ((r.0 ++ quoted_from r.1 s) ++ b'"' ∷ [])) (rune_head_ascii c s e)
      ∙ ap (read inside) (append_assoc (escape c) (quoted_from 0 s) (b'"' ∷ []))
      ∙ read-escape c (quoted_from 0 s ++ b'"' ∷ []) (ground (arith, e))
      ∙ ap (prefixed (c ∷ [])) (read-quoted_from 0 s tt (ground (arith, u, e)))
  | inr e ↦
      let (n, o, v) = utf8_rune c s e u in
      ap (λ r. read inside ((r.0 ++ quoted_from r.1 s) ++ b'"' ∷ [])) (rune_head_long c s n e o)
      ∙ read_plain c (quoted_from n s ++ b'"' ∷ []) (ground (arith, e)) (ground (arith, e))
          (ground (arith, e))
      ∙ ap (prefixed (c ∷ [])) (read-quoted_from n s (tail_size-Continues c s n o).1 v)
]
read-quoted_from (suc left) (c ∷ s) k u =
    read_plain c (quoted_from left s ++ b'"' ∷ []) (ground (arith, k.0)) (ground (arith, k.0))
      (ground (arith, k.0))
    ∙ ap (prefixed (c ∷ [])) (read-quoted_from left s k.1 u)

pub read_json-append_json_quote :
    (s : Text) → is_utf8 0 s ≡ true → read_json (append_json_quote [] s) ≡ some s
unfolding read_json append_json_quote
read_json-append_json_quote s u = read-quoted_from 0 s tt u
