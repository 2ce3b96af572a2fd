-- ===== src/Key/Codec.antt =====
-- A key is read back from its text, alone or in front of a path.
use jaws.Base.{
  ℕ, zero, suc, ◌/◌, ◌%◌, ◌≤◌, ◌<◌, ◌⊎◌, ◌≢◌, [], ◌∷◌, ◌++◌, ◌==◌, ◌≡◌, refl, arith, All,
  Bool-cases, inl, inr, ==→eq,
}
use jaws.Strconv.{Text, digit, digits, format_uint, parse_uint, max_uint64}
use jaws.Strconv.RoundTrip.{parse_uint-format_uint, format_uint-digits}
use jaws.Key.{string, split_slash, parse}

-- A digit or a lower-case letter.
abbrev pub IsDigitByte : ℕ → Type 0
IsDigitByte c = ((b'0' ≤ c) × (c ≤ b'9')) ⊎ ((b'a' ≤ c) × (c ≤ b'z'))

digit-IsDigitByte : (d : ℕ) → d < 32 → IsDigitByte (digit d)
unfolding digit
digit-IsDigitByte d l = ground arith

digits-IsDigitByte :
    (f n : ℕ) (out : Text) → All IsDigitByte out → All IsDigitByte (digits f 32 n out)
unfolding digits
digits-IsDigitByte zero n out h = h
digits-IsDigitByte (suc f) n out h = elim (Bool-cases (n == 0)) [
  | inl e ↦ rw e h
  | inr e ↦ rw e (
      digits-IsDigitByte f (n / 32) (digit (n % 32) ∷ out)
        (digit-IsDigitByte (n % 32) (omega arith), h))
]

-- The text of a key has digits and lower-case letters only.
pub format_uint-IsDigitByte : (n : ℕ) → n ≢ 0 → All IsDigitByte (format_uint 32 n)
format_uint-IsDigitByte n z = rw (format_uint-digits 32 n z) (digits-IsDigitByte (suc n) n [] tt)

IsDigitByte-no_slash : (s : Text) → All IsDigitByte s → All (λ c. c ≢ b'/') s
IsDigitByte-no_slash [] h = tt
IsDigitByte-no_slash (c ∷ s) h = (ground (arith, h.0), IsDigitByte-no_slash s h.1)

-- A text with no slash, and what may follow it.
split_slash-append :
    (s t : Text) → All (λ c. c ≢ b'/') s → split_slash (s ++ b'/' ∷ t) ≡ (s, b'/' ∷ t)
unfolding split_slash
split_slash-append [] t h = refl
split_slash-append (c ∷ s) t h = ground (arith, split_slash-append s t h.1, h.0)

split_slash-none : (s : Text) → All (λ c. c ≢ b'/') s → split_slash s ≡ (s, [])
unfolding split_slash
split_slash-none [] h = refl
split_slash-none (c ∷ s) h = ground (arith, split_slash-none s h.1, h.0)

-- A key up to 2^64 - 1 in front of a slash and a path is parsed back, and the tail is the slash and
-- the path; a key alone is parsed back with no tail.
pub parse-string :
    (k : ℕ) (path : Text)
    → k ≤ max_uint64
    → (parse (string k ++ b'/' ∷ path) ≡ (k, b'/' ∷ path)) × (parse (string k) ≡ (k, []))
unfolding parse string
parse-string k path h = elim (Bool-cases (k == 0)) [
  | inl e ↦ rw (==→eq k 0 e) (unfold parse_uint in refl, unfold parse_uint in refl)
  | inr e ↦
      let z : k ≢ 0 = ground arith in
      let p = parse_uint-format_uint 32 max_uint64 k (omega arith) (omega arith) h in
      let no_slash = IsDigitByte-no_slash (format_uint 32 k) (format_uint-IsDigitByte k z) in
      rw e (
        rw (split_slash-append (format_uint 32 k) path no_slash) (rw p refl),
        rw (split_slash-none (format_uint 32 k) no_slash) (rw p refl),
      )
]
