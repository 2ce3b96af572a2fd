-- ===== src/Numeric/RoundTrip.antt =====
-- The text of a value is read back as that value, and what is read is a value of the type.
use jaws.Base.{
  ℕ, suc, ◌≤◌, ◌<◌, [], ◌∷◌, some, none, ◌≡◌, refl, ◌==◌, ◌∙◌, arith, Bool-cases, Option, true,
  false, subst, ==_refl, inl, inr, ◌%◌, ◌^◌, true,
}
use jaws.Strconv.{Text, digit_value, extend, scan, format_uint, parse_uint, max_int64, max_uint64}
use jaws.Strconv.RoundTrip.{parse_uint-format_uint}
use jaws.Numeric.{
  ℤ, pos, negsuc, Width, w8, w16, w32, w64, Class, half, whole, z_eq, low_bits, from_bits,
  kept_signed, kept_unsigned, parse_numeric_int, parse_numeric_uint, parse_numeric, format_numeric,
  format_value, parse_value, overflow_int, overflow_uint, unless_int, unless_uint, InRange,
}

from_bits-low_bits :
    (w : Width) (z : ℤ) → InRange (Class.signed w) z → from_bits w (low_bits w z) ≡ z
unfolding from_bits low_bits
from_bits-low_bits w8 (pos n) h = ground arith
from_bits-low_bits w16 (pos n) h = ground arith
from_bits-low_bits w32 (pos n) h = ground arith
from_bits-low_bits w64 (pos n) h = ground arith
from_bits-low_bits w8 (negsuc n) h = ground arith
from_bits-low_bits w16 (negsuc n) h = ground arith
from_bits-low_bits w32 (negsuc n) h = ground arith
from_bits-low_bits w64 (negsuc n) h = ground arith

low_bits-InRange :
    (w : Width) (z : ℤ) → z_eq (from_bits w (low_bits w z)) z ≡ true → InRange (Class.signed w) z
unfolding from_bits low_bits
low_bits-InRange w8 (pos n) h = ground arith
low_bits-InRange w16 (pos n) h = ground arith
low_bits-InRange w32 (pos n) h = ground arith
low_bits-InRange w64 (pos n) h = ground arith
low_bits-InRange w8 (negsuc n) h = ground arith
low_bits-InRange w16 (negsuc n) h = ground arith
low_bits-InRange w32 (negsuc n) h = ground arith
low_bits-InRange w64 (negsuc n) h = ground arith

mod-InRange : (w : Width) (n : ℕ) → (n % whole w == n) ≡ true → n < whole w
mod-InRange w8 n h = ground arith
mod-InRange w16 n h = ground arith
mod-InRange w32 n h = ground arith
mod-InRange w64 n h = ground arith

mod_small : (w : Width) (n : ℕ) → n < whole w → (n % whole w == n) ≡ true
mod_small w8 n h = ground arith
mod_small w16 n h = ground arith
mod_small w32 n h = ground arith
mod_small w64 n h = ground arith

-- A text that starts with a sign is no number without one.
plus_text :
    (s : Text) (n : ℕ) → parse_uint 10 max_int64 s ≡ some n → parse_numeric_int s ≡ some (pos n)
unfolding parse_numeric_int parse_uint scan extend digit_value
plus_text [] n h = absurd (cc)
plus_text (c ∷ s) n h = elim (Bool-cases (c == b'-')) [
  | inl e ↦ absurd (ground (arith, e, h))
  | inr e ↦ elim (Bool-cases (c == b'+')) [
    | inl f ↦ absurd (ground (arith, f, h))
    | inr f ↦ rw (e, f, h) refl
  ]
]

half-le : (w : Width) → half w ≤ 2 ^ 63
half-le w8 = omega arith
half-le w16 = omega arith
half-le w32 = omega arith
half-le w64 = omega arith

whole-le : (w : Width) → whole w ≤ 2 ^ 64
whole-le w8 = omega arith
whole-le w16 = omega arith
whole-le w32 = omega arith
whole-le w64 = omega arith

z_eq_refl : (z : ℤ) → z_eq z z ≡ true
z_eq_refl (pos n) = ==_refl n
z_eq_refl (negsuc n) = ==_refl n

kept : (w : Width) (z : ℤ) → InRange (Class.signed w) z → kept_signed w (some z) ≡ some z
kept w z h = rw (from_bits-low_bits w z h, z_eq_refl z) refl

typed_path : (k : Class) (z : ℤ) → InRange k z → parse_numeric k (format_numeric z) ≡ some z
unfolding parse_numeric format_numeric
typed_path (Class.signed w) (pos n) h =
    rw
      (plus_text (format_uint 10 n) n (
        parse_uint-format_uint 10 max_int64 n (omega arith) (omega arith)
          (omega (arith, h, half-le w))))
      (kept w (pos n) h)
typed_path (Class.signed w) (negsuc n) h =
    let p =
      parse_uint-format_uint 10 (2 ^ 63) (suc n) (omega arith) (omega arith)
        (omega (arith, h, half-le w)) in
    rw p (kept w (negsuc n) h)
typed_path (Class.unsigned w) (pos n) h =
    rw
      (
        parse_uint-format_uint 10 max_uint64 n (omega arith) (omega arith)
            (omega (arith, h, whole-le w)),
        mod_small w n h,
      )
      refl
typed_path (Class.unsigned w) (negsuc n) h = absurd h

overflow_int_lem : (w : Width) (z : ℤ) → InRange (Class.signed w) z → overflow_int w z ≡ false
overflow_int_lem w (pos n) h = ground arith
overflow_int_lem w (negsuc n) h = ground arith

within_range : (w : Width) (z : ℤ) → overflow_int w z ≡ false → InRange (Class.signed w) z
within_range w (pos n) h = ground (arith, h)
within_range w (negsuc n) h = ground (arith, h)

-- A number that is in range one way is in range the other way.
same_int : (w : Width) (o : Option ℤ) → unless_int w o ≡ kept_signed w o
same_int w none = refl
same_int w (some z) = elim (Bool-cases (z_eq (from_bits w (low_bits w z)) z)) [
  | inl e ↦ rw (e, overflow_int_lem w z (low_bits-InRange w z e)) refl
  | inr e ↦ elim (Bool-cases (overflow_int w z)) [
    | inl l ↦ rw (e, l) refl
    | inr l ↦
        let k = from_bits-low_bits w z (within_range w z l) in
        let t : z_eq (from_bits w (low_bits w z)) z ≡ true = rw k (z_eq_refl z) in
        absurd (cc (e, t))
  ]
]

same_uint : (w : Width) (o : Option ℕ) → unless_uint w o ≡ kept_unsigned w o
same_uint w none = refl
same_uint w (some n) = elim (Bool-cases (n % whole w == n)) [
  | inl e ↦ let l : overflow_uint w n ≡ false = ground (arith, mod-InRange w n e) in rw (e, l) refl
  | inr e ↦ elim (Bool-cases (overflow_uint w n)) [
    | inl l ↦ rw (e, l) refl
    | inr l ↦ absurd (cc (e, mod_small w n (ground (arith, l))))
  ]
]

parse_value-parse_numeric : (k : Class) (text : Text) → parse_value k text ≡ parse_numeric k text
unfolding parse_value parse_numeric
parse_value-parse_numeric (Class.signed w) text = same_int w (parse_numeric_int text)
parse_value-parse_numeric (Class.unsigned w) text = same_uint w (parse_numeric_uint text)

format_value-format_numeric : (z : ℤ) → format_value z ≡ format_numeric z
unfolding format_value format_numeric
format_value-format_numeric (pos n) = refl
format_value-format_numeric (negsuc n) = refl

-- The text that formatNumeric gives for a value of an integer type of 8 to 64 bits is accepted by
-- parseNumeric of that type, which returns the value, down to the least and up to the greatest one;
-- formatValue and parseValue, which templates use, give that text and return that value too, and on
-- every text parseValue agrees with parseNumeric.
pub parse_numeric-format_numeric :
    (k : Class) (z : ℤ) (text : Text)
    → InRange k z
    → (parse_numeric k (format_numeric z) ≡ some z)
      × (parse_value k (format_value z) ≡ some z)
      × (parse_value k text ≡ parse_numeric k text)
parse_numeric-format_numeric k z text h =
    let p = typed_path k z h in
    (
      p,
      rw (format_value-format_numeric z) (parse_value-parse_numeric k (format_numeric z) ∙ p),
      parse_value-parse_numeric k text,
    )

kept_signed-InRange :
    (w : Width) (o : Option ℤ) (z : ℤ) → kept_signed w o ≡ some z → InRange (Class.signed w) z
kept_signed-InRange w none z h = absurd (cc)
kept_signed-InRange w (some y) z h = elim (Bool-cases (z_eq (from_bits w (low_bits w y)) y)) [
  | inr e ↦ absurd (ground (arith, e, h))
  | inl e ↦
      let q : y ≡ z = ground (arith, e, h) in
      subst (InRange (Class.signed w)) q (low_bits-InRange w y e)
]

kept_unsigned-InRange :
    (w : Width) (o : Option ℕ) (z : ℤ) → kept_unsigned w o ≡ some z → InRange (Class.unsigned w) z
kept_unsigned-InRange w none z h = absurd (cc)
kept_unsigned-InRange w (some n) z h = elim (Bool-cases (n % whole w == n)) [
  | inr e ↦ absurd (ground (arith, e, h))
  | inl e ↦
      let q : pos n ≡ z = ground (arith, e, h) in
      subst (InRange (Class.unsigned w)) q (mod-InRange w n e)
]

-- Whatever text parseNumeric accepts, the value it returns is one of the type: no text wraps around.
pub parse_numeric-InRange :
    (k : Class) (text : Text) (z : ℤ) → parse_numeric k text ≡ some z → InRange k z
unfolding parse_numeric
parse_numeric-InRange (Class.signed w) text z h = kept_signed-InRange w _ z h
parse_numeric-InRange (Class.unsigned w) text z h = kept_unsigned-InRange w _ z h
