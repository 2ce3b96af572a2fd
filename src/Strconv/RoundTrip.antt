-- ===== src/Strconv/RoundTrip.antt =====
-- Numbers are read back from their digits, in every base from 2 to 36.
use jaws.Base.{
  ℕ, zero, suc, ◌+◌, ◌*◌, ◌/◌, ◌%◌, ◌≤◌, ◌<◌, [], ◌∷◌, some, ◌≡◌, ◌≢◌, refl, ◌==◌, arith,
  Bool-cases, inl, inr, ◌∙◌, ==→eq,
}
use jaws.Strconv.{Text, digit, digit_value, digits, extend, format_uint, scan, parse_uint}

digit_value-digit : (d : ℕ) → d < 36 → digit_value (digit d) ≡ some d
unfolding digit digit_value
digit_value-digit d h = ground arith

extend-digit :
    (base max n : ℕ)
    → 1 < base
    → base ≤ 36
    → n ≤ max
    → extend base max (n / base) (digit (n % base)) ≡ some n
unfolding extend
extend-digit base max n l u h =
    let r : n % base < base = grind arith in
    let e : n / base * base + n % base ≡ n = grind arith in
    rw (digit_value-digit (n % base) (omega arith), extend) (rw e (ground arith))

scan-digit :
    (base max n : ℕ) (out : Text)
    → 1 < base
    → base ≤ 36
    → n ≤ max
    → scan base max (digit (n % base) ∷ out) (n / base) ≡ scan base max out n
scan-digit base max n out l u h = unfold scan in rw (extend-digit base max n l u h, scan)

pub div-lt : (base n f : ℕ) → 1 < base → n ≢ 0 → n < suc f → n / base < f
div-lt base n f l p h = grind arith

scan-digits :
    (fuel base max n : ℕ) (out : Text)
    → 1 < base
    → base ≤ 36
    → n ≤ max
    → n < fuel
    → scan base max (digits fuel base n out) 0 ≡ scan base max out n
unfolding digits
scan-digits zero base max n out l u h f = absurd (omega arith)
scan-digits (suc fuel) base max n out l u h f = elim (Bool-cases (n == 0)) [
  | inl e ↦ rw (e, ==→eq n 0 e)
  | inr e ↦ rw e (
      scan-digits fuel base max (n / base) (digit (n % base) ∷ out) l u (grind arith)
        (div-lt base n fuel l (ground arith) f)
      ∙ scan-digit base max n out l u h)
]

digits-ne-nil : (fuel base n : ℕ) (out : Text) → out ≢ [] → digits fuel base n out ≢ []
unfolding digits
digits-ne-nil zero base n out h = h
digits-ne-nil (suc fuel) base n out h =
    ground (arith, digits-ne-nil fuel base (n / base) (digit (n % base) ∷ out))

pub format_uint-digits : (base n : ℕ) → n ≢ 0 → format_uint base n ≡ digits (suc n) base n []
unfolding format_uint
format_uint-digits base n h = ground arith

pub format_uint-ne-nil : (base n : ℕ) → format_uint base n ≢ []
unfolding format_uint digits
format_uint-ne-nil base n = ground (arith, digits-ne-nil n base (n / base) (digit (n % base) ∷ []))

parse_uint-scan : (base max : ℕ) (s : Text) → s ≢ [] → parse_uint base max s ≡ scan base max s 0
unfolding parse_uint
parse_uint-scan base max [] h = absurd (h refl)
parse_uint-scan base max (c ∷ s) h = refl

zero_digit : (base max : ℕ) → 1 < base → scan base max (format_uint base 0) 0 ≡ some 0
unfolding format_uint scan extend digit_value
zero_digit base max l = ground arith

-- A number that fits is read back from its print, in every base from 2 to 36.
pub parse_uint-format_uint :
    (base max n : ℕ)
    → 1 < base
    → base ≤ 36
    → n ≤ max
    → parse_uint base max (format_uint base n) ≡ some n
parse_uint-format_uint base max n l u h =
    rw (parse_uint-scan base max _ (format_uint-ne-nil base n)) (elim (Bool-cases (n == 0)) [
      | inl e ↦ rw (==→eq n 0 e) (zero_digit base max l)
      | inr e ↦
          rw (format_uint-digits base n (ground arith))
            (scan-digits (suc n) base max n [] l u h (omega arith) ∙ unfold scan in refl)
    ])
