-- ===== src/Strconv/Canonical.antt =====
-- A text of lower-case digits with no leading zero is the print of the number that it spells.
use jaws.Base.{
  ℕ, zero, suc, ◌+◌, ◌*◌, ◌/◌, ◌%◌, ◌≤◌, ◌<◌, [], ◌∷◌, ◌++◌, some, ◌≡◌, ◌≢◌, refl, ◌==◌, ◌⊎◌, arith,
  Bool-cases, Option-cases, inl, inr, ◌∙◌, All, append-nil,
}
use jaws.Strconv.{Text, digit, digit_value, digits, extend, format_uint, scan, parse_uint}
use jaws.Strconv.RoundTrip.{div-lt, format_uint-digits}

-- No upper-case letter.
abbrev pub IsLower : ℕ → Type 0
IsLower c = (c ≤ b'9') ⊎ (b'a' ≤ c)

digit-digit_value : (c d : ℕ) → IsLower c → digit_value c ≡ some d → digit d ≡ c
unfolding digit digit_value
digit-digit_value c d l h = ground arith

digits_fuel :
    (f g base n : ℕ) (out : Text)
    → 1 < base
    → n < f
    → n < g
    → digits f base n out ≡ digits g base n out
unfolding digits
digits_fuel zero g base n out l p q = absurd (omega arith)
digits_fuel (suc f) zero base n out l p q = absurd (omega arith)
digits_fuel (suc f) (suc g) base n out l p q = elim (Bool-cases (n == 0)) [
  | inl e ↦ rw e
  | inr e ↦ rw e (
      digits_fuel f g base (n / base) (digit (n % base) ∷ out) l
        (div-lt base n f l (ground arith) p) (div-lt base n g l (ground arith) q))
]

pub digits_once :
    (f base n : ℕ) (out : Text)
    → n ≢ 0
    → digits (suc f) base n out ≡ digits f base (n / base) (digit (n % base) ∷ out)
unfolding digits
digits_once f base n out p = ground arith

digits_step :
    (base n : ℕ) (out : Text)
    → 1 < base
    → n ≢ 0
    → digits (suc n) base n out ≡ digits (suc (n / base)) base (n / base) (digit (n % base) ∷ out)
digits_step base n out l p =
    digits_once n base n out p
    ∙ digits_fuel n (suc (n / base)) base (n / base) (digit (n % base) ∷ out) l
        (div-lt base n n l p (omega arith)) (omega arith)

-- What an accepted digit says.
pub record Extends (base max m c k : ℕ) : Type 0 where
  pub d : ℕ
  pub value : digit_value c ≡ some d
  pub small : d < base
  pub sum : k ≡ m * base + d
  pub fits : k ≤ max

pub extend-Extends : (base max m c k : ℕ) → extend base max m c ≡ some k → Extends base max m c k
unfolding extend
extend-Extends base max m c k h = elim (Option-cases (digit_value c)) [
  | inl e ↦ absurd (ground (arith, e, h))
  | inr (d, e) ↦ record {
    d = d;
    value = e;
    small = ground (arith, e, h);
    sum = ground (arith, e, h);
    fits = ground (arith, e, h);
  }
]

digits-extend :
    (base max m c k : ℕ) (out : Text)
    → 1 < base
    → 0 < m
    → IsLower c
    → extend base max m c ≡ some k
    → digits (suc k) base k out ≡ digits (suc m) base m (c ∷ out)
digits-extend base max m c k out l p low h =
    let x = extend-Extends base max m c k h in
    let q : k / base ≡ m = grind (arith, x.sum, x.small) in
    let r : k % base ≡ x.d = grind (arith, x.sum, x.small) in
    let z : k ≢ 0 = grind (arith, x.sum) in
    digits_step base k out l z ∙ rw (q, r, digit-digit_value c x.d low x.value) refl

-- The digits of the result are those of the start and then the text.
digits-scan :
    (s : Text) (base max m n : ℕ) (out : Text)
    → 1 < base
    → 0 < m
    → All IsLower s
    → scan base max s m ≡ some n
    → digits (suc n) base n out ≡ digits (suc m) base m (s ++ out)
unfolding scan
digits-scan [] base max m n out l p low h = let e : n ≡ m = cc in rw e
digits-scan (c ∷ s) base max m n out l p low h = elim (Option-cases (extend base max m c)) [
  | inl e ↦ absurd (ground (arith, e, h))
  | inr (k, e) ↦
      let x = extend-Extends base max m c k e in
      digits-scan s base max k n out l (grind (arith, x.sum)) low.1 (ground (arith, e, h))
      ∙ digits-extend base max m c k (s ++ out) l p low.0 e
]

scan_bounds :
    (s : Text) (base max m n : ℕ)
    → 1 < base
    → m ≤ max
    → scan base max s m ≡ some n
    → (m ≤ n) × (n ≤ max)
unfolding scan
scan_bounds [] base max m n l p h = ground arith
scan_bounds (c ∷ s) base max m n l p h = elim (Option-cases (extend base max m c)) [
  | inl e ↦ absurd (ground (arith, e, h))
  | inr (k, e) ↦
      let x = extend-Extends base max m c k e in
      let (low, high) = scan_bounds s base max k n l x.fits (ground (arith, e, h)) in
      (grind (arith, x.sum, low), high)
]

-- A non-zero digit prints as itself.
digits_first :
    (base max c k : ℕ) (out : Text)
    → 1 < base
    → IsLower c
    → c ≢ b'0'
    → extend base max 0 c ≡ some k
    → (0 < k) × (digits (suc k) base k out ≡ c ∷ out)
digits_first base max c k out l low z h =
    let x = extend-Extends base max 0 c k h in
    let e : k ≡ x.d = omega (arith, x.sum) in
    let p : k ≢ 0 = unfold digit_value in ground (arith, e, x.value) in
    let q : k / base ≡ 0 = grind (arith, x.small) in
    let r : k % base ≡ x.d = grind (arith, x.small) in
    (
      omega arith,
      digits_step base k out l p
          ∙ rw (q, r, digit-digit_value c x.d low x.value) (unfold digits in refl),
    )

scan_first :
    (base max c n : ℕ) (s : Text)
    → parse_uint base max (c ∷ s) ≡ some n
    → (k : ℕ) × (extend base max 0 c ≡ some k) × (scan base max s k ≡ some n)
unfolding parse_uint scan
scan_first base max c n s h = elim (Option-cases (extend base max 0 c)) [
  | inl e ↦ absurd (ground (arith, e, h))
  | inr (k, e) ↦ (k, e, ground (arith, e, h))
]

-- A text that does not start with a zero and has no upper-case letter prints as itself once read.
pub format_uint-parse_uint :
    (base max c n : ℕ) (s : Text)
    → 1 < base
    → All IsLower (c ∷ s)
    → c ≢ b'0'
    → parse_uint base max (c ∷ s) ≡ some n
    → (format_uint base n ≡ c ∷ s) × (0 < n) × (n ≤ max)
format_uint-parse_uint base max c n s l low z h =
    let (k, e, rest) = scan_first base max c n s h in
    let (p, first) = digits_first base max c k s l low.0 z e in
    let (le, fits) = scan_bounds s base max k n l (extend-Extends base max 0 c k e).fits rest in
    let q : n ≢ 0 = omega arith in
    (
      format_uint-digits base n q
          ∙ digits-scan s base max k n [] l p low.1 rest
          ∙ rw (append-nil s) first,
      omega arith,
      fits,
    )
