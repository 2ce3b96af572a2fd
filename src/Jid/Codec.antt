-- ===== src/Jid/Codec.antt =====
-- The text of a Jid is read back, and no other text is read.
use jaws.Base.{
  ℕ, zero, suc, ◌+◌, ◌≤◌, ◌/◌, ◌%◌, ◌≢◌, ==→eq, ◌<◌, [], ◌∷◌, ◌++◌, some, true, ◌==◌, ◌≡◌, refl,
  arith, Bool-cases, inl, inr, Option-cases, ap, sym, ◌∙◌, All, contains, contains-append,
  append-nil, append_assoc, false,
}
use jaws.Strconv.{Text, digit, digits, format_uint, parse_uint, max_int64}
use jaws.Strconv.RoundTrip.{parse_uint-format_uint, format_uint-digits}
use jaws.Strconv.Canonical.{IsLower, digits_once, format_uint-parse_uint}
use jaws.Jid.{
  pos, negsuc, append, string, append_int, parse_string, parse_int, cut_prefix, prefix,
  parse_digits, all_digits, positive, is_digit,
}

test_12 : parse_string (string (pos 12)) ≡ pos 12
unfolding parse_string string format_uint digits parse_uint
test_12 = refl

test_leading_zero : parse_string (prefix ++ b'0' ∷ b'1' ∷ []) ≡ negsuc 0
unfolding parse_string
test_leading_zero = refl

test_minus : parse_int (b'-' ∷ b'3' ∷ []) ≡ negsuc 0
unfolding parse_int parse_uint
test_minus = refl

-- A first digit that is no zero, and digits behind it.
record IsNumeral (s : Text) : Type 0 where
  first : ℕ
  rest : Text
  spelled : s ≡ first ∷ rest
  low : b'1' ≤ first
  high : first ≤ b'9'
  digits_only : all_digits rest ≡ true

digits_done : (f base : ℕ) (out : Text) → digits f base 0 out ≡ out
unfolding digits
digits_done zero base out = refl
digits_done (suc f) base out = refl

digit_decimal : (d : ℕ) → d < 10 → digit d ≡ b'0' + d
unfolding digit
digit_decimal d h = ground arith

digits-IsNumeral :
    (f n : ℕ) (out : Text) → n < f → n ≢ 0 → all_digits out ≡ true → IsNumeral (digits f 10 n out)
digits-IsNumeral zero n out h z d = absurd (omega arith)
digits-IsNumeral (suc f) n out h z d =
    let e = digit_decimal (n % 10) (omega arith) in
    rw (digits_once f 10 n out z) (elim (Bool-cases (n / 10 == 0)) [
      | inl q ↦
          rw (==→eq (n / 10) 0 q, digits_done, e)
            (record {
              first = b'0' + n % 10;
              rest = out;
              spelled = refl;
              low = omega (arith, ==→eq (n / 10) 0 q);
              high = omega arith;
              digits_only = d;
            })
      | inr q ↦
          digits-IsNumeral f (n / 10) (digit (n % 10) ∷ out) (omega arith) (ground arith)
            (unfold all_digits in ground (arith, e))
    ])

format_uint-IsNumeral : (n : ℕ) → n ≢ 0 → IsNumeral (format_uint 10 n)
format_uint-IsNumeral n z =
    rw (format_uint-digits 10 n z)
      (digits-IsNumeral (suc n) n [] (omega arith) z (unfold all_digits in refl))

pub string-prefix : (n : ℕ) → n ≢ 0 → string (pos n) ≡ prefix ++ format_uint 10 n
unfolding string append_int
string-prefix n z = ground arith

contains-digits :
    (s : Text) (c : ℕ) → all_digits s ≡ true → is_digit c ≡ false → contains s c ≡ false
unfolding all_digits
contains-digits [] c d h = refl
contains-digits (e ∷ s) c d h = ground (arith, d, h, contains-digits s c)

-- An id holds no byte that is neither in its prefix nor a digit.
pub contains-string :
    (n c : ℕ) → contains prefix c ≡ false → is_digit c ≡ false → contains (string (pos n)) c ≡ false
contains-string n c p h = elim (Bool-cases (n == 0)) [
  | inl e ↦ rw (==→eq n 0 e) (unfold string in refl)
  | inr e ↦
      let z : n ≢ 0 = ground arith in
      let i = format_uint-IsNumeral n z in
      rw (string-prefix n z, contains-append prefix (format_uint 10 n) c, p, i.spelled)
        (ground (arith, h, i.low, i.high, contains-digits i.rest c i.digits_only))
]

pub append-string : (b : Text) (n : ℕ) → append b (pos n) ≡ b ++ string (pos n)
unfolding append append_int string
append-string b n = elim (Bool-cases (n == 0)) [
  | inl e ↦ rw e (sym (append-nil b))
  | inr e ↦ rw e (append_assoc b prefix (format_uint 10 n))
]

parse_string-prefix : (s : Text) → parse_string (prefix ++ s) ≡ parse_digits s
unfolding parse_string cut_prefix
parse_string-prefix s = refl

parse_int-unsigned :
    (c n : ℕ) (s : Text)
    → b'1' ≤ c
    → parse_uint 10 max_int64 (c ∷ s) ≡ some n
    → parse_int (c ∷ s) ≡ pos n
unfolding parse_int
parse_int-unsigned c n s l e = ground (arith, e)

parse_digits-numeral :
    (n : ℕ) (s : Text)
    → IsNumeral s
    → n ≢ 0
    → parse_uint 10 max_int64 s ≡ some n
    → parse_digits s ≡ pos n
parse_digits-numeral n s v z e =
    let e' : parse_uint 10 max_int64 (v.first ∷ v.rest) ≡ some n = rw v.spelled at e in
    rw v.spelled (
      unfold parse_digits positive in
      ground (arith, v.low, v.high, v.digits_only, parse_int-unsigned v.first n v.rest v.low e'))

-- The id of an Element up to 2^63 - 1, and the empty id of the whole request, are read back from
-- their text.
pub parse_string-string : (n : ℕ) → n ≤ max_int64 → parse_string (string (pos n)) ≡ pos n
parse_string-string n h = elim (Bool-cases (n == 0)) [
  | inl e ↦ rw (==→eq n 0 e) (unfold string parse_string in refl)
  | inr e ↦
      let z : n ≢ 0 = ground arith in
      rw (string-prefix n z, parse_string-prefix)
        (parse_digits-numeral n _ (format_uint-IsNumeral n z) z
          (parse_uint-format_uint 10 max_int64 n (omega arith) (omega arith) h))
]

cut_prefix-eq-some : (p s r : Text) → cut_prefix p s ≡ some r → s ≡ p ++ r
unfolding cut_prefix
cut_prefix-eq-some [] s r h = cc
cut_prefix-eq-some (p ∷ ps) [] r h = absurd (cc)
cut_prefix-eq-some (p ∷ ps) (c ∷ s) r h = ground (arith, cut_prefix-eq-some ps s r)

all_digits-IsLower : (s : Text) → all_digits s ≡ true → All IsLower s
unfolding all_digits
all_digits-IsLower [] h = tt
all_digits-IsLower (c ∷ s) h = (inl (ground arith), all_digits-IsLower s (ground arith))

parse_int-eq-pos :
    (c n : ℕ) (s : Text)
    → b'1' ≤ c
    → parse_int (c ∷ s) ≡ pos n
    → parse_uint 10 max_int64 (c ∷ s) ≡ some n
unfolding parse_int
parse_int-eq-pos c n s l h = ground arith

-- What `parse_digits` accepts is the print of its result.
parse_digits-eq-pos :
    (s : Text) (n : ℕ) → parse_digits s ≡ pos n → (s ≡ format_uint 10 n) × (0 < n) × (n ≤ max_int64)
unfolding parse_digits positive
parse_digits-eq-pos [] n h = absurd (cc)
parse_digits-eq-pos (c ∷ s) n h =
    let l : b'1' ≤ c = ground (arith, h) in
    let u : c ≤ b'9' = ground (arith, h) in
    let d : all_digits s ≡ true = ground (arith, h) in
    let e : parse_int (c ∷ s) ≡ pos n = ground (arith, h) in
    let (f, p, m) =
      format_uint-parse_uint 10 max_int64 c n s (omega arith) (inl u, all_digits-IsLower s d)
        (omega arith) (parse_int-eq-pos c n s l e) in
    (sym f, p, m)

-- An accepted text with a result that is not negative is the print of that result, which is at most
-- 2^63 - 1.
parse_string-eq-pos :
    (s : Text) (n : ℕ) → parse_string s ≡ pos n → (string (pos n) ≡ s) × (n ≤ max_int64)
unfolding parse_string
parse_string-eq-pos [] n h =
    let e : n ≡ 0 = ground (arith, h) in rw e (unfold string in refl, omega arith)
parse_string-eq-pos (c ∷ s) n h = elim (Option-cases (cut_prefix prefix (c ∷ s))) [
  | inl e ↦ absurd (ground (arith, e, h))
  | inr (r, e) ↦
      let (f, p, m) = parse_digits-eq-pos r n (ground (arith, e, h)) in
      (
        rw (string-prefix n (omega arith)) (ap (◌++◌ prefix) (sym f))
            ∙ sym (cut_prefix-eq-some prefix (c ∷ s) r e),
        m,
      )
]
