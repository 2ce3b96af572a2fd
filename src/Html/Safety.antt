-- ===== src/Html/Safety.antt =====
-- What the application passes as a value stays a value.
use jaws.Base.{
  All, map, ◌||◌, ℕ, [], ◌∷◌, ◌++◌, append_assoc, append-nil, false, ◌==◌, if◌then◌else◌, contains,
  ◌≡◌, refl, sym, ap, ◌∙◌, subst, arith, Bool-cases, inl, inr, ==→eq,
}
use jaws.Strconv.{Text}
use jaws.Bytes.{codes, lower, replace}
use jaws.Html.{cr_reference, html_reference, html_escape_string}
use jaws.Html.Reader.{
  IsNameByte, is_blank, StartTag, in_name, in_value, after_value, clean, attach, read,
}

-- A value as the page has it: only NUL, which HTML cannot hold, is replaced.
abbrev pub kept : ℕ → Text
kept c = if c == 0 then 0xef ∷ 0xbf ∷ 0xbd ∷ [] else c ∷ []

abbrev pub escaped : Text → Text
escaped s = replace cr_reference (html_escape_string s)

replace-append : (f : ℕ → Text) (s t : Text) → replace f (s ++ t) ≡ replace f s ++ replace f t
replace-append f [] t = refl
replace-append f (c ∷ s) t =
    ap (λ l. f c ++ l) (replace-append f s t) ∙ sym (append_assoc (f c) (replace f s) (replace f t))

-- A byte with no special meaning.
plain_byte :
    (n v : Text) (t : StartTag) (c : ℕ) (s : Text)
    → (c == b'"') ≡ false
    → (c == b'&') ≡ false
    → clean c ≡ c ∷ []
    → read (in_value n v) t (c ∷ s) ≡ read (in_value n (v ++ c ∷ [])) t s
unfolding read
plain_byte n v t c s q a k = ground (arith, q, a, k)

special_byte :
    (n v : Text) (t : StartTag) (c d : ℕ) (s : Text)
    → c ≡ d
    → read (in_value n v) t (replace cr_reference (html_reference d) ++ s)
      ≡ read (in_value n (v ++ kept d)) t s
    → read (in_value n v) t (replace cr_reference (html_reference c) ++ s)
      ≡ read (in_value n (v ++ kept c)) t s
special_byte n v t c d s e h =
    subst
      (λ x.
        read (in_value n v) t (replace cr_reference (html_reference x) ++ s)
        ≡ read (in_value n (v ++ kept x)) t s)
      (sym e) h

special_bytes :
    (n v : Text) (t : StartTag) (s : Text)
    → (read (in_value n v) t (codes "&#34;" ++ s) ≡ read (in_value n (v ++ b'"' ∷ [])) t s)
      × (read (in_value n v) t (codes "&#39;" ++ s) ≡ read (in_value n (v ++ b'\'' ∷ [])) t s)
      × (read (in_value n v) t (codes "&amp;" ++ s) ≡ read (in_value n (v ++ b'&' ∷ [])) t s)
      × (read (in_value n v) t (codes "&lt;" ++ s) ≡ read (in_value n (v ++ b'<' ∷ [])) t s)
      × (read (in_value n v) t (codes "&gt;" ++ s) ≡ read (in_value n (v ++ b'>' ∷ [])) t s)
      × (read (in_value n v) t (codes "&#13;" ++ s) ≡ read (in_value n (v ++ b'\r' ∷ [])) t s)
unfolding read
special_bytes n v t s = (refl, refl, refl, refl, refl, refl)

nul_byte :
    (n v : Text) (t : StartTag) (s : Text)
    → read (in_value n v) t (0xef ∷ 0xbf ∷ 0xbd ∷ s)
      ≡ read (in_value n (v ++ 0xef ∷ 0xbf ∷ 0xbd ∷ [])) t s
unfolding read
nul_byte n v t s =
    ap (λ l. read (in_value n l) t s)
      (append_assoc (v ++ 0xef ∷ []) (0xbf ∷ []) (0xbd ∷ [])
        ∙ append_assoc v (0xef ∷ []) (0xbf ∷ 0xbd ∷ []))

-- One byte of a value.
value_byte :
    (n v : Text) (t : StartTag) (c : ℕ) (s : Text)
    → read (in_value n v) t (replace cr_reference (html_reference c) ++ s)
      ≡ read (in_value n (v ++ kept c)) t s
value_byte n v t c s =
    let special = special_bytes n v t s in
    elim (Bool-cases (c == b'"')) [
      | inl e ↦ special_byte n v t c b'"' s (==→eq c b'"' e) special.0
      | inr q ↦ elim (Bool-cases (c == b'\'')) [
        | inl e ↦ special_byte n v t c b'\'' s (==→eq c b'\'' e) special.1
        | inr p ↦ elim (Bool-cases (c == b'&')) [
          | inl e ↦ special_byte n v t c b'&' s (==→eq c b'&' e) special.2
          | inr a ↦ elim (Bool-cases (c == b'<')) [
            | inl e ↦ special_byte n v t c b'<' s (==→eq c b'<' e) special.3
            | inr l ↦ elim (Bool-cases (c == b'>')) [
              | inl e ↦ special_byte n v t c b'>' s (==→eq c b'>' e) special.4
              | inr g ↦ elim (Bool-cases (c == 0)) [
                | inl e ↦ special_byte n v t c 0 s (==→eq c 0 e) (nul_byte n v t s)
                | inr z ↦ elim (Bool-cases (c == b'\r')) [
                  | inl e ↦ special_byte n v t c b'\r' s (==→eq c b'\r' e) special.5
                  | inr r ↦ rw (q, p, a, l, g, z, r) (plain_byte n v t c s q a (rw (r, z) refl))
                ]
              ]
            ]
          ]
        ]
      ]
    ]

-- A whole value.
pub value_read :
    (n v w : Text) (t : StartTag) (s : Text)
    → read (in_value n v) t (escaped w ++ b'"' ∷ s)
      ≡ read after_value (attach t n (v ++ replace kept w)) s
unfolding read
value_read n v [] t s = ap (λ l. read after_value (attach t n l) s) (sym (append-nil v))
value_read n v (c ∷ w) t s =
    ap (λ l. read (in_value n v) t (l ++ b'"' ∷ s))
      (replace-append cr_reference (html_reference c) (html_escape_string w))
    ∙ ap (read (in_value n v) t)
        (append_assoc (replace cr_reference (html_reference c)) (escaped w) (b'"' ∷ s))
    ∙ value_byte n v t c (escaped w ++ b'"' ∷ s)
    ∙ value_read n (v ++ kept c) w t s
    ∙ ap (λ l. read after_value (attach t n l) s) (append_assoc v (kept c) (replace kept w))

-- A value with no byte that needs an escape, such as an id.
pub plain_value :
    (n v w : Text) (t : StartTag) (s : Text)
    → contains w b'"' ≡ false
    → contains w b'&' ≡ false
    → contains w b'\r' ≡ false
    → contains w 0 ≡ false
    → read (in_value n v) t (w ++ b'"' ∷ s) ≡ read after_value (attach t n (v ++ w)) s
plain_value n v [] t s q a r z =
    unfold read in ap (λ l. read after_value (attach t n l) s) (sym (append-nil v))
plain_value n v (c ∷ w) t s q a r z =
    let q' : (c == b'"') ≡ false = ground (arith, q) in
    let a' : (c == b'&') ≡ false = ground (arith, a) in
    let k : clean c ≡ c ∷ [] = ground (arith, r, z) in
    plain_byte n v t c (w ++ b'"' ∷ s) q' a' k
    ∙ plain_value n (v ++ c ∷ []) w t s (ground (arith, q)) (ground (arith, a)) (ground (arith, r))
        (ground (arith, z))
    ∙ ap (λ l. read after_value (attach t n l) s) (append_assoc v (c ∷ []) w)

name_byte :
    (n : Text) (t : StartTag) (c : ℕ) (s : Text)
    → IsNameByte c
    → read (in_name n) t (c ∷ s) ≡ read (in_name (n ++ lower c ∷ [])) t s
unfolding read
name_byte n t c s h =
    let b : is_blank c ≡ false = ground (arith, h) in
    let g : (c == b'>') ≡ false = ground (arith, h) in
    let e : ((c == b'/') || (c == 0)) ≡ false = ground (arith, h) in rw (read, b, g, e) refl

-- The name of the tag, in lower case.
pub name_read :
    (n w : Text) (t : StartTag) (s : Text)
    → All IsNameByte w
    → read (in_name n) t (w ++ s) ≡ read (in_name (n ++ map lower w)) t s
name_read n [] t s h = ap (λ l. read (in_name l) t s) (sym (append-nil n))
name_read n (c ∷ w) t s h =
    name_byte n t c (w ++ s) h.0
    ∙ name_read (n ++ lower c ∷ []) w t s h.1
    ∙ ap (λ l. read (in_name l) t s) (append_assoc n (lower c ∷ []) (map lower w))
