-- ===== src/Click/RoundTrip.antt =====
-- A click is read as it was written.
use jaws.Base.{
  ℕ, suc, ◌+◌, ◌/◌, ◌%◌, List, [], ◌∷◌, ◌++◌, append_assoc, Option, some, Bool, true, false, leb,
  ◌==◌, if◌then◌else◌, contains, contains-append, All, ◌≡◌, refl, ap, ◌∙◌, arith,
}
use jaws.Strconv.{Text, format_uint}
use jaws.Bytes.{cut_at, cut_whole}
use jaws.Click.{
  Floats, no_error, Click, Scan, is_space, words, join, key_state, set_key_state, click_string,
  blank, text_or_empty, run_atof, run_atoi, valid_state, read_state, seeded, read_field, read_next,
  read_fields, read_end, parse_click_data,
}
use jaws.Click.Words.{IsWord, word_first, words-join, words-IsWord}

no_tab : (s : Text) → All (λ d. is_space d ≡ false) s → contains s b'\t' ≡ false
no_tab [] a = refl
no_tab (c ∷ s) a = ground (arith, a.0, no_tab s a.1)

word_no_tab : (w : Text) → IsWord w → contains w b'\t' ≡ false
word_no_tab [] h = absurd h
word_no_tab (c ∷ s) h = no_tab (c ∷ s) h

spaced_no_tab :
    (s t : Text)
    → contains s b'\t' ≡ false
    → contains t b'\t' ≡ false
    → contains (s ++ b' ' ∷ t) b'\t' ≡ false
spaced_no_tab s t h k = contains-append s (b' ' ∷ t) b'\t' ∙ ground (arith, h, k)

join_no_tab : (ws : List Text) → All IsWord ws → contains (join ws) b'\t' ≡ false
unfolding join
join_no_tab [] a = refl
join_no_tab (w ∷ []) a = word_no_tab w a.0
join_no_tab (w ∷ v ∷ ws) a =
    spaced_no_tab w (join (v ∷ ws)) (word_no_tab w a.0) (join_no_tab (v ∷ ws) a.1)

-- The number of the three keys, as a text and as the bits of a mask.
abbrev sum : Bool → Bool → Bool → ℕ
sum a b c = (if a then 1 else 0) + (if b then 2 else 0) + (if c then 4 else 0)

abbrev IsState : Bool → Bool → Bool → ℕ → Type 0
IsState a b c n =
    IsWord (format_uint 10 n)
    × (valid_state (run_atoi (format_uint 10 n)) ≡ some n)
    × ((n % 2 == 1) ≡ a)
    × ((n / 2 % 2 == 1) ≡ b)
    × ((n / 4 % 2 == 1) ≡ c)

sum-IsState : (a b c : Bool) → IsState a b c (sum a b c)
unfolding format_uint run_atoi jaws.Strconv.digits
sum-IsState false false false = ((refl, tt), refl, refl, refl, refl)
sum-IsState false false true = ((refl, tt), refl, refl, refl, refl)
sum-IsState false true false = ((refl, tt), refl, refl, refl, refl)
sum-IsState false true true = ((refl, tt), refl, refl, refl, refl)
sum-IsState true false false = ((refl, tt), refl, refl, refl, refl)
sum-IsState true false true = ((refl, tt), refl, refl, refl, refl)
sum-IsState true true false = ((refl, tt), refl, refl, refl, refl)
sum-IsState true true true = ((refl, tt), refl, refl, refl, refl)

-- The name that the loop collects.
abbrev glued : Text → List Text → Text
glued t [] = t
glued t (w ∷ ws) = glued (t ++ b' ' ∷ w) ws

glued-join : (t : Text) (ws : List Text) → glued t ws ≡ join (t ∷ ws)
unfolding join
glued-join t [] = refl
glued-join t (w ∷ []) = refl
glued-join t (w ∷ v ∷ ws) =
    glued-join (t ++ b' ' ∷ w) (v ∷ ws) ∙ append_assoc t (b' ' ∷ w) (b' ' ∷ join (v ∷ ws))

seeded_spaced : (t v m : Text) → seeded (t ++ b' ' ∷ v) m ≡ t ++ b' ' ∷ v
seeded_spaced [] v m = refl
seeded_spaced (c ∷ t) v m = refl

abbrev scan_at : {fs : Floats} → Click fs → Text → ℕ → Scan fs
scan_at clk builder n = record { click = clk; builder = builder; fields = n; ok = true }

more_words :
    {fs : Floats} (clk : Click fs) (builder : Text) (n : ℕ) (ws : List Text)
    → read_end (read_fields (scan_at clk builder (suc (suc (suc (suc n))))) ws)
      ≡ (record clk { name = glued (seeded builder clk.name) ws }, true)
unfolding read_end read_fields read_next read_field
more_words clk builder n [] =
    let e : leb 3 (suc (suc (suc (suc n)))) ≡ true = ground arith in
    ap (λ b. (record clk { name = seeded builder clk.name }, b)) e
more_words {fs = fs} clk builder n (w ∷ ws) =
    more_words {fs = fs} clk (seeded builder clk.name ++ b' ' ∷ w) (suc n) ws
    ∙ ap (λ t. (record clk { name = glued t ws }, true))
        (seeded_spaced (seeded builder clk.name) w clk.name)

-- The words behind the state of the keys are the name.
name_words :
    {fs : Floats} (clk : Click fs) (ws : List Text)
    → clk.name ≡ []
    → read_end (read_fields (scan_at clk [] 3) ws) ≡ (record clk { name = join ws }, true)
unfolding read_end read_fields read_next read_field join
name_words clk [] e = ap (λ t. (record clk { name = t }, true)) e
name_words {fs = fs} clk (w ∷ ws) e =
    more_words {fs = fs} (record clk { name = w }) [] 0 ws
    ∙ ap (λ t. (record clk { name = t }, true)) (glued-join w ws)

three_fields :
    (fs : Floats) (fx fy fk : Text) (clk : Click fs) (n : ℕ) (ws : List Text)
    → fs.parse_float fx ≡ (clk.x, no_error)
    → fs.parse_float fy ≡ (clk.y, no_error)
    → valid_state (run_atoi fk) ≡ some n
    → (n % 2 == 1) ≡ clk.shift
    → (n / 2 % 2 == 1) ≡ clk.control
    → (n / 4 % 2 == 1) ≡ clk.alt
    → read_fields (scan_at (blank fs) [] 0) (fx ∷ fy ∷ fk ∷ ws)
      ≡ read_fields (scan_at (record clk { name = [] }) [] 3) ws
unfolding read_fields read_next read_field run_atof read_state set_key_state
three_fields fs fx fy fk clk n ws rx ry rk s c a = rw (rx, ry, rk, s, c, a) refl

words-click_string :
    (fs : Floats) (clk : Click fs)
    → IsWord (fs.format_float clk.x)
    → IsWord (fs.format_float clk.y)
    → words (click_string clk)
      ≡ fs.format_float clk.x
        ∷ fs.format_float clk.y
        ∷ format_uint 10 (key_state clk)
        ∷ words clk.name
unfolding click_string key_state
words-click_string fs clk wx wy =
    let name = join (words clk.name) in
    let k = format_uint 10 (key_state clk) in
    let wk : IsWord k = (sum-IsState clk.shift clk.control clk.alt).0 in
    word_first (fs.format_float clk.x) (fs.format_float clk.y ++ b' ' ∷ (k ++ b' ' ∷ name)) wx
    ∙ ap (λ l. fs.format_float clk.x ∷ l)
        (word_first (fs.format_float clk.y) (k ++ b' ' ∷ name) wy
          ∙ ap (λ l. fs.format_float clk.y ∷ l)
              (word_first k name wk
                ∙ ap (λ l. k ∷ l) (words-join (words clk.name) (words-IsWord clk.name))))

click_string_no_tab :
    (fs : Floats) (clk : Click fs)
    → IsWord (fs.format_float clk.x)
    → IsWord (fs.format_float clk.y)
    → contains (click_string clk) b'\t' ≡ false
unfolding click_string key_state
click_string_no_tab fs clk wx wy =
    let name = join (words clk.name) in
    let k = format_uint 10 (key_state clk) in
    let wk : IsWord k = (sum-IsState clk.shift clk.control clk.alt).0 in
    spaced_no_tab (fs.format_float clk.x) (fs.format_float clk.y ++ b' ' ∷ (k ++ b' ' ∷ name))
      (word_no_tab (fs.format_float clk.x) wx)
      (spaced_no_tab (fs.format_float clk.y) (k ++ b' ' ∷ name)
        (word_no_tab (fs.format_float clk.y) wy)
        (spaced_no_tab k name (word_no_tab k wk)
          (join_no_tab (words clk.name) (words-IsWord clk.name))))

read_words :
    (fs : Floats) (clk : Click fs)
    → IsWord (fs.format_float clk.x)
    → fs.parse_float (fs.format_float clk.x) ≡ (clk.x, no_error)
    → IsWord (fs.format_float clk.y)
    → fs.parse_float (fs.format_float clk.y) ≡ (clk.y, no_error)
    → read_end (read_fields (scan_at (blank fs) [] 0) (words (click_string clk)))
      ≡ (record clk { name = join (words clk.name) }, true)
unfolding key_state
read_words fs clk wx rx wy ry =
    let k = sum-IsState clk.shift clk.control clk.alt in
    let fk = format_uint 10 (key_state clk) in
    ap (λ l. read_end (read_fields (scan_at (blank fs) [] 0) l)) (words-click_string fs clk wx wy)
    ∙ ap read_end (
        three_fields fs (fs.format_float clk.x) (fs.format_float clk.y) fk clk (key_state clk)
          (words clk.name) rx ry k.1 k.2 k.3 k.4)
    ∙ name_words (record clk { name = [] }) (words clk.name) refl

-- Let the text of both coordinates be a word that is read back as the coordinate. Then the text of a click is read as that click, with no text behind it, and the name with single spaces between its words; and so it is with further text behind a tab, which is returned.
pub parse_click_data-click_string :
    (fs : Floats) (clk : Click fs) (after : Text)
    → IsWord (fs.format_float clk.x)
    → fs.parse_float (fs.format_float clk.x) ≡ (clk.x, no_error)
    → IsWord (fs.format_float clk.y)
    → fs.parse_float (fs.format_float clk.y) ≡ (clk.y, no_error)
    → (parse_click_data fs (click_string clk)
        ≡ (record clk { name = join (words clk.name) }, [], true))
      × (parse_click_data fs (click_string clk ++ b'\t' ∷ after)
          ≡ (record clk { name = join (words clk.name) }, after, true))
unfolding parse_click_data
parse_click_data-click_string fs clk after wx rx wy ry =
    let start = scan_at (blank fs) [] 0 in
    let parsed : Text × Option Text → Click fs × Text × Bool = λ p. (
      (read_end (read_fields start (words p.0))).0,
      text_or_empty p.1,
      (read_end (read_fields start (words p.0))).1,
    ) in
    let behind : Text → Click fs × Bool → Click fs × Text × Bool = λ t r. (r.0, t, r.1) in
    let no_tabs = click_string_no_tab fs clk wx wy in
    (
      ap parsed (cut_whole (click_string clk) b'\t' no_tabs)
          ∙ ap (behind []) (read_words fs clk wx rx wy ry),
      ap parsed (cut_at (click_string clk) after b'\t' no_tabs)
          ∙ ap (behind after) (read_words fs clk wx rx wy ry),
    )
