-- ===== src/Examples/Texts.antt =====
-- Ids, keys and clicks as text.
use jaws.Base.{true, false, ℕ, Option, some, none, [], ◌∷◌, ◌++◌, ◌≡◌, refl}
use jaws.Strconv.{parse_uint, format_uint, Text, max_int64}
use jaws.Bytes.{codes}
use jaws.Click.{
  Floats, FloatError, syntax, no_error, Click, click_string, parse_click_data, words, join,
}
use jaws.Click.RoundTrip.{parse_click_data-click_string}

-- "tail"
abbrev path : Text
path = b't' ∷ b'a' ∷ b'i' ∷ b'l' ∷ []

-- Coordinates that are written in decimal.
abbrev pub read_decimal : Option ℕ → ℕ × FloatError
read_decimal none = (0, syntax)
read_decimal (some n) = (n, no_error)

abbrev pub floats : Floats
floats = record {
  Float = ℕ;
  zero_float = 0;
  format_float = λ n. format_uint 10 n;
  parse_float = λ s. read_decimal (parse_uint 10 max_int64 s);
}

-- A click with the shift and alt keys at (12, 345) on " save  all".
abbrev click : Click floats
click = record {
  name = codes " save  all";
  x = 12;
  y = 345;
  shift = true;
  control = false;
  alt = true;
}

parse_click_data-click_string_example :
    (parse_click_data floats (click_string click)
      ≡ (record click { name = join (words click.name) }, [], true))
    × (parse_click_data floats (click_string click ++ b'\t' ∷ path)
        ≡ (record click { name = join (words click.name) }, path, true))
unfolding format_uint parse_uint jaws.Strconv.digits
parse_click_data-click_string_example =
    parse_click_data-click_string floats click path (refl, (refl, tt)) refl
      (refl, (refl, (refl, tt))) refl

click_text : click_string click ≡ codes "12 345 5 save all"
unfolding click_string format_uint jaws.Strconv.digits
click_text = refl
