-- ===== src/Click.antt =====
-- click.go: the text of a click and how it is read. A text is the list of its runes here, and a byte that
-- is part of none counts as one. The text of a float64 is a parameter.
pub mod Words
pub mod RoundTrip
use jaws.Base.{
  ℕ, zero, suc, ◌+◌, ◌/◌, ◌%◌, List, [], ◌∷◌, ◌++◌, Option, none, some, Bool, true, false, not,
  ◌&&◌, ◌||◌, ltb, leb, ◌==◌, if◌then◌else◌,
}
use jaws.Strconv.{Text, format_uint, parse_uint, max_int64}
use jaws.Bytes.{cut, prepend}

-- What strconv.ParseFloat returns as an error.
pub data FloatError : Type 0 where
  no_error syntax range : FloatError

-- The numbers of type float64 with 0, strconv.FormatFloat and strconv.ParseFloat.
pub record Floats : Type 1 where
  pub Float : Type 0
  pub zero_float : Float
  pub format_float : Float → Text
  pub parse_float : Text → Float × FloatError

pub record Click (fs : Floats) : Type 0 where
  pub name : Text
  pub x : fs.Float
  pub y : fs.Float
  pub shift : Bool
  pub control : Bool
  pub alt : Bool

-- unicode.IsSpace.
abbrev pub is_space : ℕ → Bool
is_space c =
    (leb 9 c && leb c 13)
    || (c == 32)
    || (c == 133)
    || (c == 160)
    || (c == 5760)
    || (leb 8192 c && leb c 8202)
    || (c == 8232)
    || (c == 8233)
    || (c == 8239)
    || (c == 8287)
    || (c == 12288)

abbrev pub starts_word : Text → Bool
starts_word [] = false
starts_word (c ∷ s) = not (is_space c)

-- strings.Fields.
unfoldable pub words : Text → List Text
words [] = []
words (c ∷ s) =
    let rest = words s in
    if is_space c then rest else if starts_word s then prepend c rest else (c ∷ []) ∷ rest

-- strings.Join with a space.
unfoldable pub join : List Text → Text
join [] = []
join (w ∷ []) = w
join (w ∷ v ∷ ws) = w ++ b' ' ∷ join (v ∷ ws)

-- keyState.
unfoldable pub key_state : {fs : Floats} → Click fs → ℕ
key_state clk =
    (if clk.shift then 1 else 0) + (if clk.control then 2 else 0) + (if clk.alt then 4 else 0)

-- setKeyState.
unfoldable pub set_key_state : {fs : Floats} → Click fs → ℕ → Click fs
set_key_state clk state = record clk {
  shift = state % 2 == 1;
  control = state / 2 % 2 == 1;
  alt = state / 4 % 2 == 1;
}

-- Click.String.
unfoldable pub click_string : {fs : Floats} → Click fs → Text
unfolding words join key_state
click_string {fs = fs} clk =
    fs.format_float clk.x
    ++ b' '
      ∷ (fs.format_float clk.y
          ++ b' ' ∷ (format_uint 10 (key_state clk) ++ b' ' ∷ join (words clk.name)))

-- runAtof: a range error is not an error.
abbrev pub is_float : FloatError → Bool
is_float no_error = true
is_float syntax = false
is_float range = true

unfoldable pub run_atof : (fs : Floats) → Text → fs.Float × Bool
run_atof fs s = ((fs.parse_float s).0, is_float (fs.parse_float s).1)

-- runAtoi: whether there is a minus sign, and the magnitude.
unfoldable pub run_atoi : Text → Option (Bool × ℕ)
unfolding parse_uint
run_atoi [] = none
run_atoi (c ∷ s) =
    if c == b'-'
    then elim (parse_uint 10 (max_int64 + 1) s) [ none ↦ none | some n ↦ some (true, n) ]
    else elim (parse_uint 10 max_int64 (if c == b'+' then s else c ∷ s)) [
      | none ↦ none
      | some n ↦ some (false, n)
    ]

-- The tests on the state of the keys: it is not negative and has only the bits of the mask.
abbrev pub valid_state : Option (Bool × ℕ) → Option ℕ
valid_state none = none
valid_state (some (negative, n)) = if (not negative || (n == 0)) && ltb n 8 then some n else none

-- The variables clk, name, n and ok.
pub record Scan (fs : Floats) : Type 0 where
  pub click : Click fs
  pub builder : Text
  pub fields : ℕ
  pub ok : Bool

unfoldable pub read_state : {fs : Floats} → Scan fs → Option ℕ → Scan fs
unfolding set_key_state
read_state st none = record st { ok = false }
read_state st (some state) = record st { click = set_key_state st.click state }

abbrev pub seeded : Text → Text → Text
seeded [] name = name
seeded (c ∷ s) name = c ∷ s

-- The switch on the number of fields so far.
unfoldable pub read_field : {fs : Floats} → Scan fs → Text → ℕ → Scan fs
unfolding run_atof run_atoi read_state
read_field {fs = fs} st field zero =
    let (v, ok) = run_atof fs field in record st { click = record st.click { x = v }; ok = ok }
read_field {fs = fs} st field (suc zero) =
    let (v, ok) = run_atof fs field in record st { click = record st.click { y = v }; ok = ok }
read_field st field (suc (suc zero)) = read_state st (valid_state (run_atoi field))
read_field st field (suc (suc (suc zero))) = record st { click = record st.click { name = field } }
read_field st field (suc (suc (suc (suc n)))) = record st {
  builder = seeded st.builder st.click.name ++ b' ' ∷ field;
}

-- One round of the loop.
unfoldable pub read_next : {fs : Floats} → Scan fs → Text → Bool → Scan fs
unfolding read_field
read_next st field false = st
read_next st field true =
    let next = read_field st field st.fields in record next { fields = suc st.fields }

unfoldable pub read_fields : {fs : Floats} → Scan fs → List Text → Scan fs
unfolding read_next
read_fields st [] = st
read_fields st (field ∷ rest) = read_fields (read_next st field st.ok) rest

abbrev pub text_or_empty : Option Text → Text
text_or_empty none = []
text_or_empty (some s) = s

-- What follows the loop.
unfoldable pub read_end : {fs : Floats} → Scan fs → Click fs × Bool
read_end st = (record st.click { name = seeded st.builder st.click.name }, st.ok && leb 3 st.fields)

abbrev pub blank : (fs : Floats) → Click fs
blank fs = record {
  name = [];
  x = fs.zero_float;
  y = fs.zero_float;
  shift = false;
  control = false;
  alt = false;
}

unfoldable pub parse_click_data : (fs : Floats) → Text → Click fs × Text × Bool
unfolding read_fields read_end
parse_click_data fs value =
    let (click_part, after) = cut value b'\t' in
    let (clk, ok) = read_end (
      read_fields (record { click = blank fs; builder = []; fields = 0; ok = true })
        (words click_part)) in
    (clk, text_or_empty after, ok)
