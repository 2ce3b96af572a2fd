-- ===== src/Examples/Numbers.antt =====
-- Texts of integers, and a number input, at concrete inputs.
use jaws.Base.{[], some, ◌≡◌, refl, arith}
use jaws.Bytes.{codes}
use jaws.Strconv.{parse_uint, format_uint, digits}
use jaws.Numeric.{ℤ, pos, negsuc, w8, Class, format_numeric, parse_numeric}
use jaws.Numeric.RoundTrip.{parse_numeric-format_numeric}
use jaws.Numeric.Widget.{Answer, Source, NumericInput, handle_numeric_input, update_numeric_input}
use jaws.Numeric.Widget.Settling.{shown, handle_numeric_input_settles}

-- The least int8.
parse_numeric-format_numeric_example :
    parse_numeric (Class.signed w8) (format_numeric (negsuc 127)) ≡ some (negsuc 127)
parse_numeric-format_numeric_example =
    (parse_numeric-format_numeric (Class.signed w8) (negsuc 127) [] (omega arith)).0

-- A source that takes every value.
abbrev assign : ℤ → ℤ → ℤ × Answer
assign old new = (new, Answer.changed)

abbrev cell : Source ℤ
cell = record { class = Class.signed w8; jaws_get = λ z. z; jaws_set = some assign }

abbrev edited : NumericInput ℤ
edited = record { last = some (codes "5"); source = pos 5; dirty = []; values = []; logged = 0 }

-- 128 is no int8: the browser is set back to 5.
handle_numeric_input_settles_example :
    shown
      (codes "128")
      (update_numeric_input cell (handle_numeric_input cell edited (codes "128")).0).values
    ≡ codes "5"
unfolding handle_numeric_input parse_numeric format_numeric parse_uint format_uint digits
handle_numeric_input_settles_example =
    (handle_numeric_input_settles cell edited (codes "128") assign refl refl).2
