-- ===== src/Wire/Parse.antt =====
-- lib/wire/wsmsg.go: Parse. strconv.Unquote with the fallback to encoding/json is the parameter
-- `decode`; a failure of both is `none`.
use jaws.Base.{
  ℕ, zero, suc, [], ◌∷◌, Option, none, some, Bool, false, ltb, ◌==◌, if◌then◌else◌, length,
}
use jaws.Strconv.{Text}
use jaws.Bytes.{cut}
use jaws.Jid.{Jid, pos, negsuc, parse_string}
use jaws.What.{What, what_parse, is_valid_what}
use jaws.Request.{WsMsg}
use jaws.Wire.{tail_size, is_verbatim}

-- strings.ToValidUTF8(data, ""): bytes that belong to no rune are left out; `left` bytes of a rune
-- are still to come.
unfoldable pub to_valid_utf8 : ℕ → Text → Text
to_valid_utf8 left [] = []
to_valid_utf8 zero (c ∷ s) =
    if ltb c 128
    then c ∷ to_valid_utf8 0 s
    else elim (tail_size c s) [ none ↦ to_valid_utf8 0 s | some n ↦ c ∷ to_valid_utf8 n s ]
to_valid_utf8 (suc left) (c ∷ s) = c ∷ to_valid_utf8 left s

-- The text in front of the newline that ends the record.
unfoldable pub without_newline : Text → Option Text
without_newline [] = none
without_newline (c ∷ []) = if c == b'\n' then some [] else none
without_newline (c ∷ d ∷ s) = elim (without_newline (d ∷ s)) [ none ↦ none | some t ↦ some (c ∷ t) ]

unfoldable pub starts_quote : Text → Bool
starts_quote [] = false
starts_quote (c ∷ s) = c == b'"'

-- The data of a record: Set and Call end at the first tab.
unfoldable pub parse_data : (Text → Option Text) → What → Text → Option Text
unfolding starts_quote
parse_data decode w raw =
    if is_verbatim w
    then some (cut raw b'\t').0
    else if starts_quote raw
    then decode raw
    else some raw

-- The message of the fields, if the id is valid.
unfoldable pub message_of : What → Jid → Option Text → Option WsMsg
unfolding to_valid_utf8
message_of w (negsuc n) o = none
message_of w (pos n) none = none
message_of w (pos n) (some text) =
    some (record { data_text = to_valid_utf8 0 text; jid = n; what = w })

-- The fields, split at the first two tabs.
unfoldable pub parse_id : (Text → Option Text) → What → Text × Option Text → Option WsMsg
unfolding parse_data message_of
parse_id decode w (id, none) = none
parse_id decode w (id, some raw) =
    if is_valid_what w then message_of w (parse_string id) (parse_data decode w raw) else none

unfoldable pub parse_name : (Text → Option Text) → Text × Option Text → Option WsMsg
unfolding parse_id
parse_name decode (name, none) = none
parse_name decode (name, some rest) = parse_id decode (what_parse name) (cut rest b'\t')

unfoldable pub parse_line : (Text → Option Text) → Option Text → Option WsMsg
unfolding parse_name
parse_line decode none = none
parse_line decode (some line) = parse_name decode (cut line b'\t')

-- Parse.
unfoldable pub parse_msg : (Text → Option Text) → Text → Option WsMsg
unfolding parse_line without_newline
parse_msg decode txt = if ltb 2 (length txt) then parse_line decode (without_newline txt) else none
