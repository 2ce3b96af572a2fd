-- ===== src/Wire.antt =====
-- lib/wire: the text of an outbound record (wsmsg.go: appendJSONQuote, WsMsg.Append; Parse is in Parse) and the batches
-- in which records are written (wsio.go: writeData).
pub mod Quote
pub mod Frame
pub mod Parse
pub mod Json
pub mod RoundTrip
use jaws.Base.{
  ℕ, zero, suc, ◌+◌, ◌/◌, ◌*◌, ◌%◌, List, [], ◌∷◌, ◌++◌, Option, none, some, Bool, true, false,
  ◌&&◌, ◌||◌, ltb, leb, ◌==◌, if◌then◌else◌, length, get_or,
}
use jaws.Strconv.{Text}
use jaws.Jid
use jaws.Jid.{pos}
use jaws.What.{What, what_eq, what_string}
use jaws.Request.{WsMsg}

abbrev between : ℕ → ℕ → ℕ → Bool
between lo hi b = leb lo b && leb b hi

-- The number of bytes behind the first byte of a well-formed UTF-8 sequence, as Go's range loop on a
-- string takes it; `none` for a byte that starts none.
unfoldable pub tail_size : ℕ → Text → Option ℕ
tail_size c s =
    let b = get_or s 0 0 in
    let rest = between 128 191 (get_or s 1 0) in
    if between 194 223 c
    then if between 128 191 b then some 1 else none
    else if between 224 239 c
    then if between (if c == 224 then 160 else 128) (if c == 237 then 159 else 191) b && rest
      then some 2
      else none
    else if between 240 244 c
    then if between (if c == 240 then 144 else 128) (if c == 244 then 143 else 191) b
        && rest
        && between 128 191 (get_or s 2 0)
      then some 3
      else none
    else none

-- hexDigits.
abbrev pub hex_digit : ℕ → ℕ
hex_digit n = if ltb n 10 then b'0' + n else 87 + n

-- What is written for an ASCII character.
unfoldable pub escape : ℕ → Text
escape c =
    if c == b'"'
    then b'\\' ∷ b'"' ∷ []
    else if c == b'\\'
    then b'\\' ∷ b'\\' ∷ []
    else if c == b'\n'
    then b'\\' ∷ b'n' ∷ []
    else if c == b'\r'
    then b'\\' ∷ b'r' ∷ []
    else if c == b'\t'
    then b'\\' ∷ b't' ∷ []
    else if ltb c 32
    then b'\\' ∷ b'u' ∷ b'0' ∷ b'0' ∷ hex_digit (c / 16) ∷ hex_digit (c % 16) ∷ []
    else c ∷ []

-- What is written at the first byte of a rune, and how many bytes of the rune follow. A byte that
-- starts no rune is read as U+FFFD.
unfoldable pub rune_head : ℕ → Text → Text × ℕ
unfolding tail_size escape
rune_head c s =
    if ltb c 128
    then (escape c, 0)
    else elim (tail_size c s) [ none ↦ (239 ∷ 191 ∷ 189 ∷ [], 0) | some n ↦ (c ∷ [], n) ]

-- The loop of appendJSONQuote, with the bytes that are left of the current rune.
unfoldable pub quoted_from : ℕ → Text → Text
unfolding rune_head
quoted_from left [] = []
quoted_from zero (c ∷ s) = let (out, n) = rune_head c s in out ++ quoted_from n s
quoted_from (suc left) (c ∷ s) = c ∷ quoted_from left s

unfoldable pub append_json_quote : Text → Text → Text
unfolding quoted_from
append_json_quote b s = (b ++ b'"' ∷ quoted_from 0 s) ++ b'"' ∷ []

-- Set and Call write their data as it is.
abbrev pub is_verbatim : What → Bool
is_verbatim w = what_eq w What.set || what_eq w What.call

unfoldable pub append_data : Text → WsMsg → Text
unfolding append_json_quote
append_data b m = if is_verbatim m.what then b ++ m.data_text else append_json_quote b m.data_text

-- WsMsg.Append, on a Jid that is not negative.
unfoldable pub append_msg : Text → WsMsg → Text
unfolding append_data Jid.append
append_msg b m =
    let named = (b ++ what_string m.what) ++ b'\t' ∷ [] in
    let addressed = if ltb 0 m.jid then Jid.append named (pos m.jid) else named in
    append_data (addressed ++ b'\t' ∷ []) m ++ b'\n' ∷ []

-- writeBatchLimit.
abbrev pub write_batch_limit : ℕ
write_batch_limit = 32 * 1024

-- The loop of writeData over the messages that wait: the bytes, and the messages that are left.
unfoldable pub batch_loop : ℕ → Text → List WsMsg → Text × List WsMsg
unfolding append_msg
batch_loop limit b [] = (b, [])
batch_loop limit b (m ∷ ms) = elim (ltb (length b) limit) [
  | true ↦ batch_loop limit (append_msg b m) ms
  | false ↦ (b, m ∷ ms)
]

-- writeData: the frame, and the messages that it leaves for the next one.
unfoldable pub write_data : WsMsg → List WsMsg → Text × List WsMsg
unfolding batch_loop
write_data first_msg waiting = batch_loop write_batch_limit (append_msg [] first_msg) waiting
