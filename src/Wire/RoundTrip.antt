-- ===== src/Wire/RoundTrip.antt =====
-- A record is read back: by Parse, and its data by a JSON parser.
use jaws.Base.{
  ℕ, zero, suc, ◌≤◌, [], ◌∷◌, ◌++◌, Option, some, true, false, ltb, length, length-append, contains,
  ◌≡◌, refl, ap, arith, Option-cases, Bool-cases, inl, inr,
}
use jaws.Strconv.{Text, max_int64}
use jaws.Jid
use jaws.Jid.{pos, parse_string}
use jaws.Jid.Codec.{contains-string, parse_string-string}
use jaws.What.{What, what_string, what_parse, is_valid_what}
use jaws.Bytes.{cut, cut_at, cut_whole, text_eq}
use jaws.Request.{WsMsg}
use jaws.Wire.{tail_size, append_json_quote, is_verbatim, append_data, append_msg}
use jaws.Wire.Parse.{
  to_valid_utf8, without_newline, starts_quote, parse_data, message_of, parse_id, parse_name,
  parse_line, parse_msg,
}
use jaws.Wire.Json.{is_utf8, read_json, read_json-append_json_quote}
use jaws.Wire.Quote.{what_string-plain}
use jaws.Wire.Frame.{IsFramed, line, append_msg_lem}

pub what_parse-what_string : (w : What) → is_valid_what w ≡ true → what_parse (what_string w) ≡ w
unfolding what_parse text_eq
what_parse-what_string w h = ground (arith, w, h)

to_valid_utf8-is_utf8 : (left : ℕ) (s : Text) → is_utf8 left s ≡ true → to_valid_utf8 left s ≡ s
unfolding to_valid_utf8 is_utf8
to_valid_utf8-is_utf8 left [] u = refl
to_valid_utf8-is_utf8 zero (c ∷ s) u = elim (Bool-cases (ltb c 128)) [
  | inl e ↦ rw (e, to_valid_utf8-is_utf8 0 s (ground (arith, e, u))) refl
  | inr e ↦ elim (Option-cases (tail_size c s)) [
    | inl o ↦ absurd (ground (arith, e, o, u))
    | inr (n, o) ↦ rw (e, o, to_valid_utf8-is_utf8 n s (ground (arith, e, o, u))) refl
  ]
]
to_valid_utf8-is_utf8 (suc left) (c ∷ s) u = ap (λ t. c ∷ t) (to_valid_utf8-is_utf8 left s u)

without_newline_lem : (s : Text) → without_newline (s ++ b'\n' ∷ []) ≡ some s
unfolding without_newline
without_newline_lem [] = refl
without_newline_lem (c ∷ []) = refl
without_newline_lem (c ∷ d ∷ s) = rw (without_newline_lem (d ∷ s)) refl

-- What the decoders of Go are relied on for: a JSON string of well-formed text gives the text.
abbrev pub IsDecoder : (Text → Option Text) → Type 0
IsDecoder decode = (s t : Text) → read_json s ≡ some t → is_utf8 0 t ≡ true → decode s ≡ some t

parse_data_lem :
    (decode : Text → Option Text) (m : WsMsg)
    → IsDecoder decode
    → is_utf8 0 m.data_text ≡ true
    → IsFramed m
    → parse_data decode m.what (append_data [] m) ≡ some m.data_text
unfolding parse_data append_data starts_quote append_json_quote
parse_data_lem decode m d u f = elim (Bool-cases (is_verbatim m.what)) [
  | inl e ↦
      let no_tab : contains m.data_text b'\t' ≡ false = ground (arith, e, f) in
      rw (e, cut_whole m.data_text b'\t' no_tab) refl
  | inr e ↦ rw e (
      d (append_json_quote [] m.data_text) m.data_text (read_json-append_json_quote m.data_text u)
        u)
]

length-line : (m : WsMsg) → ltb 2 (length (line m ++ b'\n' ∷ [])) ≡ true
unfolding line
length-line m =
    let s = Jid.string (pos m.jid) in
    let text = append_data [] m in
    ground (
      arith,
      length-append (what_string m.what ++ b'\t' ∷ (s ++ b'\t' ∷ text)) (b'\n' ∷ []),
      length-append (what_string m.what) (b'\t' ∷ (s ++ b'\t' ∷ text)),
      length-append s (b'\t' ∷ text),
    )

cut-line :
    (m : WsMsg)
    → cut (line m) b'\t'
      ≡ (what_string m.what, some (Jid.string (pos m.jid) ++ b'\t' ∷ append_data [] m))
unfolding line
cut-line m =
    cut_at (what_string m.what) (Jid.string (pos m.jid) ++ b'\t' ∷ append_data [] m) b'\t'
      (what_string-plain m.what).1

-- Let a message have a valid command, an id of at most 63 bits and well-formed UTF-8 as its data, with
-- no tab and no newline in it for Set and Call, and let Go's decoders turn each JSON string of
-- well-formed text into that text. Then Parse of the record that Append writes returns the message.
-- And the quoted data is a JSON string by the grammar of RFC 8259, which holds no raw control
-- character: a JSON parser reads the data back from it.
pub parse_msg-append_msg :
    (decode : Text → Option Text) (m : WsMsg)
    → IsDecoder decode
    → is_valid_what m.what ≡ true
    → m.jid ≤ max_int64
    → is_utf8 0 m.data_text ≡ true
    → IsFramed m
    → (parse_msg decode (append_msg [] m) ≡ some m)
      × (read_json (append_json_quote [] m.data_text) ≡ some m.data_text)
unfolding parse_msg parse_line parse_name parse_id message_of
parse_msg-append_msg decode m d w j u f =
    let s = Jid.string (pos m.jid) in
    let text = append_data [] m in
    (
      rw
          (
            append_msg_lem [] m,
            length-line m,
            without_newline_lem (line m),
            cut-line m,
            cut_at s text b'\t' (contains-string m.jid b'\t' refl refl),
            what_parse-what_string m.what w,
            w,
            parse_string-string m.jid j,
            parse_data_lem decode m d u f,
            to_valid_utf8-is_utf8 0 m.data_text u,
          )
          refl,
      read_json-append_json_quote m.data_text u,
    )
