-- ===== src/Wire/Frame.antt =====
-- What a reader of the frames finds in them: lines of three fields.
use jaws.Base.{
  ℕ, ◌≤◌, List, [], ◌∷◌, ◌++◌, map, append_assoc, append-nil, false, ltb, if◌then◌else◌, length,
  contains, contains-append, All, All-append_left, ◌⊎◌, ◌≡◌, refl, sym, ap, ◌∙◌, subst, arith,
  Bool-cases, inl, inr,
}
use jaws.Strconv.{Text}
use jaws.Bytes.{split, split-part, split-whole}
use jaws.Jid
use jaws.Jid.{pos}
use jaws.Jid.Codec.{contains-string, append-string}
use jaws.What.{what_string}
use jaws.Request.{WsMsg}
use jaws.Wire.{
  append_json_quote, is_verbatim, append_data, quoted_from, append_msg, batch_loop, write_data,
  write_batch_limit,
}
use jaws.Wire.Quote.{contains-IsPlain, what_string-plain, quote-IsPlain}

-- The three fields of a record.
abbrev pub fields : WsMsg → List Text
fields m = what_string m.what ∷ Jid.string (pos m.jid) ∷ append_data [] m ∷ []

-- Verbatim data holds no tab and no newline.
abbrev pub IsFramed : WsMsg → Type 0
IsFramed m =
    if is_verbatim m.what
    then (contains m.data_text b'\n' ≡ false) × (contains m.data_text b'\t' ≡ false)
    else Unit

-- The line of a record, with no newline.
unfoldable pub line : WsMsg → Text
line m = what_string m.what ++ b'\t' ∷ (Jid.string (pos m.jid) ++ b'\t' ∷ append_data [] m)

append_positive :
    (b : Text) (n : ℕ) → (if ltb 0 n then Jid.append b (pos n) else b) ≡ b ++ Jid.string (pos n)
append_positive b n = elim (Bool-cases (ltb 0 n)) [
  | inl e ↦ rw e (append-string b n)
  | inr e ↦ let z : n ≡ 0 = ground (arith, e) in rw (z) (unfold Jid.string in sym (append-nil b))
]

append_data_lem : (b : Text) (m : WsMsg) → append_data b m ≡ b ++ append_data [] m
unfolding append_data append_json_quote
append_data_lem b m = ground (arith, append_assoc b (b'"' ∷ quoted_from 0 m.data_text) (b'"' ∷ []))

flat :
    (b n s d : Text)
    → (((((b ++ n) ++ b'\t' ∷ []) ++ s) ++ b'\t' ∷ []) ++ d) ++ b'\n' ∷ []
      ≡ b ++ (n ++ b'\t' ∷ (s ++ b'\t' ∷ d)) ++ b'\n' ∷ []
flat b n s d = simp append_assoc

pub append_msg_lem : (b : Text) (m : WsMsg) → append_msg b m ≡ b ++ line m ++ b'\n' ∷ []
unfolding append_msg line
append_msg_lem b m =
    let named = (b ++ what_string m.what) ++ b'\t' ∷ [] in
    ap (λ t. append_data (t ++ b'\t' ∷ []) m ++ b'\n' ∷ []) (append_positive named m.jid)
    ∙ ap (λ t. t ++ b'\n' ∷ [])
        (append_data_lem ((named ++ Jid.string (pos m.jid)) ++ b'\t' ∷ []) m)
    ∙ flat b (what_string m.what) (Jid.string (pos m.jid)) (append_data [] m)

data_lem :
    (m : WsMsg)
    → IsFramed m
    → (contains (append_data [] m) b'\n' ≡ false) × (contains (append_data [] m) b'\t' ≡ false)
unfolding append_data
data_lem m h = elim (Bool-cases (is_verbatim m.what)) [
  | inl e ↦ ground (arith, e, h)
  | inr e ↦ ground (
    arith,
    e,
    contains-IsPlain (append_json_quote [] m.data_text) b'\n' (quote-IsPlain m.data_text),
    contains-IsPlain (append_json_quote [] m.data_text) b'\t' (quote-IsPlain m.data_text),
  )
]

contains-line : (m : WsMsg) → IsFramed m → contains (line m) b'\n' ≡ false
unfolding line
contains-line m h =
    let s = Jid.string (pos m.jid) in
    rw
      (
        contains-append (what_string m.what) (b'\t' ∷ (s ++ b'\t' ∷ append_data [] m)) b'\n',
        (what_string-plain m.what).0,
        contains-append s (b'\t' ∷ append_data [] m) b'\n',
        contains-string m.jid b'\n' refl refl,
        (data_lem m h).0,
      )
      refl

split-line : (m : WsMsg) → IsFramed m → split (line m) b'\t' ≡ fields m
unfolding line
split-line m h =
    let s = Jid.string (pos m.jid) in
    split-part (what_string m.what) (s ++ b'\t' ∷ append_data [] m) b'\t'
      (what_string-plain m.what).1
    ∙ ap (λ l. what_string m.what ∷ l)
        (split-part s (append_data [] m) b'\t' (contains-string m.jid b'\t' refl refl)
          ∙ ap (λ l. s ∷ l) (split-whole (append_data [] m) b'\t' (data_lem m h).1))

-- The text of a frame.
frame : List WsMsg → Text
frame [] = []
frame (m ∷ ms) = line m ++ b'\n' ∷ frame ms

split-frame :
    (ms : List WsMsg)
    → All IsFramed ms
    → map (λ l. split l b'\t') (split (frame ms) b'\n') ≡ map fields ms ++ ([] ∷ []) ∷ []
unfolding frame
split-frame [] h = refl
split-frame (m ∷ ms) h =
    ap (map (λ l. split l b'\t')) (split-part (line m) (frame ms) b'\n' (contains-line m h.0))
    ∙ ap (λ l. l ∷ map (λ l. split l b'\t') (split (frame ms) b'\n')) (split-line m h.0)
    ∙ ap (λ l. fields m ∷ l) (split-frame ms h.1)

-- What one frame takes of the waiting messages.
record Batch (limit : ℕ) (b : Text) (waiting : List WsMsg) (r : Text × List WsMsg) : Type 0 where
  sent : List WsMsg
  taken : waiting ≡ sent ++ r.1
  written : r.0 ≡ b ++ frame sent
  full : (r.1 ≡ []) ⊎ (limit ≤ length r.0)

batch_loop-step :
    (limit : ℕ) (b : Text) (m : WsMsg) (ms : List WsMsg)
    → batch_loop limit b (m ∷ ms)
      ≡ (if ltb (length b) limit then batch_loop limit (append_msg b m) ms else (b, m ∷ ms))
unfolding batch_loop
batch_loop-step limit b m ms = elim (Bool-cases (ltb (length b) limit)) [
  | inl e ↦ rw (batch_loop, e) refl
  | inr e ↦ rw (batch_loop, e) refl
]

batch : (limit : ℕ) (b : Text) (ms : List WsMsg) → Batch limit b ms (batch_loop limit b ms)
unfolding frame batch_loop
batch limit b [] = record { sent = []; taken = refl; written = sym (append-nil b); full = inl refl }
batch limit b (m ∷ ms) = elim (Bool-cases (ltb (length b) limit)) [
  | inr e ↦
      rw (batch_loop-step limit b m ms, e)
        (record {
          sent = [];
          taken = refl;
          written = sym (append-nil b);
          full = inr (ground (arith, e));
        })
  | inl e ↦
      let r = batch limit (append_msg b m) ms in
      rw (batch_loop-step limit b m ms, e)
        (record {
          sent = m ∷ r.sent;
          taken = ap (λ l. m ∷ l) r.taken;
          written =
              r.written
              ∙ ap (λ t. t ++ frame r.sent) (append_msg_lem b m)
              ∙ append_assoc (b ++ line m) (b'\n' ∷ []) (frame r.sent)
              ∙ append_assoc b (line m) (b'\n' ∷ frame r.sent);
          full = r.full;
        })
]

-- Let no Set or Call message, be it the first or one that waits, hold a tab or a newline in its data. Then writeData writes the first message and a first part of those that wait, in order, and leaves the others. Split at newlines and then at tabs, the frame gives exactly the name of the command, the id and the data field of each of them, and an empty last line. Messages are left only if the frame has reached the limit.
pub write_data-fields :
    (first : WsMsg) (waiting : List WsMsg)
    → All IsFramed (first ∷ waiting)
    → let (b, rest) = write_data first waiting in
      (sent : List WsMsg) × (waiting ≡ sent ++ rest)
      × (map (λ l. split l b'\t') (split b b'\n') ≡ map fields (first ∷ sent) ++ ([] ∷ []) ∷ [])
      × ((rest ≡ []) ⊎ (write_batch_limit ≤ length b))
unfolding write_data frame
write_data-fields first waiting h =
    let r = batch write_batch_limit (append_msg [] first) waiting in
    let w : (write_data first waiting).0 ≡ frame (first ∷ r.sent) =
      r.written
      ∙ ap (λ t. t ++ frame r.sent) (append_msg_lem [] first)
      ∙ append_assoc (line first) (b'\n' ∷ []) (frame r.sent) in
    let known =
      All-append_left IsFramed r.sent (write_data first waiting).1
        (subst (All IsFramed) r.taken h.1) in
    (
      r.sent,
      r.taken,
      ap (λ t. map (λ l. split l b'\t') (split t b'\n')) w
          ∙ split-frame (first ∷ r.sent) (h.0, known),
      r.full,
    )
