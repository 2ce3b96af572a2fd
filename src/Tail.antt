-- ===== src/Tail.antt =====
-- tailscript.go: the script that applies the attribute and class changes which were queued during the
-- first rendering of a page.
pub mod Drain
pub mod Serve
use jaws.Base.{
  ℕ, zero, suc, List, [], ◌∷◌, ◌++◌, Option, none, some, Bool, true, false, not, ◌&&◌, ltb, ◌==◌,
  if◌then◌else◌, get_or,
}
use jaws.Strconv.{Text}
use jaws.Bytes.{codes, cut}
use jaws.Jid
use jaws.Jid.{pos}
use jaws.What.{What}
use jaws.Request.{Request, WsMsg}
use jaws.Wire.{append_json_quote}

-- jsInlineScriptEscaper at one byte: what is written, and how many bytes it takes besides. The two
-- separators are three bytes each.
unfoldable pub inline_head : ℕ → Text → Text × ℕ
inline_head c s =
    let separator = (c == 226) && (get_or s 0 0 == 128) in
    if c == b'<'
    then (codes "\\x3c", 0)
    else if separator && (get_or s 1 0 == 168)
    then (codes "\\u2028", 2)
    else if separator && (get_or s 1 0 == 169)
    then (codes "\\u2029", 2)
    else (c ∷ [], 0)

unfoldable pub inline_from : ℕ → Text → Text
unfolding inline_head
inline_from left [] = []
inline_from zero (c ∷ s) = let (out, n) = inline_head c s in out ++ inline_from n s
inline_from (suc left) (c ∷ s) = inline_from left s

-- appendJSQuote. Its test for hazards only saves a copy.
unfoldable pub append_js_quote : Text → Text → Text
unfolding inline_from append_json_quote
append_js_quote b s = b ++ inline_from 0 (append_json_quote [] s)

-- The DOM function that a message stands for, if it changes an attribute or a class.
abbrev pub fn : What → Option Text
fn What.s_attr = some (codes "setAttribute")
fn What.r_attr = some (codes "removeAttribute")
fn What.s_class = some (codes "classList?.add")
fn What.r_class = some (codes "classList?.remove")
fn _ = none

-- The function, for a message that the script takes over.
unfoldable pub fixup_of : WsMsg → Option Text
fixup_of m = if ltb 0 m.jid then fn m.what else none

-- The arguments: the data up to its first newline, and what is behind it.
unfoldable pub append_arguments : Text → Text × Option Text → Text
unfolding append_js_quote
append_arguments b (attr, none) = append_js_quote b attr
append_arguments b (attr, some val) = append_js_quote (append_js_quote b attr ++ b',' ∷ []) val

unfoldable pub append_fixup : Text → Text → WsMsg → Text
unfolding Jid.append_quote append_arguments
append_fixup b f m =
    let found = Jid.append_quote (b ++ codes "try{document.getElementById(") (pos m.jid) in
    let call = ((found ++ codes ")?.") ++ f) ++ codes "(" in
    append_arguments call (cut m.data_text b'\n') ++ codes ");}catch(e){console.error(e);}\n"

-- One round of the loop of drainTailScript: what becomes of the script and of the queue.
unfoldable pub extended : Text → Option Text → WsMsg → Text
unfolding append_fixup
extended b none m = b
extended b (some f) m = append_fixup b f m

unfoldable pub requeued : Option Text → WsMsg → List WsMsg → List WsMsg
requeued none m kept = m ∷ kept
requeued (some f) m kept = kept

-- The loop: the script, and the messages that stay queued.
unfoldable pub drain_loop : Text → List WsMsg → Text × List WsMsg
unfolding fixup_of extended requeued
drain_loop b [] = (b, [])
drain_loop b (m ∷ ms) =
    let (script, kept) = drain_loop (extended b (fixup_of m) m) ms in
    (script, requeued (fixup_of m) m kept)

unfoldable pub drain_once : Bool → Request → Request × Text × Bool
unfolding drain_loop
drain_once true rq = (rq, [], false)
drain_once false rq =
    let (script, kept) = drain_loop [] rq.ws_queue in
    (record rq { tailsent = true; ws_queue = kept }, script, true)

-- drainTailScript: the Request, the script, and whether this was the first call.
unfoldable pub drain_tail_script : Request → Request × Text × Bool
unfolding drain_once
drain_tail_script rq = drain_once rq.tailsent rq
