-- ===== src/Tail/Drain.antt =====
-- What a drain of the tail script takes from the queue, and what bytes the script has.
use jaws.Base.{List, [], ◌∷◌, ◌++◌, Option, none, some, Bool, ◌&&◌, ◌||◌, ltb}
use jaws.Strconv.{Text}
use jaws.Bytes.{codes, cut}
use jaws.Jid
use jaws.Jid.{pos}
use jaws.What.{What, what_eq}
use jaws.Request.{Request, WsMsg}
use jaws.Tail.{append_js_quote, fixup_of, extended}

-- The message changes an attribute or a class of an Element.
unfoldable pub is_fixup : WsMsg → Bool
is_fixup m =
    ltb 0 m.jid
    && (what_eq m.what What.s_attr
        || what_eq m.what What.r_attr
        || what_eq m.what What.s_class
        || what_eq m.what What.r_class)

-- The text of the calls that apply some messages, in order, behind a text.
unfoldable pub script_of : Text → List WsMsg → Text
script_of b [] = b
script_of b (m ∷ ms) = script_of (extended b (fixup_of m) m) ms

-- No byte of an inline script literal closes the script.

-- The function of the DOM that a message stands for.
abbrev pub dom_function : What → Text
dom_function What.s_attr = codes "setAttribute"
dom_function What.r_attr = codes "removeAttribute"
dom_function What.s_class = codes "classList?.add"
dom_function What.r_class = codes "classList?.remove"
dom_function _ = []

-- Its arguments as string literals: the data up to its first newline, and what is behind it.
abbrev pub literals : Text × Option Text → Text
literals (attr, none) = append_js_quote [] attr
literals (attr, some val) = append_js_quote [] attr ++ b',' ∷ append_js_quote [] val

-- The statement of the script for a message.
abbrev pub statement : WsMsg → Text
statement m =
    codes "try{document.getElementById("
    ++ b'"'
      ∷ (Jid.string (pos m.jid)
          ++ b'"'
            ∷ (codes ")?."
                ++ (dom_function m.what
                    ++ b'('
                      ∷ (literals (cut m.data_text b'\n')
                          ++ codes ");}catch(e){console.error(e);}\n"))))

abbrev pub statements : List WsMsg → Text
statements [] = []
statements (m ∷ ms) = statement m ++ statements ms
