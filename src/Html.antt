-- ===== src/Html.antt =====
-- lib/htmlio/writehtml.go: the text of HTML elements. The names of tags are ASCII.
pub mod Reader
pub mod Safety
pub mod Tags
use jaws.Base.{ℕ, List, [], ◌∷◌, ◌++◌, Bool, true, false, not, ◌||◌, ◌==◌, if◌then◌else◌, map}
use jaws.Strconv.{Text}
use jaws.Bytes.{codes, lower, text_eq, replace}
use jaws.Jid.{Jid, append_start_tag_attr}

-- voidElements.
abbrev pub void_elements : List Text
void_elements =
    codes "area"
    ∷ codes "base"
    ∷ codes "br"
    ∷ codes "col"
    ∷ codes "embed"
    ∷ codes "hr"
    ∷ codes "img"
    ∷ codes "input"
    ∷ codes "link"
    ∷ codes "meta"
    ∷ codes "param"
    ∷ codes "source"
    ∷ codes "track"
    ∷ codes "wbr"
    ∷ []

abbrev pub has_text : List Text → Text → Bool
has_text [] s = false
has_text (t ∷ ts) s = text_eq t s || has_text ts s

unfoldable pub need_closing_tag : Text → Bool
unfolding text_eq
need_closing_tag tag = not (has_text void_elements (map lower tag))

unfoldable pub is_newline_sensitive : Text → Bool
unfolding text_eq
is_newline_sensitive tag = has_text (codes "textarea" ∷ codes "pre" ∷ []) (map lower tag)

abbrev pub cr_reference : ℕ → Text
cr_reference c = if c == b'\r' then codes "&#13;" else c ∷ []

-- appendEscapeCR: the loop copies what stands between carriage returns.
unfoldable pub append_escape_cr : Text → Text → Text
append_escape_cr b s = b ++ replace cr_reference s

-- template.HTMLEscapeString, byte by byte; NUL becomes the three bytes of U+FFFD.
abbrev pub html_reference : ℕ → Text
html_reference c =
    if c == b'"'
    then codes "&#34;"
    else if c == b'\''
    then codes "&#39;"
    else if c == b'&'
    then codes "&amp;"
    else if c == b'<'
    then codes "&lt;"
    else if c == b'>'
    then codes "&gt;"
    else if c == 0
    then 0xef ∷ 0xbf ∷ 0xbd ∷ []
    else c ∷ []

abbrev pub html_escape_string : Text → Text
html_escape_string s = replace html_reference s

-- AppendAttrs.
unfoldable pub append_attrs : Text → List Text → Text
append_attrs b [] = b
append_attrs b ([] ∷ attrs) = append_attrs b attrs
append_attrs b ((c ∷ s) ∷ attrs) = append_attrs (b ++ b' ' ∷ c ∷ s) attrs

-- AppendAttrValue.
unfoldable pub append_attr_value : Text → Text → Text
unfolding append_escape_cr
append_attr_value b value =
    append_escape_cr (b ++ b'"' ∷ []) (html_escape_string value) ++ b'"' ∷ []

-- AppendAttr.
unfoldable pub append_attr : Text → Text → Text → Text
unfolding append_attr_value
append_attr b name value = append_attr_value (b ++ (b' ' ∷ name) ++ b'=' ∷ []) value

-- The slice [1:].
abbrev pub but_first : Text → Text
but_first [] = []
but_first (c ∷ s) = s

-- Attr.
unfoldable pub attr : Text → Text → Text
unfolding append_attr
attr name value = but_first (append_attr [] name value)

-- An attribute that is written if its value is not empty.
unfoldable pub append_given : Text → Text → Text → Text
unfolding append_attr
append_given b name [] = b
append_given b name (c ∷ s) = append_attr b name (c ∷ s)

-- appendHTMLTag.
unfoldable pub append_html_tag : Text → Jid → Text → Text → Text → List Text → Text
unfolding append_given append_attrs
append_html_tag b jid html_tag type_attr value_attr attrs =
    let b1 = append_start_tag_attr b jid html_tag in
    let b2 = append_given b1 (codes "type") type_attr in
    let b3 = append_given b2 (codes "value") value_attr in append_attrs b3 attrs ++ b'>' ∷ []

-- WriteHTMLTag and WriteHTMLInput, with what they write.
unfoldable pub write_html_tag : Jid → Text → Text → Text → List Text → Text
unfolding append_html_tag
write_html_tag jid html_tag type_attr value_attr attrs =
    append_html_tag [] jid html_tag type_attr value_attr attrs

unfoldable pub write_html_input : Jid → Text → Text → List Text → Text
unfolding write_html_tag
write_html_input jid type_attr value_attr attrs =
    write_html_tag jid (codes "input") type_attr value_attr attrs

-- What stands between the start tag and the end of the element.
unfoldable pub append_inner : Text → Text → Text → Text
unfolding need_closing_tag is_newline_sensitive
append_inner b html_tag inner =
    if need_closing_tag html_tag
    then (b ++ (if is_newline_sensitive html_tag then b'\n' ∷ [] else []))
      ++ (inner ++ (codes "</" ++ (html_tag ++ b'>' ∷ [])))
    else b

-- WriteHTMLInner.
unfoldable pub write_html_inner : Jid → Text → Text → Text → List Text → Text
unfolding append_html_tag append_inner
write_html_inner jid html_tag type_attr inner attrs =
    append_inner (append_html_tag [] jid html_tag type_attr [] attrs) html_tag inner
