-- ===== src/Cookies.antt =====
-- session.go: the Session ids in the Cookie lines of a request. The trimming is that of Go's
-- net/textproto, TrimString; the bytes of a text are its list.
pub mod Header
pub mod Trimming
pub mod RoundTrip
use jaws.Base.{
  ℕ, List, [], ◌∷◌, ◌++◌, Option, none, some, Bool, true, false, not, ◌&&◌, ◌||◌, ◌==◌,
  if◌then◌else◌,
}
use jaws.Strconv.{Text}
use jaws.Bytes.{cut, contains_text, split, text_eq}
use jaws.Key.{parse}

unfoldable pub is_ascii_space : ℕ → Bool
is_ascii_space c = (c == b' ') || (c == b'\t') || (c == b'\n') || (c == b'\r')

unfoldable pub trim_left : Text → Text
unfolding is_ascii_space
trim_left [] = []
trim_left (c ∷ s) = if is_ascii_space c then trim_left s else c ∷ s

abbrev pub put_front : ℕ → Text → Text
put_front c [] = if is_ascii_space c then [] else c ∷ []
put_front c (d ∷ s) = c ∷ d ∷ s

unfoldable pub trim_right : Text → Text
unfolding is_ascii_space
trim_right [] = []
trim_right (c ∷ s) = put_front c (trim_right s)

-- textproto.TrimString.
abbrev pub trim_string : Text → Text
trim_string s = trim_left (trim_right s)

-- A text without the quote that ends it, if one does.
unfoldable pub before_quote : Text → Option Text
before_quote [] = none
before_quote (c ∷ []) = if c == b'"' then some [] else none
before_quote (c ∷ d ∷ s) = elim (before_quote (d ∷ s)) [ none ↦ none | some t ↦ some (c ∷ t) ]

abbrev pub or_given : Option Text → Text → Text
or_given none s = s
or_given (some t) s = t

-- The value of a cookie without the quotes around it.
unfoldable pub without_quotes : Text → Text
unfolding before_quote
without_quotes [] = []
without_quotes (c ∷ s) = if c == b'"' then or_given (before_quote s) (c ∷ s) else c ∷ s

abbrev pub is_blank : Text → Bool
is_blank [] = true
is_blank (c ∷ s) = false

-- key.Parse of the value, where it yields a key and no tail.
unfoldable pub value_ids : Text → List ℕ
unfolding without_quotes
value_ids value =
    let (id, tail) = parse (without_quotes value) in
    if not (id == 0) && is_blank tail then id ∷ [] else []

abbrev pub or_blank : Option Text → Text
or_blank none = []
or_blank (some s) = s

-- The name and the value of a part that is trimmed. An is_blank part has the is_blank name.
abbrev pub pair_ids : Text → Text × Option Text → List ℕ
pair_ids wanted (name, value) =
    if text_eq (trim_string name) wanted then value_ids (or_blank value) else []

-- One round of the loop: the part before the next semicolon.
unfoldable pub part_ids : Text → Text → List ℕ
unfolding trim_left trim_right value_ids
part_ids wanted part =
    if is_blank (trim_string part) then [] else pair_ids wanted (cut (trim_string part) b'=')

abbrev pub parts_ids : Text → List Text → List ℕ
parts_ids wanted [] = []
parts_ids wanted (part ∷ parts) = part_ids wanted part ++ parts_ids wanted parts

-- A line that has the name in it.
unfoldable pub line_ids : Text → Text → List ℕ
unfolding part_ids
line_ids wanted line =
    if contains_text line wanted then parts_ids wanted (split (trim_string line) b';') else []

-- getCookieSessionsIDs, of the lines under Cookie.
unfoldable pub get_cookie_sessions_ids : List Text → Text → List ℕ
unfolding line_ids
get_cookie_sessions_ids [] wanted = []
get_cookie_sessions_ids (line ∷ lines) wanted =
    line_ids wanted line ++ get_cookie_sessions_ids lines wanted
