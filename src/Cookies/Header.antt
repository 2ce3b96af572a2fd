-- ===== src/Cookies/Header.antt =====
-- The line that a browser sends: the cookies that it keeps, with "; " between them.
use jaws.Base.{ℕ, ◌≤◌, ◌<◌, List, [], ◌∷◌, ◌++◌, false, ◌≡◌, ◌≢◌, All}
use jaws.Strconv.{Text, max_uint64}
use jaws.Bytes.{text_eq}
use jaws.Key.{string}
use jaws.Cookies.{is_ascii_space}

-- The cookie of a Session, as newSession writes it, or a cookie of another name.
pub data Kept : Type 0 where
  own : ℕ → Kept
  other : Text → Text → Kept

abbrev pub written : Text → Kept → Text
written cookie_name (own id) = cookie_name ++ b'=' ∷ string id
written cookie_name (other name value) = name ++ b'=' ∷ value

abbrev pub header : Text → List Kept → Text
header cookie_name [] = []
header cookie_name (c ∷ []) = written cookie_name c
header cookie_name (c ∷ d ∷ cs) = written cookie_name c ++ b';' ∷ b' ' ∷ header cookie_name (d ∷ cs)

abbrev pub headers : Text → List (List Kept) → List Text
headers cookie_name [] = []
headers cookie_name (cs ∷ lines) = header cookie_name cs ∷ headers cookie_name lines

-- The ids of the Sessions, in order.
abbrev pub ids : List Kept → List ℕ
ids [] = []
ids (own id ∷ cs) = id ∷ ids cs
ids (other name value ∷ cs) = ids cs

abbrev pub all_ids : List (List Kept) → List ℕ
all_ids [] = []
all_ids (cs ∷ lines) = ids cs ++ all_ids lines

-- A byte that may stand in the value of a cookie: no white space, no semicolon.
abbrev pub IsOctet : ℕ → Type 0
IsOctet c = (is_ascii_space c ≡ false) × (c ≢ b';')

-- A byte that may stand in the name.
abbrev pub IsNameByte : ℕ → Type 0
IsNameByte c = IsOctet c × (c ≢ b'=')

abbrev pub IsKept : Text → Kept → Type 0
IsKept cookie_name (own id) = (0 < id) × (id ≤ max_uint64)
IsKept cookie_name (other name value) =
    All IsNameByte name × All IsOctet value × (text_eq name cookie_name ≡ false)
