-- ===== src/Cookies/RoundTrip.antt =====
-- The ids of the Sessions are read back from the header.
use jaws.Base.{
  ℕ, ◌≤◌, ◌<◌, List, [], ◌∷◌, ◌++◌, false, if◌then◌else◌, ◌≡◌, ◌≢◌, refl, arith, All, All-append,
  Bool-cases, inl, inr, ◌==◌,
}
use jaws.Strconv.{Text, format_uint, max_uint64}
use jaws.Bytes.{contains_text, cut_at, prepend, split, split-part, split-whole, text_eq}
use jaws.Key.{string, append}
use jaws.Key.Codec.{IsDigitByte, format_uint-IsDigitByte, parse-string}
use jaws.Cookies.{
  is_blank, is_ascii_space, trim_left, trim_right, without_quotes, value_ids, part_ids, parts_ids,
  line_ids, get_cookie_sessions_ids,
}
use jaws.Cookies.Header.{Kept, written, header, headers, ids, all_ids, IsOctet, IsNameByte, IsKept}
use jaws.Cookies.Trimming.{
  IsSolid, trim_right_solid, trim_right_keep, trim_string_solid, text_eq_refl, contains_text-front,
  contains_text-start, contains_text_behind, contains_none, is_blank-append, trim_right_put,
  trim_left_front, trim_left_whole, trim_left_space,
}

IsOctet-IsSolid : (s : Text) → All IsOctet s → All IsSolid s
IsOctet-IsSolid [] h = tt
IsOctet-IsSolid (c ∷ s) h = (h.0.0, IsOctet-IsSolid s h.1)

IsNameByte-IsOctet : (s : Text) → All IsNameByte s → All IsOctet s
IsNameByte-IsOctet [] h = tt
IsNameByte-IsOctet (c ∷ s) h = (h.0.0, IsNameByte-IsOctet s h.1)

IsDigitByte-IsOctet : (s : Text) → All IsDigitByte s → All IsOctet s
unfolding is_ascii_space
IsDigitByte-IsOctet [] h = tt
IsDigitByte-IsOctet (c ∷ s) h =
    ((ground (arith, h.0), ground (arith, h.0)), IsDigitByte-IsOctet s h.1)

IsOctet-no_semicolon : (s : Text) → All IsOctet s → All (λ d. d ≢ b';') s
IsOctet-no_semicolon [] h = tt
IsOctet-no_semicolon (c ∷ s) h = (h.0.1, IsOctet-no_semicolon s h.1)

IsNameByte-no_equals : (s : Text) → All IsNameByte s → All (λ d. d ≢ b'=') s
IsNameByte-no_equals [] h = tt
IsNameByte-no_equals (c ∷ s) h = (h.0.1, IsNameByte-no_equals s h.1)

-- The text of a key is a value that is read back.
string-IsOctet : (id : ℕ) → 0 < id → All IsOctet (string id)
unfolding string append
string-IsOctet id p = elim (Bool-cases (id == 0)) [
  | inl e ↦ absurd (ground (arith, e, p))
  | inr e ↦
      rw e (IsDigitByte-IsOctet (format_uint 32 id) (format_uint-IsDigitByte id (omega arith)))
]

without_quotes_plain : (s : Text) → All IsDigitByte s → without_quotes s ≡ s
unfolding without_quotes
without_quotes_plain [] h = refl
without_quotes_plain (c ∷ s) h = ground (arith, h.0)

string_plain : (id : ℕ) → 0 < id → without_quotes (string id) ≡ string id
unfolding string append
string_plain id p = elim (Bool-cases (id == 0)) [
  | inl e ↦ absurd (ground (arith, e, p))
  | inr e ↦
      rw e (without_quotes_plain (format_uint 32 id) (format_uint-IsDigitByte id (omega arith)))
]

value_ids-string : (id : ℕ) → 0 < id → id ≤ max_uint64 → value_ids (string id) ≡ id ∷ []
unfolding value_ids
value_ids-string id p q = rw (string_plain id p, (parse-string id [] q).1) (ground (arith, p))

written-IsOctet :
    (cookie_name : Text) (c : Kept)
    → All IsNameByte cookie_name
    → IsKept cookie_name c
    → All IsOctet (written cookie_name c)
unfolding is_ascii_space
written-IsOctet cookie_name (Kept.own id) n k =
    All-append IsOctet cookie_name (b'=' ∷ string id) (IsNameByte-IsOctet cookie_name n)
      ((refl, ground arith), string-IsOctet id k.0)
written-IsOctet cookie_name (Kept.other name value) n k =
    All-append IsOctet name (b'=' ∷ value) (IsNameByte-IsOctet name k.0) ((refl, ground arith), k.1)

-- A part is read by its name and its value.
part_ids_lem :
    (wanted name value : Text)
    → All IsNameByte name
    → All IsOctet value
    → part_ids wanted (name ++ b'=' ∷ value) ≡ (if text_eq name wanted then value_ids value else [])
unfolding part_ids is_ascii_space
part_ids_lem wanted name value n v =
    let solid = IsOctet-IsSolid name (IsNameByte-IsOctet name n) in
    let all = All-append IsSolid name (b'=' ∷ value) solid (refl, IsOctet-IsSolid value v) in
    rw
      (
        trim_string_solid (name ++ b'=' ∷ value) all,
        is_blank-append name b'=' value,
        cut_at name value b'=' (contains_none name b'=' (IsNameByte-no_equals name n)),
        trim_string_solid name solid,
      )
      refl

part_ids-written :
    (cookie_name : Text) (c : Kept) (cs : List Kept)
    → All IsNameByte cookie_name
    → IsKept cookie_name c
    → part_ids cookie_name (written cookie_name c) ++ ids cs ≡ ids (c ∷ cs)
part_ids-written cookie_name (Kept.own id) cs n k =
    rw
      (
        part_ids_lem cookie_name cookie_name (string id) n (string-IsOctet id k.0),
        text_eq_refl cookie_name,
        value_ids-string id k.0 k.1,
      )
      refl
part_ids-written cookie_name (Kept.other name value) cs n k =
    rw (part_ids_lem cookie_name name value k.0 k.1, k.2) refl

part_ids_space : (wanted s : Text) → part_ids wanted (b' ' ∷ s) ≡ part_ids wanted s
unfolding part_ids trim_right
part_ids_space wanted s = rw (trim_left_space (trim_right s)) refl

parts_ids_space :
    (wanted : Text) (parts : List Text)
    → parts_ids wanted (prepend b' ' parts) ≡ parts_ids wanted parts
unfolding part_ids trim_right
parts_ids_space wanted [] = refl
parts_ids_space wanted (part ∷ parts) = rw (part_ids_space wanted part) refl

-- The parts of a header hold the ids.
parts_ids-header :
    (cookie_name : Text) (cs : List Kept)
    → All IsNameByte cookie_name
    → All (IsKept cookie_name) cs
    → parts_ids cookie_name (split (header cookie_name cs) b';') ≡ ids cs
parts_ids-header cookie_name [] n k = unfold part_ids trim_left trim_right in refl
parts_ids-header cookie_name (c ∷ []) n k =
    let octets = written-IsOctet cookie_name c n k.0 in
    rw
      (split-whole (written cookie_name c) b';' (
        contains_none (written cookie_name c) b';'
          (IsOctet-no_semicolon (written cookie_name c) octets)))
      (part_ids-written cookie_name c [] n k.0)
parts_ids-header cookie_name (c ∷ d ∷ cs) n k =
    let octets = written-IsOctet cookie_name c n k.0 in
    rw
      (
        split-part (written cookie_name c) (b' ' ∷ header cookie_name (d ∷ cs)) b';' (
            contains_none (written cookie_name c) b';'
              (IsOctet-no_semicolon (written cookie_name c) octets)),
        parts_ids_space cookie_name (split (header cookie_name (d ∷ cs)) b';'),
        parts_ids-header cookie_name (d ∷ cs) n k.1,
      )
      (part_ids-written cookie_name c (d ∷ cs) n k.0)

written-not_blank : (cookie_name : Text) (c : Kept) → is_blank (written cookie_name c) ≡ false
written-not_blank cookie_name (Kept.own id) = is_blank-append cookie_name b'=' (string id)
written-not_blank cookie_name (Kept.other name value) = is_blank-append name b'=' value

header-not_blank :
    (cookie_name : Text) (c : Kept) (cs : List Kept)
    → is_blank (header cookie_name (c ∷ cs)) ≡ false
header-not_blank cookie_name c [] = written-not_blank cookie_name c
header-not_blank cookie_name c (d ∷ cs) =
    is_blank-append (written cookie_name c) b';' (b' ' ∷ header cookie_name (d ∷ cs))

trim_right-header :
    (cookie_name : Text) (cs : List Kept)
    → All IsNameByte cookie_name
    → All (IsKept cookie_name) cs
    → trim_right (header cookie_name cs) ≡ header cookie_name cs
trim_right-header cookie_name [] n k = unfold trim_right in refl
trim_right-header cookie_name (c ∷ []) n k =
    trim_right_solid (written cookie_name c)
      (IsOctet-IsSolid (written cookie_name c) (written-IsOctet cookie_name c n k.0))
trim_right-header cookie_name (c ∷ d ∷ cs) n k =
    let rest = trim_right-header cookie_name (d ∷ cs) n k.1 in
    let space =
      trim_right_put b' ' (header cookie_name (d ∷ cs)) (header-not_blank cookie_name d cs) rest in
    trim_right_keep (written cookie_name c) b';' (b' ' ∷ header cookie_name (d ∷ cs))
      (trim_right_put b';' (b' ' ∷ header cookie_name (d ∷ cs)) refl space)

trim_left-header :
    (cookie_name : Text) (cs : List Kept)
    → All IsNameByte cookie_name
    → All (IsKept cookie_name) cs
    → trim_left (header cookie_name cs) ≡ header cookie_name cs
trim_left-header cookie_name [] n k = unfold trim_left in refl
trim_left-header cookie_name (c ∷ []) n k =
    let solid = IsOctet-IsSolid (written cookie_name c) (written-IsOctet cookie_name c n k.0) in
    trim_left_whole (written cookie_name c) solid
trim_left-header cookie_name (c ∷ d ∷ cs) n k =
    trim_left_front (written cookie_name c) (b';' ∷ b' ' ∷ header cookie_name (d ∷ cs))
      (written-not_blank cookie_name c)
      (IsOctet-IsSolid (written cookie_name c) (written-IsOctet cookie_name c n k.0))

-- A header without the name holds no id.
contains_text-header :
    (cookie_name : Text) (cs : List Kept)
    → contains_text (header cookie_name cs) cookie_name ≡ false
    → ids cs ≡ []
contains_text-header cookie_name [] h = refl
contains_text-header cookie_name (Kept.own id ∷ []) h =
    absurd (cc (contains_text-front cookie_name (b'=' ∷ string id), h))
contains_text-header cookie_name (Kept.own id ∷ d ∷ cs) h =
    let rest = b';' ∷ b' ' ∷ header cookie_name (d ∷ cs) in
    let found = contains_text-start cookie_name (b'=' ∷ string id) rest in absurd (cc (found, h))
contains_text-header cookie_name (Kept.other name value ∷ []) h = refl
contains_text-header cookie_name (Kept.other name value ∷ d ∷ cs) h =
    contains_text-header cookie_name (d ∷ cs) (
      contains_text_behind (b';' ∷ b' ' ∷ []) (header cookie_name (d ∷ cs)) cookie_name (
        contains_text_behind (name ++ b'=' ∷ value) (b';' ∷ b' ' ∷ header cookie_name (d ∷ cs))
          cookie_name h))

line_ids-header :
    (cookie_name : Text) (cs : List Kept)
    → All IsNameByte cookie_name
    → All (IsKept cookie_name) cs
    → line_ids cookie_name (header cookie_name cs) ≡ ids cs
unfolding line_ids
line_ids-header cookie_name cs n k =
    elim (Bool-cases (contains_text (header cookie_name cs) cookie_name)) [
      | inl e ↦
          rw (e, trim_right-header cookie_name cs n k, trim_left-header cookie_name cs n k)
            (parts_ids-header cookie_name cs n k)
      | inr e ↦ rw (e, contains_text-header cookie_name cs e) refl
    ]

-- A browser that keeps Session cookies and cookies of other names, and sends them in any number of
-- Cookie lines with "; " between two, is understood: the ids that the code finds under the cookie
-- name are the ids of those Sessions, each one of them, in order, and no others. The name has no
-- white space, equals sign or semicolon, nor do the names of the other cookies, whose values have no
-- white space or semicolon, and the ids are from 1 to 2^64 - 1.
pub get_cookie_sessions_ids-headers :
    (cookie_name : Text) (lines : List (List Kept))
    → All IsNameByte cookie_name
    → All (All (IsKept cookie_name)) lines
    → get_cookie_sessions_ids (headers cookie_name lines) cookie_name ≡ all_ids lines
unfolding get_cookie_sessions_ids
get_cookie_sessions_ids-headers cookie_name [] n k = refl
get_cookie_sessions_ids-headers cookie_name (cs ∷ lines) n k =
    rw
      (
        line_ids-header cookie_name cs n k.0,
        get_cookie_sessions_ids-headers cookie_name lines n k.1,
      )
      refl
