-- ===== src/Html/Tags.antt =====
-- A browser reads the start tags as they are meant.
use jaws.Base.{
  map, List, [], ◌∷◌, ◌++◌, append_assoc, append-nil, some, true, ◌==◌, if◌then◌else◌, ◌≡◌, refl,
  sym, ap, ◌∙◌, arith, Bool-cases, inl, inr, ◌⊎◌, ◌≢◌,
}
use jaws.Strconv.{Text}
use jaws.Bytes.{codes, lower, replace}
use jaws.Jid
use jaws.Jid.{Jid, pos, negsuc, append_start_tag_attr, append_quote}
use jaws.Jid.Codec.{contains-string, string-prefix}
use jaws.Html.{
  append_escape_cr, append_attrs, append_attr_value, append_attr, append_given, append_html_tag,
}
use jaws.Html.Reader.{IsTagName, StartTag, in_name, after_value, read, read_start_tag}
use jaws.Html.Safety.{kept, escaped, value_read, plain_value, name_read}

-- The two attributes that take a value.
data IsGiven : Text → Type 0 where
  type_name : IsGiven (codes "type")
  value_name : IsGiven (codes "value")

abbrev pub given : Text → Text → List (Text × Text)
given name [] = []
given name (c ∷ s) = (name, replace kept (c ∷ s)) ∷ []

abbrev pub identity : Jid → List (Text × Text)
identity (pos n) = if n == 0 then [] else (codes "id", Jid.string (pos n)) ∷ []
identity (negsuc n) = []

-- The text of an attribute, before a text.
abbrev given_text : Text → Text → Text → Text
given_text name [] s = s
given_text name (c ∷ v) s = b' ' ∷ (name ++ b'=' ∷ b'"' ∷ (escaped (c ∷ v) ++ b'"' ∷ s))

append_attr-text :
    (b name value s : Text)
    → append_attr b name value ++ s
      ≡ b ++ (b' ' ∷ (name ++ b'=' ∷ b'"' ∷ (escaped value ++ b'"' ∷ s)))
unfolding append_attr append_attr_value append_escape_cr
append_attr-text b name value s = simp append_assoc

append_given-text :
    (b name value s : Text) → append_given b name value ++ s ≡ b ++ given_text name value s
unfolding append_given
append_given-text b name [] s = refl
append_given-text b name (c ∷ v) s = append_attr-text b name (c ∷ v) s

id_text : Jid → Text → Text
id_text (pos n) s =
    if n == 0 then s else b' ' ∷ (codes "id" ++ b'=' ∷ b'"' ∷ (Jid.string (pos n) ++ b'"' ∷ s))
id_text (negsuc n) s = s

start-text :
    (j : Jid) (tag s : Text) → append_start_tag_attr [] j tag ++ s ≡ b'<' ∷ (tag ++ id_text j s)
unfolding append_start_tag_attr id_text
start-text (negsuc n) tag s = refl
start-text (pos n) tag s = elim (Bool-cases (n == 0)) [
  | inl e ↦ rw e refl
  | inr e ↦ let z : n ≢ 0 = ground (arith, e) in rw (e, string-prefix n z) (simp append_assoc)
]

whole_text :
    (j : Jid) (tag type_attr value_attr rest : Text)
    → append_html_tag [] j tag type_attr value_attr [] ++ rest
      ≡ b'<'
        ∷ (tag
            ++ id_text j (
                given_text
                  (codes "type")
                  type_attr
                  (given_text (codes "value") value_attr (b'>' ∷ rest))))
unfolding append_html_tag append_attrs
whole_text j tag ty va rest =
    let b1 = append_start_tag_attr [] j tag in
    let b2 = append_given b1 (codes "type") ty in
    append_assoc (append_given b2 (codes "value") va) (b'>' ∷ []) rest
    ∙ append_given-text b2 (codes "value") va (b'>' ∷ rest)
    ∙ append_given-text b1 (codes "type") ty (given_text (codes "value") va (b'>' ∷ rest))
    ∙ start-text j tag (given_text (codes "type") ty (given_text (codes "value") va (b'>' ∷ rest)))

-- A text that a tag's name or an attribute can stand before.
abbrev IsNext : Text → Type 0
IsNext [] = ⊥
IsNext (c ∷ s) = ((c == b' ') ≡ true) ⊎ ((c == b'>') ≡ true)

given_text-IsNext : (name value s : Text) → IsNext s → IsNext (given_text name value s)
given_text-IsNext name [] s h = h
given_text-IsNext name (c ∷ v) s h = inl refl

id_text-IsNext : (j : Jid) (s : Text) → IsNext s → IsNext (id_text j s)
unfolding id_text
id_text-IsNext (negsuc n) s h = h
id_text-IsNext (pos n) s h = elim (Bool-cases (n == 0)) [ inl e ↦ rw e h | inr e ↦ rw e (inl refl) ]

-- After the name of the tag it is read on as after a value.
name_end :
    (n : Text) (t : StartTag) (s : Text)
    → IsNext s
    → read (in_name n) t s ≡ read after_value (record t { name = n }) s
unfolding read
name_end n t [] h = absurd h
name_end n t (c ∷ s) h = ground (arith, h)

no_more :
    (t : StartTag) (s : Text)
    → read after_value t s ≡ read after_value (record t { attributes = t.attributes ++ [] }) s
no_more t s =
    ap (λ l. read after_value (record t { attributes = l }) s) (sym (append-nil t.attributes))

attribute_read :
    (t : StartTag) (name value s : Text)
    → IsGiven name
    → read after_value t (given_text name value s)
      ≡ read after_value (record t { attributes = t.attributes ++ given name value }) s
unfolding read
attribute_read t name [] s g = no_more t s
attribute_read t name (c ∷ v) s type_name = value_read (codes "type") [] (c ∷ v) t s
attribute_read t name (c ∷ v) s value_name = value_read (codes "value") [] (c ∷ v) t s

id_read :
    (t : StartTag) (j : Jid) (s : Text)
    → read after_value t (id_text j s)
      ≡ read after_value (record t { attributes = t.attributes ++ identity j }) s
unfolding id_text read
id_read t (negsuc n) s = no_more t s
id_read t (pos n) s = elim (Bool-cases (n == 0)) [
  | inl e ↦ rw e (no_more t s)
  | inr e ↦ rw e (
      plain_value (codes "id") [] (Jid.string (pos n)) t s (contains-string n b'"' refl refl)
        (contains-string n b'&' refl refl) (contains-string n b'\r' refl refl)
        (contains-string n 0 refl refl))
]

last_read :
    (tag : Text) (attributes : List (Text × Text)) (rest : Text)
    → read after_value (record { name = tag; attributes = attributes }) (b'>' ∷ rest)
      ≡ some (record { name = tag; attributes = attributes }, rest)
unfolding read
last_read tag attributes rest = refl

start_read :
    (tag s : Text)
    → IsTagName tag
    → read_start_tag (b'<' ∷ (tag ++ s))
      ≡ read (in_name (map lower tag)) (record { name = []; attributes = [] }) s
unfolding read_start_tag
start_read [] s h = absurd h
start_read (c ∷ w) s h = rw h.0 (name_read [] (c ∷ w) (record { name = []; attributes = [] }) s h.1)

-- Let the name of a tag start with an ASCII letter and hold no white space, slash, `>`, `<`, quote or
-- NUL, and let there be no raw attributes. Whatever the type and the value are, the HTML tokenizer
-- reads the start tag that is written as a tag of this name in lower case with, in this order, the id
-- of a positive Jid, the type and the value as they were given, NUL replaced by U+FFFD, where an empty
-- one is left out; and the tag ends where it was written to end.
pub append_html_tag-read_start_tag :
    (j : Jid) (tag type_attr value_attr rest : Text)
    → IsTagName tag
    → read_start_tag (append_html_tag [] j tag type_attr value_attr [] ++ rest)
      ≡ some (
        record {
          name = map lower tag;
          attributes =
              identity j ++ (given (codes "type") type_attr ++ given (codes "value") value_attr);
        },
        rest,
      )
append_html_tag-read_start_tag j tag ty va rest h =
    let s3 = b'>' ∷ rest in
    let s2 = given_text (codes "value") va s3 in
    let s1 = given_text (codes "type") ty s2 in
    let n = map lower tag in
    let t0 : StartTag = record { name = n; attributes = [] } in
    let t1 : StartTag = record { name = n; attributes = identity j } in
    let t2 : StartTag = record { name = n; attributes = identity j ++ given (codes "type") ty } in
    let next = id_text-IsNext j s1 (
      given_text-IsNext (codes "type") ty s2
        (given_text-IsNext (codes "value") va s3 (inr refl))) in
    ap read_start_tag (whole_text j tag ty va rest)
    ∙ start_read tag (id_text j s1) h
    ∙ name_end n (record { name = []; attributes = [] }) (id_text j s1) next
    ∙ id_read t0 j s1
    ∙ attribute_read t1 (codes "type") ty s2 type_name
    ∙ attribute_read t2 (codes "value") va s3 value_name
    ∙ last_read n ((identity j ++ given (codes "type") ty) ++ given (codes "value") va) rest
    ∙ ap (λ l. some (record { name = n; attributes = l }, rest))
        (append_assoc (identity j) (given (codes "type") ty) (given (codes "value") va))
