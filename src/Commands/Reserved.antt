-- ===== src/Commands/Reserved.antt =====
-- The attribute id, which carries the identity of an Element, is never set nor removed.
use jaws.Base.{
  ℕ, List, [], ◌∷◌, ◌++◌, Option, none, some, Bool, true, false, ◌&&◌, ◌||◌, ◌==◌, if◌then◌else◌,
  contains, All, All-append, ◌≡◌, refl, arith, Bool-cases, inl, inr,
}
use jaws.Strconv.{Text}
use jaws.Bytes.{cut, contains_text}
use jaws.What.{What, what_eq}
use jaws.Request.{Request, ElementRef, null, ref, WsMsg}
use jaws.Elements.{delete_element, remove_elements}
use jaws.Outbox.{queue, element_queue}
use jaws.Commands.{
  is_reserved_attr, queued, set_attr, remove_attr, set_class, remove_class, set_inner, set_value,
  append_child, replace_node, order, insert_before, remove, valid_child_element, child_id, id_text,
  Misuse, expected_html,
}

-- The four spellings of the name id in HTML, where names are compared without regard to ASCII case.
abbrev pub spells_id : Text → Bool
spells_id (c ∷ d ∷ []) = ((c == b'i') || (c == b'I')) && ((d == b'd') || (d == b'D'))
spells_id _ = false

-- The message sets or removes the attribute id: the attribute is the data up to its first newline.
abbrev pub names_id : WsMsg → Bool
names_id m =
    (what_eq m.what What.s_attr || what_eq m.what What.r_attr)
    && spells_id (cut m.data_text b'\n').0

abbrev pub Harmless : Request → Type 0
Harmless rq = All (λ m. names_id m ≡ false) rq.ws_queue

pub data Command : Type 0 where
  sets_attr : Text → Text → Command
  removes_attr : Text → Command
  sets_class removes_class sets_inner sets_value appends replaces : Text → Command
  orders : List ℕ → Command
  inserts : ElementRef → Text → Command
  removes : ElementRef → Command

unfoldable pub apply : Request → ℕ → Command → Request
unfolding set_attr remove_attr set_class remove_class set_inner set_value append_child replace_node
    order insert_before remove
apply rq elem (sets_attr attr value) = (set_attr rq elem attr value).0
apply rq elem (removes_attr attr) = (remove_attr rq elem attr).0
apply rq elem (sets_class cls) = (set_class rq elem cls).0
apply rq elem (removes_class cls) = (remove_class rq elem cls).0
apply rq elem (sets_inner html) = (set_inner rq elem html).0
apply rq elem (sets_value value) = (set_value rq elem value).0
apply rq elem (appends html) = (append_child rq elem html).0
apply rq elem (replaces html) = (replace_node rq elem html).0
apply rq elem (orders ids) = (order rq elem ids).0
apply rq elem (inserts child html) = (insert_before rq elem child html).0
apply rq elem (removes child) = (remove rq elem child).0

unfoldable pub apply_all : Request → List (ℕ × Command) → Request
unfolding apply
apply_all rq [] = rq
apply_all rq ((elem, c) ∷ cs) = apply_all (apply rq elem c) cs

-- The name of an attribute holds no newline.
abbrev pub IsOneLine : Command → Type 0
IsOneLine (sets_attr attr value) = contains attr b'\n' ≡ false
IsOneLine (removes_attr attr) = contains attr b'\n' ≡ false
IsOneLine _ = Unit

-- What the code refuses covers every spelling.
spells_id-refused : (s : Text) → is_reserved_attr s ≡ false → spells_id s ≡ false
unfolding is_reserved_attr
spells_id-refused [] h = refl
spells_id-refused (c ∷ []) h = refl
spells_id-refused (c ∷ d ∷ []) h = ground (arith, h)
spells_id-refused (c ∷ d ∷ e ∷ s) h = refl

cut_line : (s t : Text) → contains s b'\n' ≡ false → (cut (s ++ b'\n' ∷ t) b'\n').0 ≡ s
cut_line [] t h = refl
cut_line (c ∷ s) t h = ground (arith, h, cut_line s t)

cut_all : (s : Text) → contains s b'\n' ≡ false → (cut s b'\n').0 ≡ s
cut_all [] h = refl
cut_all (c ∷ s) h = ground (arith, h, cut_all s)

queued-Harmless :
    (rq : Request) (elem : ℕ) (wht : What) (text : Text)
    → names_id (record { data_text = text; jid = elem; what = wht }) ≡ false
    → Harmless rq
    → Harmless (queued rq elem wht text).0
unfolding queued element_queue queue
queued-Harmless rq elem wht text n h = elim (Bool-cases (rq.deleted elem)) [
  | inl e ↦ rw e h
  | inr e ↦ rw e (
      All-append (λ m. names_id m ≡ false) rq.ws_queue
        (record { data_text = text; jid = elem; what = wht } ∷ []) h (n, tt))
]

either-Harmless :
    (b : Bool) (x y : Request × Option Misuse)
    → Harmless x.0
    → Harmless y.0
    → Harmless (if b then x else y).0
either-Harmless true x y h k = h
either-Harmless false x y h k = k

one-Harmless : (b : Bool) (x y : Request) → Harmless x → Harmless y → Harmless (if b then x else y)
one-Harmless true x y h k = h
one-Harmless false x y h k = k

delete_element-Harmless :
    (rq : Request) (e : ElementRef) → Harmless rq → Harmless (delete_element rq e)
unfolding delete_element remove_elements
delete_element-Harmless rq null h = h
delete_element-Harmless rq (ref r j) h = elim (Bool-cases (r == rq.identity)) [
  | inl e ↦ rw e h
  | inr e ↦ rw e h
]

set_attr-Harmless :
    (rq : Request) (elem : ℕ) (attr value : Text)
    → contains attr b'\n' ≡ false
    → Harmless rq
    → Harmless (set_attr rq elem attr value).0
unfolding set_attr
set_attr-Harmless rq elem attr value n h = elim (Bool-cases (is_reserved_attr attr)) [
  | inl e ↦ rw e h
  | inr e ↦ rw e (
      queued-Harmless rq elem What.s_attr (attr ++ b'\n' ∷ value)
        (rw (cut_line attr value n) (spells_id-refused attr e)) h)
]

remove_attr-Harmless :
    (rq : Request) (elem : ℕ) (attr : Text)
    → contains attr b'\n' ≡ false
    → Harmless rq
    → Harmless (remove_attr rq elem attr).0
unfolding remove_attr
remove_attr-Harmless rq elem attr n h = elim (Bool-cases (is_reserved_attr attr)) [
  | inl e ↦ rw e h
  | inr e ↦
      rw e (
        queued-Harmless rq elem What.r_attr attr (rw (cut_all attr n) (spells_id-refused attr e)) h)
]

apply-Harmless :
    (rq : Request) (elem : ℕ) (c : Command) → IsOneLine c → Harmless rq → Harmless (apply rq elem c)
unfolding apply set_class remove_class set_inner set_value append_child replace_node order
    insert_before remove
apply-Harmless rq elem (sets_attr attr value) n h = set_attr-Harmless rq elem attr value n h
apply-Harmless rq elem (removes_attr attr) n h = remove_attr-Harmless rq elem attr n h
apply-Harmless rq elem (sets_class cls) n h = queued-Harmless rq elem What.s_class cls refl h
apply-Harmless rq elem (removes_class cls) n h = queued-Harmless rq elem What.r_class cls refl h
apply-Harmless rq elem (sets_inner html) n h = queued-Harmless rq elem What.inner html refl h
apply-Harmless rq elem (sets_value value) n h = queued-Harmless rq elem What.value value refl h
apply-Harmless rq elem (appends html) n h = queued-Harmless rq elem What.append html refl h
apply-Harmless rq elem (replaces html) n h =
    either-Harmless (rq.deleted elem) (rq, none) _ h
      (either-Harmless (contains_text html (id_text elem)) (queued rq elem What.replace html)
        (rq, some (expected_html (id_text elem))) (queued-Harmless rq elem What.replace html refl h)
        h)
apply-Harmless rq elem (orders []) n h = h
apply-Harmless rq elem (orders (j ∷ js)) n h = queued-Harmless rq elem What.order _ refl h
apply-Harmless rq elem (inserts child html) n h =
    let checked = valid_child_element rq elem child in
    either-Harmless checked.0 (queued rq elem What.insert (child_id child ++ b'\n' ∷ html))
      (rq, checked.1) (queued-Harmless rq elem What.insert (child_id child ++ b'\n' ∷ html) refl h)
      h
apply-Harmless rq elem (removes child) n h =
    let checked = valid_child_element rq elem child in
    let queue = element_queue rq elem What.remove (child_id child) in
    let q : Harmless queue.0 = queued-Harmless rq elem What.remove (child_id child) refl h in
    either-Harmless checked.0 (if queue.1 then delete_element queue.0 child else queue.0, none)
      (rq, checked.1)
      (one-Harmless queue.1 (delete_element queue.0 child) queue.0
        (delete_element-Harmless queue.0 child q) q)
      h

-- Let no queued message set or remove the attribute id. Then no history of the commands of Elements queues one that does, as long as the names of the attributes hold no newline; the attribute of a message is its data up to the first newline, and it is id in any of the spellings id, iD, Id and ID.
pub apply_all-Harmless :
    (rq : Request) (cs : List (ℕ × Command))
    → All (λ c. IsOneLine c.1) cs
    → Harmless rq
    → Harmless (apply_all rq cs)
unfolding apply_all
apply_all-Harmless rq [] n h = h
apply_all-Harmless rq ((elem, c) ∷ cs) n h =
    apply_all-Harmless (apply rq elem c) cs n.1 (apply-Harmless rq elem c n.0 h)
