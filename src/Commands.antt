-- ===== src/Commands.antt =====
-- element.go: the calls by which a widget changes its HTML node, and broadcast.go: the payload of a
-- JavaScript call. A call returns the Request and the misuse that it reports, if any; debug builds
-- panic then.
pub mod Children
pub mod Removal
pub mod Reserved
pub mod Ordering
use jaws.Base.{
  ℕ, List, [], ◌∷◌, ◌++◌, Option, none, some, Bool, true, false, not, ◌&&◌, ◌||◌, ◌==◌,
  if◌then◌else◌,
}
use jaws.Strconv.{Text}
use jaws.Bytes.{equal_fold, contains_text, replace}
use jaws.Jid
use jaws.What.{What}
use jaws.Request.{Request, ElementRef, null, ref}
use jaws.Elements.{get_element_by_jid, delete_element}
use jaws.Outbox.{element_queue}

-- The texts of validChildElement.
pub data Detail : Type 0 where
  child_is_nil child_is_parent other_request child_is_deleted not_registered : Detail

-- What is passed to reportMisuse.
pub data Misuse : Type 0 where
  reserved_attribute : Text → Misuse
  invalid_child : Detail → Misuse
  expected_html : Text → Misuse

-- isReservedAttr.
unfoldable pub is_reserved_attr : Text → Bool
is_reserved_attr attr = equal_fold attr (b'i' ∷ b'd' ∷ [])

abbrev report : Request → Misuse → Request × Option Misuse
report rq m = (rq, some m)

-- A call of Element.queue whose result is not used.
unfoldable pub queued : Request → ℕ → What → Text → Request × Option Misuse
unfolding element_queue
queued rq elem wht text = ((element_queue rq elem wht text).0, none)

unfoldable pub set_attr : Request → ℕ → Text → Text → Request × Option Misuse
unfolding is_reserved_attr queued
set_attr rq elem attr value =
    if is_reserved_attr attr
    then report rq (reserved_attribute attr)
    else queued rq elem What.s_attr (attr ++ b'\n' ∷ value)

unfoldable pub remove_attr : Request → ℕ → Text → Request × Option Misuse
unfolding is_reserved_attr queued
remove_attr rq elem attr =
    if is_reserved_attr attr
    then report rq (reserved_attribute attr)
    else queued rq elem What.r_attr attr

unfoldable pub set_class : Request → ℕ → Text → Request × Option Misuse
unfolding queued
set_class rq elem cls = queued rq elem What.s_class cls

unfoldable pub remove_class : Request → ℕ → Text → Request × Option Misuse
unfolding queued
remove_class rq elem cls = queued rq elem What.r_class cls

unfoldable pub set_inner : Request → ℕ → Text → Request × Option Misuse
unfolding queued
set_inner rq elem inner_html = queued rq elem What.inner inner_html

unfoldable pub set_value : Request → ℕ → Text → Request × Option Misuse
unfolding queued
set_value rq elem value = queued rq elem What.value value

unfoldable pub append_child : Request → ℕ → Text → Request × Option Misuse
unfolding queued
append_child rq elem html_code = queued rq elem What.append html_code

-- The text `id="Jid.N"`.
unfoldable pub id_text : ℕ → Text
unfolding Jid.append_quote
id_text elem = Jid.append_quote (b'i' ∷ b'd' ∷ b'=' ∷ []) (Jid.pos elem)

-- Replace: the new node must bear the id.
unfoldable pub replace_node : Request → ℕ → Text → Request × Option Misuse
unfolding id_text queued
replace_node rq elem html_code =
    if rq.deleted elem
    then (rq, none)
    else if contains_text html_code (id_text elem)
    then queued rq elem What.replace html_code
    else report rq (expected_html (id_text elem))

-- The loop of Order, behind the first id.
unfoldable pub append_ids : Text → List ℕ → Text
unfolding Jid.append
append_ids b [] = b
append_ids b (j ∷ js) = append_ids (Jid.append (b ++ b' ' ∷ []) (Jid.pos j)) js

unfoldable pub order : Request → ℕ → List ℕ → Request × Option Misuse
unfolding append_ids queued
order rq elem [] = (rq, none)
order rq elem (j ∷ js) = queued rq elem What.order (append_ids (Jid.append [] (Jid.pos j)) js)

-- What is wrong with a child of a live Element, in the order of the tests.
unfoldable pub child_detail : Request → ℕ → ElementRef → Option Detail
unfolding get_element_by_jid
child_detail rq elem null = some child_is_nil
child_detail rq elem (ref r child) =
    if (r == rq.identity) && (child == elem)
    then some child_is_parent
    else if not (r == rq.identity)
    then some other_request
    else if rq.deleted child
    then some child_is_deleted
    else elim (get_element_by_jid rq child) [
      | none ↦ some not_registered
      | some found ↦ if found == child then none else some not_registered
    ]

unfoldable pub judged : Bool → Option Detail → Bool × Option Misuse
judged true detail = (false, none)
judged false none = (true, none)
judged false (some detail) = (false, some (invalid_child detail))

-- validChildElement, with what it reports.
unfoldable pub valid_child_element : Request → ℕ → ElementRef → Bool × Option Misuse
unfolding child_detail judged
valid_child_element rq elem child = judged (rq.deleted elem) (child_detail rq elem child)

-- child.Jid().String().
unfoldable pub child_id : ElementRef → Text
unfolding Jid.string
child_id null = []
child_id (ref r child) = Jid.string (Jid.pos child)

unfoldable pub insert_before : Request → ℕ → ElementRef → Text → Request × Option Misuse
unfolding valid_child_element child_id queued
insert_before rq elem child html_code =
    let (ok, misuse) = valid_child_element rq elem child in
    if ok then queued rq elem What.insert (child_id child ++ b'\n' ∷ html_code) else (rq, misuse)

-- Element.Remove: the child is deleted if the message was queued.
unfoldable pub remove : Request → ℕ → ElementRef → Request × Option Misuse
unfolding valid_child_element child_id element_queue delete_element
remove rq elem child =
    let (ok, misuse) = valid_child_element rq elem child in
    if ok
    then (let (rq', sent) = element_queue rq elem What.remove (child_id child) in
        (if sent then delete_element rq' child else rq', none))
    else (rq, misuse)
