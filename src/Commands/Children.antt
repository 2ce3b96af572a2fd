-- ===== src/Commands/Children.antt =====
-- The calls that take a child: which children they refuse, and what a removal sends and deletes.
use jaws.Base.{
  ℕ, ◌∷◌, ◌++◌, Option, none, some, Bool, true, false, not, ◌&&◌, ◌==◌, if◌then◌else◌, contains,
  All-contains, ◌≡◌, refl, ap, arith,
}
use jaws.Strconv.{Text}
use jaws.What.{What}
use jaws.Request.{Request, ElementRef, null, ref, WsMsg}
use jaws.Elements.{delete_element}
use jaws.Elements.Invariant.{IsConsistent}
use jaws.Elements.Search.{get_element_by_jid-contains}
use jaws.Outbox.{queue, element_queue}
use jaws.Commands.{
  Misuse, Detail, child_detail, valid_child_element, child_id, judged, queued, insert_before,
  remove,
}

-- The child is another registered Element of the same Request.
unfoldable pub is_child : Request → ℕ → ElementRef → Bool
is_child rq elem null = false
is_child rq elem (ref r child) =
    (r == rq.identity) && not (child == elem) && contains rq.elems child

abbrev pub is_reported : Option Misuse → Bool
is_reported none = false
is_reported (some m) = true

is_none : Option Detail → Bool
is_none none = true
is_none (some d) = false

child_detail-is_child :
    (rq : Request) (elem : ℕ) (child : ElementRef)
    → IsConsistent rq
    → is_none (child_detail rq elem child) ≡ is_child rq elem child
unfolding child_detail is_child is_none
child_detail-is_child rq elem null v = refl
child_detail-is_child rq elem (ref r child) v =
    rw (get_element_by_jid-contains rq child v.sorted)
      (ground (arith, All-contains (λ j. rq.deleted j ≡ false) rq.elems child v.live))

judged_lem :
    (d : Bool) (detail : Option Detail) (ok : Bool)
    → is_none detail ≡ ok
    → ((judged d detail).0 ≡ (not d && ok)) × (is_reported (judged d detail).1 ≡ (not d && not ok))
unfolding judged is_none
judged_lem true detail ok h = (refl, refl)
judged_lem false none ok h = (h, ap not h)
judged_lem false (some x) ok h = (h, ap not h)

valid_child_element_lem :
    (rq : Request) (elem : ℕ) (child : ElementRef)
    → IsConsistent rq
    → ((valid_child_element rq elem child).0 ≡ (not (rq.deleted elem) && is_child rq elem child))
      × (is_reported (valid_child_element rq elem child).1
          ≡ (not (rq.deleted elem) && not (is_child rq elem child)))
unfolding valid_child_element
valid_child_element_lem rq elem child v =
    judged_lem (rq.deleted elem) (child_detail rq elem child) (is_child rq elem child)
      (child_detail-is_child rq elem child v)

abbrev pub message : ℕ → What → Text → WsMsg
message elem wht text = record { data_text = text; jid = elem; what = wht }

-- In a consistent registry InsertBefore and Remove act exactly if the parent is not deleted and the child is another registered Element of the same Request. InsertBefore then queues one message for the parent; Remove queues one and deletes the child. Otherwise the Request stays as it is, and a misuse is reported exactly if the parent is not deleted.
pub remove_refused :
    (rq : Request) (elem : ℕ) (child : ElementRef) (html : Text)
    → IsConsistent rq
    → let live = not (rq.deleted elem) in
      let ok = live && is_child rq elem child in
      ((insert_before rq elem child html).0
        ≡ (if ok then queue rq (message elem What.insert (child_id child ++ b'\n' ∷ html)) else rq))
      × ((remove rq elem child).0 ≡ (
          if ok
          then delete_element (queue rq (message elem What.remove (child_id child))) child
          else rq))
      × (is_reported (insert_before rq elem child html).1 ≡ (live && not (is_child rq elem child)))
      × (is_reported (remove rq elem child).1 ≡ (live && not (is_child rq elem child)))
unfolding insert_before remove queued element_queue
remove_refused rq elem child html v =
    let e = valid_child_element_lem rq elem child v in ground (arith, e.0, e.1)
