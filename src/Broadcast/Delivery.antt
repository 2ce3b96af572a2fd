-- ===== src/Broadcast/Delivery.antt =====
-- Which broadcasts change a Request, and what a Delete leaves.
use jaws.Base.{
  ℕ, List, [], ◌∷◌, ◌++◌, map, Option, none, false, ◌&&◌, ◌||◌, if◌then◌else◌, contains, ◌≡◌, refl,
  arith, Option-cases, inl, inr,
}
use jaws.Strconv.{Text}
use jaws.What.{What}
use jaws.Request.{Request, WsMsg, ref, Tag}
use jaws.Elements.{map_of, tagged, delete_element, get_element_by_jid}
use jaws.Elements.Collect.{get_elements, collect_tagged, add_unseen}
use jaws.Elements.Invariant.{IsConsistent}
use jaws.Broadcast.{
  Dest, nowhere, request, tag, tags, Message, has_key, has_any, want_message, is_global, is_call,
  is_own, todo, queue_for, handle_all, handle_broadcast,
}

tagged-none : (rq : Request) (t : Tag) → has_key rq t ≡ false → tagged (map_of rq.tag_map) t ≡ []
unfolding has_key
tagged-none rq t h = elim (Option-cases (map_of rq.tag_map t)) [
  | inl e ↦ rw e refl
  | inr (js, e) ↦ absurd (ground (arith, h, e))
]

collect_tagged-none :
    (rq : Request) (seen : List ℕ) (ts : List Tag)
    → has_any rq ts ≡ false
    → collect_tagged (map_of rq.tag_map) seen ts ≡ seen
unfolding has_any collect_tagged add_unseen
collect_tagged-none rq seen [] h = refl
collect_tagged-none rq seen (t ∷ ts) h =
    rw (tagged-none rq t (ground (arith, h))) (collect_tagged-none rq seen ts (ground (arith, h)))

get_elements-none : (rq : Request) (ts : List Tag) → has_any rq ts ≡ false → get_elements rq ts ≡ []
unfolding has_any get_elements
get_elements-none rq [] h = refl
get_elements-none rq (t ∷ []) h = tagged-none rq t (ground (arith, h))
get_elements-none rq (t ∷ u ∷ ts) h = collect_tagged-none rq [] (t ∷ u ∷ ts) h

todo-none :
    (rq : Request) (dest : Dest) (w : What) (text : Text)
    → want_message rq (record { dest = dest; what = w; text = text }) ≡ false
    → todo rq dest ≡ []
unfolding want_message todo has_any
todo-none rq nowhere w text h = refl
todo-none rq (request k) w text h = refl
todo-none rq (tag t) w text h = get_elements-none rq (t ∷ []) (ground (arith, h))
todo-none rq (tags ts) w text h = get_elements-none rq ts h

-- A broadcast that the Request does not want, and that is not for a whole page or Request, would
-- change nothing if it were handled: the filter in front of the queue loses nothing.
pub want_message-handle_broadcast :
    (hook : ℕ → Text → Option Text) (rq : Request) (msg : Message)
    → (is_global msg.what || (is_call msg.what && is_own msg.dest)) ≡ false
    → want_message rq msg ≡ false
    → handle_broadcast hook rq msg ≡ (rq, [])
unfolding handle_broadcast handle_all
want_message-handle_broadcast hook rq msg g h =
    rw (g, todo-none rq msg.dest msg.what msg.text h) refl

abbrev pub deletion : ℕ → WsMsg
deletion j = record { data_text = []; jid = j; what = What.delete }

-- What a Delete leaves of a Request, for the Elements of the list.
pub record IsDeletion (rq after : Request) (js : List ℕ) : Type 0 where
  pub consistent : IsConsistent after
  pub found :
      (k : ℕ)
      → get_element_by_jid after k ≡ (if contains js k then none else get_element_by_jid rq k)
  pub queued : after.ws_queue ≡ rq.ws_queue ++ map deletion js

delete_one : Request → ℕ → Request
delete_one rq j = delete_element (queue_for rq j What.delete []) (ref rq.identity j)
