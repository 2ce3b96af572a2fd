-- ===== src/Broadcast.antt =====
-- What a Request does with a broadcast: request.go (wantMessage) and requestloop.go
-- (handleBroadcast). Tags stand expanded.
pub mod Delivery
use jaws.Base.{
  ℕ, List, [], ◌∷◌, ◌++◌, Option, none, some, Bool, true, false, not, ◌&&◌, ◌||◌, ◌==◌,
  if◌then◌else◌,
}
use jaws.Strconv.{Text}
use jaws.What.{What}
use jaws.Request.{Request, WsMsg, ElementRef, ref, Tag, registered}
use jaws.Elements.{map_of, delete_element}
use jaws.Elements.Collect.{get_elements}
use jaws.Outbox.{queue}
use jaws.Events.{Call, resolve}

-- The destination of a wire.Message: nil, the key of a Request, a tag or several tags.
pub data Dest : Type 0 where
  nowhere : Dest
  request : ℕ → Dest
  tag : Tag → Dest
  tags : List Tag → Dest

-- wire.Message.
pub record Message : Type 0 where
  pub dest : Dest
  pub what : What
  pub text : Text

has_key : Request → Tag → Bool
has_key rq t = elim (map_of rq.tag_map t) [ none ↦ false | some js ↦ true ]

has_any : Request → List Tag → Bool
unfolding has_key
has_any rq [] = false
has_any rq (t ∷ ts) = has_key rq t || has_any rq ts

-- wantMessage. No Element has the tag nil.
unfoldable pub want_message : Request → Message → Bool
unfolding has_key has_any
want_message rq msg = elim msg.dest [
  | nowhere ↦ false
  | request k ↦ registered rq.state && (rq.jaws_key == k)
  | tag t ↦ has_key rq t
  | tags ts ↦ has_any rq ts
]

-- Reload, Redirect, Order and Alert are for the whole page.
abbrev pub is_global : What → Bool
is_global What.reload = true
is_global What.redirect = true
is_global What.order = true
is_global What.alert = true
is_global _ = false

abbrev pub is_call : What → Bool
is_call What.call = true
is_call _ = false

-- A nil destination or a key selects the Request itself.
abbrev pub is_own : Dest → Bool
is_own nowhere = true
is_own (request k) = true
is_own (tag t) = false
is_own (tags ts) = false

unfoldable pub todo : Request → Dest → List ℕ
todo rq nowhere = []
todo rq (request k) = []
todo rq (tag t) = get_elements rq (t ∷ [])
todo rq (tags ts) = get_elements rq ts

-- What leaves the Request but for its queue: an event to call, or an Element to update.
pub data Effect : Type 0 where
  called : Call → Effect
  updated : ℕ → Effect

abbrev pub queue_for : Request → ℕ → What → Text → Request
queue_for rq j w text = queue rq (record { data_text = text; jid = j; what = w })

-- One Element. `hook` calls its handlers: the text of the alert, if they fail.
unfoldable pub handle_one : (ℕ → Text → Option Text) → Message → Request → ℕ → Request × List Effect
handle_one hook msg rq j = elim msg.what [
  | What.delete ↦ (delete_element (queue_for rq j What.delete []) (ref rq.identity j), [])
  | What.input ↦ (rq, called (resolve rq j What.input msg.text) ∷ [])
  | What.click ↦ (rq, called (resolve rq j What.click msg.text) ∷ [])
  | What.context_menu ↦ (rq, called (resolve rq j What.context_menu msg.text) ∷ [])
  | What.hook ↦ elim (hook j msg.text) [
    | none ↦ (rq, [])
    | some alert ↦ (queue_for rq j What.alert alert, [])
  ]
  | What.update ↦ (rq, updated j ∷ [])
  | w ↦ (queue_for rq j w msg.text, [])
]

unfoldable pub handle_all :
    (ℕ → Text → Option Text) → Message → Request → List ℕ → Request × List Effect
handle_all hook msg rq [] = (rq, [])
handle_all hook msg rq (j ∷ js) =
    let (rq', first) = handle_one hook msg rq j in
    let (rq'', rest) = handle_all hook msg rq' js in (rq'', first ++ rest)

-- handleBroadcast.
unfoldable pub handle_broadcast :
    (ℕ → Text → Option Text) → Request → Message → Request × List Effect
handle_broadcast hook rq msg =
    if is_global msg.what || (is_call msg.what && is_own msg.dest)
    then (queue_for rq 0 msg.what msg.text, [])
    else handle_all hook msg rq (todo rq msg.dest)
