-- ===== src/Outbox.antt =====
-- The outbound queue of a Request: requestloop.go (queue, getSendMsgs) and element.go (queue).
pub mod Send
use jaws.Base.{
  ℕ, List, [], ◌∷◌, ◌++◌, Bool, true, false, not, ◌&&◌, ◌||◌, ltb, ◌==◌, if◌then◌else◌, delete_func,
  contains,
}
use jaws.Strconv.{Text}
use jaws.What.{What, what_eq}
use jaws.Request.{Request, WsMsg}

-- Request.queue.
unfoldable pub queue : Request → WsMsg → Request
queue rq msg = record rq { ws_queue = rq.ws_queue ++ msg ∷ [] }

-- Element.queue: nothing once the Element is deleted; the flag tells whether it was queued.
unfoldable pub element_queue : Request → ℕ → What → Text → Request × Bool
unfolding queue
element_queue rq j what text =
    if rq.deleted j
    then (rq, false)
    else (queue rq (record { data_text = text; jid = j; what = what }), true)

-- validJids: the Jids of the registered Elements that are not deleted.
unfoldable pub valid_jid : Request → ℕ → Bool
valid_jid rq j = contains rq.elems j && not (rq.deleted j)

-- The messages that getSendMsgs keeps.
unfoldable pub keeps : Request → WsMsg → Bool
unfolding valid_jid
keeps rq msg =
    ltb msg.jid 1
    || what_eq msg.what What.delete
    || what_eq msg.what What.order
    || valid_jid rq msg.jid

-- slices.SortStableFunc by Jid, as a stable insertion sort.
unfoldable pub insert_msg : WsMsg → List WsMsg → List WsMsg
insert_msg m [] = m ∷ []
insert_msg m (n ∷ ns) = if ltb n.jid m.jid then n ∷ insert_msg m ns else m ∷ n ∷ ns

unfoldable pub sort_msgs : List WsMsg → List WsMsg
unfolding insert_msg
sort_msgs [] = []
sort_msgs (m ∷ ms) = insert_msg m (sort_msgs ms)

-- getSendMsgs: the Request with an empty queue, and what to send.
unfoldable pub get_send_msgs : Request → Request × List WsMsg
unfolding sort_msgs keeps
get_send_msgs rq =
    (record rq { ws_queue = [] }, sort_msgs (delete_func rq.ws_queue (λ m. not (keeps rq m))))
