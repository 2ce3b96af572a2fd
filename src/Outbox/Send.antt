-- ===== src/Outbox/Send.antt =====
-- What a drain of the outbound queue sends, and in which order.
use jaws.Base.{
  ℕ, ◌≤◌, List, [], ◌∷◌, Bool, true, false, not, ◌&&◌, ◌||◌, ◌==◌, contains, delete_func, ◌≡◌, refl,
  ap, ◌∙◌, arith,
}
use jaws.What.{What}
use jaws.Request.{Request, WsMsg}
use jaws.Outbox.{keeps, insert_msg, sort_msgs, get_send_msgs}

-- The Jids do not fall, from `lo` on.
abbrev pub Ascends : ℕ → List WsMsg → Type 0
Ascends lo [] = Unit
Ascends lo (m ∷ ms) = (lo ≤ m.jid) × Ascends m.jid ms

-- The messages with one Jid, in order.
abbrev pub addressed : ℕ → List WsMsg → List WsMsg
addressed k ms = delete_func ms (λ m. not (m.jid == k))

-- Deletions and orders of children are sent to any Jid.
abbrev pub to_any : What → Bool
to_any What.delete = true
to_any What.order = true
to_any _ = false

-- The message is for the page as a whole, for any Jid, or for an Element that is registered and not
-- deleted.
abbrev pub is_sendable : Request → WsMsg → Bool
is_sendable rq m =
    (m.jid == 0) || to_any m.what || (contains rq.elems m.jid && not (rq.deleted m.jid))

keeps_lem : (rq : Request) (m : WsMsg) → keeps rq m ≡ is_sendable rq m
unfolding keeps
keeps_lem rq m = ground (arith, m.what)

delete_func-keeps :
    (rq : Request) (ms : List WsMsg)
    → delete_func ms (λ m. not (keeps rq m)) ≡ delete_func ms (λ m. not (is_sendable rq m))
delete_func-keeps rq [] = refl
delete_func-keeps rq (m ∷ ms) = rw (keeps_lem rq m, delete_func-keeps rq ms) refl

Ascends-insert_msg :
    (lo : ℕ) (m : WsMsg) (ns : List WsMsg)
    → lo ≤ m.jid
    → Ascends lo ns
    → Ascends lo (insert_msg m ns)
unfolding insert_msg
Ascends-insert_msg lo m [] h a = (h, tt)
Ascends-insert_msg lo m (n ∷ ns) h a = ground (arith, Ascends-insert_msg n.jid m ns)

Ascends-sort_msgs : (ms : List WsMsg) → Ascends 0 (sort_msgs ms)
unfolding sort_msgs
Ascends-sort_msgs [] = tt
Ascends-sort_msgs (m ∷ ms) =
    Ascends-insert_msg 0 m (sort_msgs ms) (omega arith) (Ascends-sort_msgs ms)

addressed-insert_msg :
    (k : ℕ) (m : WsMsg) (ns : List WsMsg) → addressed k (insert_msg m ns) ≡ addressed k (m ∷ ns)
unfolding insert_msg
addressed-insert_msg k m [] = refl
addressed-insert_msg k m (n ∷ ns) = ground (arith, addressed-insert_msg k m ns)

addressed-sort_msgs : (k : ℕ) (ms : List WsMsg) → addressed k (sort_msgs ms) ≡ addressed k ms
unfolding sort_msgs
addressed-sort_msgs k [] = refl
addressed-sort_msgs k (m ∷ ms) =
    ground (arith, addressed-insert_msg k m (sort_msgs ms), addressed-sort_msgs k ms)

pub addressed-get_send_msgs :
    (rq : Request) (k : ℕ)
    → addressed k (get_send_msgs rq).1
      ≡ addressed k (delete_func rq.ws_queue (λ m. not (keeps rq m)))
unfolding get_send_msgs
addressed-get_send_msgs rq k =
    addressed-sort_msgs k (delete_func rq.ws_queue (λ m. not (keeps rq m)))

-- A drain empties the queue, changes nothing else of the Request, and sends in ascending Jid order.
-- For each Jid it sends, in the order in which they were queued, exactly those queued messages that
-- are for Jid 0, or are a Delete or an Order, or are for an Element that is registered and not deleted.
pub get_send_msgs_lem :
    (rq : Request)
    → ((get_send_msgs rq).0 ≡ record rq { ws_queue = [] })
      × Ascends 0 (get_send_msgs rq).1
      × ((k : ℕ)
          → addressed k (get_send_msgs rq).1
            ≡ addressed k (delete_func rq.ws_queue (λ m. not (is_sendable rq m))))
unfolding get_send_msgs
get_send_msgs_lem rq = (
  refl,
  Ascends-sort_msgs (delete_func rq.ws_queue (λ m. not (keeps rq m))),
  λ k. addressed-get_send_msgs rq k ∙ ap (addressed k) (delete_func-keeps rq rq.ws_queue),
)
