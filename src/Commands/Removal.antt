-- ===== src/Commands/Removal.antt =====
-- Element.Remove and the drain of the outbound queue behind it.
use jaws.Base.{
  ℕ, append-nil, ◌<◌, List, [], ◌∷◌, ◌++◌, none, Bool, true, false, not, ◌&&◌, ◌||◌, ltb, ◌==◌,
  if◌then◌else◌, contains, delete_func, delete_func-append, All-contains, ==_refl, contains_below,
  ◌≡◌, refl, sym, ap, ◌∙◌, arith,
}
use jaws.What.{What, what_eq}
use jaws.Request.{Request, ref, WsMsg}
use jaws.Elements.{get_element_by_jid, delete_element, remove_elements}
use jaws.Elements.Invariant.{IsConsistent}
use jaws.Elements.Deletion.{delete_element-IsConsistent}
use jaws.Elements.Search.{get_element_by_jid-contains}
use jaws.Elements.Effects.{delete_element_lem}
use jaws.Outbox.{queue, keeps, valid_jid, get_send_msgs}
use jaws.Outbox.Send.{addressed, addressed-get_send_msgs}
use jaws.Commands.{child_id, remove}
use jaws.Commands.Children.{is_child, message, remove_refused}

queue-IsConsistent : {rq : Request} (m : WsMsg) → IsConsistent rq → IsConsistent (queue rq m)
unfolding queue
queue-IsConsistent m v = record {
  sorted = v.sorted;
  allocated = v.allocated;
  live = v.live;
  tags = v.tags;
  dirt = v.dirt;
  whole = v.whole;
  held = v.held;
}

valid_jid-contains : (rq : Request) (j : ℕ) → IsConsistent rq → valid_jid rq j ≡ contains rq.elems j
unfolding valid_jid
valid_jid-contains rq j v =
    ground (arith, All-contains (λ j. rq.deleted j ≡ false) rq.elems j v.live)

contains-delete_element :
    (rq : Request) (k l : ℕ)
    → IsConsistent rq
    → contains (delete_element rq (ref rq.identity k)).elems l
      ≡ (not (l == k) && contains rq.elems l)
contains-delete_element rq k l v =
    let v' = delete_element-IsConsistent (ref rq.identity k) v in
    let (_, found, _, _) = delete_element_lem rq k v in
    ground (
      arith,
      found l,
      get_element_by_jid-contains rq l v.sorted,
      get_element_by_jid-contains (delete_element rq (ref rq.identity k)) l v'.sorted,
    )

addressed-delete_func :
    (f g : WsMsg → Bool) (j : ℕ) (ms : List WsMsg)
    → ((m : WsMsg) → m.jid ≡ j → f m ≡ g m)
    → addressed j (delete_func ms f) ≡ addressed j (delete_func ms g)
addressed-delete_func f g j [] h = refl
addressed-delete_func f g j (m ∷ ms) h = ground (arith, h m, addressed-delete_func f g j ms h)

-- The messages of one Jid that a drain sends.
sent : ℕ → Request → List WsMsg
sent j rq = addressed j (get_send_msgs rq).1

sent_lem :
    (rq : Request) (j : ℕ)
    → sent j rq ≡ addressed j (delete_func rq.ws_queue (λ m. not (keeps rq m)))
unfolding sent
sent_lem rq j = addressed-get_send_msgs rq j

sent-queued :
    (rq : Request) (j : ℕ) (queued : List WsMsg) (f : WsMsg → Bool)
    → rq.ws_queue ≡ queued
    → ((m : WsMsg) → m.jid ≡ j → keeps rq m ≡ not (f m))
    → sent j rq ≡ addressed j (delete_func queued f)
unfolding sent
sent-queued rq j queued f h k =
    addressed-get_send_msgs rq j
    ∙ ap (λ ms. addressed j (delete_func ms (λ m. not (keeps rq m)))) h
    ∙ addressed-delete_func (λ m. not (keeps rq m)) f j queued (λ m e. ground (arith, k m e))

ws_queue-delete_element :
    (rq : Request) (k : ℕ) → (delete_element rq (ref rq.identity k)).ws_queue ≡ rq.ws_queue
unfolding delete_element remove_elements
ws_queue-delete_element rq k = rw (==_refl rq.identity) refl

module _ (rq : Request) (elem child : ℕ) (msg : WsMsg) (v : IsConsistent rq) where
  after : Request
  unfolding queue
  after = delete_element (queue rq msg) (ref rq.identity child)

  valid_jid-after : (l : ℕ) → valid_jid after l ≡ (not (l == child) && contains rq.elems l)
  unfolding after queue
  valid_jid-after l =
      let v' = queue-IsConsistent msg v in
      valid_jid-contains after l (delete_element-IsConsistent (ref rq.identity child) v')
      ∙ contains-delete_element (queue rq msg) child l v'

  ws_queue-after : after.ws_queue ≡ rq.ws_queue ++ msg ∷ []
  unfolding after queue
  ws_queue-after = ws_queue-delete_element (queue rq msg) child

  valid_same : (child == elem) ≡ false → valid_jid after elem ≡ valid_jid rq elem
  valid_same d = ground (arith, valid_jid-after elem, valid_jid-contains rq elem v)

  keeps_same : (m : WsMsg) → (child == elem) ≡ false → m.jid ≡ elem → keeps after m ≡ keeps rq m
  unfolding keeps
  keeps_same m d h = rw h (
      ap (λ b. ltb elem 1 || what_eq m.what What.delete || what_eq m.what What.order || b)
        (valid_same d))

  keeps_own : msg.jid ≡ elem → contains rq.elems elem ≡ true → keeps rq msg ≡ true
  unfolding keeps
  keeps_own h e = ground (arith, h, valid_jid-contains rq elem v)

  own : msg.jid ≡ elem → addressed elem (msg ∷ []) ≡ msg ∷ []
  own h = ground (arith, h)

  foreign :
      (child == elem) ≡ false
      → msg.jid ≡ elem
      → addressed child (
          delete_func
            (msg ∷ [])
            (λ m. not (what_eq m.what What.delete || what_eq m.what What.order)))
        ≡ []
  foreign d h = ground (arith, h, d)

  keeps_child :
      (m : WsMsg)
      → 0 < child
      → m.jid ≡ child
      → keeps after m ≡ not (not (what_eq m.what What.delete || what_eq m.what What.order))
  unfolding keeps
  keeps_child m p h = ground (arith, h, p, valid_jid-after child)

  sent_parent :
      contains rq.elems elem ≡ true
      → (child == elem) ≡ false
      → msg.jid ≡ elem
      → sent elem after ≡ sent elem rq ++ msg ∷ []
  sent_parent e d j =
      sent-queued after elem (rq.ws_queue ++ msg ∷ []) (λ m. not (keeps rq m)) ws_queue-after
        (λ m h. ground (arith, keeps_same m d h))
      ∙ rw (delete_func-append rq.ws_queue (msg ∷ []) (λ m. not (keeps rq m)), keeps_own j e)
          (delete_func-append (delete_func rq.ws_queue (λ m. not (keeps rq m))) (msg ∷ [])
              (λ m. not (m.jid == elem))
            ∙ ap (λ l. addressed elem (delete_func rq.ws_queue (λ m. not (keeps rq m))) ++ l)
                (own j)
            ∙ ap (λ l. l ++ msg ∷ []) (sym (sent_lem rq elem)))

  sent_child :
      (0 < child)
      → (child == elem) ≡ false
      → msg.jid ≡ elem
      → sent child after
        ≡ addressed child (
            delete_func rq.ws_queue
              (λ m. not (what_eq m.what What.delete || what_eq m.what What.order)))
  sent_child p d j =
      let f : WsMsg → Bool = λ m. not (what_eq m.what What.delete || what_eq m.what What.order) in
      sent-queued after child (rq.ws_queue ++ msg ∷ []) f ws_queue-after (λ m h. keeps_child m p h)
      ∙ ap (addressed child) (delete_func-append rq.ws_queue (msg ∷ []) f)
      ∙ delete_func-append (delete_func rq.ws_queue f) (delete_func (msg ∷ []) f)
          (λ m. not (m.jid == child))
      ∙ ap (λ l. addressed child (delete_func rq.ws_queue f) ++ l) (foreign d j)
      ∙ append-nil (addressed child (delete_func rq.ws_queue f))

is_child-distinct :
    (rq : Request) (elem child : ℕ)
    → is_child rq elem (ref rq.identity child) ≡ true
    → ((child == elem) ≡ false) × (contains rq.elems child ≡ true)
unfolding is_child
is_child-distinct rq elem child c = ground (arith, c)

remove-after :
    (rq : Request) (elem child : ℕ)
    → IsConsistent rq
    → contains rq.elems elem ≡ true
    → is_child rq elem (ref rq.identity child) ≡ true
    → (remove rq elem (ref rq.identity child)).0
      ≡ delete_element
          (queue rq (message elem What.remove (child_id (ref rq.identity child))))
          (ref rq.identity child)
remove-after rq elem child v e c =
    let d : rq.deleted elem ≡ false =
      All-contains (λ j. rq.deleted j ≡ false) rq.elems elem v.live e in
    let (_, r, _, _) = remove_refused rq elem (ref rq.identity child) [] v in
    ground (arith, r, d, c)

found_after :
    (rq : Request) (child l : ℕ) (msg : WsMsg)
    → IsConsistent rq
    → get_element_by_jid (delete_element (queue rq msg) (ref rq.identity child)) l
      ≡ (if l == child then none else get_element_by_jid rq l)
unfolding queue get_element_by_jid
found_after rq child l msg v =
    let (_, found, _, _) = delete_element_lem (queue rq msg) child (queue-IsConsistent msg v) in
    found l

-- In a consistent registry, let Remove be called on a registered Element for a child that is another registered Element of the Request. Then the next drain sends for the Element what it would have sent before, in order, and behind it the Remove message with the id of the child. For the child it sends only the queued messages with the command Delete or Order. The child is no longer found by its Jid, and every other Element is found as before.
pub remove_send :
    (rq : Request) (elem child : ℕ)
    → IsConsistent rq
    → contains rq.elems elem ≡ true
    → is_child rq elem (ref rq.identity child) ≡ true
    → let rq' = (remove rq elem (ref rq.identity child)).0 in
      (addressed elem (get_send_msgs rq').1
        ≡ addressed elem (get_send_msgs rq).1
          ++ message elem What.remove (child_id (ref rq.identity child)) ∷ [])
      × (addressed child (get_send_msgs rq').1
          ≡ addressed child (
              delete_func rq.ws_queue
                (λ m. not (what_eq m.what What.delete || what_eq m.what What.order))))
      × ((l : ℕ)
          → get_element_by_jid rq' l ≡ (if l == child then none else get_element_by_jid rq l))
unfolding sent after
remove_send rq elem child v e c =
    let msg = message elem What.remove (child_id (ref rq.identity child)) in
    let (d, i) = is_child-distinct rq elem child c in
    let p : 0 < child = ground (arith, contains_below 0 rq.elems child v.sorted, i) in
    rw (remove-after rq elem child v e c) (
      sent_parent rq elem child msg v e d refl,
      sent_child rq elem child msg v p d refl,
      λ l. found_after rq child l msg v,
    )
