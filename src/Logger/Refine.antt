-- ===== src/Logger/Refine.antt =====
-- The logger queue is the queue of its specification.
use jaws.Base.{
  ℕ, List, [], ◌∷◌, ◌++◌, map, none, some, Bool, true, false, contains, Distinct-append_one, ◌≡◌,
  refl, sym, ap, ◌∙◌, subst, if◌then◌else◌, ==_refl,
}
use jaws.Request.{update}
use jaws.Logger.{
  Item, Entry, last_entry, pop_head, dispatch, ended, waits, LoggerQueue, new_logger_queue,
  add_entry, enqueue, close_logger, pop, System, round, Op, logs, closes, rounds, step, run, start,
}
use jaws.Logger.Spec
use jaws.Logger.Chain.{
  Holds, Links-append_one, Links-update, items-link, items-update, item, first, last,
  first-append_one, last-append_one, fresh, made_append_one,
}

map-append : (f : ℕ → Item) (xs ys : List ℕ) → map f (xs ++ ys) ≡ map f xs ++ map f ys
map-append f [] ys = refl
map-append f (x ∷ xs) ys = ap (λ l. f x ∷ l) (map-append f xs ys)

add_entry-Holds :
    (q : LoggerQueue) (nodes : List ℕ) (logger err : ℕ)
    → Holds q nodes
    → Holds (add_entry q logger err) (nodes ++ q.next_entry ∷ [])
unfolding add_entry
add_entry-Holds q nodes logger err h =
    let e = q.next_entry in
    let x : Entry = record { logger = logger; err = err; next = none } in
    let f : contains nodes e ≡ false = fresh e nodes h.made in
    record {
      head = rw (h.tail, h.head) (first-append_one nodes e);
      tail = sym (last-append_one nodes e);
      links = rw h.tail (
          Links-append_one (update q.store e x) e nodes h.once f (rw (==_refl e) refl)
            (Links-update q.store e x nodes f h.links));
      once = Distinct-append_one nodes e h.once f;
      made = made_append_one e nodes h.made;
    }

items-add_entry :
    (q : LoggerQueue) (nodes : List ℕ) (logger err : ℕ)
    → Holds q nodes
    → map (item (add_entry q logger err).store) (nodes ++ q.next_entry ∷ [])
      ≡ map (item q.store) nodes ++ (logger, err) ∷ []
unfolding add_entry
items-add_entry q nodes logger err h =
    let e = q.next_entry in
    let x : Entry = record { logger = logger; err = err; next = none } in
    items-link (update q.store e x) q.tail e (nodes ++ e ∷ [])
    ∙ map-append (item (update q.store e x)) nodes (e ∷ [])
    ∙ rw (items-update q.store e x nodes (fresh e nodes h.made)) (rw (==_refl e) refl)

last_entry-last : (n : ℕ) (ns : List ℕ) → last_entry (last (n ∷ ns)) (first ns) ≡ last ns
unfolding last_entry
last_entry-last n [] = refl
last_entry-last n (m ∷ ns) = refl

pop_head-Holds :
    (q : LoggerQueue) (n : ℕ) (ns : List ℕ) → Holds q (n ∷ ns) → Holds (pop_head q (some n)).0 ns
unfolding pop_head
pop_head-Holds q n ns h = record {
  head = h.links.0;
  tail = rw (h.tail, h.links.0) (last_entry-last n ns);
  links = Links-update q.store n (record (q.store n) { next = none }) ns h.once.0 h.links.1;
  once = h.once.1;
  made = h.made.1;
}

-- The list of the specification that the queue in the store stands for.
abbrev view : LoggerQueue → List Item → Bool → List ℕ → Spec.Log
view q delivered done nodes = record {
  waiting = map (item q.store) nodes;
  closed = q.closed;
  delivered = delivered;
  done = done;
}

record Agrees (s : System) (l : Spec.Log) : Type 0 where
  nodes : List ℕ
  queue : Holds s.queue nodes
  same : view s.queue s.delivered s.done nodes ≡ l

empty-Agrees :
    (q : LoggerQueue) (delivered : List Item) (closed : Bool)
    → Holds q []
    → q.closed ≡ closed
    → Agrees
        (dispatch
          (record { queue = q; delivered = delivered; done = false })
          (q, if closed then ended else waits))
        (record { waiting = []; closed = closed; delivered = delivered; done = closed })
unfolding dispatch
empty-Agrees q delivered true h c = record {
  nodes = [];
  queue = h;
  same = ap (λ b. record { waiting = []; closed = b; delivered = delivered; done = true }) c;
}
empty-Agrees q delivered false h c = record {
  nodes = [];
  queue = h;
  same = ap (λ b. record { waiting = []; closed = b; delivered = delivered; done = false }) c;
}

round-Agrees :
    (q : LoggerQueue) (delivered : List Item) (done : Bool) (nodes : List ℕ)
    → Holds q nodes
    → Agrees
        (round (record { queue = q; delivered = delivered; done = done }))
        (Spec.step (view q delivered done nodes) rounds)
unfolding round dispatch pop pop_head Spec.step Spec.deliver
round-Agrees q delivered true nodes h = record { nodes = nodes; queue = h; same = refl }
round-Agrees q delivered false [] h =
    let s : System = record { queue = q; delivered = delivered; done = false } in
    subst (λ o. Agrees (dispatch s (pop_head q o)) (Spec.step (view q delivered false []) rounds))
      (sym h.head) (empty-Agrees q delivered q.closed h refl)
round-Agrees q delivered false (n ∷ ns) h =
    let s : System = record { queue = q; delivered = delivered; done = false } in
    subst
      (λ o. Agrees (dispatch s (pop_head q o)) (Spec.step (view q delivered false (n ∷ ns)) rounds))
      (sym h.head)
      (record {
        nodes = ns;
        queue = pop_head-Holds q n ns h;
        same =
            ap
              (λ w. record {
                waiting = w;
                closed = q.closed;
                delivered = delivered ++ item q.store n ∷ [];
                done = false;
              })
              (items-update q.store n (record (q.store n) { next = none }) ns h.once.0);
      })

logs-Agrees :
    (q : LoggerQueue) (delivered : List Item) (done : Bool) (nodes : List ℕ) (logger err : ℕ)
    (closed : Bool)
    → Holds q nodes
    → q.closed ≡ closed
    → Agrees
        (record {
          queue = if closed then q else add_entry q logger err;
          delivered = delivered;
          done = done;
        })
        (if closed then view q delivered done nodes else record {
          waiting = map (item q.store) nodes ++ (logger, err) ∷ [];
          closed = q.closed;
          delivered = delivered;
          done = done;
        })
unfolding add_entry
logs-Agrees q delivered done nodes logger err true h c = record {
  nodes = nodes;
  queue = h;
  same = refl;
}
logs-Agrees q delivered done nodes logger err false h c = record {
  nodes = nodes ++ q.next_entry ∷ [];
  queue = add_entry-Holds q nodes logger err h;
  same =
      ap (λ w. record { waiting = w; closed = q.closed; delivered = delivered; done = done })
        (items-add_entry q nodes logger err h);
}

step-Agrees :
    (s : System) (o : Op) (nodes : List ℕ)
    → Holds s.queue nodes
    → Agrees (step s o) (Spec.step (view s.queue s.delivered s.done nodes) o)
unfolding step enqueue close_logger Spec.step
step-Agrees s (logs none err) nodes h = record { nodes = nodes; queue = h; same = refl }
step-Agrees s (logs (some logger) none) nodes h = record { nodes = nodes; queue = h; same = refl }
step-Agrees s (logs (some logger) (some err)) nodes h =
    logs-Agrees s.queue s.delivered s.done nodes logger err s.queue.closed h refl
step-Agrees s closes nodes h = record {
  nodes = nodes;
  queue = record { head = h.head; tail = h.tail; links = h.links; once = h.once; made = h.made };
  same = refl;
}
step-Agrees s rounds nodes h = round-Agrees s.queue s.delivered s.done nodes h

run-Agrees :
    (s : System) (l : Spec.Log) (ops : List Op) → Agrees s l → Agrees (run s ops) (Spec.run l ops)
unfolding run Spec.run
run-Agrees s l [] a = a
run-Agrees s l (o ∷ os) a =
    run-Agrees (step s o) (Spec.step l o) os
      (subst (λ k. Agrees (step s o) (Spec.step k o)) a.same (step-Agrees s o a.nodes a.queue))

start-Agrees : Agrees start Spec.start
unfolding new_logger_queue
start-Agrees = record {
  nodes = [];
  queue = record { head = refl; tail = refl; links = tt; once = tt; made = tt };
  same = refl;
}

-- After any sequence of calls of Logger.Error, with a nil logger or a nil error too, of close and of rounds of the consumer, the linked list has delivered the same errors, in the same order, as the list of the specification, and its consumer is done exactly when the specification is.
pub run-delivered :
    (ops : List Op)
    → ((run start ops).delivered ≡ (Spec.run Spec.start ops).delivered)
      × ((run start ops).done ≡ (Spec.run Spec.start ops).done)
run-delivered ops =
    let a = run-Agrees start Spec.start ops start-Agrees in
    (ap (λ l. l.delivered) a.same, ap (λ l. l.done) a.same)
