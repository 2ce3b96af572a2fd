-- ===== src/Logger.antt =====
-- loggerqueue.go: the queue of errors for the application's Logger, a linked list in a store. Pointers
-- to entries are numbers that are handed out in order; a logger and an error are known by numbers.
pub mod Spec
pub mod Chain
pub mod Refine
pub mod Delivery
use jaws.Base.{ℕ, suc, List, [], ◌∷◌, ◌++◌, Option, none, some, Bool, true, false, if◌then◌else◌}
use jaws.Request.{update}

-- An error and the logger that it is for.
abbrev pub Item : Type 0
Item = ℕ × ℕ

-- queuedLog.
pub record Entry : Type 0 where
  pub logger : ℕ
  pub err : ℕ
  pub next : Option ℕ

pub record LoggerQueue : Type 0 where
  pub store : ℕ → Entry
  pub next_entry : ℕ
  pub head : Option ℕ
  pub tail : Option ℕ
  pub closed : Bool

-- newLoggerQueue. The store is read at entries only.
unfoldable pub new_logger_queue : LoggerQueue
new_logger_queue = record {
  store = λ n. record { logger = 0; err = 0; next = none };
  next_entry = 0;
  head = none;
  tail = none;
  closed = false;
}

-- The list behind a new entry: the tail points to it, if there is one.
unfoldable pub link : (ℕ → Entry) → Option ℕ → ℕ → ℕ → Entry
link store none entry = store
link store (some t) entry = update store t (record (store t) { next = some entry })

unfoldable pub first_entry : Option ℕ → Option ℕ → ℕ → Option ℕ
first_entry none head entry = some entry
first_entry (some t) head entry = head

unfoldable pub add_entry : LoggerQueue → ℕ → ℕ → LoggerQueue
unfolding link first_entry
add_entry q logger err =
    let entry = q.next_entry in
    let store = update q.store entry (record { logger = logger; err = err; next = none }) in
    record q {
      store = link store q.tail entry;
      next_entry = suc entry;
      head = first_entry q.tail q.head entry;
      tail = some entry;
    }

-- enqueue. Neither a nil logger nor a nil error is taken.
unfoldable pub enqueue : LoggerQueue → Option ℕ → Option ℕ → LoggerQueue
unfolding add_entry
enqueue q none err = q
enqueue q (some logger) none = q
enqueue q (some logger) (some err) = if q.closed then q else add_entry q logger err

unfoldable pub close_logger : LoggerQueue → LoggerQueue
close_logger q = record q { closed = true }

-- What pop does: it waits, it finds the closed queue empty, or it takes an entry.
pub data Popped : Type 0 where
  waits : Popped
  ended : Popped
  popped : Item → Popped

-- The new tail, from the old one and the new head.
unfoldable pub last_entry : Option ℕ → Option ℕ → Option ℕ
last_entry tail none = none
last_entry tail (some m) = tail

unfoldable pub pop_head : LoggerQueue → Option ℕ → LoggerQueue × Popped
unfolding last_entry
pop_head q none = (q, if q.closed then ended else waits)
pop_head q (some n) = (
  record q {
    store = update q.store n (record (q.store n) { next = none });
    head = (q.store n).next;
    tail = last_entry q.tail (q.store n).next;
  },
  popped ((q.store n).logger, (q.store n).err),
)

unfoldable pub pop : LoggerQueue → LoggerQueue × Popped
unfolding pop_head
pop q = pop_head q q.head

-- The queue with its consumer: what was dispatched so far, and whether doneCh is closed.
pub record System : Type 0 where
  pub queue : LoggerQueue
  pub delivered : List Item
  pub done : Bool

-- One round of the loop in run, from what pop returned. A logger that panics does not stop it.
unfoldable pub dispatch : System → LoggerQueue × Popped → System
dispatch s (q, waits) = record s { queue = q }
dispatch s (q, ended) = record s { queue = q; done = true }
dispatch s (q, popped item) = record s { queue = q; delivered = s.delivered ++ item ∷ [] }

unfoldable pub round : System → System
unfolding pop dispatch
round s = if s.done then s else dispatch s (pop s.queue)

-- What producers, Close and the consumer do, in any order.
pub data Op : Type 0 where
  logs : Option ℕ → Option ℕ → Op
  closes : Op
  rounds : Op

unfoldable pub step : System → Op → System
unfolding enqueue close_logger round
step s (logs logger err) = record s { queue = enqueue s.queue logger err }
step s closes = record s { queue = close_logger s.queue }
step s rounds = round s

unfoldable pub run : System → List Op → System
run s [] = s
run s (o ∷ os) = run (step s o) os

abbrev pub start : System
start = record { queue = new_logger_queue; delivered = []; done = false }
