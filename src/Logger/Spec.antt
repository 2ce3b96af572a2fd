-- ===== src/Logger/Spec.antt =====
-- What the logger queue promises: a list of errors that is delivered in order.
use jaws.Base.{List, [], ◌∷◌, ◌++◌, none, some, Bool, true, false, if◌then◌else◌}
use jaws.Logger.{Item, Op, logs, closes, rounds}

pub record Log : Type 0 where
  pub waiting : List Item
  pub closed : Bool
  pub delivered : List Item
  pub done : Bool

-- The oldest error is delivered; with none left, a closed log is done.
unfoldable pub deliver : Log → List Item → Log
deliver l [] = record l { done = l.closed }
deliver l (item ∷ items) = record l { waiting = items; delivered = l.delivered ++ item ∷ [] }

unfoldable pub step : Log → Op → Log
unfolding deliver
step l (logs none err) = l
step l (logs (some logger) none) = l
step l (logs (some logger) (some err)) =
    if l.closed then l else record l { waiting = l.waiting ++ (logger, err) ∷ [] }
step l closes = record l { closed = true }
step l rounds = if l.done then l else deliver l l.waiting

unfoldable pub run : Log → List Op → Log
unfolding step
run l [] = l
run l (o ∷ os) = run (step l o) os

abbrev pub start : Log
start = record { waiting = []; closed = false; delivered = []; done = false }
