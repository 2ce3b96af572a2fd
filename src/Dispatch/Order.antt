-- ===== src/Dispatch/Order.antt =====
-- The handlers are asked in order, until one handles the event.
use jaws.Base.{ℕ, List, [], ◌∷◌, ◌++◌, map, Option, some, Bool, false, All, ◌≡◌, ◌≢◌}
use jaws.Strconv.{Text}
use jaws.What.{What}
use jaws.Request.{Request}
use jaws.Click.{Floats, Click}
use jaws.Dispatch.{App, Outcome, Reply, unhandled, no_call, call_event_handler, or_else}

-- From the last to the first.
abbrev backwards : List ℕ → List ℕ
backwards [] = []
backwards (x ∷ xs) = backwards xs ++ x ∷ []

-- The objects that an Element asks: its handlers from the last that was added to the first, then its UI.
abbrev pub asked : Request → ℕ → List (ℕ × Option ℕ)
asked rq e = map (λ obj. (e, some obj)) (backwards (rq.handlers e)) ++ (e, rq.ui e) ∷ []

abbrev pub asked_all : Request → List ℕ → List (ℕ × Option ℕ)
asked_all rq [] = []
asked_all rq (e ∷ es) = asked rq e ++ asked_all rq es

-- One walk over all objects, that stops at the first reply other than ErrEventUnhandled.
unfoldable ask : {fs : Floats} → App fs → What → Text → List (ℕ × Option ℕ) → Outcome
ask app w value [] = no_call
ask app w value ((e, obj) ∷ rest) =
    or_else (call_event_handler app e w value obj) (ask app w value rest)

abbrev outcome : List (ℕ × Option ℕ) → Reply → Bool → Outcome
outcome calls r cancels = record { called = calls; reply = r; cancels = cancels }

-- What one object answers to the event.
abbrev pub answer : {fs : Floats} → App fs → What → Text → ℕ × Option ℕ → Outcome
answer app w value (e, obj) = call_event_handler app e w value obj

-- The object has no handler for the event, or its handler returns ErrEventUnhandled.
abbrev pub Declines : {fs : Floats} → App fs → What → Text → ℕ × Option ℕ → Type 0
Declines app w value x = (answer app w value x).reply ≡ unhandled

-- The handlers that these objects have called, in order.
abbrev pub calls : {fs : Floats} → App fs → What → Text → List (ℕ × Option ℕ) → List (ℕ × Option ℕ)
calls app w value [] = []
calls app w value (x ∷ xs) = (answer app w value x).called ++ calls app w value xs

-- One of the objects takes the event: all before it decline, and none behind it is asked.
pub record IsTaken {fs : Floats} (app : App fs) (w : What) (value : Text)
    (objs : List (ℕ × Option ℕ)) (o : Outcome) : Type 0 where
  pub before : List (ℕ × Option ℕ)
  pub taker : ℕ × Option ℕ
  pub behind : List (ℕ × Option ℕ)
  pub order : objs ≡ before ++ taker ∷ behind
  pub declined : All (Declines app w value) before
  pub takes : (answer app w value taker).reply ≢ unhandled
  pub reply : o.reply ≡ (answer app w value taker).reply
  pub called : o.called ≡ calls app w value before ++ (answer app w value taker).called
  pub cancels : o.cancels ≡ (answer app w value taker).cancels

-- Every object declines, and the result is `r`.
pub record IsDeclined {fs : Floats} (app : App fs) (w : What) (value : Text)
    (objs : List (ℕ × Option ℕ)) (o : Outcome) (r : Reply) : Type 0 where
  pub declined : All (Declines app w value) objs
  pub reply : o.reply ≡ r
  pub called : o.called ≡ calls app w value objs
  pub cancels : o.cancels ≡ false
