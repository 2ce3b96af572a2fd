-- ===== src/Pool/History.antt =====
-- Histories of the lifecycle.
use jaws.Base.{ℕ, ◌<◌, List, [], ◌∷◌, Option, arith}
use jaws.Addr.{Addr}
use jaws.Request.{Cause}
use jaws.Pool.{Jaws, recycle, release_retired_request_key}
use jaws.Pool.Operations.{new_request}
use jaws.Pool.Service.{
  cancel_if_current, mark_written, use_request, start_serve, cancel, stop_serve, maintenance, close,
}
use jaws.Pool.Soundness.{IsSound}
use jaws.Pool.Preservation.{recycle-IsSound, release_retired_request_key-IsSound}
use jaws.Pool.Lifecycle.{
  cancel_if_current-IsSound, mark_written-IsSound, use_request-IsSound, start_serve-IsSound,
  cancel-IsSound, stop_serve-IsSound, maintenance-IsSound, close-IsSound,
}
use jaws.Pool.Arrival.{or_same, new_request-IsSound}
use jaws.Pool.Progress.{recycle-Advances, release_retired_request_key-Advances}
use jaws.Pool.Upkeep.{
  cancel_if_current-Advances, mark_written-Advances, start_serve-Advances, cancel-Advances,
  stop_serve-Advances, maintenance-Advances,
}
use jaws.Pool.Serving.{use_request-Advances, close-Advances}
use jaws.Pool.Closing.{close_session}
use jaws.Pool.Closed.{close_session-IsSound, close_session-Advances}
use jaws.Pool.Capacity.{
  Advances-Grows, Advances-IsCapped, Grows, Grows-refl, Grows-trans, IsCapped, new_request-Grows,
  new_request-IsCapped,
}

-- What servers, browsers, timers and the garbage collector ask of a Jaws. Times and the order in
-- which maps are walked are theirs to choose.
pub data Op : Type 0 where
  arrives : Addr → List ℕ → List ℕ → ℕ → ℕ → Op
  connects : ℕ → Addr → Op
  serves : ℕ → Op
  cancels : ℕ → Option Cause → Op
  cancels_current : ℕ → ℕ → Option Cause → Op
  writes : ℕ → Op
  stops : ℕ → ℕ → Op
  recycles : ℕ → Option Cause → ℕ → Op
  maintains : List ℕ → ℕ → ℕ → Op
  releases : ℕ → Op
  closes : List ℕ → ℕ → Op
  ends : ℕ → Op

abbrev pub step : Jaws → Op → Jaws
step jw (arrives ip ids keys seconds time) = or_same jw (new_request jw ip ids keys seconds time)
step jw (connects key ip) = (use_request jw key ip).0
step jw (serves r) = (start_serve jw r).0
step jw (cancels r err) = cancel jw r err
step jw (cancels_current key r err) = cancel_if_current jw key r err
step jw (writes r) = mark_written jw r
step jw (stops r time) = stop_serve jw r time
step jw (recycles r err time) = (recycle jw r err time).0
step jw (maintains keys timeout time) = maintenance jw keys timeout time
step jw (releases key) = release_retired_request_key jw key
step jw (closes keys time) = close jw keys time
step jw (ends sid) = (close_session jw sid).0

step-IsSound : (jw : Jaws) (o : Op) → IsSound jw → IsSound (step jw o)
step-IsSound jw (arrives ip ids keys seconds time) v =
    new_request-IsSound jw ip ids keys seconds time v
step-IsSound jw (connects key ip) v = use_request-IsSound jw key ip v
step-IsSound jw (serves r) v = start_serve-IsSound jw r v
step-IsSound jw (cancels r err) v = cancel-IsSound jw r err v
step-IsSound jw (cancels_current key r err) v = cancel_if_current-IsSound jw key r err v
step-IsSound jw (writes r) v = mark_written-IsSound jw r v
step-IsSound jw (stops r time) v = stop_serve-IsSound jw r time v
step-IsSound jw (recycles r err time) v = recycle-IsSound jw r err time v
step-IsSound jw (maintains keys timeout time) v = maintenance-IsSound jw keys timeout time v
step-IsSound jw (releases key) v = release_retired_request_key-IsSound jw key v
step-IsSound jw (closes keys time) v = close-IsSound jw keys time v
step-IsSound jw (ends sid) v = close_session-IsSound jw sid v

abbrev pub steps : Jaws → List Op → Jaws
steps jw [] = jw
steps jw (o ∷ os) = steps (step jw o) os

-- From a sound state, every history of lifecycle operations, in any order, keeps the registry of
-- Requests sound: a key
-- leads to a Request exactly while that is registered, the pending list of an address holds exactly
-- its unclaimed Requests, each once, and the request count is the number of registered Requests.
pub steps-IsSound : (jw : Jaws) (os : List Op) → IsSound jw → IsSound (steps jw os)
steps-IsSound jw [] v = v
steps-IsSound jw (o ∷ os) v = steps-IsSound (step jw o) os (step-IsSound jw o v)

step-Grows : (jw : Jaws) (o : Op) → IsSound jw → Grows jw (step jw o)
step-Grows jw (arrives ip ids keys seconds time) v = new_request-Grows jw ip ids keys seconds time v
step-Grows jw (connects key ip) v = Advances-Grows (use_request-Advances jw key ip)
step-Grows jw (serves r) v = Advances-Grows (start_serve-Advances jw r)
step-Grows jw (cancels r err) v = Advances-Grows (cancel-Advances jw r err)
step-Grows jw (cancels_current key r err) v =
    Advances-Grows (cancel_if_current-Advances jw key r err)
step-Grows jw (writes r) v = Advances-Grows (mark_written-Advances jw r)
step-Grows jw (stops r time) v = Advances-Grows (stop_serve-Advances jw r time v)
step-Grows jw (recycles r err time) v = Advances-Grows (recycle-Advances jw r err time v)
step-Grows jw (maintains keys timeout time) v =
    Advances-Grows (maintenance-Advances jw keys timeout time v)
step-Grows jw (releases key) v = Advances-Grows (release_retired_request_key-Advances jw key)
step-Grows jw (closes keys time) v = Advances-Grows (close-Advances jw keys time v)
step-Grows jw (ends sid) v = Advances-Grows (close_session-Advances jw sid)

-- From a sound state, in every history a Request that was made keeps its identity, its key and its address, its state
-- only goes forward (pending, claimed, running, finished), and a Jaws that was closed stays closed.
pub steps-Grows : (jw : Jaws) (os : List Op) → IsSound jw → Grows jw (steps jw os)
steps-Grows jw [] v = Grows-refl jw
steps-Grows jw (o ∷ os) v =
    Grows-trans (step-Grows jw o v) (steps-Grows (step jw o) os (step-IsSound jw o v))

step-IsCapped :
    (jw : Jaws) (o : Op)
    → IsSound jw
    → 0 < jw.max_pending_requests_per_ip
    → IsCapped jw
    → IsCapped (step jw o)
step-IsCapped jw (arrives ip ids keys seconds time) v p c =
    new_request-IsCapped jw ip ids keys seconds time v p c
step-IsCapped jw (connects key ip) v p c = Advances-IsCapped (use_request-Advances jw key ip) c
step-IsCapped jw (serves r) v p c = Advances-IsCapped (start_serve-Advances jw r) c
step-IsCapped jw (cancels r err) v p c = Advances-IsCapped (cancel-Advances jw r err) c
step-IsCapped jw (cancels_current key r err) v p c =
    Advances-IsCapped (cancel_if_current-Advances jw key r err) c
step-IsCapped jw (writes r) v p c = Advances-IsCapped (mark_written-Advances jw r) c
step-IsCapped jw (stops r time) v p c = Advances-IsCapped (stop_serve-Advances jw r time v) c
step-IsCapped jw (recycles r err time) v p c =
    Advances-IsCapped (recycle-Advances jw r err time v) c
step-IsCapped jw (maintains keys timeout time) v p c =
    Advances-IsCapped (maintenance-Advances jw keys timeout time v) c
step-IsCapped jw (releases key) v p c =
    Advances-IsCapped (release_retired_request_key-Advances jw key) c
step-IsCapped jw (closes keys time) v p c = Advances-IsCapped (close-Advances jw keys time v) c
step-IsCapped jw (ends sid) v p c = Advances-IsCapped (close_session-Advances jw sid) c

-- From a sound state within a positive limit, no history of lifecycle operations leaves an address
-- with more pending Requests than the limit.
pub steps-IsCapped :
    (jw : Jaws) (os : List Op)
    → IsSound jw
    → 0 < jw.max_pending_requests_per_ip
    → IsCapped jw
    → IsCapped (steps jw os)
steps-IsCapped jw [] v p c = c
steps-IsCapped jw (o ∷ os) v p c =
    steps-IsCapped (step jw o) os (step-IsSound jw o v)
      (omega (arith, (step-Grows jw o v).limit, p)) (step-IsCapped jw o v p c)
