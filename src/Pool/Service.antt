-- ===== src/Pool/Service.antt =====
-- UseRequest, startServe, stopServe, the maintenance pass and Close (requestpool.go, request.go,
-- serve.go, jaws.go).
use jaws.Base.{
  ℕ, List, [], ◌∷◌, Option, none, some, Bool, true, false, not, ◌&&◌, ◌==◌, if◌then◌else◌,
}
use jaws.Addr.{Addr, equal_ip}
use jaws.Request.{Request, ReqState, Cause, is_claimed, state_eq, update}
use jaws.Pool.{
  Jaws, advance_last_write_seconds, log_cause, cancel_locked, is_none, remove_pending, is_entry,
  retire, recycle, kill_session,
}
use jaws.Pool.Sessions.{is_dead}
use jaws.Pool.Eviction.{idle}

-- claim: the error, or the claimed Request.
unfoldable pub claim : Request → Addr → ℕ → Request × Option Cause
unfolding advance_last_write_seconds
claim rq ip seconds =
    if is_claimed rq.state
    then (rq, some Cause.request_already_claimed)
    else if not (equal_ip rq.remote_ip ip)
    then (rq, some Cause.web_socket_ip_mismatch)
    else (elim rq.ctx_err [
      | some c ↦ (rq, some c)
      | none ↦
          if state_eq rq.state ReqState.pending
          then (advance_last_write_seconds (record rq { state = ReqState.claimed }) seconds, none)
          else (rq, some Cause.request_already_claimed)
    ])

-- UseRequest.
unfoldable pub use_request : Jaws → ℕ → Addr → Jaws × Option ℕ
unfolding claim
use_request jw key ip = if key == 0 then (jw, none) else elim (jw.requests key) [
  | none ↦ (jw, none)
  | some none ↦ (jw, none)
  | some (some rid) ↦
      let (rq, err) = claim (jw.heap rid) ip jw.runtime_seconds in
      elim err [
        | some c ↦ (log_cause jw (some c), none)
        | none ↦ (
          record jw { heap = update jw.heap rid rq; pending = remove_pending jw.pending rq },
          some rid,
        )
      ]
]

-- startServe: `false` is an answer 410 Gone.
unfoldable pub start_serve : Jaws → ℕ → Jaws × Bool
start_serve jw rid =
    if not jw.closed
      && is_entry (jw.requests (jw.heap rid).jaws_key) rid
      && is_none (jw.heap rid).ctx_err
      && state_eq (jw.heap rid).state ReqState.claimed
    then (
      record jw { heap = update jw.heap rid (record (jw.heap rid) { state = ReqState.running }) },
      true,
    )
    else (jw, false)

-- Request.cancel: the context is cancelled, and the cause is logged.
unfoldable pub cancel : Jaws → ℕ → Option Cause → Jaws
unfolding cancel_locked log_cause
cancel jw rid err =
    let (rq, cause) = cancel_locked (jw.heap rid) err in
    log_cause (record jw { heap = update jw.heap rid rq }) cause

-- cancelIfCurrent.
unfoldable pub cancel_if_current : Jaws → ℕ → ℕ → Option Cause → Jaws
cancel_if_current jw key rid err = if is_entry (jw.requests key) rid then cancel jw rid err else jw

-- MarkWritten.
unfoldable pub mark_written : Jaws → ℕ → Jaws
mark_written jw rid = record jw {
  heap = update jw.heap rid (advance_last_write_seconds (jw.heap rid) jw.runtime_seconds);
}

-- stopServe.
unfoldable pub stop_serve : Jaws → ℕ → ℕ → Jaws
stop_serve jw rid time = (recycle (cancel jw rid none) rid none time).0

-- Request.maintenance: whether the Request has expired, and the cause to log.
unfoldable pub expire : Request → ℕ → ℕ → Request × Bool × Option Cause
unfolding idle cancel_locked
expire rq seconds timeout =
    if state_eq rq.state ReqState.running
    then (rq, false, none)
    else if not (is_none rq.ctx_err)
    then (rq, true, none)
    else if idle timeout seconds rq.last_write_seconds
    then (let (rq', cause) = cancel_locked rq (some Cause.no_web_socket_request) in
        (rq', true, cause))
    else (rq, false, none)

-- One round of the loop over Jaws.requests in Jaws.maintenance.
unfoldable pub maintain_one : Jaws → ℕ → ℕ → ℕ → Jaws
unfolding expire
maintain_one jw key timeout time = elim (jw.requests key) [
  | none ↦ jw
  | some none ↦ jw
  | some (some rid) ↦
      let (rq, expired, cause) = expire (jw.heap rid) jw.runtime_seconds timeout in
      let kept = log_cause (record jw { heap = update jw.heap rid rq }) cause in
      if expired then (retire kept rid none time).0 else kept
]

-- The loop, over the keys in the order that the map yields.
unfoldable pub maintain : Jaws → List ℕ → ℕ → ℕ → Jaws
maintain jw [] timeout time = jw
maintain jw (key ∷ keys) timeout time =
    maintain (maintain_one jw key timeout time) keys timeout time

-- Jaws.maintenance, but for the status sample: then dead Sessions leave the map.
unfoldable pub maintenance : Jaws → List ℕ → ℕ → ℕ → Jaws
maintenance jw keys timeout time =
    let done = maintain jw keys timeout time in
    record done {
      sessions = λ id. elim (done.sessions id) [
        | none ↦ none
        | some sid ↦ if is_dead (done.session_heap sid) time then none else some sid
      ];
    }

-- One round of the loop in Jaws.Close.
unfoldable pub close_one : Jaws → ℕ → ℕ → Jaws
close_one jw key time = elim (jw.requests key) [
  | none ↦ jw
  | some none ↦ jw
  | some (some rid) ↦
      if state_eq (jw.heap rid).state ReqState.running
      then record jw {
        session_heap = kill_session jw.session_heap (jw.heap rid) true time;
        heap = update jw.heap rid (record (jw.heap rid) {
          session = none;
          ctx_err =
              if is_none (jw.heap rid).ctx_err then some Cause.canceled else (jw.heap rid).ctx_err;
        });
      }
      else (retire jw rid none time).0
]

unfoldable pub close_all : Jaws → List ℕ → ℕ → Jaws
close_all jw [] time = jw
close_all jw (key ∷ keys) time = close_all (close_one jw key time) keys time

-- closeSessionsLocked, but for the data of the Sessions.
unfoldable pub close_sessions : Jaws → Jaws
close_sessions jw = record jw {
  session_heap = λ sid.
      if is_entry (some (jw.sessions (jw.session_heap sid).session_id)) sid
      then record (jw.session_heap sid) { marked_dead = true; requests = [] }
      else jw.session_heap sid;
  sessions = λ id. none;
}

-- Jaws.Close, with the keys in the order that the map yields.
unfoldable pub close : Jaws → List ℕ → ℕ → Jaws
close jw keys time =
    if jw.closed then jw else close_sessions (close_all (record jw { closed = true }) keys time)
