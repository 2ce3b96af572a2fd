-- ===== src/Pool.antt =====
-- The lifecycle of Requests: requestpool.go, the lifecycle methods of request.go, and the parts of
-- session.go that they call. Time stands in nanoseconds, int32 seconds by their bit patterns.
pub mod Sessions
pub mod Eviction
pub mod Operations
pub mod Service
pub mod Soundness
pub mod Enrolment
pub mod Preservation
pub mod Lifecycle
pub mod Arrival
pub mod Progress
pub mod Upkeep
pub mod Serving
pub mod Limit
pub mod Victim
pub mod Capacity
pub mod History
pub mod Once
pub mod Closing
pub mod Closed
pub mod Endings
use jaws.Base.{
  ℕ, zero, suc, ◌+◌, ◌-◌, ◌*◌, ◌%◌, ◌^◌, List, [], ◌∷◌, ◌++◌, Option, none, some, Bool, true, false,
  not, ◌&&◌, ◌||◌, ltb, leb, ◌==◌, if◌then◌else◌, length, contains,
}
use jaws.Addr.{Addr, addr_eq, equal_ip}
use jaws.Request.{Request, ReqState, Cause, Tag, TagMap, registered, is_claimed, state_eq, update}

abbrev pub second : ℕ
second = 10 ^ 9

-- The Session, but for its data. `marked_dead` is MaxAge < 0 in its cookie.
pub record Session : Type 0 where
  pub session_id : ℕ
  pub remote_ip : Addr
  pub requests : List ℕ
  pub deadline : ℕ
  pub marked_dead : Bool

-- The part of Jaws that mu protects. Pointers to Requests and Sessions are numbers that are handed
-- out in order; `heap` and `session_heap` hold what they point to.
pub record Jaws : Type 0 where
  pub heap : ℕ → Request
  pub next_request : ℕ
  -- `some none` is the nil entry that reserves a retired key.
  pub requests : ℕ → Option (Option ℕ)
  pub request_count : ℕ
  pub pending : Addr → List ℕ
  -- A limit that is not positive is 0.
  pub max_pending_requests_per_ip : ℕ
  pub runtime_seconds : ℕ
  pub maintenance_interval : ℕ
  pub closed : Bool
  pub session_heap : ℕ → Session
  pub sessions : ℕ → Option ℕ
  pub log : List Cause

-- int32 arithmetic: the difference of two bit patterns, and the signed tests.
unfoldable pub sub32 : ℕ → ℕ → ℕ
sub32 a b = (a + 2 ^ 32 - b) % 2 ^ 32

unfoldable pub positive32 : ℕ → Bool
positive32 a = ltb 0 a && ltb a (2 ^ 31)

unfoldable pub less32 : ℕ → ℕ → Bool
less32 a b = ltb ((a + 2 ^ 31) % 2 ^ 32) ((b + 2 ^ 31) % 2 ^ 32)

-- advanceLastWriteSeconds.
unfoldable pub advance_last_write_seconds : Request → ℕ → Request
unfolding sub32 positive32
advance_last_write_seconds rq now =
    if positive32 (sub32 now rq.last_write_seconds)
    then record rq { last_write_seconds = now }
    else rq

-- Jaws.Log, of an error or nil.
unfoldable pub log_cause : Jaws → Option Cause → Jaws
log_cause jw none = jw
log_cause jw (some c) = record jw { log = jw.log ++ c ∷ [] }

-- newErrRequestCancelledLocked: nil for a nil error.
abbrev pub cancellation : ℕ → Option Cause → Option Cause
cancellation key none = none
cancellation key (some c) = some (Cause.request_cancelled key c)

-- The cause that a context keeps: context.Canceled for nil.
abbrev pub or_canceled : Option Cause → Cause
or_canceled none = Cause.canceled
or_canceled (some c) = c

abbrev pub is_none {ℓ} : {A : Type ℓ} → Option A → Bool
is_none none = true
is_none (some a) = false

-- cancelLocked: the Request, and what is to be logged.
unfoldable pub cancel_locked : Request → Option Cause → Request × Option Cause
cancel_locked rq err =
    if not (rq.jaws_key == 0) && is_none rq.ctx_err
    then (
      record rq { ctx_err = some (or_canceled (cancellation rq.jaws_key err)) },
      cancellation rq.jaws_key err,
    )
    else (rq, none)

-- The last element of a list, and the list without it.
last_of : ℕ → List ℕ → ℕ
last_of d [] = d
last_of d (x ∷ xs) = last_of x xs

but_last : List ℕ → List ℕ
but_last [] = []
but_last (x ∷ []) = []
but_last (x ∷ y ∷ ys) = x ∷ but_last (y ∷ ys)

-- The first element that is `r` gives its place to the last one.
unfoldable pub swap_remove : ℕ → List ℕ → List ℕ
unfolding last_of but_last
swap_remove r [] = []
swap_remove r (x ∷ xs) =
    if x == r
    then (elim xs [ [] ↦ [] | y ∷ ys ↦ last_of y ys ∷ but_last (y ∷ ys) ])
    else x ∷ swap_remove r xs

-- Session.delRequest: a claimed Request leaves a minute of grace.
unfoldable pub del_request : Session → ℕ → Bool → ℕ → Session
unfolding swap_remove
del_request sess rid was_claimed now = record sess {
  requests = swap_remove rid sess.requests;
  deadline = if was_claimed then now + 60 * second else sess.deadline;
}

-- killSessionLocked, of the Sessions and of the Request.
unfoldable pub kill_session : (ℕ → Session) → Request → Bool → ℕ → ℕ → Session
unfolding del_request
kill_session sessions rq was_claimed now = elim rq.session [
  | none ↦ sessions
  | some sid ↦ update sessions sid (del_request (sessions sid) rq.identity was_claimed now)
]

-- slices.Index and slices.Delete: without the first element that is `r`.
unfoldable pub erase : ℕ → List ℕ → List ℕ
erase r [] = []
erase r (x ∷ xs) = if x == r then xs else x ∷ erase r xs

unfoldable pub update_addr : (Addr → List ℕ) → Addr → List ℕ → Addr → List ℕ
update_addr m ip l a = if addr_eq a ip then l else m a

-- removePendingRequestLocked. An address without Requests has no entry, which reads as no Requests.
unfoldable pub remove_pending : (Addr → List ℕ) → Request → Addr → List ℕ
unfolding erase update_addr
remove_pending m rq = update_addr m rq.remote_ip (erase rq.identity (m rq.remote_ip))

-- finishLocked: the Session is detached, with grace if the Request was claimed, and the lifecycle ends.
abbrev pub finish_locked : (ℕ → Session) → Request → ℕ → Request × (ℕ → Session)
finish_locked sessions rq now = (
  record rq { session = none; state = ReqState.finished },
  kill_session sessions rq (is_claimed rq.state) now,
)

-- The steps that retirement and recycling share, after the context is cancelled: the Request leaves
-- the pending list, its key is reserved by a nil entry, and it finishes.
unfoldable pub finish : Jaws → Request → ℕ → Jaws
unfolding remove_pending kill_session
finish jw rq now =
    let (done, sessions) = finish_locked jw.session_heap rq now in
    record jw {
      pending = remove_pending jw.pending rq;
      requests = update jw.requests rq.jaws_key (some none);
      request_count = jw.request_count - 1;
      session_heap = sessions;
      heap = update jw.heap rq.identity done;
    }

abbrev pub is_entry : Option (Option ℕ) → ℕ → Bool
is_entry none rid = false
is_entry (some none) rid = false
is_entry (some (some r)) rid = r == rid

-- `rq.JawsKey != 0 && jw.requests[rq.JawsKey] == rq`.
abbrev pub is_current : Jaws → ℕ → Bool
is_current jw rid =
    not ((jw.heap rid).jaws_key == 0) && is_entry (jw.requests (jw.heap rid).jaws_key) rid

-- The context is cancelled with the cause, or without one.
unfoldable pub retire_cancel : Request → Option Cause → Request × Option Cause
unfolding cancel_locked
retire_cancel rq none =
    (if is_none rq.ctx_err then record rq { ctx_err = some Cause.canceled } else rq, none)
retire_cancel rq (some c) = cancel_locked rq (some c)

-- retireNonRunningRequestCoreLocked. `none` is normal cancellation.
unfoldable pub retire : Jaws → ℕ → Option Cause → ℕ → Jaws × Option Cause
retire jw rid err now =
    if is_current jw rid && not (state_eq (jw.heap rid).state ReqState.running)
    then (let (rq, cause) = retire_cancel (jw.heap rid) err in (finish jw rq now, cause))
    else (jw, none)

-- releaseBuffersLocked.
unfoldable pub release_buffers : Request → Request
release_buffers rq = record rq {
  todo_dirt = [];
  elems = [];
  tag_map = none;
  tailsent = false;
  ws_queue = [];
}

-- recycleLockedWithCause.
unfoldable pub recycle : Jaws → ℕ → Option Cause → ℕ → Jaws × Option Cause
recycle jw rid err now =
    if is_current jw rid
    then (let (rq, cause) = cancel_locked (jw.heap rid) err in
        let jw' = finish jw rq now in
        (record jw' { heap = update jw'.heap rid (release_buffers (jw'.heap rid)) }, cause))
    else (jw, none)

-- releaseRetiredRequestKey: the runtime calls it once the Request is unreachable.
unfoldable pub release_retired_request_key : Jaws → ℕ → Jaws
release_retired_request_key jw key = elim (jw.requests key) [
  | none ↦ jw
  | some none ↦ record jw { requests = update jw.requests key none }
  | some (some r) ↦ jw
]
