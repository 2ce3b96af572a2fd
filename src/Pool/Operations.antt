-- ===== src/Pool/Operations.antt =====
-- New and NewRequest (jaws.go, requestpool.go).
use jaws.Base.{
  ℕ, suc, ◌+◌, List, [], ◌∷◌, ◌++◌, Option, none, some, true, false, not, ◌&&◌, ◌==◌, if◌then◌else◌,
  length,
}
use jaws.Addr.{Addr}
use jaws.Request.{Request, ReqState, Cause, update}
use jaws.Pool.{Jaws, Session, is_none, update_addr}
use jaws.Pool.Sessions.{get_session}
use jaws.Pool.Eviction.{limit_pending}

-- The first key from the random source that is neither zero nor taken.
unfoldable pub fresh_key : Jaws → List ℕ → Option ℕ
fresh_key jw [] = none
fresh_key jw (k ∷ ks) = if not (k == 0) && is_none (jw.requests k) then some k else fresh_key jw ks

-- A Request as getRequestLocked returns it, with buffers from the pool that are empty.
unfoldable pub blank : Jaws → ℕ → Addr → ReqState → Request
blank jw key ip state = record {
  identity = jw.next_request;
  jaws_key = key;
  remote_ip = ip;
  state = state;
  last_write_seconds = jw.runtime_seconds;
  last_jid = 0;
  session = none;
  todo_dirt = [];
  ctx_err = none;
  elems = [];
  tag_map = some (λ t. none);
  ui = λ j. none;
  handlers = λ j. [];
  deleted = λ j. false;
  frozen = λ j. false;
  ws_queue = [];
  tailsent = false;
}

-- The Session of the cookies of the initial request, and the Sessions with the Request added.
unfoldable pub attach : Jaws → Request → List ℕ → ℕ → Request × (ℕ → Session)
unfolding get_session
attach jw rq ids now = elim (get_session jw ids rq.remote_ip now) [
  | none ↦ (rq, jw.session_heap)
  | some sid ↦ (
    record rq { session = some sid },
    update jw.session_heap sid (record (jw.session_heap sid) {
      requests = (jw.session_heap sid).requests ++ rq.identity ∷ [];
    }),
  )
]

-- A pending Request is registered and queued.
unfoldable pub enroll : Jaws → Request → (ℕ → Session) → Jaws
unfolding update_addr
enroll jw rq sessions = record jw {
  heap = update jw.heap rq.identity rq;
  next_request = suc jw.next_request;
  requests = update jw.requests rq.jaws_key (some (some rq.identity));
  request_count = jw.request_count + 1;
  pending = update_addr jw.pending rq.remote_ip (jw.pending rq.remote_ip ++ rq.identity ∷ []);
  session_heap = sessions;
}

-- The limit applies while the limit is positive.
abbrev pub make_room : Jaws → Addr → ℕ → Jaws
make_room jw ip time =
    if jw.max_pending_requests_per_ip == 0
    then jw
    else limit_pending (length (jw.pending ip)) jw ip time

-- newRequest: `seconds` is the refreshed runtimeSeconds, `ids` the session ids of the cookies, `keys`
-- what the random source yields. `none` if it yields no usable key.
unfoldable pub new_request : Jaws → Addr → List ℕ → List ℕ → ℕ → ℕ → Option (Jaws × ℕ)
unfolding limit_pending fresh_key blank attach enroll
new_request jw ip ids keys seconds time =
    let fresh = record jw { runtime_seconds = seconds } in
    if jw.closed
    then (elim (fresh_key fresh keys) [
      | none ↦ none
      | some key ↦ some (
        record fresh {
          heap =
              update fresh.heap fresh.next_request
                (record (blank fresh key ip ReqState.unclaimable) {
                  ctx_err = some Cause.canceled;
                });
          next_request = suc fresh.next_request;
        },
        fresh.next_request,
      )
    ])
    else (let roomy = make_room fresh ip time in
        elim (fresh_key roomy keys) [
          | none ↦ none
          | some key ↦
              let (rq, sessions) = attach roomy (blank roomy key ip ReqState.pending) ids time in
              some (enroll roomy rq sessions, roomy.next_request)
        ])

abbrev pub default_max_pending_requests_per_ip : ℕ
default_max_pending_requests_per_ip = 100

-- New, with DefaultMaxPendingRequestsPerIP. What the heaps hold where nothing is allocated is never
-- read: a Request of no key, and a Session of no id.
unfoldable pub new_jaws : Jaws
new_jaws = record {
  heap = λ r. record {
    identity = r;
    jaws_key = 0;
    remote_ip = Addr.unset;
    state = ReqState.unclaimable;
    last_write_seconds = 0;
    last_jid = 0;
    session = none;
    todo_dirt = [];
    ctx_err = none;
    elems = [];
    tag_map = none;
    ui = λ j. none;
    handlers = λ j. [];
    deleted = λ j. false;
    frozen = λ j. false;
    ws_queue = [];
    tailsent = false;
  };
  next_request = 0;
  requests = λ k. none;
  request_count = 0;
  pending = λ ip. [];
  max_pending_requests_per_ip = default_max_pending_requests_per_ip;
  runtime_seconds = 0;
  maintenance_interval = 0;
  closed = false;
  session_heap = λ s. record {
    session_id = 0;
    remote_ip = Addr.unset;
    requests = [];
    deadline = 0;
    marked_dead = true;
  };
  sessions = λ id. none;
  log = [];
}
