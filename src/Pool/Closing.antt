-- ===== src/Pool/Closing.antt =====
-- session.go: a Session that is created, closed and told of, and the Requests that belong to it
-- (request.go). The data of a Session are not part of it; `sid` is the pointer of a new Session.
use jaws.Base.{
  ℕ, ◌+◌, ◌*◌, List, [], ◌∷◌, Option, none, some, Bool, true, false, not, ◌&&◌, ◌==◌, if◌then◌else◌,
}
use jaws.Addr.{Addr}
use jaws.What.{What}
use jaws.Request.{Request, update}
use jaws.Pool.{Jaws, Session, is_entry, is_none, second}
use jaws.Pool.Sessions.{is_dead, get_session_by_id}
use jaws.Outbox.{queue}

-- deleteSessionIfCurrent.
unfoldable pub delete_session_if_current : Jaws → ℕ → Jaws
delete_session_if_current jw sid =
    if is_entry (some (jw.sessions (jw.session_heap sid).session_id)) sid
    then record jw { sessions = update jw.sessions (jw.session_heap sid).session_id none }
    else jw

abbrev pub belongs : Request → ℕ → Bool
belongs rq sid = is_entry (some rq.session) sid

-- deadSession: the Request, and its key if it belonged to the Session.
unfoldable pub dead_session : Request → ℕ → Request × ℕ
unfolding queue
dead_session rq sid =
    if belongs rq sid
    then (
      queue (record rq { session = none }) (record { data_text = []; jid = 0; what = What.reload }),
      rq.jaws_key,
    )
    else (rq, 0)

-- sessionDestKey.
unfoldable pub session_dest_key : Request → ℕ → ℕ
session_dest_key rq sid = if belongs rq sid then rq.jaws_key else 0

abbrev pub with_key : ℕ → List ℕ → List ℕ
with_key key keys = if key == 0 then keys else key ∷ keys

-- The loop of Close: the Requests, and the keys that an Update is broadcast to.
unfoldable pub dead_sessions : (ℕ → Request) → List ℕ → ℕ → (ℕ → Request) × List ℕ
unfolding dead_session
dead_sessions heap [] sid = (heap, [])
dead_sessions heap (r ∷ rs) sid =
    let (rq, key) = dead_session (heap r) sid in
    let (after, keys) = dead_sessions (update heap r rq) rs sid in (after, with_key key keys)

-- Session.Close as one step: the code takes the locks of the Jaws, of the Session and of each Request
-- in turn.
unfoldable pub close_session : Jaws → ℕ → Jaws × List ℕ
unfolding delete_session_if_current dead_sessions
close_session jw sid =
    let out = delete_session_if_current jw sid in
    let (heap, keys) = dead_sessions jw.heap (jw.session_heap sid).requests sid in
    (
      record out {
        session_heap =
            update jw.session_heap sid
              (record (jw.session_heap sid) { marked_dead = true; requests = [] });
        heap = heap;
      },
      keys,
    )

-- Session.Broadcast: the keys that the message is sent to.
unfoldable pub broadcast_keys : Jaws → List ℕ → ℕ → List ℕ
unfolding session_dest_key
broadcast_keys jw [] sid = []
broadcast_keys jw (r ∷ rs) sid =
    with_key (session_dest_key (jw.heap r) sid) (broadcast_keys jw rs sid)

-- The first number of the random source that is not zero and no id of a registered Session.
unfoldable pub fresh_id : Jaws → List ℕ → Option ℕ
fresh_id jw [] = none
fresh_id jw (id ∷ ids) =
    if not (id == 0) && is_none (jw.sessions id) then some id else fresh_id jw ids

-- newSession, the constructor: a minute to live until a Request attaches.
unfoldable pub make_session : ℕ → Addr → ℕ → Session
make_session id ip now = record {
  session_id = id;
  remote_ip = ip;
  requests = [];
  deadline = now + 60 * second;
  marked_dead = false;
}

-- Jaws.newSession up to the cookie: none after shutdown, or if `random` yields no usable id.
unfoldable pub new_session : Jaws → ℕ → List ℕ → Addr → ℕ → Option Jaws
unfolding fresh_id make_session
new_session jw sid random ip now = if jw.closed then none else elim (fresh_id jw random) [
  | none ↦ none
  | some id ↦ some (record jw {
    session_heap = update jw.session_heap sid (make_session id ip now);
    sessions = update jw.sessions id (some sid);
  })
]

-- addCookie: whether the cookie is published.
unfoldable pub adds_cookie : Jaws → ℕ → ℕ → Bool
adds_cookie jw sid now =
    is_entry (some (jw.sessions (jw.session_heap sid).session_id)) sid
    && not (is_dead (jw.session_heap sid) now)

-- The loop of Jaws.NewSession: live Sessions of the cookies are closed.
unfoldable pub close_found : Jaws → List ℕ → Addr → ℕ → Jaws
unfolding close_session
close_found jw [] ip now = jw
close_found jw (id ∷ ids) ip now = elim (get_session_by_id jw id ip now) [
  | none ↦ close_found jw ids ip now
  | some sid ↦ close_found (close_session jw sid).0 ids ip now
]

-- Jaws.NewSession, of a request with these ids in its cookies.
unfoldable pub replace_session : Jaws → ℕ → List ℕ → List ℕ → Addr → ℕ → Option Jaws
unfolding close_found new_session
replace_session jw sid ids random ip now = new_session (close_found jw ids ip now) sid random ip now
