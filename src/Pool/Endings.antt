-- ===== src/Pool/Endings.antt =====
-- A Session that was marked dead stays so.
use jaws.Base.{
  ℕ, zero, suc, List, [], ◌∷◌, Option, none, some, Bool, true, not, ◌&&◌, leb, length, ◌==◌, ◌≡◌,
  ◌≢◌, refl, arith, Bool-cases, Option-cases, inl, inr, subst, ==_refl, false,
}
use jaws.Addr.{Addr}
use jaws.Request.{Request, ReqState, Cause, is_claimed, state_eq, update}
use jaws.Pool.{
  Jaws, Session, del_request, kill_session, finish, is_current, is_entry, is_none, retire, recycle,
  retire_cancel, cancel_locked, log_cause, release_retired_request_key,
}
use jaws.Pool.Preservation.{entry_cases}
use jaws.Pool.Eviction.{limit_pending, eviction_victim}
use jaws.Pool.Operations.{attach, blank, enroll, fresh_key, make_room, new_request}
use jaws.Pool.Sessions.{get_session, get_session_by_id, is_dead}
use jaws.Pool.Arrival.{or_same}
use jaws.Pool.Service.{
  claim, use_request, start_serve, cancel, cancel_if_current, mark_written, stop_serve, expire,
  maintain_one, maintain, maintenance, close_one, close_all, close_sessions, close,
}
use jaws.Pool.Closing.{close_session}
use jaws.Pool.History.{Op, step, steps}

-- Every Session that is marked dead in the first heap is in the second.
abbrev pub Persists : (ℕ → Session) → (ℕ → Session) → Type 0
Persists before after = (s : ℕ) → (before s).marked_dead ≡ true → (after s).marked_dead ≡ true

Persists-update :
    (heap : ℕ → Session) (s : ℕ) (sess : Session)
    → ((heap s).marked_dead ≡ true → sess.marked_dead ≡ true)
    → Persists heap (update heap s sess)
Persists-update heap s sess h a m = elim (Bool-cases (s == a)) [
  | inl e ↦ rw e (h (subst (λ i. (heap i).marked_dead ≡ true) (ground (arith, e)) m))
  | inr e ↦ rw e m
]

kill_session-Persists :
    (heap : ℕ → Session) (rq : Request) (claimed : Bool) (now : ℕ)
    → Persists heap (kill_session heap rq claimed now)
unfolding kill_session del_request
kill_session-Persists heap rq claimed now = elim (Option-cases rq.session) [
  | inl e ↦ rw (kill_session, e) (λ s m. m)
  | inr (sid, e) ↦ rw (kill_session, e) (Persists-update heap sid _ (λ m. m))
]

retire-Persists :
    (jw : Jaws) (r : ℕ) (err : Option Cause) (now : ℕ)
    → Persists jw.session_heap (retire jw r err now).0.session_heap
unfolding retire finish
retire-Persists jw r err now =
    elim (Bool-cases (is_current jw r && not (state_eq (jw.heap r).state ReqState.running))) [
      | inl e ↦
          rw (retire, e)
            (let rq = (retire_cancel (jw.heap r) err).0 in
              kill_session-Persists jw.session_heap rq (is_claimed rq.state) now)
      | inr e ↦ rw (retire, e) (λ s m. m)
    ]

recycle-Persists :
    (jw : Jaws) (r : ℕ) (err : Option Cause) (now : ℕ)
    → Persists jw.session_heap (recycle jw r err now).0.session_heap
unfolding recycle finish
recycle-Persists jw r err now = elim (Bool-cases (is_current jw r)) [
  | inl e ↦
      rw (recycle, e)
        (let rq = (cancel_locked (jw.heap r) err).0 in
          kill_session-Persists jw.session_heap rq (is_claimed rq.state) now)
  | inr e ↦ rw (recycle, e) (λ s m. m)
]

log_cause-heap : (jw : Jaws) (c : Option Cause) → (log_cause jw c).session_heap ≡ jw.session_heap
unfolding log_cause
log_cause-heap jw none = refl
log_cause-heap jw (some c) = refl

limit_pending-Persists :
    (fuel : ℕ) (jw : Jaws) (ip : Addr) (now : ℕ)
    → Persists jw.session_heap (limit_pending fuel jw ip now).session_heap
unfolding limit_pending
limit_pending-Persists zero jw ip now s m = m
limit_pending-Persists (suc fuel) jw ip now s m =
    elim (Bool-cases (leb jw.max_pending_requests_per_ip (length (jw.pending ip)))) [
      | inr e ↦ rw (limit_pending, e) m
      | inl e ↦ elim (Option-cases (eviction_victim jw ip jw.runtime_seconds)) [
        | inl v ↦ rw (limit_pending, e, v) m
        | inr (r, v) ↦
            let out = retire jw r (some Cause.too_many_pending_requests) now in
            let logged = log_cause out.0 out.1 in
            let there : (logged.session_heap s).marked_dead ≡ true =
              rw (log_cause-heap out.0 out.1)
                (retire-Persists jw r (some Cause.too_many_pending_requests) now s m) in
            elim (Bool-cases (leb (length (jw.pending ip)) (length (logged.pending ip)))) [
              | inl l ↦ rw (limit_pending, e, v, l) there
              | inr l ↦
                  rw (limit_pending, e, v, l) (limit_pending-Persists fuel logged ip now s there)
            ]
      ]
    ]

make_room-Persists :
    (jw : Jaws) (ip : Addr) (now : ℕ) → Persists jw.session_heap (make_room jw ip now).session_heap
make_room-Persists jw ip now s m = elim (Bool-cases (jw.max_pending_requests_per_ip == 0)) [
  | inl e ↦ rw e m
  | inr e ↦ rw e (limit_pending-Persists (length (jw.pending ip)) jw ip now s m)
]

attach-Persists :
    (jw : Jaws) (rq : Request) (ids : List ℕ) (now : ℕ)
    → Persists jw.session_heap (attach jw rq ids now).1
unfolding attach
attach-Persists jw rq ids now = elim (Option-cases (get_session jw ids rq.remote_ip now)) [
  | inl e ↦ rw (attach, e) (λ s m. m)
  | inr (sid, e) ↦ rw (attach, e) (Persists-update jw.session_heap sid _ (λ m. m))
]

new_request-Persists :
    (jw : Jaws) (ip : Addr) (ids keys : List ℕ) (seconds now : ℕ)
    → Persists jw.session_heap (or_same jw (new_request jw ip ids keys seconds now)).session_heap
unfolding new_request enroll
new_request-Persists jw ip ids keys seconds now s m =
    let fresh = record jw { runtime_seconds = seconds } in
    let roomy = make_room fresh ip now in
    let room = make_room-Persists fresh ip now s m in
    elim (Bool-cases jw.closed) [
      | inl c ↦ elim (Option-cases (fresh_key fresh keys)) [
        | inl e ↦ rw (new_request, c, e) m
        | inr (key, e) ↦ rw (new_request, c, e) m
      ]
      | inr c ↦ elim (Option-cases (fresh_key roomy keys)) [
        | inl e ↦ rw (new_request, c, e) m
        | inr (key, e) ↦
            rw (new_request, c, e)
              (attach-Persists roomy (blank roomy key ip ReqState.pending) ids now s room)
      ]
    ]

use_request-Persists :
    (jw : Jaws) (key : ℕ) (ip : Addr)
    → Persists jw.session_heap (use_request jw key ip).0.session_heap
unfolding use_request log_cause
use_request-Persists jw key ip = elim (Bool-cases (key == 0)) [
  | inl z ↦ rw (use_request, z) (λ s m. m)
  | inr z ↦ elim (entry_cases (jw.requests key)) [
    | inl e ↦ rw (use_request, z, e) (λ s m. m)
    | inr (inl e) ↦ rw (use_request, z, e) (λ s m. m)
    | inr (inr (r, e)) ↦ elim (Option-cases (claim (jw.heap r) ip jw.runtime_seconds).1) [
      | inl f ↦ rw (use_request, z, e, f) (λ s m. m)
      | inr (c, f) ↦ rw (use_request, z, e, f) (λ s m. m)
    ]
  ]
]

start_serve-heap : (jw : Jaws) (r : ℕ) → (start_serve jw r).0.session_heap ≡ jw.session_heap
unfolding start_serve
start_serve-heap jw r =
    elim (Bool-cases (
      not jw.closed
      && is_entry (jw.requests (jw.heap r).jaws_key) r
      && is_none (jw.heap r).ctx_err
      && state_eq (jw.heap r).state ReqState.claimed)) [
        | inl e ↦ rw (start_serve, e) refl
        | inr e ↦ rw (start_serve, e) refl
      ]

cancel-heap :
    (jw : Jaws) (r : ℕ) (err : Option Cause) → (cancel jw r err).session_heap ≡ jw.session_heap
unfolding cancel
cancel-heap jw r err = log_cause-heap _ (cancel_locked (jw.heap r) err).1

cancel_if_current-heap :
    (jw : Jaws) (key r : ℕ) (err : Option Cause)
    → (cancel_if_current jw key r err).session_heap ≡ jw.session_heap
unfolding cancel_if_current
cancel_if_current-heap jw key r err = elim (Bool-cases (is_entry (jw.requests key) r)) [
  | inl e ↦ rw (cancel_if_current, e) (cancel-heap jw r err)
  | inr e ↦ rw (cancel_if_current, e) refl
]

release-heap :
    (jw : Jaws) (key : ℕ) → (release_retired_request_key jw key).session_heap ≡ jw.session_heap
unfolding release_retired_request_key
release-heap jw key = elim (entry_cases (jw.requests key)) [
  | inl e ↦ rw (release_retired_request_key, e) refl
  | inr (inl e) ↦ rw (release_retired_request_key, e) refl
  | inr (inr (r, e)) ↦ rw (release_retired_request_key, e) refl
]

maintain_one-Persists :
    (jw : Jaws) (key timeout now : ℕ)
    → Persists jw.session_heap (maintain_one jw key timeout now).session_heap
unfolding maintain_one
maintain_one-Persists jw key timeout now s m = elim (entry_cases (jw.requests key)) [
  | inl e ↦ rw (maintain_one, e) m
  | inr (inl e) ↦ rw (maintain_one, e) m
  | inr (inr (r, e)) ↦
      let out = expire (jw.heap r) jw.runtime_seconds timeout in
      let kept = log_cause (record jw { heap = update jw.heap r out.0 }) out.2 in
      let there : (kept.session_heap s).marked_dead ≡ true =
        rw (log_cause-heap (record jw { heap = update jw.heap r out.0 }) out.2) m in
      elim (Bool-cases out.1) [
        | inl x ↦ rw (maintain_one, e, x) (retire-Persists kept r none now s there)
        | inr x ↦ rw (maintain_one, e, x) there
      ]
]

maintain-Persists :
    (jw : Jaws) (keys : List ℕ) (timeout now : ℕ)
    → Persists jw.session_heap (maintain jw keys timeout now).session_heap
unfolding maintain
maintain-Persists jw [] timeout now s m = m
maintain-Persists jw (k ∷ ks) timeout now s m =
    maintain-Persists (maintain_one jw k timeout now) ks timeout now s
      (maintain_one-Persists jw k timeout now s m)

close_one-Persists :
    (jw : Jaws) (key now : ℕ) → Persists jw.session_heap (close_one jw key now).session_heap
unfolding close_one
close_one-Persists jw key now = elim (entry_cases (jw.requests key)) [
  | inl e ↦ rw (close_one, e) (λ s m. m)
  | inr (inl e) ↦ rw (close_one, e) (λ s m. m)
  | inr (inr (r, e)) ↦ elim (Bool-cases (state_eq (jw.heap r).state ReqState.running)) [
    | inl x ↦ rw (close_one, e, x) (kill_session-Persists jw.session_heap (jw.heap r) true now)
    | inr x ↦ rw (close_one, e, x) (retire-Persists jw r none now)
  ]
]

close_all-Persists :
    (jw : Jaws) (keys : List ℕ) (now : ℕ)
    → Persists jw.session_heap (close_all jw keys now).session_heap
unfolding close_all
close_all-Persists jw [] now s m = m
close_all-Persists jw (k ∷ ks) now s m =
    close_all-Persists (close_one jw k now) ks now s (close_one-Persists jw k now s m)

close_sessions-Persists : (jw : Jaws) → Persists jw.session_heap (close_sessions jw).session_heap
unfolding close_sessions
close_sessions-Persists jw s m =
    elim (Bool-cases (is_entry (some (jw.sessions (jw.session_heap s).session_id)) s)) [
      | inl e ↦ rw e refl
      | inr e ↦ rw e m
    ]

close-Persists :
    (jw : Jaws) (keys : List ℕ) (now : ℕ)
    → Persists jw.session_heap (close jw keys now).session_heap
unfolding close
close-Persists jw keys now s m = elim (Bool-cases jw.closed) [
  | inl c ↦ rw (close, c) m
  | inr c ↦
      rw (close, c)
        (close_sessions-Persists (close_all (record jw { closed = true }) keys now) s
          (close_all-Persists (record jw { closed = true }) keys now s m))
]

close_session-Persists :
    (jw : Jaws) (sid : ℕ) → Persists jw.session_heap (close_session jw sid).0.session_heap
unfolding close_session
close_session-Persists jw sid = Persists-update jw.session_heap sid _ (λ m. refl)

pub step-Persists : (jw : Jaws) (o : Op) → Persists jw.session_heap (step jw o).session_heap
unfolding maintenance mark_written stop_serve
step-Persists jw (Op.arrives ip ids keys seconds time) s m =
    new_request-Persists jw ip ids keys seconds time s m
step-Persists jw (Op.connects key ip) s m = use_request-Persists jw key ip s m
step-Persists jw (Op.serves r) s m = rw (start_serve-heap jw r) m
step-Persists jw (Op.cancels r err) s m = rw (cancel-heap jw r err) m
step-Persists jw (Op.cancels_current key r err) s m = rw (cancel_if_current-heap jw key r err) m
step-Persists jw (Op.writes r) s m = m
step-Persists jw (Op.stops r time) s m =
    recycle-Persists (cancel jw r none) r none time s (rw (cancel-heap jw r none) m)
step-Persists jw (Op.recycles r err time) s m = recycle-Persists jw r err time s m
step-Persists jw (Op.maintains keys timeout time) s m = maintain-Persists jw keys timeout time s m
step-Persists jw (Op.releases key) s m = rw (release-heap jw key) m
step-Persists jw (Op.closes keys time) s m = close-Persists jw keys time s m
step-Persists jw (Op.ends sid) s m = close_session-Persists jw sid s m

pub steps-Persists :
    (jw : Jaws) (os : List Op) → Persists jw.session_heap (steps jw os).session_heap
steps-Persists jw [] s m = m
steps-Persists jw (o ∷ os) s m = steps-Persists (step jw o) os s (step-Persists jw o s m)

found_live :
    (jw : Jaws) (id : ℕ) (ip : Addr) (now s : ℕ)
    → get_session_by_id jw id ip now ≡ some s
    → (jw.session_heap s).marked_dead ≡ false
unfolding get_session_by_id is_dead
found_live jw id ip now s h = elim (Option-cases (jw.sessions id)) [
  | inl e ↦ absurd (ground (arith, e, h))
  | inr (t, e) ↦
      let q : t ≡ s = ground (arith, e, h) in
      subst (λ i. (jw.session_heap i).marked_dead ≡ false) q (ground (arith, e, h))
]

close_session-marked :
    (jw : Jaws) (sid : ℕ) → ((close_session jw sid).0.session_heap sid).marked_dead ≡ true
unfolding close_session
close_session-marked jw sid = rw (==_refl sid) refl

-- A Session that the cookies find is not marked dead.
get_session-live :
    (jw : Jaws) (ids : List ℕ) (ip : Addr) (now s : ℕ)
    → get_session jw ids ip now ≡ some s
    → (jw.session_heap s).marked_dead ≡ false
unfolding get_session get_session_by_id is_dead
get_session-live jw [] ip now s h = absurd (cc)
get_session-live jw (id ∷ ids) ip now s h = elim (Option-cases (get_session_by_id jw id ip now)) [
  | inl e ↦ get_session-live jw ids ip now s (ground (arith, e, h))
  | inr (t, e) ↦ found_live jw id ip now s (ground (arith, e, h))
]

-- Once Session.Close has returned, no history of the lifecycle lets a request find that Session
-- again, whatever ids its cookies hold, and whatever its address and the time.
pub close_session-get_session :
    (jw : Jaws) (sid : ℕ) (os : List Op) (ids : List ℕ) (ip : Addr) (now : ℕ)
    → get_session (steps (close_session jw sid).0 os) ids ip now ≢ some sid
close_session-get_session jw sid os ids ip now h =
    let dead = steps-Persists (close_session jw sid).0 os sid (close_session-marked jw sid) in
    absurd (cc (get_session-live _ ids ip now sid h, dead))
