-- ===== src/Pool/Closed.antt =====
-- Session.Close of session.go within the lifecycle of the Requests.
use jaws.Base.{
  ℕ, List, [], ◌∷◌, Bool, true, false, if◌then◌else◌, none, some, ◌∙◌, ==→eq, ==_refl, Distinct,
  subst, sym, contains, ◌&&◌, ◌==◌, ◌≡◌, refl, arith, Bool-cases, inl, inr,
}
use jaws.What.{What}
use jaws.Request.{Request, update}
use jaws.Outbox.{queue}
use jaws.Pool.{Jaws, is_entry}
use jaws.Pool.Soundness.{IsSound}
use jaws.Pool.Preservation.{Unmoved, Unmoved-refl, Unmoved-IsSound}
use jaws.Pool.Progress.{Advances, Advances-refl, Advances-trans, Unmoved-Advances}
use jaws.Pool.Closing.{
  broadcast_keys, session_dest_key, belongs, dead_session, dead_sessions, delete_session_if_current,
  close_session,
}

dead_session-Unmoved : (rq : Request) (sid : ℕ) → Unmoved (dead_session rq sid).0 rq
unfolding dead_session queue
dead_session-Unmoved rq sid = elim (Bool-cases (belongs rq sid)) [
  | inl e ↦
      rw (dead_session, e)
        (record { core = record { identity = refl; key = refl; ip = refl }; state = refl })
  | inr e ↦ rw (dead_session, e) (Unmoved-refl rq)
]

dead_sessions-IsSound :
    (jw : Jaws) (rs : List ℕ) (sid : ℕ)
    → IsSound jw
    → IsSound (record jw { heap = (dead_sessions jw.heap rs sid).0 })
unfolding dead_sessions
dead_sessions-IsSound jw [] sid v = v
dead_sessions-IsSound jw (r ∷ rs) sid v =
    let rq = (dead_session (jw.heap r) sid).0 in
    dead_sessions-IsSound (record jw { heap = update jw.heap r rq }) rs sid
      (Unmoved-IsSound jw r rq v (dead_session-Unmoved (jw.heap r) sid))

dead_sessions-Advances :
    (jw : Jaws) (rs : List ℕ) (sid : ℕ)
    → Advances jw (record jw { heap = (dead_sessions jw.heap rs sid).0 })
unfolding dead_sessions
dead_sessions-Advances jw [] sid = Advances-refl jw
dead_sessions-Advances jw (r ∷ rs) sid =
    let rq = (dead_session (jw.heap r) sid).0 in
    Advances-trans (Unmoved-Advances jw r rq (dead_session-Unmoved (jw.heap r) sid))
      (dead_sessions-Advances (record jw { heap = update jw.heap r rq }) rs sid)

pub close_session-IsSound : (jw : Jaws) (sid : ℕ) → IsSound jw → IsSound (close_session jw sid).0
unfolding close_session delete_session_if_current
close_session-IsSound jw sid v =
    let after = dead_sessions-IsSound jw (jw.session_heap sid).requests sid v in
    elim (Bool-cases (is_entry (some (jw.sessions (jw.session_heap sid).session_id)) sid)) [
      | inl e ↦ rw (close_session, delete_session_if_current, e) after
      | inr e ↦ rw (close_session, delete_session_if_current, e) after
    ]

pub close_session-Advances : (jw : Jaws) (sid : ℕ) → Advances jw (close_session jw sid).0
unfolding close_session delete_session_if_current
close_session-Advances jw sid =
    let a = dead_sessions-Advances jw (jw.session_heap sid).requests sid in
    elim (Bool-cases (is_entry (some (jw.sessions (jw.session_heap sid).session_id)) sid)) [
      | inl e ↦
          rw (close_session, delete_session_if_current, e)
            (record {
              allocated = a.allocated;
              shut = a.shut;
              later = a.later;
              limit = a.limit;
              fewer = a.fewer;
            })
      | inr e ↦
          rw (close_session, delete_session_if_current, e)
            (record {
              allocated = a.allocated;
              shut = a.shut;
              later = a.later;
              limit = a.limit;
              fewer = a.fewer;
            })
    ]

abbrev reloaded : Request → Request
reloaded rq =
    queue (record rq { session = none }) (record { data_text = []; jid = 0; what = What.reload })

-- A second visit of the same Request changes nothing.
abbrev after_close : Bool → Request → Request
after_close b rq = if b then reloaded rq else rq

dead_session_lem :
    (rq : Request) (sid : ℕ) → (dead_session rq sid).0 ≡ after_close (belongs rq sid) rq
unfolding dead_session
dead_session_lem rq sid = elim (Bool-cases (belongs rq sid)) [
  | inl e ↦ rw (dead_session, e) refl
  | inr e ↦ rw (dead_session, e) refl
]

twice :
    (b c : Bool) (rq : Request) (sid : ℕ)
    → belongs rq sid ≡ b
    → after_close (c && belongs (after_close b rq) sid) (after_close b rq) ≡ after_close b rq
unfolding queue
twice true true rq sid h = refl
twice true false rq sid h = refl
twice false true rq sid h = rw h refl
twice false false rq sid h = refl

-- After the loop, each Request of the list that belonged to the Session is detached from it and
-- has one more message queued, a reload; all others are as they were, also if the list is no set.
dead_sessions_lem :
    (heap : ℕ → Request) (rs : List ℕ) (sid a : ℕ)
    → (dead_sessions heap rs sid).0 a ≡ after_close (contains rs a && belongs (heap a) sid) (heap a)
unfolding dead_sessions
dead_sessions_lem heap [] sid a = refl
dead_sessions_lem heap (r ∷ rs) sid a =
    let rq = (dead_session (heap r) sid).0 in
    let rest = dead_sessions_lem (update heap r rq) rs sid a in
    elim (Bool-cases (r == a)) [
      | inr e ↦ rest ∙ rw e refl
      | inl e ↦
          let b = belongs (heap a) sid in
          let q : rq ≡ after_close b (heap a) =
            subst (λ i. (dead_session (heap i) sid).0 ≡ after_close b (heap a)) (sym (==→eq r a e))
              (dead_session_lem (heap a) sid) in
          rest ∙ rw (e, q) (twice b (contains rs a) (heap a) sid refl)
    ]

broadcast_keys-update :
    (jw : Jaws) (r : ℕ) (rq : Request) (rs : List ℕ) (sid : ℕ)
    → contains rs r ≡ false
    → broadcast_keys (record jw { heap = update jw.heap r rq }) rs sid ≡ broadcast_keys jw rs sid
unfolding broadcast_keys
broadcast_keys-update jw r rq [] sid h = refl
broadcast_keys-update jw r rq (s ∷ rs) sid h =
    let e : (r == s) ≡ false = ground (arith, h) in
    rw (e, broadcast_keys-update jw r rq rs sid (ground (arith, h))) refl

dead_session-key : (rq : Request) (sid : ℕ) → (dead_session rq sid).1 ≡ session_dest_key rq sid
unfolding dead_session session_dest_key
dead_session-key rq sid = elim (Bool-cases (belongs rq sid)) [
  | inl e ↦ rw (dead_session, session_dest_key, e) refl
  | inr e ↦ rw (dead_session, session_dest_key, e) refl
]

dead_sessions-broadcast_keys :
    (jw : Jaws) (rs : List ℕ) (sid : ℕ)
    → Distinct rs
    → (dead_sessions jw.heap rs sid).1 ≡ broadcast_keys jw rs sid
unfolding dead_sessions broadcast_keys
dead_sessions-broadcast_keys jw [] sid d = refl
dead_sessions-broadcast_keys jw (r ∷ rs) sid d =
    let rq = (dead_session (jw.heap r) sid).0 in
    rw
      (
        dead_session-key (jw.heap r) sid,
        dead_sessions-broadcast_keys (record jw { heap = update jw.heap r rq }) rs sid d.1,
        broadcast_keys-update jw r rq rs sid d.0,
      )
      refl

-- Closing a Session, whose list of Requests holds none twice, detaches from it each Request of the
-- list that belongs to it and queues one reload there, leaves all other Requests as they are, and
-- wakes exactly the Requests that Session.Broadcast would have sent to, in order. The Session is
-- marked dead and has no Requests.
pub close_session_lem :
    (jw : Jaws) (sid a : ℕ)
    → Distinct (jw.session_heap sid).requests
    → ((close_session jw sid).0.heap a
        ≡ after_close
            (contains (jw.session_heap sid).requests a && belongs (jw.heap a) sid)
            (jw.heap a))
      × ((close_session jw sid).1 ≡ broadcast_keys jw (jw.session_heap sid).requests sid)
      × (((close_session jw sid).0.session_heap sid).marked_dead ≡ true)
      × (((close_session jw sid).0.session_heap sid).requests ≡ [])
unfolding close_session
close_session_lem jw sid a d = (
  dead_sessions_lem jw.heap (jw.session_heap sid).requests sid a,
  dead_sessions-broadcast_keys jw (jw.session_heap sid).requests sid d,
  rw (==_refl sid) refl,
  rw (==_refl sid) refl,
)
