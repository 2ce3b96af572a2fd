-- ===== src/Dispatch/Fifo.antt =====
-- Events are handled in the order in which they were accepted.
use jaws.Base.{
  ℕ, ◌≤◌, List, [], ◌∷◌, ◌++◌, append_assoc, append-nil, Option, some, Bool, true, false, ltb, ◌==◌,
  if◌then◌else◌, length, length-append, ◌≡◌, refl, sym, ap, ◌∙◌, subst, arith, inl, inr, ◌⊎◌,
}
use jaws.Strconv.{Text}
use jaws.Request.{Request, Cause, WsMsg}
use jaws.Pool.{cancel_locked, is_none}
use jaws.Click.{Floats}
use jaws.Events.{Call}
use jaws.Dispatch.{
  App, Reply, handled, unhandled, failed, panicked, invoke, EventLoop, cancel_with, accept,
  cancel_if, take_call, queue_event, send_alert, report_reply, run_call, event_round,
}

-- What can happen, in any order: an event comes in, the event goroutine takes one, the context is
-- cancelled, or other code changes the Request or the messages that wait.
pub data Op : Type 0 where
  offers : Call → Op
  rounds : Op
  cancelled : Cause → Op
  changes : Request → List WsMsg → Op

-- The loop, with the events that were offered with a target, and those that the handlers were asked.
pub record Trace : Type 0 where
  pub state : EventLoop
  pub offered : List Call
  pub asked : List Call

abbrev pub start : Request → ℕ → Trace
start rq capacity = record {
  state = record {
    request = rq;
    events = [];
    outbound = [];
    capacity = capacity;
    logged = [];
    causes = [];
  };
  offered = [];
  asked = [];
}

abbrev pub targeted : Call → List Call
targeted call = if is_none call.elem then [] else call ∷ []

-- Other code does not take a context back that is done, and does not recycle the Request.
abbrev pub IsAllowed : EventLoop → Op → Type 0
IsAllowed st (changes rq msgs) =
    ((rq.jaws_key == 0) ≡ false)
    × ((is_none st.request.ctx_err ≡ true) ⊎ (is_none rq.ctx_err ≡ false))
IsAllowed st (offers call) = Unit
IsAllowed st rounds = Unit
IsAllowed st (cancelled cause) = Unit

-- All events that were offered were put to the handlers or wait, in order; or the context is done, and
-- those that were put to the handlers are the first that were offered.
abbrev pub Fate : Bool → List Call → List Call → List Call → Type 0
Fate live asked events offered =
    (asked ++ events ≡ offered)
    ⊎ ((live ≡ false) × ((rest : List Call) × (offered ≡ asked ++ rest)))

pub record IsInOrder (t : Trace) : Type 0 where
  pub active : (t.state.request.jaws_key == 0) ≡ false
  pub room : length t.state.events ≤ t.state.capacity
  pub fate : Fate (is_none t.state.request.ctx_err) t.asked t.state.events t.offered

-- What cancellations and reports keep.
record IsKept (st st' : EventLoop) : Type 0 where
  events : st'.events ≡ st.events
  capacity : st'.capacity ≡ st.capacity
  key : st'.request.jaws_key ≡ st.request.jaws_key

cancel_locked_key :
    (rq : Request) (c : Option Cause) → (cancel_locked rq c).0.jaws_key ≡ rq.jaws_key
unfolding cancel_locked
cancel_locked_key rq c = ground arith

cancel_locked_done :
    (rq : Request) (c : Option Cause)
    → (rq.jaws_key == 0) ≡ false
    → is_none (cancel_locked rq c).0.ctx_err ≡ false
unfolding cancel_locked
cancel_locked_done rq c h = ground (arith, h)

cancel_with-IsKept : (st : EventLoop) (c : Cause) → IsKept st (cancel_with st c)
unfolding cancel_with
cancel_with-IsKept st c = record {
  events = refl;
  capacity = refl;
  key = cancel_locked_key st.request (some c);
}

cancel_with_done :
    (st : EventLoop) (c : Cause)
    → (st.request.jaws_key == 0) ≡ false
    → is_none (cancel_with st c).request.ctx_err ≡ false
unfolding cancel_with
cancel_with_done st c h = cancel_locked_done st.request (some c) h

cancel_if-IsKept : (b : Bool) (st : EventLoop) (c : Cause) → IsKept st (cancel_if b st c)
unfolding cancel_if
cancel_if-IsKept false st c = record { events = refl; capacity = refl; key = refl }
cancel_if-IsKept true st c = cancel_with-IsKept st c

send_alert-IsKept :
    (alert : Reply → Text) (st : EventLoop) (r : Reply) → IsKept st (send_alert alert st r)
unfolding send_alert
send_alert-IsKept alert st r =
    let b = ltb (length st.outbound) st.capacity in
    record { events = ground arith; capacity = ground arith; key = ground arith }

report_reply-IsKept :
    (alert : Reply → Text) (st : EventLoop) (r : Reply) → IsKept st (report_reply alert st r)
unfolding report_reply
report_reply-IsKept alert st handled = record { events = refl; capacity = refl; key = refl }
report_reply-IsKept alert st unhandled =
    let h =
      send_alert-IsKept alert (record st { logged = st.logged ++ unhandled ∷ [] }) unhandled in
    record { events = h.events; capacity = h.capacity; key = h.key }
report_reply-IsKept alert st (failed n) =
    let h =
      send_alert-IsKept alert (record st { logged = st.logged ++ failed n ∷ [] }) (failed n) in
    record { events = h.events; capacity = h.capacity; key = h.key }
report_reply-IsKept alert st (panicked n) =
    let h =
      send_alert-IsKept alert (record st { logged = st.logged ++ panicked n ∷ [] }) (panicked n) in
    record { events = h.events; capacity = h.capacity; key = h.key }

offered_more :
    (live : Bool) (asked events offered : List Call) (call : Call)
    → Fate live asked events offered
    → Fate live asked (events ++ call ∷ []) (offered ++ call ∷ [])
offered_more live asked events offered call (inl e) =
    inl (sym (append_assoc asked events (call ∷ [])) ∙ ap (λ l. l ++ call ∷ []) e)
offered_more live asked events offered call (inr h) = inr (
  h.0,
  (h.1.0 ++ call ∷ [], ap (λ l. l ++ call ∷ []) h.1.1 ∙ append_assoc asked h.1.0 (call ∷ [])),
)

-- Once the context is done, what waits does not matter.
done_Fate :
    (live : Bool) (asked events waiting offered : List Call)
    → Fate live asked events offered
    → Fate false asked waiting offered
done_Fate live asked events waiting offered (inl e) = inr (refl, (events, sym e))
done_Fate live asked events waiting offered (inr h) = inr (refl, h.1)

in_order :
    (asked events offered : List Call) (live : Bool)
    → live ≡ true
    → Fate live asked events offered
    → asked ++ events ≡ offered
in_order asked events offered live l (inl e) = e
in_order asked events offered live l (inr h) = absurd (cc (l, h.0))

-- An event that comes in.
accept-IsInOrder :
    (room b : Bool) (t : Trace) (call : Call)
    → ltb (length t.state.events) t.state.capacity ≡ room
    → IsInOrder t
    → IsInOrder (record t {
      state = accept b room t.state call;
      offered = t.offered ++ (if b then [] else call ∷ []);
    })
unfolding accept
accept-IsInOrder room true t call r h = record {
  active = h.active;
  room = h.room;
  fate =
      subst (λ l. Fate (is_none t.state.request.ctx_err) t.asked t.state.events l)
        (sym (append-nil t.offered)) h.fate;
}
accept-IsInOrder true false t call r h = record {
  active = h.active;
  room = ground (arith, r, length-append t.state.events (call ∷ []));
  fate =
      offered_more (is_none t.state.request.ctx_err) t.asked t.state.events t.offered call h.fate;
}
accept-IsInOrder false false t call r h =
    let k = cancel_with-IsKept t.state Cause.request_overloaded in
    let st = cancel_with t.state Cause.request_overloaded in
    let live = is_none t.state.request.ctx_err in
    record {
      active = ap (λ n. n == 0) k.key ∙ h.active;
      room = omega (arith, h.room, ap length k.events, k.capacity);
      fate =
          subst (λ b. Fate b t.asked st.events (t.offered ++ call ∷ []))
            (sym (cancel_with_done t.state Cause.request_overloaded h.active))
            (done_Fate live t.asked (t.state.events ++ call ∷ []) st.events (t.offered ++ call ∷ [])
              (offered_more live t.asked t.state.events t.offered call h.fate));
    }

-- A cancellation.
cancelled-IsInOrder :
    (t : Trace) (c : Cause) → IsInOrder t → IsInOrder (record t { state = cancel_with t.state c })
cancelled-IsInOrder t c h =
    let k = cancel_with-IsKept t.state c in
    record {
      active = ap (λ n. n == 0) k.key ∙ h.active;
      room = omega (arith, h.room, ap length k.events, k.capacity);
      fate =
          subst (λ b. Fate b t.asked (cancel_with t.state c).events t.offered)
            (sym (cancel_with_done t.state c h.active))
            (done_Fate (is_none t.state.request.ctx_err) t.asked t.state.events
              (cancel_with t.state c).events t.offered h.fate);
    }

changed_Fate :
    (live live' : Bool) (asked events offered : List Call)
    → (live ≡ true) ⊎ (live' ≡ false)
    → Fate live asked events offered
    → Fate live' asked events offered
changed_Fate live live' asked events offered a (inl e) = inl e
changed_Fate live live' asked events offered (inl l) (inr h) = absurd (cc (l, h.0))
changed_Fate live live' asked events offered (inr d) (inr h) = inr (d, h.1)

module _ {fs : Floats} (app : App fs) (alert : Reply → Text) (not_finite : ℕ) where
  abbrev pub follow : Trace → Op → Trace
  follow t (offers call) = record t {
    state = queue_event t.state call;
    offered = t.offered ++ targeted call;
  }
  follow t rounds =
      let (st, calls) = event_round app alert not_finite t.state t.state.events in
      record t { state = st; asked = t.asked ++ calls }
  follow t (cancelled cause) = record t { state = cancel_with t.state cause }
  follow t (changes rq msgs) = record t { state = record t.state { request = rq; outbound = msgs } }

  abbrev pub follow_all : Trace → List Op → Trace
  follow_all t [] = t
  follow_all t (op ∷ ops) = follow_all (follow t op) ops

  run_call-IsKept :
      (st : EventLoop) (call : Call) → IsKept st (run_call app alert not_finite st call)
  unfolding run_call
  run_call-IsKept st call =
      let o = invoke app st.request call in
      let k = cancel_if-IsKept o.cancels st (Cause.other not_finite) in
      let r = report_reply-IsKept alert (cancel_if o.cancels st (Cause.other not_finite)) o.reply in
      record {
        events = r.events ∙ k.events;
        capacity = r.capacity ∙ k.capacity;
        key = r.key ∙ k.key;
      }

  -- The event goroutine takes a call.
  take_call-IsInOrder :
      (live : Bool) (t : Trace) (call : Call) (calls : List Call)
      → is_none t.state.request.ctx_err ≡ live
      → t.state.events ≡ call ∷ calls
      → IsInOrder t
      → let (st, made) =
          take_call app alert not_finite live (record t.state { events = calls }) call in
        IsInOrder (record t { state = st; asked = t.asked ++ made })
  unfolding take_call
  take_call-IsInOrder false t call calls l e h = record {
    active = h.active;
    room = omega (arith, h.room, ap length e);
    fate =
        subst (λ a. Fate (is_none t.state.request.ctx_err) a calls t.offered)
          (sym (append-nil t.asked))
          (subst (λ b. Fate b t.asked calls t.offered) (sym l)
            (done_Fate (is_none t.state.request.ctx_err) t.asked t.state.events calls t.offered
              h.fate));
  }
  take_call-IsInOrder true t call calls l e h =
      let st : EventLoop = record t.state { events = calls } in
      let k = run_call-IsKept st call in
      let whole : t.asked ++ (call ∷ calls) ≡ t.offered =
        ap (λ x. t.asked ++ x) (sym e)
        ∙ in_order t.asked t.state.events t.offered (is_none t.state.request.ctx_err) l h.fate in
      record {
        active = ap (λ n. n == 0) k.key ∙ h.active;
        room = omega (arith, h.room, ap length e, ap length k.events, k.capacity);
        fate = inl (
            ap (λ x. (t.asked ++ call ∷ []) ++ x) k.events
            ∙ append_assoc t.asked (call ∷ []) calls
            ∙ whole);
      }

  round-IsInOrder :
      (t : Trace) (events : List Call)
      → t.state.events ≡ events
      → IsInOrder t
      → let (st, made) = event_round app alert not_finite t.state events in
        IsInOrder (record t { state = st; asked = t.asked ++ made })
  unfolding event_round
  round-IsInOrder t [] e h = record {
    active = h.active;
    room = h.room;
    fate =
        subst (λ a. Fate (is_none t.state.request.ctx_err) a t.state.events t.offered)
          (sym (append-nil t.asked)) h.fate;
  }
  round-IsInOrder t (call ∷ calls) e h =
      take_call-IsInOrder (is_none t.state.request.ctx_err) t call calls refl e h

  follow-IsInOrder :
      (t : Trace) (op : Op) → IsAllowed t.state op → IsInOrder t → IsInOrder (follow t op)
  unfolding queue_event
  follow-IsInOrder t (offers call) a h =
      accept-IsInOrder (ltb (length t.state.events) t.state.capacity) (is_none call.elem) t call
        refl h
  follow-IsInOrder t rounds a h = round-IsInOrder t t.state.events refl h
  follow-IsInOrder t (cancelled cause) a h = cancelled-IsInOrder t cause h
  follow-IsInOrder t (changes rq msgs) a h = record {
    active = a.0;
    room = h.room;
    fate =
        changed_Fate (is_none t.state.request.ctx_err) (is_none rq.ctx_err) t.asked t.state.events
          t.offered a.1 h.fate;
  }

  abbrev pub AreAllowed : Trace → List Op → Type 0
  AreAllowed t [] = Unit
  AreAllowed t (op ∷ ops) = IsAllowed t.state op × AreAllowed (follow t op) ops

  follow_each :
      (t : Trace) (ops : List Op) → AreAllowed t ops → IsInOrder t → IsInOrder (follow_all t ops)
  follow_each t [] a h = h
  follow_each t (op ∷ ops) a h = follow_each (follow t op) ops a.1 (follow-IsInOrder t op a.0 h)

  -- Let an active Request serve events from an empty channel, and let events, rounds of the event goroutine, cancellations and changes by other code follow in any order, where a context that is done stays so and the Request is not recycled. Then at most as many events wait as the channel holds, and the events that had a target were put to the handlers, or wait, exactly in the order in which they came; or the context is done, and those that were put to the handlers are the first of them. So an event of a live Request is never lost or overtaken.
  pub follow_all-IsInOrder :
      (rq : Request) (capacity : ℕ) (ops : List Op)
      → (rq.jaws_key == 0) ≡ false
      → AreAllowed (start rq capacity) ops
      → IsInOrder (follow_all (start rq capacity) ops)
  follow_all-IsInOrder rq capacity ops k a =
      follow_each (start rq capacity) ops a
        (record { active = k; room = omega arith; fate = inl refl })
