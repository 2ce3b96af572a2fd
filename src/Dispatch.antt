-- ===== src/Dispatch.antt =====
-- eventhandler.go and requestloop.go: the calls of the event handlers, and the queue in front of them.
-- The handlers are code of the application, and so are a parameter.
pub mod Order
pub mod Fifo
use jaws.Base.{
  ℕ, zero, suc, ◌+◌, List, [], ◌∷◌, ◌++◌, Option, none, some, Bool, true, false, not, ◌&&◌, ◌||◌,
  ltb, ◌==◌, if◌then◌else◌, length,
}
use jaws.Strconv.{Text}
use jaws.What.{What}
use jaws.Request.{Request, Cause, WsMsg}
use jaws.Pool.{cancel_locked, is_none}
use jaws.Click.{Floats, Click, parse_click_data}
use jaws.Events.{Call}

-- What a handler returns: nil, an error that is ErrEventUnhandled, or another error; or it panics.
pub data Reply : Type 0 where
  handled unhandled : Reply
  failed panicked : ℕ → Reply

-- The handlers by their identities, each with the interfaces that it implements.
pub record App (fs : Floats) : Type 0 where
  -- Neither NaN nor infinite.
  pub is_finite : fs.Float → Bool
  pub on_input : ℕ → Option (ℕ → Text → Reply)
  pub on_click : ℕ → Option (ℕ → Click fs → Reply)
  pub on_context_menu : ℕ → Option (ℕ → Click fs → Reply)

-- What a call comes to: the handlers that were called on which Elements, the reply, and whether the
-- Request is cancelled.
pub record Outcome : Type 0 where
  pub called : List (ℕ × Option ℕ)
  pub reply : Reply
  pub cancels : Bool

abbrev pub no_call : Outcome
no_call = record { called = []; reply = unhandled; cancels = false }

-- One handler, if it implements the interface.
unfoldable pub call_with {ℓ} : {A : Type ℓ} → Option (ℕ → A → Reply) → ℕ → Option ℕ → A → Outcome
call_with none elem obj arg = no_call
call_with (some f) elem obj arg = record {
  called = (elem, obj) ∷ [];
  reply = f elem arg;
  cancels = false;
}

-- A coordinate that is not finite ends the Request.
unfoldable pub call_click :
    {fs : Floats}
    → App fs
    → Option (ℕ → Click fs → Reply)
    → ℕ
    → Option ℕ
    → Click fs × Text × Bool
    → Outcome
unfolding call_with
call_click app f elem obj (clk, after, false) = no_call
call_click app f elem obj (clk, after, true) =
    if app.is_finite clk.x && app.is_finite clk.y
    then call_with f elem obj clk
    else record { called = []; reply = handled; cancels = true }

-- The method of a handler; nil has none.
abbrev pub method {ℓ} : {F : Type ℓ} → (ℕ → Option F) → Option ℕ → Option F
method find none = none
method find (some obj) = find obj

-- callEventHandler.
unfoldable pub call_event_handler : {fs : Floats} → App fs → ℕ → What → Text → Option ℕ → Outcome
unfolding call_click call_with
call_event_handler {fs = fs} app elem What.click value obj =
    call_click app (method app.on_click obj) elem obj (parse_click_data fs value)
call_event_handler {fs = fs} app elem What.context_menu value obj =
    call_click app (method app.on_context_menu obj) elem obj (parse_click_data fs value)
call_event_handler app elem What.input value obj =
    call_with (method app.on_input obj) elem obj value
call_event_handler app elem What.hook value obj = call_with (method app.on_input obj) elem obj value
call_event_handler app elem What.set value obj = call_with (method app.on_input obj) elem obj value
call_event_handler app elem _ value obj = no_call

-- The next call, unless the reply says that the event was handled.
unfoldable pub or_else : Outcome → Outcome → Outcome
or_else first next = elim first.reply [
  | unhandled ↦ record {
    called = first.called ++ next.called;
    reply = next.reply;
    cancels = first.cancels || next.cancels;
  }
  | r ↦ first
]

-- The loop of callEventHandlers, from the last handler to the first; then the UI.
unfoldable pub call_back : {fs : Floats} → App fs → ℕ → What → Text → List ℕ → Option ℕ → Outcome
unfolding call_event_handler or_else
call_back app elem w value [] ui = call_event_handler app elem w value ui
call_back app elem w value (obj ∷ objs) ui =
    or_else (call_event_handler app elem w value (some obj)) (call_back app elem w value objs ui)

abbrev pub reverse_onto : List ℕ → List ℕ → List ℕ
reverse_onto [] out = out
reverse_onto (x ∷ xs) out = reverse_onto xs (x ∷ out)

-- CallEventHandlers, where a panic becomes an error.
unfoldable pub call_event_handlers : {fs : Floats} → App fs → Request → ℕ → What → Text → Outcome
unfolding call_back
call_event_handlers app rq elem w value =
    call_back app elem w value (reverse_onto (rq.handlers elem) []) (rq.ui elem)

unfoldable pub invoke_each : {fs : Floats} → App fs → Request → What → Text → List ℕ → Outcome
unfolding call_event_handlers or_else
invoke_each app rq w value [] = no_call
invoke_each app rq w value (e ∷ es) =
    or_else (call_event_handlers app rq e w value) (invoke_each app rq w value es)

abbrev pub targets : Call → List ℕ
targets call = elim call.elem [ none ↦ call.more | some e ↦ e ∷ call.more ]

abbrev pub normalized : Reply → Reply
normalized unhandled = handled
normalized handled = handled
normalized (failed n) = failed n
normalized (panicked n) = panicked n

-- invoke: an event that nothing handles is no error.
unfoldable pub invoke : {fs : Floats} → App fs → Request → Call → Outcome
unfolding invoke_each
invoke app rq call =
    let o = invoke_each app rq call.what call.text (targets call) in
    record o { reply = normalized o.reply }

-- The Request with its event channel and the channel to its browser.
pub record EventLoop : Type 0 where
  pub request : Request
  pub events : List Call
  pub outbound : List WsMsg
  -- Both channels have the same capacity.
  pub capacity : ℕ
  -- The errors that were logged: replies, and causes of cancellations.
  pub logged : List Reply
  pub causes : List Cause

abbrev pub log_of : Option Cause → List Cause
log_of none = []
log_of (some c) = c ∷ []

-- Request.cancel.
unfoldable pub cancel_with : EventLoop → Cause → EventLoop
unfolding cancel_locked
cancel_with st cause =
    let (rq, logged) = cancel_locked st.request (some cause) in
    record st { request = rq; causes = st.causes ++ log_of logged }

unfoldable pub cancel_if : Bool → EventLoop → Cause → EventLoop
unfolding cancel_with
cancel_if false st cause = st
cancel_if true st cause = cancel_with st cause

-- queueEvent, by whether the call has no target and whether there is room for it.
unfoldable pub accept : Bool → Bool → EventLoop → Call → EventLoop
unfolding cancel_with
accept true room st call = st
accept false true st call = record st { events = st.events ++ call ∷ [] }
accept false false st call = cancel_with st Cause.request_overloaded

unfoldable pub queue_event : EventLoop → Call → EventLoop
unfolding accept
queue_event st call = accept (is_none call.elem) (ltb (length st.events) st.capacity) st call

-- The alert for an error goes out if there is room for it. Its text is a parameter.
unfoldable pub send_alert : (Reply → Text) → EventLoop → Reply → EventLoop
send_alert alert st r =
    if ltb (length st.outbound) st.capacity
    then record st {
      outbound = st.outbound ++ record { data_text = alert r; jid = 0; what = What.alert } ∷ [];
    }
    else record st { logged = st.logged ++ r ∷ [] }

-- What follows a call: an error is logged and sent as an alert.
unfoldable pub report_reply : (Reply → Text) → EventLoop → Reply → EventLoop
unfolding send_alert
report_reply alert st handled = st
report_reply alert st unhandled =
    send_alert alert (record st { logged = st.logged ++ unhandled ∷ [] }) unhandled
report_reply alert st (failed n) =
    send_alert alert (record st { logged = st.logged ++ failed n ∷ [] }) (failed n)
report_reply alert st (panicked n) =
    send_alert alert (record st { logged = st.logged ++ panicked n ∷ [] }) (panicked n)

-- A call of the handlers, with ErrValueNotFinite as the cause where they cancel.
unfoldable pub run_call : {fs : Floats} → App fs → (Reply → Text) → ℕ → EventLoop → Call → EventLoop
unfolding invoke cancel_if report_reply
run_call app alert not_finite st call =
    let o = invoke app st.request call in
    report_reply alert (cancel_if o.cancels st (Cause.other not_finite)) o.reply

-- One round of eventCaller: calls are dropped once the context is done. With the call that was made.
unfoldable pub take_call :
    {fs : Floats} → App fs → (Reply → Text) → ℕ → Bool → EventLoop → Call → EventLoop × List Call
unfolding run_call
take_call app alert not_finite false st call = (st, [])
take_call app alert not_finite true st call = (run_call app alert not_finite st call, call ∷ [])

unfoldable pub event_round :
    {fs : Floats} → App fs → (Reply → Text) → ℕ → EventLoop → List Call → EventLoop × List Call
unfolding take_call
event_round app alert not_finite st [] = (st, [])
event_round app alert not_finite st (call ∷ calls) =
    take_call app alert not_finite (is_none st.request.ctx_err) (record st { events = calls }) call
