-- ===== src/Distribution/Views.antt =====
-- What one round of mustBroadcast does to a channel and to the others.
use jaws.Base.{
  ℕ, Option, none, some, Bool, true, false, ◌&&◌, ◌||◌, ltb, ◌==◌, length, contains,
  contains-delete_func, delete_func, ◌≡◌, refl, ap, ◌∙◌, arith, Bool-cases, inl, inr, ==→eq,
}
use jaws.Request.{Request, update, Cause}
use jaws.Pool.{Jaws, cancel_locked, log_cause}
use jaws.Pool.Service.{cancel}
use jaws.Broadcast.{Message, want_message}
use jaws.Distribution.{
  Channel, Loop, close_if, close_channel, kill_if, kill_sub, is_tick, is_nowhere, put, overload,
  select, send_or_kill, send_if, wants, visit,
}

-- A cancellation changes nothing that a message is matched against.
cancel_locked-want_message :
    (rq : Request) (err : Option Cause) (msg : Message)
    → want_message (cancel_locked rq err).0 msg ≡ want_message rq msg
unfolding cancel_locked want_message
cancel_locked-want_message rq err msg = ground arith

log_cause-heap : (jw : Jaws) (c : Option Cause) → (log_cause jw c).heap ≡ jw.heap
unfolding log_cause
log_cause-heap jw none = refl
log_cause-heap jw (some c) = refl

cancel-want_message :
    (jw : Jaws) (rid s : ℕ) (err : Option Cause) (msg : Message)
    → want_message ((cancel jw rid err).heap s) msg ≡ want_message (jw.heap s) msg
unfolding cancel
cancel-want_message jw rid s err msg =
    let cl = cancel_locked (jw.heap rid) err in
    ap (λ (h : ℕ → Request). want_message (h s) msg)
      (log_cause-heap (record jw { heap = update jw.heap rid cl.0 }) cl.1)
    ∙ elim (Bool-cases (rid == s)) [
      | inl e ↦ rw e (
          cancel_locked-want_message (jw.heap rid) err msg
          ∙ ap (λ x. want_message (jw.heap x) msg) (==→eq rid s e))
      | inr e ↦ rw e refl
    ]

-- What a round leaves of a channel that it is not about.
pub record Untouched (x : ℕ) (msg : Message) (st st' : Loop) : Type 0 where
  pub channel : st'.channels x ≡ st.channels x
  pub subscribed : contains st'.subs x ≡ contains st.subs x
  pub wanted : wants st' x msg ≡ wants st x msg

-- The same, where the Jaws is the same too.
record Beside (x : ℕ) (st st' : Loop) : Type 0 where
  channel : st'.channels x ≡ st.channels x
  subscribed : contains st'.subs x ≡ contains st.subs x
  jaws : st'.jaws ≡ st.jaws

close_if-Beside :
    (b : Bool) (st : Loop) (c x : ℕ) → (c == x) ≡ false → Beside x st (close_if b st c)
unfolding close_if
close_if-Beside true st c x n = record { channel = refl; subscribed = refl; jaws = refl }
close_if-Beside false st c x n = record { channel = rw n refl; subscribed = refl; jaws = refl }

kill_if-Beside : (b : Bool) (st : Loop) (c x : ℕ) → (c == x) ≡ false → Beside x st (kill_if b st c)
unfolding kill_if close_channel
kill_if-Beside false st c x n = record { channel = refl; subscribed = refl; jaws = refl }
kill_if-Beside true st c x n =
    let st' : Loop = record st { subs = delete_func st.subs (λ d. d == c) } in
    let h = close_if-Beside (st.channels c).closed st' c x n in
    record {
      channel = h.channel;
      subscribed = h.subscribed ∙ contains-delete_func st.subs (λ d. d == c) x ∙ ground (arith, n);
      jaws = h.jaws;
    }

select-Untouched :
    (closed room dropped : Bool) (st : Loop) (c x : ℕ) (msg : Message)
    → (c == x) ≡ false
    → Untouched x msg st (select closed room dropped st c msg)
unfolding select put overload kill_sub wants
select-Untouched true room dropped st c x msg n = record {
  channel = refl;
  subscribed = refl;
  wanted = refl;
}
select-Untouched false true dropped st c x msg n = record {
  channel = rw n refl;
  subscribed = refl;
  wanted = rw n refl;
}
select-Untouched false false true st c x msg n = record {
  channel = refl;
  subscribed = refl;
  wanted = refl;
}
select-Untouched false false false st c x msg n =
    let h = kill_if-Beside (contains st.subs c) st c x n in
    let st' = kill_if (contains st.subs c) st c in
    record {
      channel = h.channel;
      subscribed = h.subscribed;
      wanted =
          ap (λ b. is_nowhere msg.dest || b)
            (cancel-want_message st'.jaws (st.channels c).owner (st'.channels x).owner
                (some Cause.request_overloaded) msg
              ∙ ap (λ (jw : Jaws). want_message (jw.heap (st'.channels x).owner) msg) h.jaws
              ∙ ap (λ (ch : Channel). want_message (st.jaws.heap ch.owner) msg) h.channel);
    }

send_if-Untouched :
    (b : Bool) (st : Loop) (c x : ℕ) (msg : Message)
    → (c == x) ≡ false
    → Untouched x msg st (send_if b st c msg)
unfolding send_if send_or_kill
send_if-Untouched false st c x msg n = record { channel = refl; subscribed = refl; wanted = refl }
send_if-Untouched true st c x msg n =
    select-Untouched (st.channels c).closed
      (ltb (length (st.channels c).buffer) (st.channels c).capacity) (is_tick msg) st c x msg n

pub visit-Untouched :
    (msg : Message) (st : Loop) (c x : ℕ) → (c == x) ≡ false → Untouched x msg st (visit msg st c)
unfolding visit
visit-Untouched msg st c x n = send_if-Untouched (contains st.subs c && wants st c msg) st c x msg n
