-- ===== src/Distribution/Growth.antt =====
-- Channels are only ever added.
use jaws.Base.{
  ℕ, zero, suc, ◌≤◌, List, [], ◌∷◌, none, Bool, true, false, ◌&&◌, ltb, ◌==◌, if◌then◌else◌, length,
  contains, delete_func, ◌≡◌, refl, ◌∙◌, arith,
}
use jaws.Pool.Service.{cancel}
use jaws.Broadcast.{Message}
use jaws.Distribution.{
  Loop, close_if, close_channel, kill_if, kill_sub, is_tick, put, overload, select, send_or_kill,
  send_if, wants, visit, must_broadcast, make_channel, subscribe, subscribe_done, take_first,
  receive, close_subs, finish_loop, Op, subscribes, gives_up, unsubscribes, receives, broadcasts,
  ticks, changes, finishes, step, tick,
}

-- The number of channels that were made does not fall.
close_if_next : (b : Bool) (st : Loop) (c : ℕ) → (close_if b st c).next_channel ≡ st.next_channel
unfolding close_if
close_if_next true st c = refl
close_if_next false st c = refl

kill_if_next : (b : Bool) (st : Loop) (c : ℕ) → (kill_if b st c).next_channel ≡ st.next_channel
unfolding kill_if close_channel
kill_if_next false st c = refl
kill_if_next true st c =
    close_if_next (st.channels c).closed (record st { subs = delete_func st.subs (λ d. d == c) }) c

select_next :
    (closed room dropped : Bool) (st : Loop) (c : ℕ) (msg : Message)
    → (select closed room dropped st c msg).next_channel ≡ st.next_channel
unfolding select put overload kill_sub
select_next true room dropped st c msg = refl
select_next false true dropped st c msg = refl
select_next false false true st c msg = refl
select_next false false false st c msg = kill_if_next (contains st.subs c) st c

send_if_next :
    (b : Bool) (st : Loop) (c : ℕ) (msg : Message)
    → (send_if b st c msg).next_channel ≡ st.next_channel
unfolding send_if send_or_kill
send_if_next false st c msg = refl
send_if_next true st c msg =
    select_next (st.channels c).closed
      (ltb (length (st.channels c).buffer) (st.channels c).capacity) (is_tick msg) st c msg

must_broadcast_next :
    (st : Loop) (msg : Message) (walk : List ℕ)
    → (must_broadcast st msg walk).next_channel ≡ st.next_channel
unfolding must_broadcast visit
must_broadcast_next st msg [] = refl
must_broadcast_next st msg (c ∷ cs) =
    must_broadcast_next (visit msg st c) msg cs
    ∙ send_if_next (contains st.subs c && wants st c msg) st c msg

close_subs_next : (st : Loop) (cs : List ℕ) → (close_subs st cs).next_channel ≡ st.next_channel
unfolding close_subs close_channel
close_subs_next st [] = refl
close_subs_next st (c ∷ cs) =
    let st' : Loop = record st { jaws = cancel st.jaws (st.channels c).owner none } in
    close_subs_next (close_channel st' c) cs ∙ close_if_next (st.channels c).closed st' c

take_first_next :
    (st : Loop) (c : ℕ) (ms : List Message) → (take_first st c ms).0.next_channel ≡ st.next_channel
unfolding take_first
take_first_next st c [] = refl
take_first_next st c (m ∷ ms) = refl

serving_le :
    (b : Bool) (st st' st'' : Loop)
    → st.next_channel ≤ st'.next_channel
    → st.next_channel ≤ st''.next_channel
    → st.next_channel ≤ (if b then st' else st'').next_channel
serving_le true st st' st'' h k = h
serving_le false st st' st'' h k = k

subscribe_done_next :
    (st : Loop) (rid size : ℕ) → st.next_channel ≤ (subscribe_done st rid size).next_channel
unfolding subscribe_done make_channel close_channel
subscribe_done_next st rid size = omega (
  arith,
  close_if_next ((make_channel st rid size).channels st.next_channel).closed
      (make_channel st rid size) st.next_channel,
)

pub next-le-step : (st : Loop) (op : Op) → st.next_channel ≤ (step st op).next_channel
unfolding step subscribe make_channel receive kill_sub finish_loop
next-le-step st (subscribes rid size) =
    serving_le st.serving st (subscribe st rid size) (subscribe_done st rid size) (omega arith)
      (subscribe_done_next st rid size)
next-le-step st (gives_up rid size) = subscribe_done_next st rid size
next-le-step st (unsubscribes c) =
    serving_le st.serving st (kill_sub st c) st
      (omega (arith, kill_if_next (contains st.subs c) st c)) (omega arith)
next-le-step st (receives c) = omega (arith, take_first_next st c (st.channels c).buffer)
next-le-step st (broadcasts msg walk) =
    serving_le st.serving st (must_broadcast st msg walk) st
      (omega (arith, must_broadcast_next st msg walk)) (omega arith)
next-le-step st (ticks zero walk) = omega arith
next-le-step st (ticks (suc n) walk) =
    serving_le st.serving st (must_broadcast st tick walk) st
      (omega (arith, must_broadcast_next st tick walk)) (omega arith)
next-le-step st (changes jw) = omega arith
next-le-step st finishes =
    serving_le st.serving st (finish_loop st) st (omega (arith, close_subs_next st st.subs))
      (omega arith)
