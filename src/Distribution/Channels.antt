-- ===== src/Distribution/Channels.antt =====
-- The channels of the loop: which are open, and that none is closed twice or used when closed.
use jaws.Base.{
  ℕ, zero, suc, ◌≤◌, ◌<◌, List, [], ◌∷◌, ◌++◌, none, some, Bool, true, false, ◌&&◌, ◌||◌, ltb, ◌==◌,
  if◌then◌else◌, length, length-append, contains, contains-delete_func, Distinct,
  Distinct-delete_func, delete_func, ◌≡◌, refl, sym, ap, ◌∙◌, subst, arith, Bool-cases, inl, inr,
  ==→eq, ==_refl,
}
use jaws.Request.{update, Cause}
use jaws.Pool.{Jaws}
use jaws.Pool.Service.{cancel}
use jaws.Broadcast.{Message}
use jaws.Distribution.{
  Loop, close_channel, kill_sub, is_tick, put, overload, select, send_if, send_or_kill, wants,
  visit, must_broadcast, make_channel, subscribe, subscribe_done, take_first, receive,
  while_serving, close_subs, finish_loop, Op, subscribes, gives_up, unsubscribes, receives,
  broadcasts, ticks, changes, finishes, step, tick,
}

-- Nothing has panicked, subs holds open channels that were made, each once, and no channel holds more
-- than it has room for.
pub record IsRunning (st : Loop) : Type 0 where
  pub calm : st.panicked ≡ false
  pub once : Distinct st.subs
  pub open_subs : (c : ℕ) → contains st.subs c ≡ true → (st.channels c).closed ≡ false
  pub made : (c : ℕ) → contains st.subs c ≡ true → c < st.next_channel
  pub room : (c : ℕ) → length (st.channels c).buffer ≤ (st.channels c).capacity
  -- A channel that was not made is open.
  pub fresh : (c : ℕ) → st.next_channel ≤ c → (st.channels c).closed ≡ false

-- The state with a channel closed.
abbrev shut : Loop → ℕ → List ℕ → Loop
shut st c subs = record st {
  channels = update st.channels c (record (st.channels c) { closed = true });
  subs = subs;
}

shut-IsRunning :
    (st : Loop) (c : ℕ) (subs : List ℕ)
    → IsRunning st
    → Distinct subs
    → c < st.next_channel
    → ((d : ℕ) → contains subs d ≡ true → (contains st.subs d ≡ true) × ((c == d) ≡ false))
    → IsRunning (shut st c subs)
shut-IsRunning st c subs h once l k = record {
  calm = h.calm;
  once = once;
  open_subs = λ d m. rw (k d m).1 (h.open_subs d (k d m).0);
  made = λ d m. h.made d (k d m).0;
  room = λ d. ground (arith, h.room d, h.room c);
  fresh = λ d m. let e : (c == d) ≡ false = ground (arith, l, m) in rw e (h.fresh d m);
}

other_left :
    (xs : List ℕ) (c d : ℕ)
    → contains (delete_func xs (λ e. e == c)) d ≡ true
    → (contains xs d ≡ true) × ((c == d) ≡ false)
other_left xs c d m =
    let e = sym (contains-delete_func xs (λ e. e == c) d) ∙ m in
    (ground (arith, e), ground (arith, e))

apart : (xs : List ℕ) (c d : ℕ) → contains xs c ≡ false → contains xs d ≡ true → (c == d) ≡ false
apart xs c d n m = elim (Bool-cases (c == d)) [
  | inl e ↦ absurd (cc (n, m, ap (contains xs) (==→eq c d e)))
  | inr e ↦ e
]

kill_sub-shut :
    (st : Loop) (c : ℕ)
    → contains st.subs c ≡ true
    → (st.channels c).closed ≡ false
    → kill_sub st c ≡ shut st c (delete_func st.subs (λ d. d == c))
unfolding kill_sub
kill_sub-shut st c m o = rw (m, o) refl

pub kill_sub-IsRunning : (st : Loop) (c : ℕ) → IsRunning st → IsRunning (kill_sub st c)
unfolding kill_sub
kill_sub-IsRunning st c h = elim (Bool-cases (contains st.subs c)) [
  | inl m ↦ subst IsRunning (sym (kill_sub-shut st c m (h.open_subs c m))) (
      shut-IsRunning st c (delete_func st.subs (λ d. d == c)) h
        (Distinct-delete_func st.subs (λ d. d == c) h.once) (h.made c m) (other_left st.subs c))
  | inr n ↦ rw n h
]

-- The Jaws does not matter.
jaws-IsRunning : (st : Loop) (jw : Jaws) → IsRunning st → IsRunning (record st { jaws = jw })
jaws-IsRunning st jw h = record {
  calm = h.calm;
  once = h.once;
  open_subs = h.open_subs;
  made = h.made;
  room = h.room;
  fresh = h.fresh;
}

-- A buffer that fits.
fill : Loop → ℕ → List Message → Loop
fill st c ms = record st {
  channels = update st.channels c (record (st.channels c) { buffer = ms });
}

fill-IsRunning :
    (st : Loop) (c : ℕ) (ms : List Message)
    → IsRunning st
    → length ms ≤ (st.channels c).capacity
    → IsRunning (fill st c ms)
unfolding fill
fill-IsRunning st c ms h l = record {
  calm = h.calm;
  once = h.once;
  open_subs = λ d m. elim (Bool-cases (c == d)) [
    | inl e ↦ rw e (h.open_subs c (subst (λ x. contains st.subs x ≡ true) (sym (==→eq c d e)) m))
    | inr e ↦ rw e (h.open_subs d m)
  ];
  made = h.made;
  room = λ d. ground (arith, h.room d, l);
  fresh = λ d m. elim (Bool-cases (c == d)) [
    | inl e ↦ rw e (h.fresh c (omega (arith, m, ==→eq c d e)))
    | inr e ↦ rw e (h.fresh d m)
  ];
}

select-IsRunning :
    (room dropped : Bool) (st : Loop) (c : ℕ) (msg : Message)
    → IsRunning st
    → ltb (length (st.channels c).buffer) (st.channels c).capacity ≡ room
    → IsRunning (select false room dropped st c msg)
unfolding select overload put fill
select-IsRunning true dropped st c msg h l =
    fill-IsRunning st c ((st.channels c).buffer ++ msg ∷ []) h
      (ground (arith, l, length-append (st.channels c).buffer (msg ∷ [])))
select-IsRunning false true st c msg h l = h
select-IsRunning false false st c msg h l =
    jaws-IsRunning (kill_sub st c)
      (cancel (kill_sub st c).jaws (st.channels c).owner (some Cause.request_overloaded))
      (kill_sub-IsRunning st c h)

send_or_kill-IsRunning :
    (st : Loop) (c : ℕ) (msg : Message)
    → IsRunning st
    → contains st.subs c ≡ true
    → IsRunning (send_or_kill st c msg)
unfolding send_or_kill
send_or_kill-IsRunning st c msg h m =
    let room = ltb (length (st.channels c).buffer) (st.channels c).capacity in
    subst (λ b. IsRunning (select b room (is_tick msg) st c msg)) (sym (h.open_subs c m))
      (select-IsRunning room (is_tick msg) st c msg h refl)

send_if-IsRunning :
    (b : Bool) (st : Loop) (c : ℕ) (msg : Message)
    → IsRunning st
    → (b ≡ true → contains st.subs c ≡ true)
    → IsRunning (send_if b st c msg)
unfolding send_if
send_if-IsRunning false st c msg h m = h
send_if-IsRunning true st c msg h m = send_or_kill-IsRunning st c msg h (m refl)

pub visit-IsRunning :
    (msg : Message) (st : Loop) (c : ℕ) → IsRunning st → IsRunning (visit msg st c)
unfolding visit
visit-IsRunning msg st c h =
    send_if-IsRunning (contains st.subs c && wants st c msg) st c msg h (λ e. ground (arith, e))

pub must_broadcast-IsRunning :
    (st : Loop) (msg : Message) (walk : List ℕ)
    → IsRunning st
    → IsRunning (must_broadcast st msg walk)
unfolding must_broadcast
must_broadcast-IsRunning st msg [] h = h
must_broadcast-IsRunning st msg (c ∷ cs) h =
    must_broadcast-IsRunning (visit msg st c) msg cs (visit-IsRunning msg st c h)

make_channel-IsRunning :
    (st : Loop) (rid size : ℕ) → IsRunning st → IsRunning (make_channel st rid size)
unfolding make_channel
make_channel-IsRunning st rid size h = record {
  calm = h.calm;
  once = h.once;
  open_subs = λ d m.
      let e : (st.next_channel == d) ≡ false = ground (arith, h.made d m) in rw e (h.open_subs d m);
  made = λ d m. omega (arith, h.made d m);
  room = λ d. ground (arith, h.room d);
  fresh = λ d m.
      let e : (st.next_channel == d) ≡ false = ground (arith, m) in
      rw e (h.fresh d (omega (arith, m)));
}

new_channel :
    (st : Loop) (rid size : ℕ)
    → ((make_channel st rid size).channels st.next_channel).closed ≡ false
unfolding make_channel
new_channel st rid size = rw (==_refl st.next_channel) refl

not_new : (st : Loop) → IsRunning st → contains st.subs st.next_channel ≡ false
not_new st h = elim (Bool-cases (contains st.subs st.next_channel)) [
  | inl e ↦ absurd (omega (arith, h.made st.next_channel e))
  | inr e ↦ e
]

subscribe-IsRunning : (st : Loop) (rid size : ℕ) → IsRunning st → IsRunning (subscribe st rid size)
unfolding subscribe make_channel
subscribe-IsRunning st rid size h =
    let k = make_channel-IsRunning st rid size h in
    record {
      calm = k.calm;
      once = (not_new st h, k.once);
      open_subs = λ d m. elim (Bool-cases (st.next_channel == d)) [
        | inl e ↦ rw e refl
        | inr e ↦ rw e (h.open_subs d (ground (arith, m, e)))
      ];
      made = λ d m. elim (Bool-cases (st.next_channel == d)) [
        | inl e ↦ omega (arith, ==→eq st.next_channel d e)
        | inr e ↦
            let old : contains st.subs d ≡ true = ground (arith, m, e) in
            omega (arith, h.made d old)
      ];
      room = k.room;
      fresh = k.fresh;
    }

close_channel-shut :
    (st : Loop) (c : ℕ) → (st.channels c).closed ≡ false → close_channel st c ≡ shut st c st.subs
unfolding close_channel
close_channel-shut st c o = rw o refl

close_channel-IsRunning :
    (st : Loop) (c : ℕ)
    → IsRunning st
    → c < st.next_channel
    → contains st.subs c ≡ false
    → (st.channels c).closed ≡ false
    → IsRunning (close_channel st c)
close_channel-IsRunning st c h l n o =
    subst IsRunning (sym (close_channel-shut st c o))
      (shut-IsRunning st c st.subs h h.once l (λ d m. (m, apart st.subs c d n m)))

subscribe_done-IsRunning :
    (st : Loop) (rid size : ℕ) → IsRunning st → IsRunning (subscribe_done st rid size)
unfolding subscribe_done make_channel
subscribe_done-IsRunning st rid size h =
    close_channel-IsRunning (make_channel st rid size) st.next_channel
      (make_channel-IsRunning st rid size h) (omega arith) (not_new st h) (new_channel st rid size)

received :
    (st : Loop) (c : ℕ) (ms : List Message)
    → (st.channels c).buffer ≡ ms
    → IsRunning st
    → IsRunning (take_first st c ms).0
unfolding take_first fill
received st c [] e h = h
received st c (m ∷ ms) e h = fill-IsRunning st c ms h (omega (arith, h.room c, ap length e))

receive-IsRunning : (st : Loop) (c : ℕ) → IsRunning st → IsRunning (receive st c).0
unfolding receive
receive-IsRunning st c h = received st c (st.channels c).buffer refl h

-- The deferred function closes what is left of subs.
close_subs-IsRunning :
    (st : Loop) (cs : List ℕ)
    → IsRunning (record st { subs = cs })
    → IsRunning (record (close_subs st cs) { subs = []; serving = false })
unfolding close_subs
close_subs-IsRunning st [] h = record {
  calm = h.calm;
  once = h.once;
  open_subs = h.open_subs;
  made = h.made;
  room = h.room;
  fresh = h.fresh;
}
close_subs-IsRunning st (c ∷ cs) h =
    let jw = cancel st.jaws (st.channels c).owner none in
    let here : contains (c ∷ cs) c ≡ true = ap (λ b. b || contains cs c) (==_refl c) in
    let st' : Loop = record st { jaws = jw } in
    let k =
      shut-IsRunning (record st' { subs = c ∷ cs }) c cs
        (jaws-IsRunning (record st { subs = c ∷ cs }) jw h) h.once.1 (h.made c here)
        (λ d m. (ground (arith, m), apart cs c d h.once.0 m)) in
    subst (λ (l : Loop). IsRunning (record (close_subs l cs) { subs = []; serving = false }))
      (sym (close_channel-shut st' c (h.open_subs c here)))
      (close_subs-IsRunning (shut st' c st.subs) cs k)

finish_loop-IsRunning : (st : Loop) → IsRunning st → IsRunning (finish_loop st)
unfolding finish_loop
finish_loop-IsRunning st h = close_subs-IsRunning st st.subs h

if-IsRunning :
    (b : Bool) (st st' : Loop) → IsRunning st → IsRunning st' → IsRunning (if b then st else st')
if-IsRunning true st st' h k = h
if-IsRunning false st st' h k = k

while_serving-IsRunning :
    (st st' : Loop) → IsRunning st → IsRunning st' → IsRunning (while_serving st st')
while_serving-IsRunning st st' h k = if-IsRunning st.serving st' st k h

pub step-IsRunning : (st : Loop) (op : Op) → IsRunning st → IsRunning (step st op)
unfolding step
step-IsRunning st (subscribes rid size) h =
    if-IsRunning st.serving (subscribe st rid size) (subscribe_done st rid size)
      (subscribe-IsRunning st rid size h) (subscribe_done-IsRunning st rid size h)
step-IsRunning st (gives_up rid size) h = subscribe_done-IsRunning st rid size h
step-IsRunning st (unsubscribes c) h =
    while_serving-IsRunning st (kill_sub st c) h (kill_sub-IsRunning st c h)
step-IsRunning st (receives c) h = receive-IsRunning st c h
step-IsRunning st (broadcasts msg walk) h =
    while_serving-IsRunning st (must_broadcast st msg walk) h
      (must_broadcast-IsRunning st msg walk h)
step-IsRunning st (ticks zero walk) h = h
step-IsRunning st (ticks (suc n) walk) h =
    while_serving-IsRunning st (must_broadcast st tick walk) h
      (must_broadcast-IsRunning st tick walk h)
step-IsRunning st (changes jw) h = jaws-IsRunning st jw h
step-IsRunning st finishes h =
    while_serving-IsRunning st (finish_loop st) h (finish_loop-IsRunning st h)
