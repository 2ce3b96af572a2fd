-- ===== src/Distribution/NoLoss.antt =====
-- No addressed message is lost on the way to a subscribed Request.
use jaws.Base.{
  ℕ, List, [], ◌∷◌, ◌++◌, append_assoc, append-nil, Bool, true, false, ◌&&◌, ltb, ◌==◌, length,
  contains, contains-delete_func, Distinct, delete_func, delete_func-append, ◌≡◌, refl, sym, ap,
  ◌∙◌, subst, arith, Bool-cases, inl, inr, ◌⊎◌, ==→eq, ==_refl,
}
use jaws.Broadcast.{Message}
use jaws.Distribution.{
  Channel, Loop, close_if, close_channel, kill_if, kill_sub, is_tick, put, overload, select,
  send_or_kill, send_if, wants, visit, must_broadcast,
}
use jaws.Distribution.Channels.{IsRunning, visit-IsRunning}
use jaws.Distribution.Views.{Untouched, visit-Untouched}

-- All messages but the ticks.
abbrev pub addressed : List Message → List Message
addressed ms = delete_func ms is_tick

-- What a channel has got of the messages that were meant for it: `got` was received, the rest waits
-- in the buffer. It lacks nothing, or one message and nothing before it, and then it is closed.
abbrev pub Fate : Bool → Channel → List Message → List Message → Type 0
Fate subscribed ch meant got =
    (addressed (got ++ ch.buffer) ≡ addressed meant)
    ⊎ ((subscribed ≡ false)
        × (ch.closed ≡ true)
        × ((m : Message) × (addressed meant ≡ addressed (got ++ ch.buffer) ++ m ∷ [])))

abbrev pub FateOf : Loop → ℕ → List Message → List Message → Type 0
FateOf st x meant got = Fate (contains st.subs x) (st.channels x) meant got

complete :
    (ch : Channel) (meant got : List Message)
    → Fate true ch meant got
    → addressed (got ++ ch.buffer) ≡ addressed meant
complete ch meant got (inl e) = e
complete ch meant got (inr h) = absurd (cc (h.0))

addressed-both :
    (got buffer meant ms : List Message)
    → addressed (got ++ buffer) ≡ addressed meant
    → addressed (got ++ (buffer ++ ms)) ≡ addressed (meant ++ ms)
addressed-both got buffer meant ms e =
    ap addressed (sym (append_assoc got buffer ms))
    ∙ delete_func-append (got ++ buffer) ms is_tick
    ∙ ap (λ l. l ++ addressed ms) e
    ∙ sym (delete_func-append meant ms is_tick)

pub addressed-tick :
    (meant : List Message) (msg : Message)
    → is_tick msg ≡ true
    → addressed (meant ++ msg ∷ []) ≡ addressed meant
addressed-tick meant msg t =
    delete_func-append meant (msg ∷ []) is_tick ∙ rw t (append-nil (addressed meant))

addressed_one :
    (meant : List Message) (msg : Message)
    → is_tick msg ≡ false
    → addressed (meant ++ msg ∷ []) ≡ addressed meant ++ msg ∷ []
addressed_one meant msg t = delete_func-append meant (msg ∷ []) is_tick ∙ rw t refl

-- The end of a subscription.
record IsKilled (st st' : Loop) (x : ℕ) : Type 0 where
  channel : st'.channels x ≡ record (st.channels x) { closed = true }
  subscribed : contains st'.subs x ≡ false

close_if-IsKilled :
    (b : Bool) (st : Loop) (x : ℕ)
    → b ≡ false
    → contains st.subs x ≡ false
    → IsKilled st (close_if b st x) x
unfolding close_if
close_if-IsKilled true st x o n = absurd (cc)
close_if-IsKilled false st x o n = record { channel = rw (==_refl x) refl; subscribed = n }

kill_if-IsKilled :
    (b : Bool) (st : Loop) (x : ℕ)
    → b ≡ true
    → (st.channels x).closed ≡ false
    → IsKilled st (kill_if b st x) x
unfolding kill_if close_channel
kill_if-IsKilled false st x s o = absurd (cc)
kill_if-IsKilled true st x s o =
    let st' : Loop = record st { subs = delete_func st.subs (λ d. d == x) } in
    let gone = contains-delete_func st.subs (λ d. d == x) x ∙ ground (arith, ==_refl x) in
    let k = close_if-IsKilled (st.channels x).closed st' x o gone in
    record { channel = k.channel; subscribed = k.subscribed }

-- The select on a subscribed channel that is open.
select-Fate :
    (room dropped : Bool) (st : Loop) (x : ℕ) (msg : Message) (meant got : List Message)
    → contains st.subs x ≡ true
    → (st.channels x).closed ≡ false
    → is_tick msg ≡ dropped
    → addressed (got ++ (st.channels x).buffer) ≡ addressed meant
    → FateOf (select false room dropped st x msg) x (meant ++ msg ∷ []) got
unfolding select put overload kill_sub
select-Fate true dropped st x msg meant got s o t e =
    inl (rw (==_refl x) (addressed-both got (st.channels x).buffer meant (msg ∷ []) e))
select-Fate false true st x msg meant got s o t e = inl (e ∙ sym (addressed-tick meant msg t))
select-Fate false false st x msg meant got s o t e =
    let k = kill_if-IsKilled (contains st.subs x) st x s o in
    let short : addressed (meant ++ msg ∷ [])
        ≡ addressed (got ++ (st.channels x).buffer) ++ msg ∷ [] =
      addressed_one meant msg t ∙ ap (λ l. l ++ msg ∷ []) (sym e) in
    inr (
      k.subscribed,
      ap (λ (ch : Channel). ch.closed) k.channel,
      (
        msg,
        short ∙ ap (λ (ch : Channel). addressed (got ++ ch.buffer) ++ msg ∷ []) (sym k.channel),
      ),
    )

abbrev pub news_if : Bool → Message → List Message
news_if true msg = msg ∷ []
news_if false msg = []

send_if-Fate :
    (b : Bool) (st : Loop) (x : ℕ) (msg : Message) (meant got : List Message)
    → IsRunning st
    → (b ≡ true → contains st.subs x ≡ true)
    → FateOf st x meant got
    → FateOf (send_if b st x msg) x (meant ++ news_if b msg) got
unfolding send_if send_or_kill
send_if-Fate false st x msg meant got h s f =
    subst (λ l. FateOf st x l got) (sym (append-nil meant)) f
send_if-Fate true st x msg meant got h s f =
    let m = s refl in
    let o = h.open_subs x m in
    let room = ltb (length (st.channels x).buffer) (st.channels x).capacity in
    let e =
      complete (st.channels x) meant got (subst (λ b. Fate b (st.channels x) meant got) m f) in
    subst (λ b. FateOf (select b room (is_tick msg) st x msg) x (meant ++ msg ∷ []) got) (sym o)
      (select-Fate room (is_tick msg) st x msg meant got m o refl e)

-- What a message is to a channel.
abbrev pub news : Loop → ℕ → Message → List Message
news st x msg = news_if (contains st.subs x && wants st x msg) msg

pub visit-Fate :
    (st : Loop) (x : ℕ) (msg : Message) (meant got : List Message)
    → IsRunning st
    → FateOf st x meant got
    → FateOf (visit msg st x) x (meant ++ news st x msg) got
unfolding visit
visit-Fate st x msg meant got h f =
    send_if-Fate (contains st.subs x && wants st x msg) st x msg meant got h
      (λ e. ground (arith, e)) f

pub beside-Fate :
    (st st' : Loop) (x : ℕ) (msg : Message) (meant got : List Message)
    → Untouched x msg st st'
    → FateOf st x meant got
    → FateOf st' x meant got
beside-Fate st st' x msg meant got u f =
    subst (λ (ch : Channel). Fate (contains st'.subs x) ch meant got) (sym u.channel)
      (subst (λ b. Fate b (st.channels x) meant got) (sym u.subscribed) f)

same_news :
    (st st' : Loop) (x : ℕ) (msg : Message)
    → Untouched x msg st st'
    → news st' x msg ≡ news st x msg
same_news st st' x msg u =
    ap (λ b. news_if (b && wants st' x msg) msg) u.subscribed
    ∙ ap (λ b. news_if (contains st.subs x && b) msg) u.wanted

-- A walk past a channel.
pub past-Fate :
    (st : Loop) (msg : Message) (walk : List ℕ) (x : ℕ) (meant got : List Message)
    → contains walk x ≡ false
    → FateOf st x meant got
    → FateOf (must_broadcast st msg walk) x meant got
unfolding must_broadcast
past-Fate st msg [] x meant got n f = f
past-Fate st msg (c ∷ cs) x meant got n f =
    let e : (c == x) ≡ false = ground (arith, n) in
    let n' : contains cs x ≡ false = ground (arith, n) in
    past-Fate (visit msg st c) msg cs x meant got n'
      (beside-Fate st (visit msg st c) x msg meant got (visit-Untouched msg st c x e) f)

-- A walk that comes to a channel once.
pub must_broadcast-Fate :
    (st : Loop) (msg : Message) (walk : List ℕ) (x : ℕ) (meant got : List Message)
    → IsRunning st
    → Distinct walk
    → contains walk x ≡ true
    → FateOf st x meant got
    → FateOf (must_broadcast st msg walk) x (meant ++ news st x msg) got
unfolding must_broadcast
must_broadcast-Fate st msg [] x meant got h d m f = absurd (cc)
must_broadcast-Fate st msg (c ∷ cs) x meant got h d m f = elim (Bool-cases (c == x)) [
  | inl e ↦
      let same = ==→eq c x e in
      subst (λ y. FateOf (must_broadcast (visit msg st y) msg cs) x (meant ++ news st x msg) got)
        (sym same)
        (past-Fate (visit msg st x) msg cs x (meant ++ news st x msg) got
          (ap (contains cs) (sym same) ∙ d.0) (visit-Fate st x msg meant got h f))
  | inr e ↦
      let u = visit-Untouched msg st c x e in
      let later =
        must_broadcast-Fate (visit msg st c) msg cs x meant got (visit-IsRunning msg st c h) d.1
          (ground (arith, m, e)) (beside-Fate st (visit msg st c) x msg meant got u f) in
      subst (λ l. FateOf (must_broadcast (visit msg st c) msg cs) x (meant ++ l) got)
        (same_news st (visit msg st c) x msg u) later
]
