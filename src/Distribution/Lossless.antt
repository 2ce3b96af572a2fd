-- ===== src/Distribution/Lossless.antt =====
-- The loop loses no addressed message, in any history.
use jaws.Base.{
  ℕ, zero, suc, ◌≤◌, List, [], ◌∷◌, ◌++◌, append_assoc, append-nil, Bool, true, false, ◌&&◌, ◌==◌,
  if◌then◌else◌, length, contains, Distinct, ◌≡◌, refl, sym, ap, ◌∙◌, subst, arith, Bool-cases, inl,
  inr, ==→eq, ==_refl,
}
use jaws.Pool.{Jaws}
use jaws.Broadcast.{Message}
use jaws.Distribution.{
  Channel, Loop, begin, close_channel, kill_sub, wants, visit, must_broadcast, make_channel,
  subscribe, subscribe_done, take_first, receive, finish_loop, Op, subscribes, gives_up,
  unsubscribes, receives, broadcasts, ticks, changes, finishes, step, tick,
}
use jaws.Distribution.Channels.{IsRunning, step-IsRunning, visit-IsRunning}
use jaws.Distribution.Views.{visit-Untouched}
use jaws.Distribution.NoLoss.{
  addressed, addressed-tick, Fate, FateOf, news_if, news, visit-Fate, beside-Fate,
  must_broadcast-Fate, past-Fate,
}
use jaws.Distribution.Growth.{next-le-step}
use jaws.Distribution.Trace.{
  Trace, begin_trace, meant_by, first_of, got_by, follow, follow_all, IsAllowed, AreAllowed,
  if-Fate, close_if-Fate, kill_if-Fate, finish_loop-Fate,
}

make_channel-Fate :
    (st : Loop) (rid size x : ℕ) (meant got : List Message)
    → (st.next_channel ≤ x → (meant ≡ []) × (got ≡ []))
    → FateOf st x meant got
    → FateOf (make_channel st rid size) x meant got
unfolding make_channel
make_channel-Fate st rid size x meant got u f = elim (Bool-cases (st.next_channel == x)) [
  | inl e ↦ let n = u (omega (arith, ==→eq st.next_channel x e)) in rw (e, n.0, n.1) (inl refl)
  | inr e ↦ rw e f
]

subscribe_done-Fate :
    (st : Loop) (rid size x : ℕ) (meant got : List Message)
    → (st.next_channel ≤ x → (meant ≡ []) × (got ≡ []))
    → FateOf st x meant got
    → FateOf (subscribe_done st rid size) x meant got
unfolding subscribe_done close_channel
subscribe_done-Fate st rid size x meant got u f =
    let st' = make_channel st rid size in
    close_if-Fate (st'.channels st.next_channel).closed st' st.next_channel x meant got
      (make_channel-Fate st rid size x meant got u f)

subscribe-Fate :
    (st : Loop) (rid size x : ℕ) (meant got : List Message)
    → (st.next_channel ≤ x → (meant ≡ []) × (got ≡ []))
    → FateOf st x meant got
    → FateOf (subscribe st rid size) x meant got
unfolding subscribe make_channel
subscribe-Fate st rid size x meant got u f = elim (Bool-cases (st.next_channel == x)) [
  | inl e ↦ let n = u (omega (arith, ==→eq st.next_channel x e)) in rw (e, n.0, n.1) (inl refl)
  | inr e ↦ rw e f
]

-- A tick is no addressed message.
tickless-Fate :
    (b sub : Bool) (ch : Channel) (meant got : List Message)
    → Fate sub ch (meant ++ news_if b tick) got
    → Fate sub ch meant got
tickless-Fate true sub ch meant got (inl e) = inl (e ∙ addressed-tick meant tick refl)
tickless-Fate true sub ch meant got (inr h) =
    inr (h.0, h.1, (h.2.0, sym (addressed-tick meant tick refl) ∙ h.2.1))
tickless-Fate false sub ch meant got f = subst (λ l. Fate sub ch l got) (append-nil meant) f

-- What moves from the buffer to the receiver.
moved-Fate :
    (sub : Bool) (ch : Channel) (m : Message) (ms meant got : List Message)
    → ch.buffer ≡ m ∷ ms
    → Fate sub ch meant got
    → Fate sub (record ch { buffer = ms }) meant (got ++ m ∷ [])
moved-Fate sub ch m ms meant got b (inl e) =
    inl (ap addressed (append_assoc got (m ∷ []) ms ∙ ap (λ l. got ++ l) (sym b)) ∙ e)
moved-Fate sub ch m ms meant got b (inr h) = inr (
  h.0,
  h.1,
  (
    h.2.0,
    h.2.1
        ∙ ap (λ l. addressed l ++ h.2.0 ∷ [])
            (ap (λ l. got ++ l) b ∙ sym (append_assoc got (m ∷ []) ms)),
  ),
)

take_other-Fate :
    (st : Loop) (c x : ℕ) (ms meant got : List Message)
    → (c == x) ≡ false
    → FateOf st x meant got
    → FateOf (take_first st c ms).0 x meant got
unfolding take_first
take_other-Fate st c x [] meant got n f = f
take_other-Fate st c x (m ∷ ms) meant got n f = rw n f

-- Any number of ticks.
ticks-Fate :
    (st : Loop) (walk : List ℕ) (x : ℕ) (meant got : List Message)
    → IsRunning st
    → FateOf st x meant got
    → FateOf (must_broadcast st tick walk) x meant got
unfolding must_broadcast
ticks-Fate st [] x meant got h f = f
ticks-Fate st (c ∷ cs) x meant got h f =
    ticks-Fate (visit tick st c) cs x meant got (visit-IsRunning tick st c h)
      (elim (Bool-cases (c == x)) [
        | inl e ↦
            subst (λ y. FateOf (visit tick st y) x meant got) (sym (==→eq c x e))
              (tickless-Fate (contains st.subs x && wants st x tick)
                (contains (visit tick st x).subs x) ((visit tick st x).channels x) meant got
                (visit-Fate st x tick meant got h f))
        | inr e ↦
            beside-Fate st (visit tick st c) x tick meant got (visit-Untouched tick st c x e) f
      ])

take_first-Fate :
    (st : Loop) (x : ℕ) (ms meant got : List Message)
    → (st.channels x).buffer ≡ ms
    → FateOf st x meant got
    → FateOf (take_first st x ms).0 x meant (got ++ first_of ms)
unfolding take_first
take_first-Fate st x [] meant got e f = subst (λ l. FateOf st x meant l) (sym (append-nil got)) f
take_first-Fate st x (m ∷ ms) meant got e f =
    rw (==_refl x) (moved-Fate (contains st.subs x) (st.channels x) m ms meant got e f)

receive-Fate :
    (st : Loop) (c x : ℕ) (meant got : List Message)
    → FateOf st x meant got
    → FateOf
        (receive st c).0
        x
        meant
        (got ++ (if c == x then first_of (st.channels c).buffer else []))
unfolding receive
receive-Fate st c x meant got f = elim (Bool-cases (c == x)) [
  | inl e ↦
      let same = ==→eq c x e in
      rw e (
        subst
          (λ y.
            FateOf (take_first st y (st.channels y).buffer).0 x meant
              (got ++ first_of (st.channels y).buffer))
          (sym same) (take_first-Fate st x (st.channels x).buffer meant got refl f))
  | inr e ↦ rw e (
      subst (λ l. FateOf (take_first st c (st.channels c).buffer).0 x meant l)
        (sym (append-nil got)) (take_other-Fate st c x (st.channels c).buffer meant got e f))
]

-- What holds all through a history.
record IsFollowed (t : Trace) : Type 0 where
  running : IsRunning t.state
  fate : (x : ℕ) → FateOf t.state x (t.meant x) (t.got x)
  unmade : (x : ℕ) → t.state.next_channel ≤ x → (t.meant x ≡ []) × (t.got x ≡ [])

broadcast-Fate :
    (st : Loop) (msg : Message) (walk : List ℕ) (x : ℕ) (meant got : List Message)
    → IsRunning st
    → Distinct walk
    → contains walk x ≡ contains st.subs x
    → FateOf st x meant got
    → FateOf (must_broadcast st msg walk) x (meant ++ news st x msg) got
broadcast-Fate st msg walk x meant got h d w f = elim (Bool-cases (contains walk x)) [
  | inl e ↦ must_broadcast-Fate st msg walk x meant got h d e f
  | inr e ↦
      let none_new : news st x msg ≡ [] = ap (λ b. news_if (b && wants st x msg) msg) (sym w ∙ e) in
      subst (λ l. FateOf (must_broadcast st msg walk) x l got)
        (sym (append-nil meant) ∙ ap (λ l. meant ++ l) (sym none_new))
        (past-Fate st msg walk x meant got e f)
]

serving-Fate :
    (b : Bool) (st st' : Loop) (x : ℕ) (meant got ms : List Message)
    → FateOf st x meant got
    → FateOf st' x (meant ++ ms) got
    → FateOf (if b then st' else st) x (meant ++ (if b then ms else [])) got
serving-Fate true st st' x meant got ms h k = k
serving-Fate false st st' x meant got ms h k =
    subst (λ l. FateOf st x l got) (sym (append-nil meant)) h

step-Fate :
    (st : Loop) (op : Op) (x : ℕ) (meant got : List Message)
    → IsRunning st
    → IsAllowed st op
    → (st.next_channel ≤ x → (meant ≡ []) × (got ≡ []))
    → FateOf st x meant got
    → FateOf (step st op) x (meant ++ meant_by st op x) (got ++ got_by st op x)
unfolding step kill_sub
step-Fate st (subscribes rid size) x meant got h a u f =
    rw (append-nil meant, append-nil got)
      (if-Fate st.serving (subscribe st rid size) (subscribe_done st rid size) x meant got
        (subscribe-Fate st rid size x meant got u f)
        (subscribe_done-Fate st rid size x meant got u f))
step-Fate st (gives_up rid size) x meant got h a u f =
    rw (append-nil meant, append-nil got) (subscribe_done-Fate st rid size x meant got u f)
step-Fate st (unsubscribes c) x meant got h a u f =
    rw (append-nil meant, append-nil got)
      (if-Fate st.serving (kill_sub st c) st x meant got
        (kill_if-Fate (contains st.subs c) st c x meant got f) f)
step-Fate st (receives c) x meant got h a u f =
    rw (append-nil meant) (receive-Fate st c x meant got f)
step-Fate st (broadcasts msg walk) x meant got h a u f = rw (append-nil got) (
    serving-Fate st.serving st (must_broadcast st msg walk) x meant got (news st x msg) f
      (broadcast-Fate st msg walk x meant got h a.0 (a.1 x) f))
step-Fate st (ticks zero walk) x meant got h a u f = rw (append-nil meant, append-nil got) f
step-Fate st (ticks (suc n) walk) x meant got h a u f =
    rw (append-nil meant, append-nil got)
      (if-Fate st.serving (must_broadcast st tick walk) st x meant got
        (ticks-Fate st walk x meant got h f) f)
step-Fate st (changes jw) x meant got h a u f = rw (append-nil meant, append-nil got) f
step-Fate st finishes x meant got h a u f =
    rw (append-nil meant, append-nil got)
      (if-Fate st.serving (finish_loop st) st x meant got (finish_loop-Fate st x meant got f) f)

not_made : (st : Loop) (x : ℕ) → IsRunning st → st.next_channel ≤ x → contains st.subs x ≡ false
not_made st x h l = elim (Bool-cases (contains st.subs x)) [
  | inl e ↦ absurd (omega (arith, h.made x e, l))
  | inr e ↦ e
]

unchanged : (b : Bool) → ◌≡◌ {A = List Message} (if b then [] else []) []
unchanged true = refl
unchanged false = refl

-- Nothing is meant for a channel that was not made, nor received from it.
step_unmade :
    (st : Loop) (op : Op) (x : ℕ)
    → IsRunning st
    → IsAllowed st op
    → st.next_channel ≤ x
    → (meant_by st op x ≡ []) × (got_by st op x ≡ [])
step_unmade st (subscribes rid size) x h a l = (refl, refl)
step_unmade st (gives_up rid size) x h a l = (refl, refl)
step_unmade st (unsubscribes c) x h a l = (refl, refl)
step_unmade st (receives c) x h a l =
    let e : (c == x) ≡ false = ground (arith, a, l) in
    (refl, ap (λ b. if b then first_of (st.channels c).buffer else []) e)
step_unmade st (broadcasts msg walk) x h a l =
    let e : contains st.subs x ≡ false = not_made st x h l in
    (
      ap (λ b. if st.serving then news_if (b && wants st x msg) msg else []) e
          ∙ unchanged st.serving,
      refl,
    )
step_unmade st (ticks n walk) x h a l = (refl, refl)
step_unmade st (changes jw) x h a l = (refl, refl)
step_unmade st finishes x h a l = (refl, refl)

follow-IsFollowed :
    (t : Trace) (op : Op) → IsAllowed t.state op → IsFollowed t → IsFollowed (follow t op)
follow-IsFollowed t op a h = record {
  running = step-IsRunning t.state op h.running;
  fate = λ x. step-Fate t.state op x (t.meant x) (t.got x) h.running a (h.unmade x) (h.fate x);
  unmade = λ x l.
      let before : t.state.next_channel ≤ x = omega (arith, l, next-le-step t.state op) in
      let u = h.unmade x before in
      let n = step_unmade t.state op x h.running a before in
      (rw (u.0, n.0) refl, rw (u.1, n.1) refl);
}

follow_each :
    (t : Trace) (ops : List Op)
    → AreAllowed t.state ops
    → IsFollowed t
    → IsFollowed (follow_all t ops)
follow_each t [] a h = h
follow_each t (op ∷ ops) a h = follow_each (follow t op) ops a.1 (follow-IsFollowed t op a.0 h)

begin-IsFollowed : (jw : Jaws) → IsFollowed (begin_trace jw)
begin-IsFollowed jw = record {
  running = record {
    calm = refl;
    once = tt;
    open_subs = λ c m. refl;
    made = λ c m. absurd (cc);
    room = λ c. omega arith;
    fresh = λ c l. refl;
  };
  fate = λ x. inl refl;
  unmade = λ x l. (refl, refl);
}

-- Let the loop be started, and let subscriptions, broadcasts, ticks, receives, any changes of the Jaws and the end of the loop follow in any order, where each broadcast walks every key of subs once and only channels that were made are read. Then nothing panics, so no channel is closed twice or sent to when closed, and no buffer holds more than its capacity. For each channel, let its messages be those broadcasts that came while it was subscribed and that were for all or wanted by its Request. Apart from ticks, what was received and what waits in the buffer is then exactly these messages, in order; or it is these but for the last, and the channel is closed and not subscribed.
pub follow_all-lossless :
    (jw : Jaws) (ops : List Op) (x : ℕ)
    → AreAllowed (begin jw) ops
    → let t = follow_all (begin_trace jw) ops in
      (t.state.panicked ≡ false)
      × (length (t.state.channels x).buffer ≤ (t.state.channels x).capacity)
      × Fate (contains t.state.subs x) (t.state.channels x) (t.meant x) (t.got x)
follow_all-lossless jw ops x a =
    let h = follow_each (begin_trace jw) ops a (begin-IsFollowed jw) in
    (h.running.calm, h.running.room x, h.fate x)
