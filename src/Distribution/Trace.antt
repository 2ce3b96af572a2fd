-- ===== src/Distribution/Trace.antt =====
-- Every history of the loop: what each channel was meant to get, and what it got.
use jaws.Base.{
  ℕ, ◌<◌, List, [], ◌∷◌, ◌++◌, none, Bool, true, false, ◌==◌, if◌then◌else◌, contains,
  contains-delete_func, Distinct, delete_func, ◌≡◌, refl, sym, ◌∙◌, subst, arith, Bool-cases, inl,
  inr, ==→eq,
}
use jaws.Pool.{Jaws}
use jaws.Pool.Service.{cancel}
use jaws.Broadcast.{Message}
use jaws.Distribution.{
  Channel, Loop, begin, close_if, close_channel, kill_if, close_subs, finish_loop, Op, subscribes,
  gives_up, unsubscribes, receives, broadcasts, ticks, changes, finishes, step,
}
use jaws.Distribution.NoLoss.{Fate, FateOf, news}

-- The loop, with what was meant for each channel and what was received from it.
pub record Trace : Type 0 where
  pub state : Loop
  pub meant : ℕ → List Message
  pub got : ℕ → List Message

abbrev pub begin_trace : Jaws → Trace
begin_trace jw = record { state = begin jw; meant = λ x. []; got = λ x. [] }

-- A broadcast is meant for the subscribed channels whose Request wants it.
abbrev pub meant_by : Loop → Op → ℕ → List Message
meant_by st (broadcasts msg walk) x = if st.serving then news st x msg else []
meant_by st (subscribes rid size) x = []
meant_by st (gives_up rid size) x = []
meant_by st (unsubscribes c) x = []
meant_by st (receives c) x = []
meant_by st (ticks n walk) x = []
meant_by st (changes jw) x = []
meant_by st finishes x = []

abbrev pub first_of : List Message → List Message
first_of [] = []
first_of (m ∷ ms) = m ∷ []

abbrev pub got_by : Loop → Op → ℕ → List Message
got_by st (receives c) x = if c == x then first_of (st.channels c).buffer else []
got_by st (broadcasts msg walk) x = []
got_by st (subscribes rid size) x = []
got_by st (gives_up rid size) x = []
got_by st (unsubscribes c) x = []
got_by st (ticks n walk) x = []
got_by st (changes jw) x = []
got_by st finishes x = []

abbrev pub follow : Trace → Op → Trace
follow t op = record {
  state = step t.state op;
  meant = λ x. t.meant x ++ meant_by t.state op x;
  got = λ x. t.got x ++ got_by t.state op x;
}

abbrev pub follow_all : Trace → List Op → Trace
follow_all t [] = t
follow_all t (op ∷ ops) = follow_all (follow t op) ops

-- A walk of a map visits each key once, and only a channel that was made is read.
abbrev pub IsAllowed : Loop → Op → Type 0
IsAllowed st (broadcasts msg walk) =
    Distinct walk × ((x : ℕ) → contains walk x ≡ contains st.subs x)
IsAllowed st (receives c) = c < st.next_channel
IsAllowed st (subscribes rid size) = Unit
IsAllowed st (gives_up rid size) = Unit
IsAllowed st (unsubscribes c) = Unit
IsAllowed st (ticks n walk) = Unit
IsAllowed st (changes jw) = Unit
IsAllowed st finishes = Unit

abbrev pub AreAllowed : Loop → List Op → Type 0
AreAllowed st [] = Unit
AreAllowed st (op ∷ ops) = IsAllowed st op × AreAllowed (step st op) ops

pub if-Fate :
    (b : Bool) (st st' : Loop) (x : ℕ) (meant got : List Message)
    → FateOf st x meant got
    → FateOf st' x meant got
    → FateOf (if b then st else st') x meant got
if-Fate true st st' x meant got h k = h
if-Fate false st st' x meant got h k = k

closed-Fate :
    (b : Bool) (ch : Channel) (meant got : List Message)
    → Fate b ch meant got
    → Fate b (record ch { closed = true }) meant got
closed-Fate b ch meant got (inl e) = inl e
closed-Fate b ch meant got (inr h) = inr (h.0, refl, h.2)

-- Fewer subscriptions.
fewer-Fate :
    (subs : List ℕ) (c x : ℕ) (ch : Channel) (meant got : List Message)
    → Fate (contains subs x) ch meant got
    → Fate (contains (delete_func subs (λ d. d == c)) x) ch meant got
fewer-Fate subs c x ch meant got (inl e) = inl e
fewer-Fate subs c x ch meant got (inr h) =
    inr (contains-delete_func subs (λ d. d == c) x ∙ ground (arith, h.0), h.1, h.2)

-- Closing a channel keeps its buffer.
pub close_if-Fate :
    (b : Bool) (st : Loop) (c x : ℕ) (meant got : List Message)
    → FateOf st x meant got
    → FateOf (close_if b st c) x meant got
unfolding close_if
close_if-Fate true st c x meant got f = f
close_if-Fate false st c x meant got f = elim (Bool-cases (c == x)) [
  | inl e ↦ rw e (
      closed-Fate (contains st.subs x) (st.channels c) meant got
        (subst (λ y. Fate (contains st.subs x) (st.channels y) meant got) (sym (==→eq c x e)) f))
  | inr e ↦ rw e f
]

unsubscribed-Fate :
    (b : Bool) (ch : Channel) (meant got : List Message)
    → Fate b ch meant got
    → Fate false ch meant got
unsubscribed-Fate b ch meant got (inl e) = inl e
unsubscribed-Fate b ch meant got (inr h) = inr (refl, h.1, h.2)

pub kill_if-Fate :
    (b : Bool) (st : Loop) (c x : ℕ) (meant got : List Message)
    → FateOf st x meant got
    → FateOf (kill_if b st c) x meant got
unfolding kill_if close_channel
kill_if-Fate false st c x meant got f = f
kill_if-Fate true st c x meant got f =
    let st' : Loop = record st { subs = delete_func st.subs (λ d. d == c) } in
    close_if-Fate (st.channels c).closed st' c x meant got
      (fewer-Fate st.subs c x (st.channels x) meant got f)

close_subs-Fate :
    (st : Loop) (cs : List ℕ) (x : ℕ) (meant got : List Message)
    → FateOf st x meant got
    → FateOf (close_subs st cs) x meant got
unfolding close_subs close_channel
close_subs-Fate st [] x meant got f = f
close_subs-Fate st (c ∷ cs) x meant got f =
    let st' : Loop = record st { jaws = cancel st.jaws (st.channels c).owner none } in
    close_subs-Fate (close_channel st' c) cs x meant got
      (close_if-Fate (st.channels c).closed st' c x meant got f)

pub finish_loop-Fate :
    (st : Loop) (x : ℕ) (meant got : List Message)
    → FateOf st x meant got
    → FateOf (finish_loop st) x meant got
unfolding finish_loop
finish_loop-Fate st x meant got f =
    let st' = close_subs st st.subs in
    unsubscribed-Fate (contains st'.subs x) (st'.channels x) meant got
      (close_subs-Fate st st.subs x meant got f)
