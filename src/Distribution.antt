-- ===== src/Distribution.antt =====
-- serve.go: the loop that distributes broadcasts to the channels of the subscribed Requests.
pub mod Channels
pub mod Views
pub mod NoLoss
pub mod Growth
pub mod Trace
pub mod Lossless
use jaws.Base.{
  ℕ, zero, suc, ◌+◌, List, [], ◌∷◌, ◌++◌, Option, none, some, Bool, true, false, not, ◌&&◌, ◌||◌,
  ltb, ◌==◌, if◌then◌else◌, length, contains, delete_func,
}
use jaws.What.{What, what_eq}
use jaws.Request.{Cause, update}
use jaws.Pool.{Jaws}
use jaws.Pool.Service.{cancel}
use jaws.Broadcast.{Dest, nowhere, request, tag, tags, Message, want_message}

-- A buffered channel of messages, with the Request that it is subscribed for.
pub record Channel : Type 0 where
  pub owner : ℕ
  pub capacity : ℕ
  pub buffer : List Message
  pub closed : Bool

-- The variables of ServeWithTimeout, with the channels that were made. `panicked` is set where Go
-- panics: at a send on a closed channel, and at a second close.
pub record Loop : Type 0 where
  pub jaws : Jaws
  pub channels : ℕ → Channel
  pub next_channel : ℕ
  -- The keys of subs.
  pub subs : List ℕ
  pub serving : Bool
  pub panicked : Bool

-- ServeWithTimeout, up to the loop.
abbrev pub begin : Jaws → Loop
begin jw = record {
  jaws = jw;
  channels = λ c. record { owner = 0; capacity = 0; buffer = []; closed = false };
  next_channel = 0;
  subs = [];
  serving = true;
  panicked = false;
}

-- close(msgCh), of a channel that is closed already or not.
unfoldable pub close_if : Bool → Loop → ℕ → Loop
close_if true st c = record st { panicked = true }
close_if false st c = record st {
  channels = update st.channels c (record (st.channels c) { closed = true });
}

unfoldable pub close_channel : Loop → ℕ → Loop
unfolding close_if
close_channel st c = close_if (st.channels c).closed st c

-- killSub, of a channel that is a key of subs or not.
unfoldable pub kill_if : Bool → Loop → ℕ → Loop
unfolding close_channel
kill_if false st c = st
kill_if true st c = close_channel (record st { subs = delete_func st.subs (λ d. d == c) }) c

unfoldable pub kill_sub : Loop → ℕ → Loop
unfolding kill_if
kill_sub st c = kill_if (contains st.subs c) st c

abbrev pub is_nowhere : Dest → Bool
is_nowhere nowhere = true
is_nowhere (request k) = false
is_nowhere (tag t) = false
is_nowhere (tags ts) = false

-- The periodic tick carries nothing and may be dropped.
abbrev pub is_tick : Message → Bool
is_tick msg = what_eq msg.what What.update && is_nowhere msg.dest

-- A send on a channel with room for it.
unfoldable pub put : Loop → ℕ → Message → Loop
put st c msg = record st {
  channels =
      update st.channels c (record (st.channels c) { buffer = (st.channels c).buffer ++ msg ∷ [] });
}

-- A Request that falls behind is cancelled, and its subscription ends.
unfoldable pub overload : Loop → ℕ → Loop
unfolding kill_sub
overload st c =
    let st' = kill_sub st c in
    record st' { jaws = cancel st'.jaws (st.channels c).owner (some Cause.request_overloaded) }

-- The select in mustBroadcast: whether the channel is closed, whether it has room, and whether the
-- message is the tick.
unfoldable pub select : Bool → Bool → Bool → Loop → ℕ → Message → Loop
unfolding put overload
select true room dropped st c msg = record st { panicked = true }
select false true dropped st c msg = put st c msg
select false false true st c msg = st
select false false false st c msg = overload st c

unfoldable pub send_or_kill : Loop → ℕ → Message → Loop
unfolding select
send_or_kill st c msg =
    let ch = st.channels c in
    select ch.closed (ltb (length ch.buffer) ch.capacity) (is_tick msg) st c msg

-- A message for every Request, or one that its owner wants.
unfoldable pub wants : Loop → ℕ → Message → Bool
wants st c msg = is_nowhere msg.dest || want_message (st.jaws.heap (st.channels c).owner) msg

-- One round of mustBroadcast.
unfoldable pub send_if : Bool → Loop → ℕ → Message → Loop
unfolding send_or_kill
send_if false st c msg = st
send_if true st c msg = send_or_kill st c msg

unfoldable pub visit : Message → Loop → ℕ → Loop
unfolding send_if wants
visit msg st c = send_if (contains st.subs c && wants st c msg) st c msg

-- mustBroadcast, with the order in which subs is walked.
unfoldable pub must_broadcast : Loop → Message → List ℕ → Loop
unfolding visit
must_broadcast st msg [] = st
must_broadcast st msg (c ∷ cs) = must_broadcast (visit msg st c) msg cs

-- make(chan wire.Message, size).
unfoldable pub make_channel : Loop → ℕ → ℕ → Loop
make_channel st rid size = record st {
  channels =
      update st.channels st.next_channel
        (record { owner = rid; capacity = size; buffer = []; closed = false });
  next_channel = suc st.next_channel;
}

-- subscribe, when the loop takes the subscription.
unfoldable pub subscribe : Loop → ℕ → ℕ → Loop
unfolding make_channel
subscribe st rid size =
    let st' = make_channel st rid size in record st' { subs = st.next_channel ∷ st'.subs }

-- subscribe, when Done is taken.
unfoldable pub subscribe_done : Loop → ℕ → ℕ → Loop
unfolding make_channel close_channel
subscribe_done st rid size = close_channel (make_channel st rid size) st.next_channel

-- A receive: nothing on an empty channel.
unfoldable pub take_first : Loop → ℕ → List Message → Loop × Option Message
take_first st c [] = (st, none)
take_first st c (m ∷ ms) =
    (record st { channels = update st.channels c (record (st.channels c) { buffer = ms }) }, some m)

unfoldable pub receive : Loop → ℕ → Loop × Option Message
unfolding take_first
receive st c = take_first st c (st.channels c).buffer

-- The deferred function: each subscription is cancelled and its channel closed.
unfoldable pub close_subs : Loop → List ℕ → Loop
unfolding close_channel
close_subs st [] = st
close_subs st (c ∷ cs) =
    close_subs (close_channel (record st { jaws = cancel st.jaws (st.channels c).owner none }) c) cs

-- The return from the loop. The map is not used after it.
unfoldable pub finish_loop : Loop → Loop
unfolding close_subs
finish_loop st = record (close_subs st st.subs) { subs = []; serving = false }

-- What can happen, in any order: `changes` is any change that other code makes to the Jaws; the number
-- of `ticks` is what distributeDirt returned.
pub data Op : Type 0 where
  subscribes gives_up : ℕ → ℕ → Op
  unsubscribes receives : ℕ → Op
  broadcasts : Message → List ℕ → Op
  ticks : ℕ → List ℕ → Op
  changes : Jaws → Op
  finishes : Op

abbrev pub tick : Message
tick = record { dest = nowhere; what = What.update; text = [] }

abbrev pub while_serving : Loop → Loop → Loop
while_serving st st' = if st.serving then st' else st

unfoldable pub step : Loop → Op → Loop
unfolding subscribe subscribe_done kill_sub receive must_broadcast finish_loop
step st (subscribes rid size) =
    if st.serving then subscribe st rid size else subscribe_done st rid size
step st (gives_up rid size) = subscribe_done st rid size
step st (unsubscribes c) = while_serving st (kill_sub st c)
step st (receives c) = (receive st c).0
step st (broadcasts msg walk) = while_serving st (must_broadcast st msg walk)
step st (ticks zero walk) = st
step st (ticks (suc n) walk) = while_serving st (must_broadcast st tick walk)
step st (changes jw) = record st { jaws = jw }
step st finishes = while_serving st (finish_loop st)
