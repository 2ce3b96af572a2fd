-- ===== src/Lib.antt =====
-- JaWS keeps web pages live from a Go server. A Jaws hands a Request to each page that it renders and
-- registers it under a random key; the page connects back with the key over a WebSocket, which claims
-- the Request and serves it. A Request keeps the Elements of its page with their tags, an ordered queue
-- of messages to the browser and the targets to update. Sessions outlive Requests. This library models
-- the lifecycle of Requests and the state of one Request, and proves what keeps them right.
--
--   Strconv       the functions of Go's strconv that the codecs call
--   Jid, Key      lib/jid/jid.go and lib/key/key.go: ids and keys as numbers and as text
--   Addr          clientip.go: equalIP, over the addresses of net/netip
--   Bytes         the functions of Go's strings that the code calls on bytes
--   What          lib/what: the commands and events of the wire protocol, and their names
--   Request       request.go: the state of a Request; element.go: the fields of its Elements;
--                 lib/wire/wsmsg.go: a message
--   Pool          requestpool.go, and from request.go the methods that end a Request: finish is
--                 what retirement and recycling share, around finishLocked; retire is
--                 retireNonRunningRequestCoreLocked, recycle is recycleLockedWithCause
--   Pool/Sessions, Pool/Eviction, Pool/Operations
--                 session.go (getSessionLocked), requestpool.go (limitPendingRequestsLocked,
--                 newRequest) and jaws.go (New)
--   Pool/Closing  session.go (newSession, Close, Broadcast, addCookie, NewSession) and request.go
--                 (deadSession, sessionDestKey)
--   Cookies       session.go (getCookieSessionsIDs)
--   Pool/Service  requestpool.go (UseRequest), request.go (claim, startServe, stopServe,
--                 maintenance), serve.go (maintenance) and jaws.go (Close)
--   Elements      request.go and requestloop.go: the Elements of a Request, by their Jids
--   Elements/Collect
--                 makeUpdateList and GetElements
--   Outbox        requestloop.go (queue, getSendMsgs) and element.go (queue)
--   Events        requestloop.go (resolveEventFnCall): the targets of a click or another event
--   Broadcast     request.go (wantMessage) and requestloop.go (handleBroadcast)
--   Numeric       lib/ui/numeric.go: the texts of integers; Numeric/Widget: an input over a source
--   Named         lib/named/namedbool.go and lib/named/namedboolarray.go: a set of named booleans
--   Commands      element.go: the calls that change the HTML node of an Element
--   Wire          lib/wire: the text of a record (wsmsg.go; Wire/Parse is Parse) and the frames (wsio.go, writeData)
--   Tail          tailscript.go: the script that applies the first changes; Tail/Serve is the answer
--                 to its fetch
--   Logger        loggerqueue.go: the queue of errors for the Logger, as a linked list in a store;
--                 Logger/Spec is what it promises
--   Expansion     lib/tag/tag.go: TagExpand
--   Container     lib/ui/containerstate.go: the reconciliation of the children of a container
--   Dirt          broadcast.go (setDirty, sortedDirtTags, distributeDirt): the dirty selectors of a Jaws
--   Click         click.go: the text of a click, over runes and with the text of a float64 as a parameter
--   Distribution  serve.go: the loop that hands broadcasts to the channels of the Requests
--   Dispatch      eventhandler.go and requestloop.go (invoke, queueEvent, eventCaller): the calls of the
--                 handlers of an event, and the queue in front of them
--   Html          lib/htmlio/writehtml.go: tags and attributes; Html/Reader is how a browser reads them
--   Examples      the theorems at concrete inputs
--
-- The other modules below these hold the proofs. Pool/Soundness states the invariant of the registry
-- (IsSound), and Pool/Enrolment, Pool/Preservation, Pool/Lifecycle and Pool/Arrival keep it.
-- Pool/Progress, Pool/Upkeep, Pool/Serving, Pool/Limit and Pool/Capacity say what an operation leaves of
-- the Requests and lists that it finds. Pool/History runs operations in any order, and Pool/Once draws the
-- conclusions; Pool/Victim is about the choice of the Request to retire. Elements/Invariant states the
-- invariant of one Request (IsConsistent).
--
-- Commands, Wire, Tail and Logger each have modules for what they prove: Commands/Children, Removal,
-- Reserved and Ordering; Wire/Quote, Frame and RoundTrip, with Wire/Json for the strings of RFC 8259; Tail/Drain;
-- Logger/Chain (the list that a queue holds), Refine and Delivery. Expansion/Bounds is about the limits,
-- Container/Contents and Partition about the new and the old children, and Dirt/Order about the order of
-- dirty selectors; Click/Words is about strings.Fields.
-- Distribution/Channels keeps the channels open that are subscribed, Views, NoLoss, Growth and Trace are about
-- one channel, and Lossless draws the conclusion. Dispatch/Order is about one event, and Dispatch/Fifo
-- about their queue; Html/Safety is about one value, and Html/Tags about a start tag. Pool/Closed is about one Session.Close
-- and Pool/Endings about what follows it; Cookies/Header writes the line that Cookies/RoundTrip reads.
--
-- State is passed explicitly. A pointer to a Request, a Session or an Element is a number (an Element is
-- a Request with a Jid), and a heap is a function on these numbers. Each operation is one function on
-- the state, for the part of the code that runs under the mutex, so that a history of operations is an
-- interleaving of critical sections. Session.Close, which takes the locks of the Jaws, of the
-- Session and of each of its Requests in turn, is one step all the same: nothing runs between its parts
-- here. The order in which Go walks a map is a list of keys that is passed
-- in, and so are random keys, cookies and times. int32 seconds are bit patterns with their wrap-around;
-- Jids and keys are unbounded in the model, with the bounds as hypotheses where text is parsed.
--
-- Loops are structural recursion, but for two on fuel: the binary search has a round more than the list
-- is long, which halving never uses up, and the eviction loop has a round for each pending Request of
-- the address, as each round retires one of them. The expansion of a tag recurs on the levels that the
-- limit on its depth leaves, as the code does. Printing a number has as many rounds as the number.
--
-- Not modelled here: the intervals of tickers, the goroutines of one Request as a whole, the making of
-- broadcasts, the data of Sessions and the attributes of their cookies, the context of the application, and of the user interface packages all but lib/named, lib/htmlio, the
-- reconciliation of containers and number inputs over integers. The handlers of the application are a parameter, the decoders of quoted text (strconv.Unquote and
-- encoding/json) are one of Parse, and JawsUpdate is a
-- result. What its tag getters return is a parameter of the expansion. A failing random source, which
-- is a panic in the code, leaves the state as it was. The error values keep what tells them apart, not
-- their texts.
pub mod Addr
pub mod Base
pub mod Broadcast
pub mod Bytes
pub mod Click
pub mod Commands
pub mod Container
pub mod Cookies
pub mod Dirt
pub mod Dispatch
pub mod Distribution
pub mod Elements
pub mod Events
pub mod Examples
pub mod Expansion
pub mod Html
pub mod Jid
pub mod Key
pub mod Logger
pub mod Named
pub mod Numeric
pub mod Outbox
pub mod Pool
pub mod Request
pub mod Strconv
pub mod Tail
pub mod What
pub mod Wire
