-- ===== src/Request.antt =====
-- request.go: the state of a Request and its lifecycle states, with the state of its Elements
-- (element.go) and the queue of wire messages (lib/wire/wsmsg.go).
use jaws.Base.{ℕ, List, Option, Bool, true, false, ◌==◌, ◌&&◌, if◌then◌else◌}
use jaws.Strconv.{Text}
use jaws.Addr.{Addr}
use jaws.What.{What}

-- wire.WsMsg, with a Jid that is not negative.
pub record WsMsg : Type 0 where
  pub data_text : Text
  pub jid : ℕ
  pub what : What

-- type reqState int32.
pub data ReqState : Type 0 where
  unclaimable pending claimed running finished : ReqState

-- reqState.registered.
abbrev pub registered : ReqState → Bool
registered ReqState.pending = true
registered ReqState.claimed = true
registered ReqState.running = true
registered ReqState.unclaimable = false
registered ReqState.finished = false

-- reqState.claimed.
abbrev pub is_claimed : ReqState → Bool
is_claimed ReqState.claimed = true
is_claimed ReqState.running = true
is_claimed ReqState.unclaimable = false
is_claimed ReqState.pending = false
is_claimed ReqState.finished = false

abbrev pub state_eq : ReqState → ReqState → Bool
state_eq ReqState.unclaimable ReqState.unclaimable = true
state_eq ReqState.pending ReqState.pending = true
state_eq ReqState.claimed ReqState.claimed = true
state_eq ReqState.running ReqState.running = true
state_eq ReqState.finished ReqState.finished = true
state_eq _ _ = false

-- A value of type *Element: nil, or the Element with a Jid in a Request.
pub data ElementRef : Type 0 where
  null : ElementRef
  ref : ℕ → ℕ → ElementRef

-- A tag key (a comparable Go value): a pointer to an Element, or any other value by its identity.
pub data Tag : Type 0 where
  element : ElementRef → Tag
  plain : ℕ → Tag

abbrev pub ref_eq : ElementRef → ElementRef → Bool
ref_eq null null = true
ref_eq (ref r j) (ref s k) = (r == s) && (j == k)
ref_eq _ _ = false

abbrev pub tag_eq : Tag → Tag → Bool
tag_eq (element a) (element b) = ref_eq a b
tag_eq (plain a) (plain b) = a == b
tag_eq _ _ = false

-- map[any][]*Element. The Elements are of the Request that owns the map, and stand by their Jids.
abbrev pub TagMap : Type 0
TagMap = Tag → Option (List ℕ)

-- Why a context is done, or what is logged.
pub data Cause : Type 0 where
  -- context.Canceled: cancelled with no cause.
  canceled : Cause
  -- errRequestCancelled, around the cause, for the Request with this key.
  request_cancelled : ℕ → Cause → Cause
  no_web_socket_request : Cause
  too_many_pending_requests : Cause
  web_socket_ip_mismatch : Cause
  request_already_claimed : Cause
  request_overloaded : Cause
  -- An error of the application or of the environment.
  other : ℕ → Cause

-- The Request. `identity` stands for the pointer. An Element is known by its Jid, and its fields are
-- the maps `ui`, `handlers`, `deleted` and `frozen`.
pub record Request : Type 0 where
  pub identity : ℕ
  pub jaws_key : ℕ
  pub remote_ip : Addr
  pub state : ReqState
  pub last_write_seconds : ℕ
  pub last_jid : ℕ
  pub session : Option ℕ
  pub todo_dirt : List Tag
  -- `none` while the context is live.
  pub ctx_err : Option Cause
  pub elems : List ℕ
  -- `none` is the nil map that releasing the buffers leaves.
  pub tag_map : Option TagMap
  pub ui : ℕ → Option ℕ
  pub handlers : ℕ → List ℕ
  pub deleted : ℕ → Bool
  pub frozen : ℕ → Bool
  pub ws_queue : List WsMsg
  pub tailsent : Bool

abbrev pub update {ℓ} : {V : Type ℓ} → (ℕ → V) → ℕ → V → ℕ → V
update f k v j = if k == j then v else f j
