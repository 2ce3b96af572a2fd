-- ===== src/Examples/Pages.antt =====
-- A page with three Elements.
use jaws.Base.{
  Option, ℕ, List, [], ◌∷◌, none, some, true, false, not, ◌&&◌, ◌==◌, if◌then◌else◌, delete_func,
  All, Distinct, ◌≡◌, refl, arith,
}
use jaws.Strconv.{Text}
use jaws.Addr.{Addr}
use jaws.What.{What}
use jaws.Request.{Request, ReqState, ref, element, plain}
use jaws.Elements.{
  tag_expanded, append_dirty_tags, new_element, handle_remove, get_element_by_jid, split_tabs,
}
use jaws.Elements.Collect.{add_unseen}
use jaws.Elements.Invariant.{IsConsistent}
use jaws.Elements.Effects.{handle_remove_lem, names}
use jaws.Elements.History.{Op, creates, tags, dirties, run, AreAllowed, run-IsConsistent}
use jaws.Outbox.{get_send_msgs}
use jaws.Outbox.Send.{Ascends, is_sendable, addressed, get_send_msgs_lem}
use jaws.Broadcast.{Dest, Message, want_message, handle_broadcast}
use jaws.Broadcast.Delivery.{want_message-handle_broadcast}
use jaws.Elements.{add_tags}
use jaws.Events.{resolve}
use jaws.Events.Targets.{call_targets}
use jaws.Events.Receivers.{IsReceiver, resolve-targets, resolve-IsReceiver}

-- A Request with no Element yet.
abbrev empty_page : Request
empty_page = record {
  identity = 7;
  jaws_key = 9;
  remote_ip = Addr.v4 5;
  state = ReqState.running;
  last_write_seconds = 3;
  last_jid = 0;
  session = none;
  todo_dirt = [];
  ctx_err = none;
  elems = [];
  tag_map = some (λ t. none);
  ui = λ j. none;
  handlers = λ j. [];
  deleted = λ j. false;
  frozen = λ j. true;
  ws_queue =
      record { data_text = []; jid = 2; what = What.inner }
      ∷ record { data_text = []; jid = 1; what = What.value }
      ∷ record { data_text = []; jid = 2; what = What.append }
      ∷ [];
  tailsent = false;
}

empty_page-IsConsistent : IsConsistent empty_page
empty_page-IsConsistent = record {
  sorted = tt;
  allocated = tt;
  live = tt;
  tags = record {
    known = λ t j h. absurd (cc);
    once = λ t. tt;
    used = λ t h. absurd (ground (arith, h));
  };
  dirt = tt;
  whole = λ j h z l d. absurd (omega (arith, z, l));
  held = λ h. refl;
}

-- Three Elements, two of them under the tag 5; the second and the tag are dirty.
abbrev building : List Op
building =
    creates (some 1)
    ∷ creates (some 2)
    ∷ creates none
    ∷ tags (ref 7 1) (plain 5 ∷ [])
    ∷ tags (ref 7 3) (plain 5 ∷ plain 6 ∷ [])
    ∷ dirties (element (ref 7 2) ∷ plain 5 ∷ [])
    ∷ []

building-AreAllowed : AreAllowed empty_page building
unfolding new_element tag_expanded
building-AreAllowed = (
  tt,
  (
    tt,
    (
      tt,
      (
        λ e. (omega arith, omega arith),
        (λ e. (omega arith, omega arith), ((λ e. (omega arith, omega arith), (tt, tt)), tt)),
      ),
    ),
  ),
)

abbrev pub page : Request
page = run empty_page building

run-IsConsistent_example : IsConsistent (run empty_page building)
run-IsConsistent_example =
    run-IsConsistent empty_page building building-AreAllowed empty_page-IsConsistent

pub page-IsConsistent : IsConsistent page
page-IsConsistent = run-IsConsistent empty_page building building-AreAllowed empty_page-IsConsistent

-- "Jid.1" and "Jid.2", with a tab between them.
abbrev report : Text
report = b'J' ∷ b'i' ∷ b'd' ∷ b'.' ∷ b'1' ∷ b'\t' ∷ b'J' ∷ b'i' ∷ b'd' ∷ b'.' ∷ b'2' ∷ []

handle_remove_example :
    get_element_by_jid (handle_remove page 2 report) 1
    ≡ (if names (split_tabs report) 1 && not (1 == 2) then none else get_element_by_jid page 1)
handle_remove_example = handle_remove_lem page 2 report 1 page-IsConsistent (omega arith)

get_send_msgs_example :
    ((get_send_msgs page).0 ≡ record page { ws_queue = [] })
    × Ascends 0 (get_send_msgs page).1
    × ((k : ℕ)
        → addressed k (get_send_msgs page).1
          ≡ addressed k (delete_func page.ws_queue (λ m. not (is_sendable page m))))
get_send_msgs_example = get_send_msgs_lem page

-- "x", and then the route.
abbrev click : Text
click = b'x' ∷ b'\t' ∷ report

-- The handlers of the Elements 2 and 3 are sealed.
abbrev sealed_page : Request
sealed_page = record page { frozen = λ j. not (j == 1) }

resolve-targets_example : call_targets (resolve sealed_page 0 What.click click) ≡ 2 ∷ []
unfolding add_unseen split_tabs jaws.Jid.parse_string jaws.Strconv.parse_uint append_dirty_tags
    tag_expanded new_element
resolve-targets_example = resolve-targets sealed_page What.click click page-IsConsistent.sorted refl

resolve-IsReceiver_example :
    Distinct (call_targets (resolve sealed_page 0 What.click click))
    × All (IsReceiver sealed_page) (call_targets (resolve sealed_page 0 What.click click))
resolve-IsReceiver_example =
    resolve-IsReceiver sealed_page 0 What.click click page-IsConsistent.sorted

-- The handlers of an application that never fail.
abbrev no_failure : ℕ → Text → Option Text
no_failure j text = none

abbrev stranger : Message
stranger = record { dest = Dest.tag (plain 8); what = What.inner; text = [] }

unwanted : want_message page stranger ≡ false
unfolding want_message new_element tag_expanded append_dirty_tags add_tags
unwanted = refl

want_message-handle_broadcast_example : handle_broadcast no_failure page stranger ≡ (page, [])
want_message-handle_broadcast_example =
    want_message-handle_broadcast no_failure page stranger refl unwanted
