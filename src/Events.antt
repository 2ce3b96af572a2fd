-- ===== src/Events.antt =====
-- The targets of an incoming event: requestloop.go, resolveEventFnCall.
pub mod Targets
pub mod Receivers
use jaws.Base.{
  ℕ, zero, suc, ◌+◌, List, [], ◌∷◌, ◌++◌, Option, none, some, Bool, true, false, not, ◌&&◌, ◌||◌,
  ◌==◌, if◌then◌else◌, length, contains,
}
use jaws.Strconv.{Text}
use jaws.Jid.{Jid, pos, negsuc, parse_string}
use jaws.What.{What, what_eq}
use jaws.Request.{Request}
use jaws.Elements.{get_element_by_jid, split_tabs}

-- eventFnCall, with the set that stands in for `more` on long routes.
pub record Call : Type 0 where
  pub elem : Option ℕ
  pub more : List ℕ
  pub seen_map : Option (List ℕ)
  pub what : What
  pub text : Text

-- A live, frozen Element.
unfoldable pub eligible : Request → Option ℕ → Option ℕ
eligible rq none = none
eligible rq (some e) = if not (rq.deleted e) && rq.frozen e then some e else none

-- The Element that one id of the route names.
unfoldable pub route_target : Request → Jid → Option ℕ
unfolding eligible
route_target rq (negsuc n) = none
route_target rq (pos id) = if id == 0 then none else eligible rq (get_element_by_jid rq id)

-- `after != ""`, from the fields that are left.
unfoldable pub more_text : List Text → Bool
more_text [] = false
more_text ([] ∷ []) = false
more_text (s ∷ ss) = true

is_elem : Option ℕ → ℕ → Bool
is_elem none e = false
is_elem (some d) e = d == e

in_seen : Option (List ℕ) → List ℕ → ℕ → Bool
in_seen none more e = contains more e
in_seen (some seen) more e = contains seen e

-- From the 33rd target on, if text is left, a set is kept beside the list.
switch : Option (List ℕ) → Option ℕ → List ℕ → Bool → Option (List ℕ)
switch (some seen) elem more rest = some seen
switch none none more rest = none
switch none (some d) more rest = if (1 + length more == 32) && rest then some (d ∷ more) else none

note : Option (List ℕ) → ℕ → Option (List ℕ)
note none e = none
note (some seen) e = some (e ∷ seen)

-- One target, if it is not there already.
unfoldable pub add_target : Call → ℕ → Bool → Call
unfolding is_elem in_seen switch note
add_target call e rest =
    if is_elem call.elem e || in_seen call.seen_map call.more e
    then call
    else (let seen = note (switch call.seen_map call.elem call.more rest) e in
        elim call.elem [
          | none ↦ record call { elem = some e; seen_map = seen }
          | some d ↦ record call { more = call.more ++ e ∷ []; seen_map = seen }
        ])

unfoldable pub add_found : Call → Option ℕ → Bool → Call
add_found call none rest = call
add_found call (some e) rest = add_target call e rest

-- The loop over the fields behind the first.
unfoldable pub route : Request → Call → List Text → Call
route rq call [] = call
route rq call (s ∷ ss) =
    route rq (add_found call (route_target rq (parse_string s)) (more_text ss)) ss

abbrev pub has_route : What → Bool
has_route w = what_eq w What.click || what_eq w What.context_menu

-- A route event: the first field is the data, the others are the route.
unfoldable pub resolve_route : Request → What → List Text → Call
resolve_route rq w [] = record { elem = none; more = []; seen_map = none; what = w; text = [] }
resolve_route rq w (head ∷ fields) =
    route rq (record { elem = none; more = []; seen_map = none; what = w; text = head }) fields

-- resolveEventFnCall, for a Jid that is not negative.
unfoldable pub resolve : Request → ℕ → What → Text → Call
resolve rq zero w value =
    if has_route w
    then resolve_route rq w (split_tabs value)
    else record { elem = none; more = []; seen_map = none; what = w; text = value }
resolve rq (suc j) w value = record {
  elem = eligible rq (get_element_by_jid rq (suc j));
  more = [];
  seen_map = none;
  what = w;
  text = value;
}
