-- ===== src/Elements.antt =====
-- The Element registry of a Request: request.go (newElementLocked, getElementByJidLocked, HasTag,
-- TagExpanded, appendDirtyTags) and requestloop.go (removeElementsLocked, DeleteElement,
-- DeleteElements, handleRemove).
pub mod Collect
pub mod Search
pub mod Invariant
pub mod Tagging
pub mod Deletion
pub mod Collection
pub mod Updates
pub mod History
pub mod Effects
use jaws.Base.{
  ℕ, zero, suc, ◌+◌, ◌/◌, List, [], ◌∷◌, ◌++◌, Option, none, some, Bool, true, false, not, ◌&&◌,
  ◌||◌, ltb, ◌==◌, if◌then◌else◌, length, get_or, delete_func, contains,
}
use jaws.Strconv.{Text}
use jaws.Jid.{Jid, pos, negsuc, parse_string}
use jaws.Request.{
  Request, ElementRef, null, ref, Tag, element, plain, TagMap, tag_eq, ref_eq, registered, update,
}

-- newElementLocked: the next Jid, at the end of the list.
unfoldable pub new_element : Request → Option ℕ → Request × ℕ
new_element rq ui =
    let j = rq.last_jid + 1 in
    (
      record rq {
        last_jid = j;
        elems = rq.elems ++ j ∷ [];
        ui = update rq.ui j ui;
        handlers = update rq.handlers j [];
        deleted = update rq.deleted j false;
        frozen = update rq.frozen j false;
      },
      j,
    )

-- The loop of slices.BinarySearchFunc: `i` and `j` bound the first position not below the target.
unfoldable pub search_loop : ℕ → List ℕ → ℕ → ℕ → ℕ → ℕ
search_loop zero xs target i j = i
search_loop (suc fuel) xs target i j = elim (ltb i j) [
  | false ↦ i
  | true ↦
      let h = (i + j) / 2 in
      let below = ltb (get_or xs h 0) target in
      search_loop fuel xs target (if below then h + 1 else i) (if below then j else h)
]

-- getElementByJidLocked. The rounds are at most the length of the list.
unfoldable pub get_element_by_jid : Request → ℕ → Option ℕ
unfolding search_loop
get_element_by_jid rq jid =
    let n = length rq.elems in
    let i = search_loop (suc n) rq.elems jid 0 n in
    if ltb i n && (get_or rq.elems i 0 == jid) then some (get_or rq.elems i 0) else none

-- The value of a map at a key: nil where it has none.
abbrev pub or_nil : Option (List ℕ) → List ℕ
or_nil none = []
or_nil (some js) = js

abbrev pub tagged : TagMap → Tag → List ℕ
tagged m t = or_nil (m t)

-- A nil map reads like an empty one.
abbrev pub map_of : Option TagMap → TagMap
map_of none t = none
map_of (some m) t = m t

-- hasTagLocked, for an Element of the Request.
unfoldable pub has_tag : Request → ℕ → Tag → Bool
has_tag rq j t = contains (tagged (map_of rq.tag_map) t) j

unfoldable pub add_tag : TagMap → Tag → ℕ → TagMap
add_tag m t j = if contains (tagged m t) j then m else λ u.
    if tag_eq u t then some (tagged m t ++ j ∷ []) else m u

unfoldable pub add_tags : TagMap → List Tag → ℕ → TagMap
unfolding add_tag
add_tags m [] j = m
add_tags m (t ∷ ts) j = add_tags (add_tag m t j) ts j

-- TagExpanded: nothing for a nil, foreign or deleted Element, nor once the buffers are released.
unfoldable pub tag_expanded : Request → ElementRef → List Tag → Request
unfolding add_tags
tag_expanded rq null ts = rq
tag_expanded rq (ref r j) ts =
    if r == rq.identity
    then if rq.deleted j
      then rq
      else (elim rq.tag_map [ none ↦ rq | some m ↦ record rq { tag_map = some (add_tags m ts j) } ])
    else rq

-- The test of appendDirtyTags on one selector.
unfoldable pub accepts : Request → Tag → Bool
accepts rq (element null) = false
accepts rq (element (ref r j)) = (r == rq.identity) && not (rq.deleted j)
accepts rq (plain n) = true

-- appendDirtyTags: a finished Request discards the selectors.
unfoldable pub append_dirty_tags : Request → List Tag → Request
unfolding accepts
append_dirty_tags rq tags =
    if registered rq.state
    then record rq { todo_dirt = rq.todo_dirt ++ delete_func tags (λ t. not (accepts rq t)) }
    else rq

-- removeElementsLocked: drop the Elements that satisfy the test from the pending exact targets, the
-- list and the tags, and the tags that are left empty.
abbrev is_victim : (ElementRef → Bool) → Tag → Bool
is_victim pred (element e) = pred e
is_victim pred (plain n) = false

abbrev unless_empty : List ℕ → Option (List ℕ)
unless_empty [] = none
unless_empty (j ∷ js) = some (j ∷ js)

unfoldable pub remove_from_tags : ℕ → (ElementRef → Bool) → TagMap → TagMap
remove_from_tags self pred m t = elim (m t) [
  | none ↦ none
  | some js ↦ unless_empty (delete_func js (λ j. pred (ref self j)))
]

-- A nil map stays nil.
abbrev pub remove_from_map : ℕ → (ElementRef → Bool) → Option TagMap → Option TagMap
remove_from_map self pred none = none
remove_from_map self pred (some m) = some (remove_from_tags self pred m)

unfoldable pub remove_elements : Request → (ElementRef → Bool) → Request
unfolding remove_from_tags
remove_elements rq pred = record rq {
  todo_dirt = delete_func rq.todo_dirt (is_victim pred);
  elems = delete_func rq.elems (λ j. pred (ref rq.identity j));
  tag_map = remove_from_map rq.identity pred rq.tag_map;
}

-- deleteElementLocked, which DeleteElement calls.
unfoldable pub delete_element : Request → ElementRef → Request
delete_element rq null = rq
delete_element rq (ref r j) =
    if r == rq.identity
    then remove_elements (record rq { deleted = update rq.deleted j true })
        (λ e. ref_eq e (ref r j))
    else rq

-- The Elements of the list that belong to the Request.
unfoldable pub own_victims : ℕ → List ElementRef → List ℕ
own_victims self [] = []
own_victims self (null ∷ es) = own_victims self es
own_victims self (ref r j ∷ es) = if r == self then j ∷ own_victims self es else own_victims self es

unfoldable pub mark_deleted : (ℕ → Bool) → List ℕ → ℕ → Bool
mark_deleted deleted victims j = contains victims j || deleted j

-- The map of victims, as a test on pointers.
abbrev pub among : ℕ → List ℕ → ElementRef → Bool
among self victims null = false
among self victims (ref r j) = (r == self) && contains victims j

-- The map of handleRemove, whose keys are Jids.
abbrev pub among_jids : List ℕ → ElementRef → Bool
among_jids victims null = false
among_jids victims (ref r j) = contains victims j

-- One pass for all victims, if there is one.
unfoldable pub drop_victims : Request → List ℕ → (ElementRef → Bool) → Request
drop_victims rq [] pred = rq
drop_victims rq (v ∷ vs) pred =
    remove_elements (record rq { deleted = mark_deleted rq.deleted (v ∷ vs) }) pred

-- DeleteElements.
unfoldable pub delete_elements : Request → List ElementRef → Request
unfolding delete_element own_victims drop_victims
delete_elements rq [] = rq
delete_elements rq (e ∷ []) = delete_element rq e
delete_elements rq (e ∷ f ∷ es) =
    let victims = own_victims rq.identity (e ∷ f ∷ es) in
    drop_victims rq victims (among rq.identity victims)

-- strings.SplitSeq(data, "\t").
unfoldable pub split_tabs : Text → List Text
split_tabs [] = [] ∷ []
split_tabs (c ∷ s) = elim (split_tabs s) [
  | [] ↦ (c ∷ []) ∷ []
  | part ∷ parts ↦ if c == b'\t' then [] ∷ part ∷ parts else (c ∷ part) ∷ parts
]

-- The registered Element with the id, but for the container.
unfoldable pub victim_of : Request → ℕ → Jid → Option ℕ
victim_of rq container (negsuc _) = none
victim_of rq container (pos id) = if id == container then none else get_element_by_jid rq id

-- The loop of handleRemove over the ids.
unfoldable pub remove_victims : Request → ℕ → List Text → List ℕ
remove_victims rq container [] = []
remove_victims rq container (s ∷ ss) =
    let rest = remove_victims rq container ss in
    elim (victim_of rq container (parse_string s)) [ none ↦ rest | some j ↦ j ∷ rest ]

-- handleRemove, for a container Jid that is not negative.
unfoldable pub handle_remove : Request → ℕ → Text → Request
unfolding remove_victims split_tabs drop_victims
handle_remove rq zero text = rq
handle_remove rq (suc c) text =
    let victims = remove_victims rq (suc c) (split_tabs text) in
    drop_victims rq victims (among_jids victims)
