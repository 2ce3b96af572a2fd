-- ===== src/Expansion.antt =====
-- lib/tag/tag.go: the expansion of a value into tag keys. What the getters of the application return
-- and what slices hold is a parameter, the same at every call; both may lead back to themselves.
pub mod Bounds
use jaws.Base.{
  ℕ, zero, suc, List, [], ◌∷◌, ◌++◌, Option, none, some, Bool, true, false, not, ◌&&◌, ◌||◌, ltb,
  ◌==◌, if◌then◌else◌, length,
}

-- A Go value that is given as a tag; numbers stand for the identity of the value.
pub data Value : Type 0 where
  nothing : Value
  -- A Tag, and a slice of Tags.
  named : ℕ → Value
  all_named : List ℕ → Value
  -- A TagGetter: whether it is comparable and equal to itself, and whether its identity can be seen
  -- (not so for a function).
  getter : ℕ → Bool → Bool → Value
  -- A slice of type []any.
  slice : ℕ → Value
  -- A value of one of the rejected types.
  illegal : ℕ → Value
  -- Any other value: whether it is comparable and equal to itself.
  other : ℕ → Bool → Value

pub data TagError : Type 0 where
  too_many_tags illegal_tag_type not_usable_as_tag : TagError

pub record Getters : Type 0 where
  -- JawsGetTag.
  pub get_tag : ℕ → Value
  -- The elements of a slice.
  pub elements : ℕ → List Value

-- maxTagDepth and maxTagCount.
abbrev pub max_tag_depth : ℕ
max_tag_depth = 10

abbrev pub max_tag_count : ℕ
max_tag_count = 100

abbrev pub Expanded : Type 0
Expanded = List Value × Option TagError

-- usableAsTag.
abbrev pub usable_as_tag : Value → Bool
usable_as_tag nothing = false
usable_as_tag (named n) = true
usable_as_tag (all_named ns) = false
usable_as_tag (getter n usable seen) = usable
usable_as_tag (slice n) = false
usable_as_tag (illegal n) = true
usable_as_tag (other n usable) = usable

-- Equality of keys.
abbrev pub key_eq : Value → Value → Bool
key_eq (named a) (named b) = a == b
key_eq (getter a _ _) (getter b _ _) = a == b
key_eq (other a _) (other b _) = a == b
key_eq (illegal a) (illegal b) = a == b
key_eq _ _ = false

abbrev pub holds_key : List Value → Value → Bool
holds_key [] v = false
holds_key (k ∷ ks) v = key_eq k v || holds_key ks v

-- appendUniqueTag: the key over the limit is still appended.
unfoldable pub append_unique_tag : List Value → Value → Expanded
append_unique_tag result v =
    if holds_key result v
    then (result, none)
    else if ltb max_tag_count (length (result ++ v ∷ []))
    then (result ++ v ∷ [], some too_many_tags)
    else (result ++ v ∷ [], none)

-- addTag.
unfoldable pub add_usable : List Value → Value → Expanded
unfolding append_unique_tag
add_usable result v =
    if usable_as_tag v then append_unique_tag result v else ([], some not_usable_as_tag)

-- A loop that ends at the first error.
unfoldable pub continue : (List Value → Expanded) → Expanded → Expanded
continue rest (result, none) = rest result
continue rest (result, some e) = (result, some e)

unfoldable pub each {ℓ} :
    {A : Type ℓ} → (List Value → A → Expanded) → List A → List Value → Expanded
unfolding continue
each f [] result = (result, none)
each f (x ∷ xs) result = continue (each f xs) (f result x)

-- sameActiveNode.
abbrev pub same_active_node : Value → Value → Bool
same_active_node (getter a _ seen) (getter b _ _) = seen && (a == b)
same_active_node (slice a) (slice b) = a == b
same_active_node _ _ = false

-- findActiveIndex and the slice from there: the active nodes from the last that is the same on.
unfoldable pub active_from : List Value → Value → Option (List Value)
active_from [] v = none
active_from (x ∷ xs) v = elim (active_from xs v) [
  | some rest ↦ some rest
  | none ↦ if same_active_node x v then some (x ∷ xs) else none
]

abbrev pub is_getter : Value → Bool
is_getter (getter _ _ _) = true
is_getter _ = false

-- addActiveTags.
unfoldable pub add_active_tag : List Value → Value → Expanded
unfolding add_usable
add_active_tag result node = if is_getter node then add_usable result node else (result, none)

unfoldable pub add_active_tags : List Value → List Value → Expanded
unfolding each add_active_tag
add_active_tags result active = each add_active_tag active result

-- hasNonNilTag.
abbrev pub has_non_nil_tag : List Value → Bool
has_non_nil_tag [] = false
has_non_nil_tag (nothing ∷ vs) = has_non_nil_tag vs
has_non_nil_tag (_ ∷ vs) = true

-- A node that is active already closes a cycle; any other becomes active.
unfoldable pub enter :
    List Value → List Value → Value → Option (List Value) → (List Value → Expanded) → Expanded
unfolding add_active_tags
enter result active v (some nodes) deeper = add_active_tags result nodes
enter result active v none deeper = deeper (active ++ v ∷ [])

-- The cases of expand, with the expansion one level deeper.
unfoldable pub expand_one :
    (Value → List Value → List Value → Expanded)
    → Getters
    → Value
    → List Value
    → List Value
    → Expanded
unfolding each add_usable active_from enter
expand_one deeper gs nothing result active = (result, none)
expand_one deeper gs (named n) result active = append_unique_tag result (named n)
expand_one deeper gs (all_named ns) result active =
    each (λ r n. append_unique_tag r (named n)) ns result
expand_one deeper gs (getter n usable seen) result active =
    let v = getter n usable seen in
    enter result active v (active_from active v) (λ nodes. deeper (gs.get_tag n) result nodes)
expand_one deeper gs (slice n) result active =
    if has_non_nil_tag (gs.elements n)
    then enter result active (slice n) (active_from active (slice n))
        (λ nodes. each (λ r w. deeper w r nodes) (gs.elements n) result)
    else (result, none)
expand_one deeper gs (illegal n) result active = (result, some illegal_tag_type)
expand_one deeper gs (other n usable) result active = add_usable result (other n usable)

-- expand, where the number says how many levels are left: it is max_tag_depth + 1 - depth.
unfoldable pub expand : Getters → ℕ → Value → List Value → List Value → Expanded
unfolding expand_one
expand gs zero v result active = (result, some too_many_tags)
expand gs (suc left) v result active =
    if ltb max_tag_count (length result)
    then (result, some too_many_tags)
    else expand_one (expand gs left) gs v result active

-- TagExpand.
unfoldable pub tag_expand : Getters → Value → Expanded
unfolding expand
tag_expand gs v = expand gs (suc max_tag_depth) v [] []
