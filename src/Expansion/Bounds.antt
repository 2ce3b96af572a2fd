-- ===== src/Expansion/Bounds.antt =====
-- Whatever getters and slices lead to, an expansion ends with few keys, each once and usable.
use jaws.Base.{
  ℕ, zero, suc, ◌≤◌, List, [], ◌∷◌, ◌++◌, Option, none, some, true, false, ◌||◌, ltb, length,
  length-append, All, All-append, ◌≡◌, refl, arith, Bool-cases, inl, inr,
}
use jaws.Expansion.{
  Value, nothing, named, all_named, getter, slice, illegal, other, Getters, Expanded, usable_as_tag,
  key_eq, holds_key, append_unique_tag, add_usable, each, continue, active_from, add_active_tag,
  add_active_tags, enter, expand_one, is_getter, has_non_nil_tag, expand, tag_expand, max_tag_depth,
  max_tag_count,
}

-- No key twice.
abbrev pub Unique : List Value → Type 0
Unique [] = Unit
Unique (k ∷ ks) = (holds_key ks k ≡ false) × Unique ks

pub record IsKeys (limit : ℕ) (ks : List Value) : Type 0 where
  pub once : Unique ks
  pub usable : All (λ k. usable_as_tag k ≡ true) ks
  pub few : length ks ≤ limit

-- One key more than the limit is left only with an error.
abbrev pub IsBounded : Expanded → Type 0
IsBounded (ks, none) = IsKeys max_tag_count ks
IsBounded (ks, some e) = IsKeys (suc max_tag_count) ks

key_eq_sym : (v w : Value) → key_eq v w ≡ key_eq w v
key_eq_sym v w = ground (arith, v, w)

holds_key-append :
    (ks ls : List Value) (v : Value) → holds_key (ks ++ ls) v ≡ (holds_key ks v || holds_key ls v)
holds_key-append [] ls v = refl
holds_key-append (k ∷ ks) ls v = ground (arith, holds_key-append ks ls v)

Unique-append_one :
    (ks : List Value) (v : Value) → Unique ks → holds_key ks v ≡ false → Unique (ks ++ v ∷ [])
Unique-append_one [] v u h = (refl, tt)
Unique-append_one (k ∷ ks) v u h = (
  rw (holds_key-append ks (v ∷ []) k, u.0, key_eq_sym v k) (ground (arith, h)),
  Unique-append_one ks v u.1 (ground (arith, h)),
)

weaken : (ks : List Value) → IsKeys max_tag_count ks → IsKeys (suc max_tag_count) ks
weaken ks h = record { once = h.once; usable = h.usable; few = omega (arith, h.few) }

append_unique_tag-IsBounded :
    (r : List Value) (v : Value)
    → usable_as_tag v ≡ true
    → IsKeys max_tag_count r
    → IsBounded (append_unique_tag r v)
unfolding append_unique_tag
append_unique_tag-IsBounded r v u h = elim (Bool-cases (holds_key r v)) [
  | inl e ↦ rw e h
  | inr e ↦
      let once = Unique-append_one r v h.once e in
      let usable = All-append (λ k. usable_as_tag k ≡ true) r (v ∷ []) h.usable (u, tt) in
      elim (Bool-cases (ltb max_tag_count (length (r ++ v ∷ [])))) [
        | inl l ↦
            rw (e, l)
              (record {
                once = once;
                usable = usable;
                few = omega (arith, h.few, length-append r (v ∷ []));
              })
        | inr l ↦ rw (e, l) (record { once = once; usable = usable; few = ground (arith, l) })
      ]
]

add_usable-IsBounded :
    (r : List Value) (v : Value) → IsKeys max_tag_count r → IsBounded (add_usable r v)
unfolding add_usable
add_usable-IsBounded r v h = elim (Bool-cases (usable_as_tag v)) [
  | inl e ↦ rw e (append_unique_tag-IsBounded r v e h)
  | inr e ↦ rw e (record { once = tt; usable = tt; few = omega arith })
]

continue-IsBounded :
    (rest : List Value → Expanded) (o : Expanded)
    → ((r : List Value) → IsKeys max_tag_count r → IsBounded (rest r))
    → IsBounded o
    → IsBounded (continue rest o)
unfolding continue
continue-IsBounded rest (r, none) k h = k r h
continue-IsBounded rest (r, some e) k h = h

each-IsBounded {ℓ} :
    {A : Type ℓ} (f : List Value → A → Expanded) (xs : List A) (r : List Value)
    → ((r : List Value) (x : A) → IsKeys max_tag_count r → IsBounded (f r x))
    → IsKeys max_tag_count r
    → IsBounded (each f xs r)
unfolding each
each-IsBounded f [] r k h = h
each-IsBounded f (x ∷ xs) r k h =
    continue-IsBounded (each f xs) (f r x) (λ s g. each-IsBounded f xs s k g) (k r x h)

add_active_tag-IsBounded :
    (r : List Value) (node : Value) → IsKeys max_tag_count r → IsBounded (add_active_tag r node)
unfolding add_active_tag
add_active_tag-IsBounded r node h = elim (Bool-cases (is_getter node)) [
  | inl e ↦ rw e (add_usable-IsBounded r node h)
  | inr e ↦ rw e h
]

enter-IsBounded :
    (r active : List Value) (v : Value) (o : Option (List Value)) (deeper : List Value → Expanded)
    → ((nodes : List Value) → IsBounded (deeper nodes))
    → IsKeys max_tag_count r
    → IsBounded (enter r active v o deeper)
unfolding enter add_active_tags
enter-IsBounded r active v (some nodes) deeper k h =
    each-IsBounded add_active_tag nodes r add_active_tag-IsBounded h
enter-IsBounded r active v none deeper k h = k (active ++ v ∷ [])

expand_one-IsBounded :
    (deeper : Value → List Value → List Value → Expanded) (gs : Getters) (v : Value)
    (r active : List Value)
    → ((v : Value) (r active : List Value) → IsKeys max_tag_count r → IsBounded (deeper v r active))
    → IsKeys max_tag_count r
    → IsBounded (expand_one deeper gs v r active)
unfolding expand_one
expand_one-IsBounded deeper gs nothing r active k h = h
expand_one-IsBounded deeper gs (named n) r active k h =
    append_unique_tag-IsBounded r (named n) refl h
expand_one-IsBounded deeper gs (all_named ns) r active k h =
    each-IsBounded (λ r n. append_unique_tag r (named n)) ns r
      (λ s n g. append_unique_tag-IsBounded s (named n) refl g) h
expand_one-IsBounded deeper gs (getter n usable seen) r active k h =
    enter-IsBounded r active (getter n usable seen) (active_from active (getter n usable seen))
      (λ nodes. deeper (gs.get_tag n) r nodes) (λ nodes. k (gs.get_tag n) r nodes h) h
expand_one-IsBounded deeper gs (slice n) r active k h =
    elim (Bool-cases (has_non_nil_tag (gs.elements n))) [
      | inl e ↦ rw e (
          enter-IsBounded r active (slice n) (active_from active (slice n))
            (λ nodes. each (λ r w. deeper w r nodes) (gs.elements n) r)
            (λ nodes.
              each-IsBounded (λ r w. deeper w r nodes) (gs.elements n) r (λ s w g. k w s nodes g) h)
            h)
      | inr e ↦ rw e h
    ]
expand_one-IsBounded deeper gs (illegal n) r active k h = weaken r h
expand_one-IsBounded deeper gs (other n usable) r active k h =
    add_usable-IsBounded r (other n usable) h

expand-IsBounded :
    (gs : Getters) (left : ℕ) (v : Value) (r active : List Value)
    → IsKeys max_tag_count r
    → IsBounded (expand gs left v r active)
unfolding expand
expand-IsBounded gs zero v r active h = weaken r h
expand-IsBounded gs (suc left) v r active h = elim (Bool-cases (ltb max_tag_count (length r))) [
  | inl e ↦ rw e (weaken r h)
  | inr e ↦ rw e (expand_one-IsBounded (expand gs left) gs v r active (expand-IsBounded gs left) h)
]

-- Whatever the getters of the application return and its slices hold, cycles included, TagExpand ends with keys that are each usable and occur once. There are at most 100 of them if there is no error, and at most 101 with one.
pub tag_expand-IsBounded : (gs : Getters) (v : Value) → IsBounded (tag_expand gs v)
unfolding tag_expand
tag_expand-IsBounded gs v =
    expand-IsBounded gs (suc max_tag_depth) v [] []
      (record { once = tt; usable = tt; few = omega arith })
