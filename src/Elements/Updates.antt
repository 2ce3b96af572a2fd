-- ===== src/Elements/Updates.antt =====
-- Dirty selectors are queued consistently, and the update list holds what they select.
use jaws.Base.{
  ℕ, List, [], ◌∷◌, true, not, ◌||◌, delete_func, contains, Distinct, All, All-append, ◌≡◌, refl,
  sym, ◌∙◌, arith, Bool-cases, inl, inr,
}
use jaws.Request.{Request, null, ref, Tag, element, plain, TagMap, registered}
use jaws.Elements.{tagged, map_of, accepts, append_dirty_tags}
use jaws.Elements.Collect.{
  add_unseen, targets, collect_targets, make_update_list, get_elements, collect_tagged,
}
use jaws.Elements.Invariant.{IsTagMap, IsQueuable, IsConsistent, IsTarget, is_held}
use jaws.Elements.Collection.{
  Distinct-add_unseen, contains-add_unseen, selects, tagged_by, contains-collect_targets,
  contains-sort_by_jid,
}

accepts-IsQueuable :
    {rq : Request} (t : Tag)
    → IsConsistent rq
    → is_held rq.tag_map ≡ true
    → IsTarget rq t
    → accepts rq t ≡ true
    → IsQueuable rq.identity rq.elems t
unfolding accepts
accepts-IsQueuable (element null) v h a e = absurd (cc)
accepts-IsQueuable {rq} (element (ref r j)) v h a e =
    let same : r ≡ rq.identity = ground (arith, e) in
    let bounds = a same in (same, v.whole j h bounds.0 bounds.1 (ground (arith, e)))
accepts-IsQueuable (plain n) v h a e = tt

accepted-IsQueuable :
    {rq : Request} (ts : List Tag)
    → IsConsistent rq
    → is_held rq.tag_map ≡ true
    → All (IsTarget rq) ts
    → All (IsQueuable rq.identity rq.elems) (delete_func ts (λ t. not (accepts rq t)))
accepted-IsQueuable [] v h a = tt
accepted-IsQueuable {rq} (t ∷ ts) v h a = elim (Bool-cases (accepts rq t)) [
  | inl e ↦ rw e (accepts-IsQueuable t v h a.0 e, accepted-IsQueuable ts v h a.1)
  | inr e ↦ rw e (accepted-IsQueuable ts v h a.1)
]

-- Queueing dirty selectors keeps the registry consistent: only registered Elements are targets.
pub append_dirty_tags-IsConsistent :
    {rq : Request} (ts : List Tag)
    → All (IsTarget rq) ts
    → IsConsistent rq
    → IsConsistent (append_dirty_tags rq ts)
append_dirty_tags-IsConsistent {rq} ts a v = elim (Bool-cases (registered rq.state)) [
  | inr e ↦ unfold append_dirty_tags in rw e v
  | inl e ↦
      unfold append_dirty_tags in
      rw e (record {
        sorted = v.sorted;
        allocated = v.allocated;
        live = v.live;
        tags = v.tags;
        whole = v.whole;
        held = v.held;
        dirt = All-append _ rq.todo_dirt _ v.dirt (accepted-IsQueuable ts v (v.held e) a);
      })
]

pub make_update_list-IsConsistent :
    {rq : Request} → IsConsistent rq → IsConsistent (make_update_list rq).0
unfolding make_update_list
make_update_list-IsConsistent v = record {
  sorted = v.sorted;
  allocated = v.allocated;
  live = v.live;
  tags = v.tags;
  whole = v.whole;
  held = v.held;
  dirt = tt;
}

-- The growing list of distinct Elements.

targets-registered :
    (self : ℕ) (elems : List ℕ) (m : TagMap) (t : Tag) (k : ℕ)
    → IsTagMap elems m
    → IsQueuable self elems t
    → contains (targets m t) k ≡ true
    → contains elems k ≡ true
targets-registered self elems m (element null) k v q h = absurd (q)
targets-registered self elems m (element (ref r j)) k v q h =
    let e : j ≡ k = ground (arith, h) in rw e at (q.1)
targets-registered self elems m (plain n) k v q h = v.known (plain n) k h

selects-registered :
    (self : ℕ) (elems : List ℕ) (m : TagMap) (ts : List Tag) (k : ℕ)
    → IsTagMap elems m
    → All (IsQueuable self elems) ts
    → selects m ts k ≡ true
    → contains elems k ≡ true
selects-registered self elems m [] k v q h = absurd (cc)
selects-registered self elems m (t ∷ ts) k v q h = elim (Bool-cases (contains (targets m t) k)) [
  | inl e ↦ targets-registered self elems m t k v q.0 e
  | inr e ↦ selects-registered self elems m ts k v q.1 (ground (arith, e, h))
]

contains-update_list :
    (rq : Request) (k : ℕ)
    → contains (make_update_list rq).1 k ≡ selects (map_of rq.tag_map) rq.todo_dirt k
unfolding make_update_list
contains-update_list rq k =
    contains-sort_by_jid (collect_targets (map_of rq.tag_map) [] rq.todo_dirt) k
    ∙ contains-collect_targets (map_of rq.tag_map) [] rq.todo_dirt k

pub update_list-registered :
    (rq : Request) (k : ℕ)
    → IsConsistent rq
    → contains (make_update_list rq).1 k ≡ true
    → contains rq.elems k ≡ true
update_list-registered rq k v h =
    selects-registered rq.identity rq.elems (map_of rq.tag_map) rq.todo_dirt k v.tags v.dirt
      (sym (contains-update_list rq k) ∙ h)

contains-collect_tagged :
    (m : TagMap) (seen : List ℕ) (ts : List Tag) (k : ℕ)
    → contains (collect_tagged m seen ts) k ≡ (contains seen k || tagged_by m ts k)
unfolding collect_tagged
contains-collect_tagged m seen [] k = ground arith
contains-collect_tagged m seen (t ∷ ts) k = ground (
  arith,
  contains-collect_tagged m (add_unseen seen (tagged m t)) ts k,
  contains-add_unseen seen (tagged m t) k,
)

Distinct-collect_tagged :
    (m : TagMap) (seen : List ℕ) (ts : List Tag)
    → Distinct seen
    → Distinct (collect_tagged m seen ts)
unfolding collect_tagged
Distinct-collect_tagged m seen [] d = d
Distinct-collect_tagged m seen (t ∷ ts) d =
    Distinct-collect_tagged m (add_unseen seen (tagged m t)) ts
      (Distinct-add_unseen seen (tagged m t) d)

-- In a consistent registry, GetElements returns each Element that is registered under at least one
-- of the keys, and none twice.
get_elements_lem :
    (rq : Request) (ts : List Tag)
    → IsConsistent rq
    → Distinct (get_elements rq ts)
      × ((k : ℕ) → contains (get_elements rq ts) k ≡ tagged_by (map_of rq.tag_map) ts k)
unfolding get_elements
get_elements_lem rq [] v = (tt, λ k. refl)
get_elements_lem rq (t ∷ []) v = (v.tags.once t, λ k. ground arith)
get_elements_lem rq (t ∷ u ∷ ts) v = (
  Distinct-collect_tagged (map_of rq.tag_map) [] (t ∷ u ∷ ts) tt,
  contains-collect_tagged (map_of rq.tag_map) [] (t ∷ u ∷ ts),
)
