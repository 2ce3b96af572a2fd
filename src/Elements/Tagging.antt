-- ===== src/Elements/Tagging.antt =====
-- Tagging keeps the registry consistent.
use mathlib.Core.List.{concat-ne-nil}
use jaws.Base.{
  ℕ, ◌≤◌, ◌<◌, List, [], ◌∷◌, ◌++◌, Option, none, some, true, false, ◌==◌, if◌then◌else◌, contains,
  contains-append, Distinct-append_one, ap, ◌≡◌, ◌≢◌, refl, arith, Bool-cases, ==_refl, ==→eq, inl,
  inr,
}
use jaws.Request.{Request, ElementRef, null, ref, Tag, TagMap, tag_eq}
use jaws.Elements.{tagged, or_nil, add_tag, add_tags, tag_expanded}
use jaws.Elements.Invariant.{IsTagMap, IsConsistent, IsAllocated}

-- One more Element under a tag.
extend_tag : TagMap → Tag → ℕ → TagMap
extend_tag m t j u = if tag_eq u t then some (tagged m t ++ j ∷ []) else m u

extend_tag_hit :
    (m : TagMap) (t u : Tag) (j : ℕ)
    → tag_eq u t ≡ true
    → extend_tag m t j u ≡ some (tagged m t ++ j ∷ [])
unfolding extend_tag
extend_tag_hit m t u j e = rw e

extend_tag_miss : (m : TagMap) (t u : Tag) (j : ℕ) → tag_eq u t ≡ false → extend_tag m t j u ≡ m u
unfolding extend_tag
extend_tag_miss m t u j e = rw e

tagged-extend_tag :
    (m : TagMap) (t u : Tag) (j : ℕ)
    → tagged (extend_tag m t j) u ≡ (if tag_eq u t then tagged m t ++ j ∷ [] else tagged m u)
tagged-extend_tag m t u j = elim (Bool-cases (tag_eq u t)) [
  | inl e ↦ rw (extend_tag_hit m t u j e, e)
  | inr e ↦ rw (extend_tag_miss m t u j e, e)
]

extend_tag-used : (m : TagMap) (t u : Tag) (j : ℕ) → m u ≢ some [] → extend_tag m t j u ≢ some []
extend_tag-used m t u j h = elim (Bool-cases (tag_eq u t)) [
  | inl e ↦ rw (extend_tag_hit m t u j e) (λ p. concat-ne-nil j (tagged m t) (ap or_nil p))
  | inr e ↦ rw (extend_tag_miss m t u j e) h
]

extend_tag-IsTagMap :
    (elems : List ℕ) (m : TagMap) (t : Tag) (j : ℕ)
    → contains elems j ≡ true
    → contains (tagged m t) j ≡ false
    → IsTagMap elems m
    → IsTagMap elems (extend_tag m t j)
extend_tag-IsTagMap elems m t j h new v = record {
  known = λ u k. rw (tagged-extend_tag m t u j) (elim (Bool-cases (tag_eq u t)) [
    | inl e ↦ rw e λ p. ground (arith, p, contains-append (tagged m t) (j ∷ []) k, v.known t k, h)
    | inr e ↦ rw e (v.known u k)
  ]);
  once = λ u. rw (tagged-extend_tag m t u j) (elim (Bool-cases (tag_eq u t)) [
    | inl e ↦ rw e (Distinct-append_one (tagged m t) j (v.once t) new)
    | inr e ↦ rw e (v.once u)
  ]);
  used = λ u. extend_tag-used m t u j (v.used u);
}

add_tag-IsTagMap :
    (elems : List ℕ) (m : TagMap) (t : Tag) (j : ℕ)
    → contains elems j ≡ true
    → IsTagMap elems m
    → IsTagMap elems (add_tag m t j)
add_tag-IsTagMap elems m t j h v = elim (Bool-cases (contains (tagged m t) j)) [
  | inl e ↦ unfold add_tag in rw e v
  | inr e ↦ unfold add_tag extend_tag in rw e (extend_tag-IsTagMap elems m t j h e v)
]

add_tags-IsTagMap :
    (elems : List ℕ) (m : TagMap) (ts : List Tag) (j : ℕ)
    → contains elems j ≡ true
    → IsTagMap elems m
    → IsTagMap elems (add_tags m ts j)
unfolding add_tags
add_tags-IsTagMap elems m [] j h v = v
add_tags-IsTagMap elems m (t ∷ ts) j h v =
    add_tags-IsTagMap elems (add_tag m t j) ts j h (add_tag-IsTagMap elems m t j h v)

tag_own :
    (rq : Request) (j : ℕ) (ts : List Tag) (o : Option TagMap)
    → rq.tag_map ≡ o
    → IsConsistent rq
    → rq.deleted j ≡ false
    → 0 < j
    → j ≤ rq.last_jid
    → IsConsistent (tag_expanded rq (ref rq.identity j) ts)
unfolding tag_expanded
tag_own rq j ts none e v d p q = rw (==_refl rq.identity) (rw d (rw (e, tag_expanded) v))
tag_own rq j ts (some m) e v d p q = rw (==_refl rq.identity) (
    rw d (
      rw (e, tag_expanded)
        (let tv : IsTagMap rq.elems m = rw e at v.tags in
          let known = v.whole j (rw e refl) p q d in
          record {
            sorted = v.sorted;
            allocated = v.allocated;
            live = v.live;
            tags = add_tags-IsTagMap rq.elems m ts j known tv;
            dirt = v.dirt;
            whole = λ k h. v.whole k (rw e refl);
            held = λ h. refl;
          })))

-- Tagging a live Element, or any pointer at all, keeps the registry consistent.
pub tag_expanded-IsConsistent :
    {rq : Request} (e : ElementRef) (ts : List Tag)
    → IsAllocated rq e
    → IsConsistent rq
    → IsConsistent (tag_expanded rq e ts)
tag_expanded-IsConsistent null ts a v = unfold tag_expanded in v
tag_expanded-IsConsistent {rq} (ref r j) ts a v = elim (Bool-cases (r == rq.identity)) [
  | inr n ↦ unfold tag_expanded in rw n v
  | inl y ↦ elim (Bool-cases (rq.deleted j)) [
    | inl d ↦ unfold tag_expanded in rw (y, d) v
    | inr d ↦
        let e : r ≡ rq.identity = ==→eq r rq.identity y in
        rw e (tag_own rq j ts rq.tag_map refl v d (a e).0 (a e).1)
  ]
]
