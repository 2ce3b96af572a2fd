-- ===== src/Elements/Deletion.antt =====
-- Deletion keeps the registry consistent, and a deleted Element is gone from all of it.
use jaws.Base.{
  ℕ, zero, suc, List, [], ◌∷◌, Option, none, some, Bool, true, false, ◌==◌, delete_func, contains,
  contains-delete_func, Distinct-delete_func, All, All-delete_func, Above-delete_func, ◌≡◌, ◌≢◌,
  refl, arith, Bool-cases, ==_refl, ==→eq, Option-cases, inl, inr, ◌∙◌, sym,
}
use jaws.Strconv.{Text}
use jaws.Request.{Request, ElementRef, null, ref, Tag, element, plain, TagMap, ref_eq, update}
use jaws.Elements.{
  tagged, or_nil, map_of, is_victim, unless_empty, remove_from_tags, remove_from_map,
  remove_elements, delete_element, mark_deleted, drop_victims, delete_elements, handle_remove,
}
use jaws.Elements.Invariant.{IsTagMap, IsQueuable, IsConsistent, is_held}

or_nil-unless_empty : (js : List ℕ) → or_nil (unless_empty js) ≡ js
or_nil-unless_empty [] = refl
or_nil-unless_empty (j ∷ js) = refl

unless_empty-used : (js : List ℕ) → unless_empty js ≢ some []
unless_empty-used [] = λ p. cc
unless_empty-used (j ∷ js) = λ p. cc

module _ (self : ℕ) (pred : ElementRef → Bool) where
  -- The test on the Elements of the Request.
  abbrev pub gone : ℕ → Bool
  gone j = pred (ref self j)

  tagged-remove_from_tags :
      (m : TagMap) (t : Tag)
      → tagged (remove_from_tags self pred m) t ≡ delete_func (tagged m t) gone
  unfolding remove_from_tags
  tagged-remove_from_tags m t = elim (Option-cases (m t)) [
    | inl e ↦ rw (e, remove_from_tags)
    | inr (js, e) ↦ rw (e, remove_from_tags) (or_nil-unless_empty (delete_func js gone))
  ]

  remove_from_tags-used : (m : TagMap) (t : Tag) → remove_from_tags self pred m t ≢ some []
  unfolding remove_from_tags
  remove_from_tags-used m t = elim (Option-cases (m t)) [
    | inl e ↦ rw (e, remove_from_tags) (λ p. cc)
    | inr (js, e) ↦ rw (e, remove_from_tags) (unless_empty-used (delete_func js gone))
  ]

  contains-kept :
      (xs : List ℕ) (j : ℕ)
      → contains xs j ≡ true
      → gone j ≡ false
      → contains (delete_func xs gone) j ≡ true
  contains-kept xs j h g = rw (contains-delete_func xs gone j, h, g)

  remove_from_tags-IsTagMap :
      (elems : List ℕ) (m : TagMap)
      → IsTagMap elems m
      → IsTagMap (delete_func elems gone) (remove_from_tags self pred m)
  remove_from_tags-IsTagMap elems m v = record {
    known = λ t j.
        rw (tagged-remove_from_tags m t, contains-delete_func (tagged m t) gone j)
          (λ h. contains-kept elems j (v.known t j (ground (arith, h))) (ground (arith, h)));
    once =
        λ t. rw (tagged-remove_from_tags m t) (Distinct-delete_func (tagged m t) gone (v.once t));
    used = λ t. remove_from_tags-used m t;
  }

  IsQueuable-kept :
      (elems : List ℕ) (ts : List Tag)
      → All (IsQueuable self elems) ts
      → All (IsQueuable self (delete_func elems gone)) (delete_func ts (is_victim pred))
  IsQueuable-kept elems [] h = tt
  IsQueuable-kept elems (plain n ∷ ts) h = (tt, IsQueuable-kept elems ts h.1)
  IsQueuable-kept elems (element null ∷ ts) h = absurd (h.0)
  IsQueuable-kept elems (element (ref r j) ∷ ts) h = elim (Bool-cases (pred (ref r j))) [
    | inl e ↦ rw e (IsQueuable-kept elems ts h.1)
    | inr e ↦ rw e (
      (h.0.0, contains-kept elems j h.0.1 (ground (arith, e, h.0.0))),
      IsQueuable-kept elems ts h.1,
    )
  ]

  live_kept :
      (old new : ℕ → Bool) (xs : List ℕ)
      → ((j : ℕ) → gone j ≡ false → new j ≡ old j)
      → All (λ j. old j ≡ false) xs
      → All (λ j. new j ≡ false) (delete_func xs gone)
  live_kept old new [] f h = tt
  live_kept old new (x ∷ xs) f h = elim (Bool-cases (gone x)) [
    | inl e ↦ rw e (live_kept old new xs f h.1)
    | inr e ↦ rw e (rw (f x e) h.0, live_kept old new xs f h.1)
  ]

  remove_from_map-IsTagMap :
      (elems : List ℕ) (o : Option TagMap)
      → IsTagMap elems (map_of o)
      → IsTagMap (delete_func elems gone) (map_of (remove_from_map self pred o))
  remove_from_map-IsTagMap elems none v = record {
    known = λ t j h. absurd (cc);
    once = λ t. tt;
    used = λ t p. cc;
  }
  remove_from_map-IsTagMap elems (some m) v = remove_from_tags-IsTagMap elems m v

  pub tagged-remove_from_map :
      (o : Option TagMap) (t : Tag)
      → tagged (map_of (remove_from_map self pred o)) t ≡ delete_func (tagged (map_of o) t) gone
  tagged-remove_from_map none t = refl
  tagged-remove_from_map (some m) t = tagged-remove_from_tags m t

  is_held-remove_from_map : (o : Option TagMap) → is_held (remove_from_map self pred o) ≡ is_held o
  is_held-remove_from_map none = refl
  is_held-remove_from_map (some m) = refl

-- Removing Elements keeps the registry consistent, if just these become deleted.
remove_elements-IsConsistent :
    {rq : Request} (pred : ElementRef → Bool) (new : ℕ → Bool)
    → ((j : ℕ) → pred (ref rq.identity j) ≡ false → new j ≡ rq.deleted j)
    → ((j : ℕ) → pred (ref rq.identity j) ≡ true → new j ≡ true)
    → IsConsistent rq
    → IsConsistent (remove_elements (record rq { deleted = new }) pred)
unfolding remove_elements
remove_elements-IsConsistent {rq} pred new same marked v =
    let held = is_held-remove_from_map rq.identity pred rq.tag_map in
    record {
      sorted = Above-delete_func 0 rq.elems _ v.sorted;
      allocated = All-delete_func _ rq.elems _ v.allocated;
      live = live_kept rq.identity pred rq.deleted new rq.elems same v.live;
      tags = remove_from_map-IsTagMap rq.identity pred rq.elems rq.tag_map v.tags;
      dirt = IsQueuable-kept rq.identity pred rq.elems rq.todo_dirt v.dirt;
      whole = λ j h p q d. elim (Bool-cases (pred (ref rq.identity j))) [
        | inl g ↦ absurd (let x = marked j g in cc)
        | inr g ↦
            contains-kept rq.identity pred rq.elems j
              (v.whole j (sym held ∙ h) p q (sym (same j g) ∙ d)) g
      ];
      held = λ h. held ∙ v.held h;
    }

delete_own-IsConsistent :
    {rq : Request} (j : ℕ) → IsConsistent rq → IsConsistent (delete_element rq (ref rq.identity j))
unfolding delete_element
delete_own-IsConsistent {rq} j v = rw (==_refl rq.identity) (
    remove_elements-IsConsistent (λ e. ref_eq e (ref rq.identity j)) (update rq.deleted j true)
      (λ k h. ground (arith, ==_refl rq.identity, h)) (λ k h. ground (arith, h)) v)

-- DeleteElement, of any pointer, keeps the registry consistent.
pub delete_element-IsConsistent :
    {rq : Request} (e : ElementRef) → IsConsistent rq → IsConsistent (delete_element rq e)
delete_element-IsConsistent null v = unfold delete_element in v
delete_element-IsConsistent {rq} (ref r j) v = elim (Bool-cases (r == rq.identity)) [
  | inr n ↦ unfold delete_element in rw n v
  | inl y ↦ rw (==→eq r rq.identity y) (delete_own-IsConsistent j v)
]

mark_deleted-marked :
    (deleted : ℕ → Bool) (victims : List ℕ) (j : ℕ)
    → contains victims j ≡ true
    → mark_deleted deleted victims j ≡ true
unfolding mark_deleted
mark_deleted-marked deleted victims j h = rw h

mark_deleted-same :
    (deleted : ℕ → Bool) (victims : List ℕ) (j : ℕ)
    → contains victims j ≡ false
    → mark_deleted deleted victims j ≡ deleted j
unfolding mark_deleted
mark_deleted-same deleted victims j h = rw h

drop_victims-IsConsistent :
    {rq : Request} (victims : List ℕ) (pred : ElementRef → Bool)
    → ((j : ℕ) → pred (ref rq.identity j) ≡ contains victims j)
    → IsConsistent rq
    → IsConsistent (drop_victims rq victims pred)
unfolding drop_victims
drop_victims-IsConsistent [] pred h v = v
drop_victims-IsConsistent {rq} (w ∷ ws) pred h v =
    remove_elements-IsConsistent pred _
      (λ j p. mark_deleted-same rq.deleted (w ∷ ws) j (sym (h j) ∙ p))
      (λ j p. mark_deleted-marked rq.deleted (w ∷ ws) j (sym (h j) ∙ p)) v

-- DeleteElements keeps the registry consistent, whatever pointers it is given.
pub delete_elements-IsConsistent :
    {rq : Request} (es : List ElementRef) → IsConsistent rq → IsConsistent (delete_elements rq es)
unfolding delete_elements
delete_elements-IsConsistent [] v = v
delete_elements-IsConsistent (e ∷ []) v = delete_element-IsConsistent e v
delete_elements-IsConsistent {rq} (e ∷ f ∷ es) v =
    drop_victims-IsConsistent _ _ (λ j. rw (==_refl rq.identity)) v

-- So does a removal report from the browser, whatever it says.
pub handle_remove-IsConsistent :
    {rq : Request} (container : ℕ) (text : Text)
    → IsConsistent rq
    → IsConsistent (handle_remove rq container text)
unfolding handle_remove
handle_remove-IsConsistent zero text v = v
handle_remove-IsConsistent (suc c) text v = drop_victims-IsConsistent _ _ (λ j. refl) v
