-- ===== src/Elements/Effects.antt =====
-- What the lookups return after a deletion.
use jaws.Base.{
  ℕ, zero, suc, ◌<◌, List, [], ◌∷◌, Option, none, some, Bool, true, false, not, ◌&&◌, ◌||◌, ◌==◌,
  if◌then◌else◌, contains, contains-delete_func, Above, ◌≡◌, refl, ◌∙◌, arith, Bool-cases, ==_refl,
  ==→eq, inl, inr,
}
use jaws.Strconv.{Text}
use jaws.Jid.{Jid, pos, negsuc, parse_string}
use jaws.Request.{Request, ElementRef, ref, Tag, ref_eq, update}
use jaws.Elements.{
  get_element_by_jid, has_tag, delete_element, handle_remove, tagged, map_of, remove_elements,
  victim_of, remove_victims, drop_victims, mark_deleted, split_tabs, among_jids,
}
use jaws.Elements.Collect.{make_update_list}
use jaws.Elements.Search.{get_element_by_jid-contains}
use jaws.Elements.Invariant.{IsConsistent}
use jaws.Elements.Deletion.{
  delete_element-IsConsistent, handle_remove-IsConsistent, tagged-remove_from_map,
}
use jaws.Elements.Updates.{update_list-registered}

-- Removal by a test, seen through the lookups.

module _ (rq : Request) (pred : ElementRef → Bool) (new : ℕ → Bool) where
  removed : Request
  removed = remove_elements (record rq { deleted = new }) pred

  contains-removed :
      (k : ℕ) → contains removed.elems k ≡ (contains rq.elems k && not (pred (ref rq.identity k)))
  unfolding removed remove_elements
  contains-removed k = contains-delete_func rq.elems (λ j. pred (ref rq.identity j)) k

  has_tag-removed :
      (k : ℕ) (t : Tag) → has_tag removed k t ≡ (has_tag rq k t && not (pred (ref rq.identity k)))
  unfolding removed remove_elements has_tag
  has_tag-removed k t =
      rw (tagged-remove_from_map rq.identity pred rq.tag_map t)
        (contains-delete_func (tagged (map_of rq.tag_map) t) (λ j. pred (ref rq.identity j)) k)

delete_own :
    (rq : Request) (j : ℕ)
    → delete_element rq (ref rq.identity j)
      ≡ removed rq (λ e. ref_eq e (ref rq.identity j)) (update rq.deleted j true)
unfolding delete_element removed
delete_own rq j = rw (==_refl rq.identity)

found_after :
    (rq rq' : Request) (k : ℕ) (b : Bool)
    → IsConsistent rq
    → IsConsistent rq'
    → contains rq'.elems k ≡ (contains rq.elems k && not b)
    → get_element_by_jid rq' k ≡ (if b then none else get_element_by_jid rq k)
found_after rq rq' k b v v' h =
    rw (get_element_by_jid-contains rq' k v'.sorted, get_element_by_jid-contains rq k v.sorted)
      (ground (arith, h))

-- In a consistent registry, a deleted Element is marked, is no longer found by its Jid nor under any tag, and is not updated
-- any more; every other Element is found as before, by its Jid and under its tags.
pub delete_element_lem :
    (rq : Request) (j : ℕ)
    → IsConsistent rq
    → let rq' = delete_element rq (ref rq.identity j) in
      (rq'.deleted j ≡ true)
      × ((k : ℕ) → get_element_by_jid rq' k ≡ (if k == j then none else get_element_by_jid rq k))
      × ((k : ℕ) (t : Tag) → has_tag rq' k t ≡ (has_tag rq k t && not (k == j)))
      × (contains (make_update_list rq').1 j ≡ false)
delete_element_lem rq j v =
    let v' = delete_element-IsConsistent (ref rq.identity j) v in
    let pred : ElementRef → Bool = λ e. ref_eq e (ref rq.identity j) in
    let new = update rq.deleted j true in
    let elems : (k : ℕ)
        → contains (delete_element rq (ref rq.identity j)).elems k
          ≡ (contains rq.elems k && not (k == j)) =
      λ k.
        rw (delete_own rq j)
          (contains-removed rq pred new k ∙ ground (arith, ==_refl rq.identity)) in
    (
      rw (delete_own rq j) (unfold removed remove_elements in ground arith),
      (λ k. found_after rq _ k (k == j) v v' (elems k)),
      (λ k t.
          rw (delete_own rq j)
            (has_tag-removed rq pred new k t ∙ ground (arith, ==_refl rq.identity))),
      elim (Bool-cases (contains (make_update_list (delete_element rq (ref rq.identity j))).1 j)) [
        | inr e ↦ e
        | inl e ↦ absurd (ground (arith, update_list-registered _ j v' e, elems j))
      ],
    )

-- The report names the id, in one of its tab-separated fields.
abbrev pub is_id : Jid → ℕ → Bool
is_id (pos n) k = n == k
is_id (negsuc n) k = false

abbrev pub holds : Option ℕ → ℕ → Bool
holds none k = false
holds (some j) k = j == k

abbrev pub names : List Text → ℕ → Bool
names [] k = false
names (s ∷ ss) k = is_id (parse_string s) k || names ss k

victim_of_cases :
    (rq : Request) (c : ℕ) (id : Jid) (k : ℕ)
    → Above 0 rq.elems
    → holds (victim_of rq c id) k ≡ (is_id id k && not (k == c) && contains rq.elems k)
unfolding victim_of
victim_of_cases rq c (negsuc n) k h = refl
victim_of_cases rq c (pos id) k h = elim (Bool-cases (id == k)) [
  | inl e ↦ rw (==→eq id k e) (ground (arith, get_element_by_jid-contains rq k h))
  | inr e ↦ ground (arith, e, get_element_by_jid-contains rq id h)
]

contains-remove_victims :
    (rq : Request) (c : ℕ) (ss : List Text) (k : ℕ)
    → Above 0 rq.elems
    → contains (remove_victims rq c ss) k ≡ (names ss k && not (k == c) && contains rq.elems k)
unfolding remove_victims
contains-remove_victims rq c [] k h = refl
contains-remove_victims rq c (s ∷ ss) k h =
    ground (arith, contains-remove_victims rq c ss k h, victim_of_cases rq c (parse_string s) k h)

dropped :
    (rq : Request) (victims : List ℕ) (k : ℕ)
    → contains (drop_victims rq victims (among_jids victims)).elems k
      ≡ (contains rq.elems k && not (contains victims k))
unfolding drop_victims
dropped rq [] k = ground arith
dropped rq (v ∷ vs) k =
    unfold removed in contains-removed rq (among_jids (v ∷ vs)) (mark_deleted rq.deleted (v ∷ vs)) k

-- In a consistent registry, a removal report for a container with a positive Jid deletes just the Elements that it names, never the container:
-- these are found no more, and every other Element is found as before.
pub handle_remove_lem :
    (rq : Request) (c : ℕ) (text : Text) (k : ℕ)
    → IsConsistent rq
    → 0 < c
    → get_element_by_jid (handle_remove rq c text) k
      ≡ (if names (split_tabs text) k && not (k == c) then none else get_element_by_jid rq k)
handle_remove_lem rq zero text k v h = absurd (omega arith)
handle_remove_lem rq (suc c) text k v h =
    let victims = remove_victims rq (suc c) (split_tabs text) in
    found_after rq (handle_remove rq (suc c) text) k _ v (handle_remove-IsConsistent (suc c) text v)
      (unfold handle_remove in
        dropped rq victims k
        ∙ ground (arith, contains-remove_victims rq (suc c) (split_tabs text) k v.sorted))
