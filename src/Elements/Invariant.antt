-- ===== src/Elements/Invariant.antt =====
-- The registry stays consistent under every operation on it.
use jaws.Base.{
  ℕ, ◌+◌, ◌≤◌, ◌<◌, List, [], ◌∷◌, ◌++◌, Option, none, some, Bool, true, false, contains,
  contains-append, Distinct, All, All-append, Above, Above-append_one, ◌≡◌, ◌≢◌, arith,
}
use jaws.Request.{Request, ElementRef, null, ref, Tag, element, plain, TagMap, registered, update}
use jaws.Elements.{new_element, tagged, map_of}

abbrev pub is_held : Option TagMap → Bool
is_held none = false
is_held (some m) = true

-- A queued exact target is a registered Element of the Request.
abbrev pub IsQueuable : ℕ → List ℕ → Tag → Type 0
IsQueuable self elems (element null) = ⊥
IsQueuable self elems (element (ref r j)) = (r ≡ self) × (contains elems j ≡ true)
IsQueuable self elems (plain n) = Unit

-- The tags lead to registered Elements only, each once, and no tag is left with none.
pub record IsTagMap (elems : List ℕ) (m : TagMap) : Type 0 where
  pub known : (t : Tag) (j : ℕ) → contains (tagged m t) j ≡ true → contains elems j ≡ true
  pub once : (t : Tag) → Distinct (tagged m t)
  pub used : (t : Tag) → m t ≢ some []

pub record IsConsistent (rq : Request) : Type 0 where
  -- Ascending Jids, so that binary search works.
  pub sorted : Above 0 rq.elems
  pub allocated : All (λ j. j ≤ rq.last_jid) rq.elems
  pub live : All (λ j. rq.deleted j ≡ false) rq.elems
  pub tags : IsTagMap rq.elems (map_of rq.tag_map)
  pub dirt : All (IsQueuable rq.identity rq.elems) rq.todo_dirt
  -- While the buffers are held, an Element that is not deleted is registered.
  pub whole :
      (j : ℕ)
      → is_held rq.tag_map ≡ true
      → 0 < j
      → j ≤ rq.last_jid
      → rq.deleted j ≡ false
      → contains rq.elems j ≡ true
  pub held : registered rq.state ≡ true → is_held rq.tag_map ≡ true

-- A pointer to an Element that was allocated.
abbrev pub IsAllocated : Request → ElementRef → Type 0
IsAllocated rq null = Unit
IsAllocated rq (ref r j) = r ≡ rq.identity → (0 < j) × (j ≤ rq.last_jid)

abbrev pub IsTarget : Request → Tag → Type 0
IsTarget rq (element e) = IsAllocated rq e
IsTarget rq (plain n) = Unit

-- New Elements.

pub All-below : (n : ℕ) (xs : List ℕ) → All (λ j. j ≤ n) xs → All (λ j. j < n + 1) xs
All-below n [] h = tt
All-below n (x ∷ xs) h = (omega arith, All-below n xs h.1)

All-above : (n : ℕ) (xs : List ℕ) → All (λ j. j ≤ n) xs → All (λ j. j ≤ n + 1) xs
All-above n [] h = tt
All-above n (x ∷ xs) h = (omega arith, All-above n xs h.1)

live-update :
    (f : ℕ → Bool) (n : ℕ) (b : Bool) (xs : List ℕ)
    → All (λ j. j ≤ n) xs
    → All (λ j. f j ≡ false) xs
    → All (λ j. update f (n + 1) b j ≡ false) xs
live-update f n b [] a h = tt
live-update f n b (x ∷ xs) a h = (ground (arith, h.0, a.0), live-update f n b xs a.1 h.1)

IsQueuable-mono :
    (self : ℕ) (xs ys : List ℕ)
    → ((j : ℕ) → contains xs j ≡ true → contains ys j ≡ true)
    → (t : Tag) → IsQueuable self xs t
    → IsQueuable self ys t
IsQueuable-mono self xs ys h (element null) q = q
IsQueuable-mono self xs ys h (element (ref r j)) q = (q.0, h j q.1)
IsQueuable-mono self xs ys h (plain n) q = tt

pub All-mono {ℓ κ λ'} :
    {A : Type ℓ} (P : A → Type κ) (Q : A → Type λ') (xs : List A)
    → ((a : A) → P a → Q a)
    → All P xs
    → All Q xs
All-mono P Q [] f h = tt
All-mono P Q (x ∷ xs) f h = (f x h.0, All-mono P Q xs f h.1)

contains-append_left :
    (xs ys : List ℕ) (j : ℕ) → contains xs j ≡ true → contains (xs ++ ys) j ≡ true
contains-append_left xs ys j h = ground (arith, contains-append xs ys j)

-- A new Element keeps the registry consistent, and its Jid is new.
pub new_element-IsConsistent :
    {rq : Request} (ui : Option ℕ) → IsConsistent rq → IsConsistent (new_element rq ui).0
unfolding new_element
new_element-IsConsistent {rq} ui v =
    let grows = contains-append_left rq.elems ((rq.last_jid + 1) ∷ []) in
    record {
      sorted =
          Above-append_one 0 rq.elems (rq.last_jid + 1) v.sorted (All-below _ _ v.allocated)
            (omega arith);
      allocated = All-append _ rq.elems _ (All-above _ _ v.allocated) (omega arith);
      live =
          All-append _ rq.elems _
            (live-update rq.deleted rq.last_jid false rq.elems v.allocated v.live) (ground arith);
      tags = record {
        known = λ t j h. grows j (v.tags.known t j h);
        once = v.tags.once;
        used = v.tags.used;
      };
      dirt = All-mono _ _ rq.todo_dirt (IsQueuable-mono rq.identity _ _ grows) v.dirt;
      whole = λ j h p q d.
          ground (arith, contains-append rq.elems ((rq.last_jid + 1) ∷ []) j, v.whole j h p, q, d);
      held = v.held;
    }
