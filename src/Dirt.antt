-- ===== src/Dirt.antt =====
-- broadcast.go: the selectors that were marked dirty, and their distribution to the Requests.
pub mod Order
use jaws.Base.{
  ℕ, zero, ◌+◌, List, [], ◌∷◌, Option, none, some, Bool, true, false, ltb, ◌==◌, if◌then◌else◌,
  length,
}
use jaws.Request.{Request, Tag, tag_eq}
use jaws.Elements.{append_dirty_tags}

-- The fields dirty and dirtOrder of Jaws.
pub record Dirt : Type 0 where
  pub dirty : Tag → Option ℕ
  pub dirt_order : ℕ

abbrev pub no_dirt : Dirt
no_dirt = record { dirty = λ t. none; dirt_order = 0 }

-- One round of setDirty.
unfoldable pub mark : Dirt → Tag → Dirt
mark d t = record {
  dirty = λ u. if tag_eq t u then some (d.dirt_order + 1) else d.dirty u;
  dirt_order = d.dirt_order + 1;
}

unfoldable pub set_dirty : Dirt → List Tag → Dirt
unfolding mark
set_dirty d [] = d
set_dirty d (t ∷ ts) = set_dirty (mark d t) ts

-- The rank of a selector in the map; a missing one has none.
abbrev pub rank : Option ℕ → ℕ
rank none = 0
rank (some n) = n

-- slices.SortFunc by rank, as an insertion sort: no two ranks are the same.
unfoldable pub insert_dirt : (Tag → Option ℕ) → Tag → List Tag → List Tag
insert_dirt dirty t [] = t ∷ []
insert_dirt dirty t (u ∷ us) =
    if ltb (rank (dirty u)) (rank (dirty t)) then u ∷ insert_dirt dirty t us else t ∷ u ∷ us

-- sortedDirtTags, with the keys of the map in the order in which they are walked.
unfoldable pub sorted_dirt_tags : (Tag → Option ℕ) → List Tag → List Tag
unfolding insert_dirt
sorted_dirt_tags dirty [] = []
sorted_dirt_tags dirty (t ∷ ts) = insert_dirt dirty t (sorted_dirt_tags dirty ts)

-- The loop over the Requests.
unfoldable pub offer : List Request → List Tag → List Request
offer [] dirt = []
offer (rq ∷ rqs) dirt = append_dirty_tags rq dirt ∷ offer rqs dirt

-- distributeDirt, with the keys of the map as above and the live Requests. It returns the selectors left, the Requests, and how many selectors were
-- drained.
unfoldable pub distribute_dirt : Dirt → List Tag → List Request → Dirt × List Request × ℕ
unfolding sorted_dirt_tags offer
distribute_dirt d [] rqs = (d, rqs, 0)
distribute_dirt d (t ∷ walk) rqs =
    let dirt = sorted_dirt_tags d.dirty (t ∷ walk) in (no_dirt, offer rqs dirt, length dirt)
