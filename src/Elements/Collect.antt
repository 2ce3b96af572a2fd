-- ===== src/Elements/Collect.antt =====
-- The Elements that pending selectors and tag keys name: requestloop.go (makeUpdateList) and request.go
-- (GetElements).
use jaws.Base.{ℕ, List, [], ◌∷◌, ◌++◌, ltb, if◌then◌else◌, contains}
use jaws.Request.{Request, null, ref, Tag, element, plain, TagMap}
use jaws.Elements.{tagged, map_of}

-- The `seen` map and the list that grows beside it hold the same Elements.
unfoldable pub add_unseen : List ℕ → List ℕ → List ℕ
add_unseen seen [] = seen
add_unseen seen (j ∷ js) = add_unseen (if contains seen j then seen else seen ++ j ∷ []) js

-- The Elements that one pending selector names. A nil target would be kept; none is ever queued.
abbrev pub targets : TagMap → Tag → List ℕ
targets m (element null) = []
targets m (element (ref r j)) = j ∷ []
targets m (plain n) = tagged m (plain n)

unfoldable pub collect_targets : TagMap → List ℕ → List Tag → List ℕ
unfolding add_unseen
collect_targets m seen [] = seen
collect_targets m seen (t ∷ ts) = collect_targets m (add_unseen seen (targets m t)) ts

-- slices.SortFunc by Jid, as an insertion sort.
unfoldable pub insert_sorted : ℕ → List ℕ → List ℕ
insert_sorted j [] = j ∷ []
insert_sorted j (k ∷ ks) = if ltb k j then k ∷ insert_sorted j ks else j ∷ k ∷ ks

unfoldable pub sort_by_jid : List ℕ → List ℕ
unfolding insert_sorted
sort_by_jid [] = []
sort_by_jid (j ∷ js) = insert_sorted j (sort_by_jid js)

-- makeUpdateList: the Elements to update, and the Request with nothing pending.
unfoldable pub make_update_list : Request → Request × List ℕ
unfolding collect_targets sort_by_jid
make_update_list rq = (
  record rq { todo_dirt = [] },
  sort_by_jid (collect_targets (map_of rq.tag_map) [] rq.todo_dirt),
)

-- The loop of GetElements over several keys.
unfoldable pub collect_tagged : TagMap → List ℕ → List Tag → List ℕ
unfolding add_unseen
collect_tagged m seen [] = seen
collect_tagged m seen (t ∷ ts) = collect_tagged m (add_unseen seen (tagged m t)) ts

-- GetElements, from the expanded keys.
unfoldable pub get_elements : Request → List Tag → List ℕ
unfolding collect_tagged
get_elements rq [] = []
get_elements rq (t ∷ []) = tagged (map_of rq.tag_map) t
get_elements rq (t ∷ u ∷ ts) = collect_tagged (map_of rq.tag_map) [] (t ∷ u ∷ ts)
