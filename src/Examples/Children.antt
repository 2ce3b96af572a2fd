-- ===== src/Examples/Children.antt =====
-- Tag expansion, containers and dirty selectors at concrete inputs.
use jaws.Base.{◌+◌, [], ◌∷◌, map, none, true, length, ◌≡◌, refl, arith}
use jaws.Request.{plain}
use jaws.Elements.{new_element, append_dirty_tags, tag_expanded}
use jaws.Expansion.{named, getter, slice, other, Getters, tag_expand}
use jaws.Expansion.Bounds.{tag_expand-IsBounded, IsBounded}
use jaws.Container.{child, reconcile, reconcile_usable}
use jaws.Container.Contents.{reconcile-IsAsWanted, IsAsWanted}
use jaws.Container.Partition.{reconcile_usable-partition, occurs}
use jaws.Dirt.{set_dirty, no_dirt, distribute_dirt}
use jaws.Dirt.Order.{distribute_dirt_lem, by_last_mark}
use jaws.Examples.Pages.{page}

-- The getter 1 returns a slice that holds a tag, a value and the getter again.
abbrev getters : Getters
getters = record {
  get_tag = λ n. slice 4;
  elements = λ n. named 3 ∷ other 5 true ∷ getter 1 true true ∷ [];
}

tag_expand-IsBounded_example : IsBounded (tag_expand getters (getter 1 true true))
tag_expand-IsBounded_example = tag_expand-IsBounded getters (getter 1 true true)

tag_expand_result :
    tag_expand getters (getter 1 true true)
    ≡ (named 3 ∷ other 5 true ∷ getter 1 true true ∷ [], none)
unfolding tag_expand
tag_expand_result = refl

-- Two children of which the first is to stay, and a new one.
reconcile-IsAsWanted_example :
    IsAsWanted
      (child 9 true ∷ child 1 true ∷ [])
      (reconcile page (1 ∷ 2 ∷ []) (child 9 true ∷ child 1 true ∷ []) (1 ∷ 2 ∷ []))
unfolding new_element tag_expanded append_dirty_tags
reconcile-IsAsWanted_example =
    reconcile-IsAsWanted page (1 ∷ 2 ∷ []) (1 ∷ 2 ∷ []) (child 9 true ∷ child 1 true ∷ [])
      (omega arith, (omega arith, tt))

reconcile_usable-partition_example :
    let r = reconcile_usable page (1 ∷ 2 ∷ []) (9 ∷ 1 ∷ []) (2 ∷ 1 ∷ []) in
    occurs 2 (1 ∷ 2 ∷ [])
    ≡ occurs 2 r.contents + (occurs 2 r.to_remove + occurs 2 r.already_deleted)
unfolding new_element tag_expanded append_dirty_tags
reconcile_usable-partition_example =
    reconcile_usable-partition page (1 ∷ 2 ∷ []) (9 ∷ 1 ∷ []) (2 ∷ 1 ∷ []) 2 2
      (omega arith, (omega arith, tt)) (omega arith) refl (refl, (refl, tt)) refl

-- The first tag is marked again after the second.
distribute_dirt_example :
    distribute_dirt
      (set_dirty no_dirt (plain 5 ∷ plain 6 ∷ plain 5 ∷ []))
      (plain 5 ∷ plain 6 ∷ [])
      (page ∷ [])
    ≡ (
      no_dirt,
      map
          (λ rq. append_dirty_tags rq (by_last_mark (plain 5 ∷ plain 6 ∷ plain 5 ∷ [])))
          (page ∷ []),
      length (by_last_mark (plain 5 ∷ plain 6 ∷ plain 5 ∷ [])),
    )
distribute_dirt_example =
    distribute_dirt_lem (plain 5) (plain 6 ∷ plain 5 ∷ []) (plain 5 ∷ plain 6 ∷ []) (page ∷ [])
      (refl, (refl, tt)) (λ u. ground (arith, u))

by_last_mark_result : by_last_mark (plain 5 ∷ plain 6 ∷ plain 5 ∷ []) ≡ plain 6 ∷ plain 5 ∷ []
unfolding by_last_mark
by_last_mark_result = refl
