-- ===== src/Dirt/Order.antt =====
-- The order in which dirty selectors are drained.
use jaws.Base.{
  ℕ, ◌+◌, ◌≤◌, ◌<◌, List, [], ◌∷◌, Option, some, Bool, true, false, ◌||◌, ltb, if◌then◌else◌,
  length, ◌≡◌, ◌≢◌, refl, sym, ap, ◌∙◌, subst, arith, Bool-cases, inl, inr, map,
}
use jaws.Request.{Request, Tag, tag_eq, null, ref, element, plain}
use jaws.Elements.{append_dirty_tags}
use jaws.Dirt.{
  Dirt, no_dirt, mark, set_dirty, rank, insert_dirt, sorted_dirt_tags, offer, distribute_dirt,
}

tag_eq_refl : (t : Tag) → tag_eq t t ≡ true
tag_eq_refl (element null) = refl
tag_eq_refl (element (ref r j)) = ground arith
tag_eq_refl (plain n) = ground arith

tag_eq→eq : (t u : Tag) → tag_eq t u ≡ true → t ≡ u
tag_eq→eq t u h = ground (arith, t, u, h)

abbrev pub lists : List Tag → Tag → Bool
lists [] t = false
lists (u ∷ us) t = tag_eq u t || lists us t

-- The selectors in the order of their last marks.
unfoldable pub by_last_mark : List Tag → List Tag
by_last_mark [] = []
by_last_mark (t ∷ ts) = if lists ts t then by_last_mark ts else t ∷ by_last_mark ts

-- Every selector of the list has a rank, and the ranks rise above `lo`.
abbrev Rises : (Tag → Option ℕ) → ℕ → List Tag → Type 0
Rises dirty lo [] = Unit
Rises dirty lo (t ∷ ts) = (lo < rank (dirty t)) × Rises dirty (rank (dirty t)) ts

Rises-mono :
    (dirty : Tag → Option ℕ) (lo hi : ℕ) (ts : List Tag)
    → lo ≤ hi
    → Rises dirty hi ts
    → Rises dirty lo ts
Rises-mono dirty lo hi [] l r = tt
Rises-mono dirty lo hi (t ∷ ts) l r = (omega (arith, l, r.0), r.1)

-- Selectors that are not marked keep what the map has.
set_dirty_other :
    (d : Dirt) (ts : List Tag) (u : Tag) → lists ts u ≡ false → (set_dirty d ts).dirty u ≡ d.dirty u
unfolding set_dirty mark
set_dirty_other d [] u h = refl
set_dirty_other d (t ∷ ts) u h =
    let e : tag_eq t u ≡ false = ground (arith, h) in
    let r : lists ts u ≡ false = ground (arith, h) in
    set_dirty_other (mark d t) ts u r ∙ ap (λ b. if b then some (d.dirt_order + 1) else d.dirty u) e

by_last_mark-Rises :
    (d : Dirt) (ts : List Tag) → Rises (set_dirty d ts).dirty d.dirt_order (by_last_mark ts)
unfolding set_dirty mark by_last_mark
by_last_mark-Rises d [] = tt
by_last_mark-Rises d (t ∷ ts) =
    let h = by_last_mark-Rises (mark d t) ts in
    elim (Bool-cases (lists ts t)) [
      | inl e ↦ rw e (
          Rises-mono (set_dirty (mark d t) ts).dirty d.dirt_order (d.dirt_order + 1)
            (by_last_mark ts) (omega arith) h)
      | inr e ↦
          let r : rank ((set_dirty (mark d t) ts).dirty t) ≡ d.dirt_order + 1 =
            ap rank (set_dirty_other (mark d t) ts t e)
            ∙ ap (λ b. rank (if b then some (d.dirt_order + 1) else d.dirty t)) (tag_eq_refl t) in
          rw e (
            omega (arith, r),
            subst (λ n. Rises (set_dirty (mark d t) ts).dirty n (by_last_mark ts)) (sym r) h,
          )
    ]

lists-by_last_mark : (ts : List Tag) (u : Tag) → lists (by_last_mark ts) u ≡ lists ts u
unfolding by_last_mark
lists-by_last_mark [] u = refl
lists-by_last_mark (t ∷ ts) u = elim (Bool-cases (lists ts t)) [
  | inl e ↦ rw e (elim (Bool-cases (tag_eq t u)) [
    | inl q ↦ rw q (lists-by_last_mark ts u ∙ ap (lists ts) (sym (tag_eq→eq t u q)) ∙ e)
    | inr q ↦ rw q (lists-by_last_mark ts u)
  ])
  | inr e ↦ rw e (ap (λ b. tag_eq t u || b) (lists-by_last_mark ts u))
]

tag_eq_sym : (t u : Tag) → tag_eq t u ≡ tag_eq u t
tag_eq_sym t u = ground (arith, t, u)

-- A selector of a rising list has a higher rank than the bound.
member_rank :
    (dirty : Tag → Option ℕ) (lo : ℕ) (ts : List Tag) (u : Tag)
    → Rises dirty lo ts
    → lists ts u ≡ true
    → lo < rank (dirty u)
member_rank dirty lo [] u r h = absurd (cc)
member_rank dirty lo (t ∷ ts) u r h = elim (Bool-cases (tag_eq t u)) [
  | inl q ↦ subst (λ v. lo < rank (dirty v)) (tag_eq→eq t u q) r.0
  | inr q ↦
      let there : lists ts u ≡ true = ground (arith, q, h) in
      omega (arith, r.0, member_rank dirty (rank (dirty t)) ts u r.1 there)
]

-- Two selectors of a rising list with the same rank are the same.
rank_once :
    (dirty : Tag → Option ℕ) (lo : ℕ) (ts : List Tag) (u v : Tag)
    → Rises dirty lo ts
    → lists ts u ≡ true
    → lists ts v ≡ true
    → rank (dirty u) ≡ rank (dirty v)
    → u ≡ v
rank_once dirty lo [] u v r h k e = absurd (cc)
rank_once dirty lo (t ∷ ts) u v r h k e = elim (Bool-cases (tag_eq t u)) [
  | inl q ↦ elim (Bool-cases (tag_eq t v)) [
    | inl p ↦ sym (tag_eq→eq t u q) ∙ tag_eq→eq t v p
    | inr p ↦
        let there : lists ts v ≡ true = ground (arith, p, k) in
        let above = member_rank dirty (rank (dirty t)) ts v r.1 there in
        let same : rank (dirty t) ≡ rank (dirty u) = ap (λ x. rank (dirty x)) (tag_eq→eq t u q) in
        absurd (omega (arith, above, same, e))
  ]
  | inr q ↦
      let here : lists ts u ≡ true = ground (arith, q, h) in
      elim (Bool-cases (tag_eq t v)) [
        | inl p ↦
            let above = member_rank dirty (rank (dirty t)) ts u r.1 here in
            let same : rank (dirty t) ≡ rank (dirty v) =
              ap (λ x. rank (dirty x)) (tag_eq→eq t v p) in
            absurd (omega (arith, above, same, e))
        | inr p ↦
            let there : lists ts v ≡ true = ground (arith, p, k) in
            rank_once dirty (rank (dirty t)) ts u v r.1 here there e
      ]
]

lists-insert_dirt :
    (dirty : Tag → Option ℕ) (t : Tag) (us : List Tag) (v : Tag)
    → lists (insert_dirt dirty t us) v ≡ (tag_eq t v || lists us v)
unfolding insert_dirt
lists-insert_dirt dirty t [] v = refl
lists-insert_dirt dirty t (u ∷ us) v = ground (arith, lists-insert_dirt dirty t us v)

lists-sorted_dirt_tags :
    (dirty : Tag → Option ℕ) (walk : List Tag) (v : Tag)
    → lists (sorted_dirt_tags dirty walk) v ≡ lists walk v
unfolding sorted_dirt_tags
lists-sorted_dirt_tags dirty [] v = refl
lists-sorted_dirt_tags dirty (t ∷ ts) v =
    lists-insert_dirt dirty t (sorted_dirt_tags dirty ts) v
    ∙ ap (λ b. tag_eq t v || b) (lists-sorted_dirt_tags dirty ts v)

-- An insertion keeps the ranks rising if no selector of the list has the same rank.
insert_dirt-Rises :
    (dirty : Tag → Option ℕ) (lo : ℕ) (t : Tag) (us : List Tag)
    → lo < rank (dirty t)
    → ((u : Tag) → lists us u ≡ true → rank (dirty u) ≢ rank (dirty t))
    → Rises dirty lo us
    → Rises dirty lo (insert_dirt dirty t us)
unfolding insert_dirt
insert_dirt-Rises dirty lo t [] l n r = (l, tt)
insert_dirt-Rises dirty lo t (u ∷ us) l n r =
    elim (Bool-cases (ltb (rank (dirty u)) (rank (dirty t)))) [
      | inl e ↦ rw e (
        r.0,
        insert_dirt-Rises dirty (rank (dirty u)) t us (ground (arith, e))
            (λ v h. n v (ground (arith, h))) r.1,
      )
      | inr e ↦
          let apart = n u (ap (λ b. b || lists us u) (tag_eq_refl u)) in
          rw e (l, (ground (arith, e, apart), r.1))
    ]

-- No selector twice.
abbrev pub AreKeys : List Tag → Type 0
AreKeys [] = Unit
AreKeys (t ∷ ts) = (lists ts t ≡ false) × AreKeys ts

sorted_dirt_tags-Rises :
    (dirty : Tag → Option ℕ) (marked walk : List Tag)
    → Rises dirty 0 marked
    → AreKeys walk
    → ((u : Tag) → lists walk u ≡ true → lists marked u ≡ true)
    → Rises dirty 0 (sorted_dirt_tags dirty walk)
unfolding sorted_dirt_tags
sorted_dirt_tags-Rises dirty marked [] r k m = tt
sorted_dirt_tags-Rises dirty marked (t ∷ ts) r k m =
    let known = m t (ap (λ b. b || lists ts t) (tag_eq_refl t)) in
    insert_dirt-Rises dirty 0 t (sorted_dirt_tags dirty ts) (member_rank dirty 0 marked t r known)
      (λ u h e.
        let there : lists ts u ≡ true = sym (lists-sorted_dirt_tags dirty ts u) ∙ h in
        let same = rank_once dirty 0 marked u t r (m u (ground (arith, there))) known e in
        absurd (ground (arith, k.0, sym (ap (lists ts) same) ∙ there)))
      (sorted_dirt_tags-Rises dirty marked ts r k.1 (λ u h. m u (ground (arith, h))))

-- The head of a rising list does not stand in its tail.
head_once :
    (dirty : Tag → Option ℕ) (t : Tag) (ts : List Tag)
    → Rises dirty (rank (dirty t)) ts
    → lists ts t ≡ false
head_once dirty t ts r = elim (Bool-cases (lists ts t)) [
  | inl e ↦ absurd (omega (arith, member_rank dirty (rank (dirty t)) ts t r e))
  | inr e ↦ e
]

same_tails :
    (dirty : Tag → Option ℕ) (t : Tag) (ts us : List Tag)
    → Rises dirty (rank (dirty t)) ts
    → Rises dirty (rank (dirty t)) us
    → ((v : Tag) → lists (t ∷ ts) v ≡ lists (t ∷ us) v)
    → (v : Tag) → lists ts v ≡ lists us v
same_tails dirty t ts us r s m v = elim (Bool-cases (tag_eq t v)) [
  | inl q ↦
      let out = head_once dirty t ts r ∙ sym (head_once dirty t us s) in
      subst (λ x. lists ts x ≡ lists us x) (tag_eq→eq t v q) out
  | inr q ↦ ground (arith, q, m v)
]

same_heads :
    (dirty : Tag → Option ℕ) (t u : Tag) (ts us : List Tag)
    → Rises dirty (rank (dirty t)) ts
    → Rises dirty (rank (dirty u)) us
    → ((v : Tag) → lists (t ∷ ts) v ≡ lists (u ∷ us) v)
    → t ≡ u
same_heads dirty t u ts us r s m = elim (Bool-cases (tag_eq t u)) [
  | inl q ↦ tag_eq→eq t u q
  | inr q ↦
      let p : tag_eq u t ≡ false = tag_eq_sym u t ∙ q in
      let there : lists ts u ≡ true = ground (arith, q, m u, tag_eq_refl u) in
      let here : lists us t ≡ true = ground (arith, p, m t, tag_eq_refl t) in
      absurd (
        omega (
          arith,
          member_rank dirty (rank (dirty t)) ts u r there,
          member_rank dirty (rank (dirty u)) us t s here,
        ))
]

-- Two rising lists of the same selectors are the same.
rising_once :
    (dirty : Tag → Option ℕ) (lo hi : ℕ) (ts us : List Tag)
    → Rises dirty lo ts
    → Rises dirty hi us
    → ((v : Tag) → lists ts v ≡ lists us v)
    → ts ≡ us
rising_once dirty lo hi [] [] r s m = refl
rising_once dirty lo hi [] (u ∷ us) r s m = absurd (ground (arith, m u, tag_eq_refl u))
rising_once dirty lo hi (t ∷ ts) [] r s m = absurd (ground (arith, m t, tag_eq_refl t))
rising_once dirty lo hi (t ∷ ts) (u ∷ us) r s m =
    let e = same_heads dirty t u ts us r.1 s.1 m in
    let s' = subst (λ x. Rises dirty (rank (dirty x)) us) (sym e) s.1 in
    let m' = subst (λ x. (v : Tag) → lists (t ∷ ts) v ≡ lists (x ∷ us) v) (sym e) m in
    ap (λ x. x ∷ ts) e
    ∙ ap (λ xs. u ∷ xs)
        (rising_once dirty (rank (dirty t)) (rank (dirty t)) ts us r.1 s'
          (same_tails dirty t ts us r.1 s' m'))

offer-map :
    (rqs : List Request) (dirt : List Tag)
    → offer rqs dirt ≡ map (λ rq. append_dirty_tags rq dirt) rqs
unfolding offer
offer-map [] dirt = refl
offer-map (rq ∷ rqs) dirt = ap (λ l. append_dirty_tags rq dirt ∷ l) (offer-map rqs dirt)

-- Whatever the order of the walk.
sorted_dirt_tags_lem :
    (ts walk : List Tag)
    → AreKeys walk
    → ((u : Tag) → lists walk u ≡ lists ts u)
    → sorted_dirt_tags (set_dirty no_dirt ts).dirty walk ≡ by_last_mark ts
sorted_dirt_tags_lem ts walk k m =
    let dirty = (set_dirty no_dirt ts).dirty in
    let rises = by_last_mark-Rises no_dirt ts in
    let same : (u : Tag) → lists walk u ≡ lists (by_last_mark ts) u =
      λ u. m u ∙ sym (lists-by_last_mark ts u) in
    let sorted =
      sorted_dirt_tags-Rises dirty (by_last_mark ts) walk rises k (λ u h. sym (same u) ∙ h) in
    rising_once dirty 0 0 (sorted_dirt_tags dirty walk) (by_last_mark ts) sorted rises
      (λ u. lists-sorted_dirt_tags dirty walk u ∙ same u)

-- Let at least one selector be marked dirty after the last distribution, and let the map of the dirty selectors be walked in any order, each selector once. Then a distribution gives every Request the same list: each selector once, in the order of the last marks. It reports the length of that list, and nothing is dirty afterwards.
pub distribute_dirt_lem :
    (t : Tag) (ts walk : List Tag) (rqs : List Request)
    → AreKeys walk
    → ((u : Tag) → lists walk u ≡ lists (t ∷ ts) u)
    → let dirt = by_last_mark (t ∷ ts) in
      distribute_dirt (set_dirty no_dirt (t ∷ ts)) walk rqs
      ≡ (no_dirt, map (λ rq. append_dirty_tags rq dirt) rqs, length dirt)
unfolding distribute_dirt
distribute_dirt_lem t ts [] rqs k m = absurd (ground (arith, m t, tag_eq_refl t))
distribute_dirt_lem t ts (w ∷ ws) rqs k m =
    rw (sorted_dirt_tags_lem (t ∷ ts) (w ∷ ws) k m, offer-map rqs (by_last_mark (t ∷ ts))) refl
