-- ===== src/Container/Partition.antt =====
-- What becomes of the children that a container had.
use jaws.Base.{
  ℕ, ◌+◌, ◌≤◌, List, [], ◌∷◌, ◌++◌, Option, none, some, Bool, true, false, not, ◌==◌, if◌then◌else◌,
  delete_func, contains, Distinct, All, All-append_left, ◌≡◌, ◌≢◌, refl, sym, ap, ◌∙◌, subst, arith,
  Bool-cases, inl, inr, ==→eq, ==_refl,
}
use jaws.Request.{Request, update}
use jaws.Elements.{new_element}
use jaws.Container.{
  shows, Pool, pool_of, take_live, choose, reconcile_loop, leftovers, reconcile_usable,
}
use jaws.Container.Contents.{
  IsPool, listed, take_live-IsTaken, choose-IsChosen, All-append_right, IsPool-update, loop-IsShown,
  pool_of-IsPool,
}

-- How often a number stands in a list.
abbrev pub occurs : ℕ → List ℕ → ℕ
occurs j [] = 0
occurs j (x ∷ xs) = (if x == j then 1 else 0) + occurs j xs

occurs-append : (j : ℕ) (xs ys : List ℕ) → occurs j (xs ++ ys) ≡ occurs j xs + occurs j ys
occurs-append j [] ys = omega arith
occurs-append j (x ∷ xs) ys = omega (arith, occurs-append j xs ys)

occurs-delete_func :
    (j : ℕ) (xs : List ℕ) (del : ℕ → Bool)
    → occurs j (delete_func xs del) ≡ (if del j then 0 else occurs j xs)
occurs-delete_func j [] del = ground arith
occurs-delete_func j (x ∷ xs) del = ground (arith, occurs-delete_func j xs del)

clash : (u v : ℕ) → (v == u) ≡ false → some u ≢ some v
clash u v d h = ground (arith, d, h)

-- An Element that shows another UI.
foreign :
    (rq : Request) (j u v : ℕ) (js : List ℕ)
    → rq.ui j ≡ some u
    → (v == u) ≡ false
    → All (λ k. (rq.ui k ≡ some v) × (k ≤ rq.last_jid)) js
    → occurs j js ≡ 0
foreign rq j u v [] e d a = refl
foreign rq j u v (k ∷ ks) e d a = elim (Bool-cases (k == j)) [
  | inl q ↦ absurd (clash u v d (sym e ∙ ap rq.ui (sym (==→eq k j q)) ∙ a.0.0))
  | inr q ↦ rw q (omega (arith, foreign rq j u v ks e d a.1))
]

-- A new Element is none of those that were allocated.
occurs-choose :
    (rq : Request) (w j : ℕ) (o : Option ℕ)
    → j ≤ rq.last_jid
    → occurs j ((choose rq w o).1 ∷ []) ≡ occurs j (listed o)
unfolding choose new_element
occurs-choose rq w j none l = ground (arith, l)
occurs-choose rq w j (some k) l = refl

-- What one round takes of the pool of a UI.
taken :
    (rq : Request) (pool : Pool) (w u j : ℕ)
    → IsPool rq pool
    → rq.ui j ≡ some u
    → let t = take_live rq.deleted (pool w) in
      occurs j (pool u)
      ≡ occurs j t.dead + (occurs j (listed t.found) + occurs j (update pool w t.rest u))
taken rq pool w u j p e =
    let t = take_live rq.deleted (pool w) in
    let i = take_live-IsTaken rq.deleted (pool w) in
    let sum : occurs j (pool w) ≡ occurs j t.dead + (occurs j (listed t.found) + occurs j t.rest) =
      ap (occurs j) i.whole
      ∙ occurs-append j t.dead (listed t.found ++ t.rest)
      ∙ ap (λ n. occurs j t.dead + n) (occurs-append j (listed t.found) t.rest) in
    elim (Bool-cases (w == u)) [
      | inl q ↦ rw q (ap (λ x. occurs j (pool x)) (sym (==→eq w u q)) ∙ sum)
      | inr q ↦
          let none_there = foreign rq j u w (pool w) e q (p w) in
          rw q (omega (arith, sum, none_there))
    ]

loop-occurs :
    (rq : Request) (pool : Pool) (wants : List ℕ) (j u : ℕ)
    → IsPool rq pool
    → j ≤ rq.last_jid
    → rq.ui j ≡ some u
    → let r = reconcile_loop rq pool wants in
      occurs j (pool u) ≡ occurs j r.contents + (occurs j r.already_deleted + occurs j (r.pool u))
unfolding reconcile_loop
loop-occurs rq pool [] j u p l e = omega arith
loop-occurs rq pool (w ∷ ws) j u p l e =
    let t = take_live rq.deleted (pool w) in
    let i = take_live-IsTaken rq.deleted (pool w) in
    let P : ℕ → Type 0 = λ k. (rq.ui k ≡ some w) × (k ≤ rq.last_jid) in
    let all = All-append_right P t.dead (listed t.found ++ t.rest) (subst (All P) i.whole (p w)) in
    let c = choose-IsChosen rq w t.found (All-append_left P (listed t.found) t.rest all) i.live in
    let (rq', k, new) = choose rq w t.found in
    let r = reconcile_loop rq' (update pool w t.rest) ws in
    let h =
      loop-occurs rq' (update pool w t.rest) ws j u
        (IsPool-update rq rq' pool w t.rest c.extends p
          (All-append_right P (listed t.found) t.rest all))
        (omega (arith, l, c.extends.more)) (c.extends.ui j l ∙ e) in
    omega (
      arith,
      taken rq pool w u j p e,
      h,
      occurs-choose rq w j t.found l,
      occurs-append j t.dead r.already_deleted,
    )

leftovers-foreign :
    (rq : Request) (pool : Pool) (walk : List ℕ) (j u : ℕ)
    → IsPool rq pool
    → rq.ui j ≡ some u
    → contains walk u ≡ false
    → occurs j (leftovers pool walk) ≡ 0
unfolding leftovers
leftovers-foreign rq pool [] j u p e n = refl
leftovers-foreign rq pool (v ∷ vs) j u p e n =
    let here = foreign rq j u v (pool v) e (ground (arith, n)) (p v) in
    let there = leftovers-foreign rq pool vs j u p e (ground (arith, n)) in
    omega (arith, occurs-append j (pool v) (leftovers pool vs), here, there)

leftovers-occurs :
    (rq : Request) (pool : Pool) (walk : List ℕ) (j u : ℕ)
    → IsPool rq pool
    → rq.ui j ≡ some u
    → Distinct walk
    → contains walk u ≡ true
    → occurs j (leftovers pool walk) ≡ occurs j (pool u)
unfolding leftovers
leftovers-occurs rq pool [] j u p e d c = absurd (cc)
leftovers-occurs rq pool (v ∷ vs) j u p e d c = elim (Bool-cases (v == u)) [
  | inl q ↦
      let same = ==→eq v u q in
      let there = leftovers-foreign rq pool vs j u p e (ap (contains vs) (sym same) ∙ d.0) in
      occurs-append j (pool v) (leftovers pool vs)
      ∙ omega (arith, there, ap (λ x. occurs j (pool x)) same)
  | inr q ↦
      let here = foreign rq j u v (pool v) e q (p v) in
      omega (
        arith,
        occurs-append j (pool v) (leftovers pool vs),
        here,
        leftovers-occurs rq pool vs j u p e d.1 (ground (arith, c, q)),
      )
]

occurs_split :
    (j : ℕ) (xs : List ℕ) (del : ℕ → Bool)
    → occurs j xs ≡ occurs j (delete_func xs del) + occurs j (delete_func xs (λ k. not (del k)))
occurs_split j xs del =
    ground (arith, occurs-delete_func j xs del, occurs-delete_func j xs (λ k. not (del k)))

occurs-pool_of :
    (rq : Request) (contents : List ℕ) (j u : ℕ)
    → rq.ui j ≡ some u
    → occurs j (pool_of rq contents u) ≡ occurs j contents
unfolding pool_of
occurs-pool_of rq contents j u e =
    occurs-delete_func j contents (λ k. not (shows rq u k)) ∙ rw (e, ==_refl u) refl

-- Let the contents of a container be allocated Elements, and let the pool be walked in an order with no UI twice. Then a reconciliation with usable children neither loses nor doubles a child: an allocated Element with a UI that is walked stands in the old contents as often as in the new contents, among those to remove and among those found deleted, taken together.
pub reconcile_usable-partition :
    (rq : Request) (contents wants walk : List ℕ) (j u : ℕ)
    → All (λ k. k ≤ rq.last_jid) contents
    → j ≤ rq.last_jid
    → rq.ui j ≡ some u
    → Distinct walk
    → contains walk u ≡ true
    → let r = reconcile_usable rq contents wants walk in
      occurs j contents ≡ occurs j r.contents + (occurs j r.to_remove + occurs j r.already_deleted)
unfolding reconcile_usable pool_of
reconcile_usable-partition rq contents wants walk j u a l e d c =
    let p = pool_of-IsPool rq contents a in
    let r = reconcile_loop rq (pool_of rq contents) wants in
    let s = loop-IsShown rq (pool_of rq contents) wants p in
    let h = loop-occurs rq (pool_of rq contents) wants j u p l e in
    let left = leftovers r.pool walk in
    let k = leftovers-occurs r.request r.pool walk j u s.pool (s.extends.ui j l ∙ e) d c in
    let start : occurs j (pool_of rq contents u) ≡ occurs j contents =
      occurs-pool_of rq contents j u e in
    let parts : occurs j left
        ≡ occurs j (delete_func left r.request.deleted)
          + occurs j (delete_func left (λ j. not (r.request.deleted j))) =
      occurs_split j left r.request.deleted in
    omega (
      arith,
      start,
      h,
      k,
      parts,
      occurs-append j r.already_deleted (delete_func left (λ j. not (r.request.deleted j))),
    )
