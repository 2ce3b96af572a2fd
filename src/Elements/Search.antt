-- ===== src/Elements/Search.antt =====
-- Binary search on the ascending list finds exactly the registered Jids.
use jaws.Base.{
  ℕ, zero, suc, ◌+◌, ◌/◌, ◌-◌, ◌≤◌, ◌<◌, List, none, some, ◌&&◌, ltb, ◌==◌, if◌then◌else◌, length,
  get_or, contains, ◌≡◌, arith, Above, get_or_mono, contains-get_or, contains_position, Bool-cases,
  inl, inr,
}
use jaws.Request.{Request}
use jaws.Elements.{search_loop, get_element_by_jid}

-- Positions below `i` hold less than the target, those from `j` on do not.
record Bounds (xs : List ℕ) (target i j : ℕ) : Type 0 where
  below : (k : ℕ) → k < i → get_or xs k 0 < target
  above : (k : ℕ) → j ≤ k → k < length xs → target ≤ get_or xs k 0
  ordered : i ≤ j
  inside : j ≤ length xs

module _ (xs : List ℕ) (target : ℕ) (sorted : Above 0 xs) where
  mono : (i j : ℕ) → i ≤ j → j < length xs → get_or xs i 0 ≤ get_or xs j 0
  mono i j h l = elim (Bool-cases (i == j)) [
    | inl e ↦ let e' : i ≡ j = ground (arith, e) in rw e' (omega arith)
    | inr e ↦ omega (arith, get_or_mono 0 xs i j sorted (ground (arith, e)) l)
  ]

  go_right :
      (i j : ℕ)
      → Bounds xs target i j
      → i < j
      → get_or xs ((i + j) / 2) 0 < target
      → Bounds xs target ((i + j) / 2 + 1) j
  go_right i j b l h = record {
    below = λ k p. omega (arith, mono k ((i + j) / 2) (omega arith) (omega (arith, b.inside)));
    above = b.above;
    ordered = omega arith;
    inside = b.inside;
  }

  go_left :
      (i j : ℕ)
      → Bounds xs target i j
      → i < j
      → target ≤ get_or xs ((i + j) / 2) 0
      → Bounds xs target i ((i + j) / 2)
  go_left i j b l h = record {
    below = b.below;
    above = λ k p q. omega (arith, mono ((i + j) / 2) k p q);
    ordered = omega arith;
    inside = omega (arith, b.inside);
  }

  search_loop-Bounds :
      (fuel i j : ℕ)
      → j - i < fuel
      → Bounds xs target i j
      → Bounds xs target (search_loop fuel xs target i j) (search_loop fuel xs target i j)
  unfolding search_loop
  search_loop-Bounds zero i j f b = absurd (omega arith)
  search_loop-Bounds (suc fuel) i j f b = elim (Bool-cases (ltb i j)) [
    | inr e ↦ rw (e, search_loop) (let e' : j ≡ i = ground (arith, e, b.ordered) in rw e' at b)
    | inl e ↦
        rw (e, search_loop)
          (elim (Bool-cases (ltb (get_or xs ((i + j) / 2) 0) target)) [
            | inl m ↦ rw m (
                search_loop-Bounds fuel ((i + j) / 2 + 1) j (ground (arith, e, f))
                  (go_right i j b (ground (arith, e)) (ground (arith, m))))
            | inr m ↦ rw m (
                search_loop-Bounds fuel i ((i + j) / 2) (ground (arith, e, f))
                  (go_left i j b (ground (arith, e)) (ground (arith, m))))
          ])
  ]

  search-Bounds :
      let i = search_loop (suc (length xs)) xs target 0 (length xs) in Bounds xs target i i
  search-Bounds = search_loop-Bounds (suc (length xs)) 0 (length xs) (omega arith) (record {
    below = λ k p. absurd (omega arith);
    above = λ k p q. absurd (omega arith);
    ordered = omega arith;
    inside = omega arith;
  })

  found_at :
      (i : ℕ)
      → Bounds xs target i i
      → (if ltb i (length xs) && (get_or xs i 0 == target) then some (get_or xs i 0) else none)
        ≡ (if contains xs target then some target else none)
  found_at i b = elim (Bool-cases (contains xs target)) [
    | inl e ↦
        let (k, l, g) = contains_position xs target e in
        let i_le_k : i ≤ k = elim (Bool-cases (ltb k i)) [
          | inl p ↦ absurd (omega (arith, g, b.below k (ground (arith, p))))
          | inr p ↦ ground (arith, p)
        ] in
        ground (arith, e, g, mono i k i_le_k l, b.above i (omega arith) (omega arith), i_le_k, l)
    | inr e ↦ elim (Bool-cases (ltb i (length xs))) [
      | inl p ↦ ground (arith, e, p, contains-get_or xs i (ground (arith, p)))
      | inr p ↦ ground (arith, e, p)
    ]
  ]

-- On an ascending list `getElementByJid` returns the Element with the Jid if it is registered, and
-- nothing otherwise.
pub get_element_by_jid-contains :
    (rq : Request) (jid : ℕ)
    → Above 0 rq.elems
    → get_element_by_jid rq jid ≡ (if contains rq.elems jid then some jid else none)
unfolding get_element_by_jid
get_element_by_jid-contains rq jid sorted =
    found_at rq.elems jid sorted _ (search-Bounds rq.elems jid sorted)
