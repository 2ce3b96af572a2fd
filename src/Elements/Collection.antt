-- ===== src/Elements/Collection.antt =====
-- The lists that collecting and sorting build: their members, each once, in order.
use jaws.Base.{
  ℕ, ◌<◌, List, [], ◌∷◌, ◌++◌, Bool, false, ◌||◌, ◌==◌, contains, contains-append, Distinct,
  Distinct-append_one, All, Above, ◌≡◌, refl, ◌∙◌, arith, Bool-cases, inl, inr,
}
use jaws.Request.{Tag, TagMap}
use jaws.Elements.{tagged}
use jaws.Elements.Collect.{add_unseen, targets, collect_targets, insert_sorted, sort_by_jid}

pub Distinct-add_unseen : (seen js : List ℕ) → Distinct seen → Distinct (add_unseen seen js)
unfolding add_unseen
Distinct-add_unseen seen [] d = d
Distinct-add_unseen seen (j ∷ js) d = elim (Bool-cases (contains seen j)) [
  | inl e ↦ rw e (Distinct-add_unseen seen js d)
  | inr e ↦ rw e (Distinct-add_unseen (seen ++ j ∷ []) js (Distinct-append_one seen j d e))
]

pub contains-add_unseen :
    (seen js : List ℕ) (k : ℕ)
    → contains (add_unseen seen js) k ≡ (contains seen k || contains js k)
unfolding add_unseen
contains-add_unseen seen [] k = ground arith
contains-add_unseen seen (j ∷ js) k = elim (Bool-cases (contains seen j)) [
  | inl e ↦ rw e (ground (arith, contains-add_unseen seen js k, e))
  | inr e ↦
      rw e
        (ground (arith, contains-add_unseen (seen ++ j ∷ []) js k, contains-append seen (j ∷ []) k))
]

-- Some pending selector names the Element.
abbrev pub selects : TagMap → List Tag → ℕ → Bool
selects m [] k = false
selects m (t ∷ ts) k = contains (targets m t) k || selects m ts k

-- The Element is registered under one of the keys.
abbrev pub tagged_by : TagMap → List Tag → ℕ → Bool
tagged_by m [] k = false
tagged_by m (t ∷ ts) k = contains (tagged m t) k || tagged_by m ts k

pub contains-collect_targets :
    (m : TagMap) (seen : List ℕ) (ts : List Tag) (k : ℕ)
    → contains (collect_targets m seen ts) k ≡ (contains seen k || selects m ts k)
unfolding collect_targets
contains-collect_targets m seen [] k = ground arith
contains-collect_targets m seen (t ∷ ts) k = ground (
  arith,
  contains-collect_targets m (add_unseen seen (targets m t)) ts k,
  contains-add_unseen seen (targets m t) k,
)

pub Distinct-collect_targets :
    (m : TagMap) (seen : List ℕ) (ts : List Tag)
    → Distinct seen
    → Distinct (collect_targets m seen ts)
unfolding collect_targets
Distinct-collect_targets m seen [] d = d
Distinct-collect_targets m seen (t ∷ ts) d =
    Distinct-collect_targets m (add_unseen seen (targets m t)) ts
      (Distinct-add_unseen seen (targets m t) d)

pub contains-insert_sorted :
    (j : ℕ) (ks : List ℕ) (a : ℕ) → contains (insert_sorted j ks) a ≡ ((j == a) || contains ks a)
unfolding insert_sorted
contains-insert_sorted j [] a = refl
contains-insert_sorted j (k ∷ ks) a = ground (arith, contains-insert_sorted j ks a)

pub Above-insert_sorted :
    (lo j : ℕ) (ks : List ℕ)
    → Above lo ks
    → lo < j
    → contains ks j ≡ false
    → Above lo (insert_sorted j ks)
unfolding insert_sorted
Above-insert_sorted lo j [] a h n = (h, tt)
Above-insert_sorted lo j (k ∷ ks) a h n = ground (arith, Above-insert_sorted k j ks a.1)

pub contains-sort_by_jid : (js : List ℕ) (a : ℕ) → contains (sort_by_jid js) a ≡ contains js a
unfolding sort_by_jid
contains-sort_by_jid [] a = refl
contains-sort_by_jid (j ∷ js) a =
    ground (arith, contains-sort_by_jid js a, contains-insert_sorted j (sort_by_jid js) a)

pub Above-sort_by_jid : (js : List ℕ) → Distinct js → All (λ j. 0 < j) js → Above 0 (sort_by_jid js)
unfolding sort_by_jid
Above-sort_by_jid [] d p = tt
Above-sort_by_jid (j ∷ js) d p =
    Above-insert_sorted 0 j (sort_by_jid js) (Above-sort_by_jid js d.1 p.1) p.0
      (contains-sort_by_jid js j ∙ d.0)
