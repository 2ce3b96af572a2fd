-- ===== src/Container/Contents.antt =====
-- The children after a reconciliation.
use jaws.Base.{
  ℕ, ◌+◌, ◌≤◌, List, [], ◌∷◌, ◌++◌, map, Option, none, some, Bool, true, false, not, ◌||◌, ◌==◌,
  All, All-append_left, ◌≡◌, refl, ap, ◌∙◌, subst, arith, Bool-cases, inl, inr, ==→eq, ==_refl,
}
use jaws.Request.{Request, update}
use jaws.Elements.{new_element}
use jaws.Container.{
  Child, no_child, child, usable_children, reconcile_usable, Reconciliation, is_ui, shows, Pool,
  pool_of, Taken, take_one, take_live, choose, Reconciled, reconcile_loop, reconcile,
}

-- The Elements in the pool were allocated and show the UI that they stand under.
abbrev pub IsPool : Request → Pool → Type 0
IsPool rq pool = (u : ℕ) → All (λ j. (rq.ui j ≡ some u) × (j ≤ rq.last_jid)) (pool u)

-- The Elements that were allocated are as before.
pub record Extends (rq rq' : Request) : Type 0 where
  pub more : rq.last_jid ≤ rq'.last_jid
  pub ui : (j : ℕ) → j ≤ rq.last_jid → rq'.ui j ≡ rq.ui j
  pub deleted : (j : ℕ) → j ≤ rq.last_jid → rq'.deleted j ≡ rq.deleted j

Extends-refl : (rq : Request) → Extends rq rq
Extends-refl rq = record { more = omega arith; ui = λ j l. refl; deleted = λ j l. refl }

Extends-trans : {a b c : Request} → Extends a b → Extends b c → Extends a c
Extends-trans e f = record {
  more = omega (arith, e.more, f.more);
  ui = λ j l. f.ui j (omega (arith, l, e.more)) ∙ e.ui j l;
  deleted = λ j l. f.deleted j (omega (arith, l, e.more)) ∙ e.deleted j l;
}

Extends-new_element : (rq : Request) (u : ℕ) → Extends rq (new_element rq (some u)).0
unfolding new_element
Extends-new_element rq u = record {
  more = omega arith;
  ui = λ j l. ground (arith, l);
  deleted = λ j l. ground (arith, l);
}

-- A child that is chosen is live and shows the UI.
pub record IsChosen (rq : Request) (u : ℕ) (rq' : Request) (j : ℕ) : Type 0 where
  pub extends : Extends rq rq'
  pub allocated : j ≤ rq'.last_jid
  pub ui : rq'.ui j ≡ some u
  pub live : rq'.deleted j ≡ false

abbrev pub listed : Option ℕ → List ℕ
listed none = []
listed (some j) = j ∷ []

-- What a search takes from a list.
pub record IsTaken (deleted : ℕ → Bool) (js : List ℕ) (t : Taken) : Type 0 where
  pub whole : js ≡ t.dead ++ (listed t.found ++ t.rest)
  pub dead : All (λ j. deleted j ≡ true) t.dead
  pub live : All (λ j. deleted j ≡ false) (listed t.found)

take_one-IsTaken :
    (deleted : ℕ → Bool) (j : ℕ) (js : List ℕ) (t : Taken) (b : Bool)
    → deleted j ≡ b
    → IsTaken deleted js t
    → IsTaken deleted (j ∷ js) (take_one b j js t)
unfolding take_one
take_one-IsTaken deleted j js t true e h = record {
  whole = ap (λ l. j ∷ l) h.whole;
  dead = (e, h.dead);
  live = h.live;
}
take_one-IsTaken deleted j js t false e h = record { whole = refl; dead = tt; live = (e, tt) }

pub take_live-IsTaken :
    (deleted : ℕ → Bool) (js : List ℕ) → IsTaken deleted js (take_live deleted js)
unfolding take_live
take_live-IsTaken deleted [] = record { whole = refl; dead = tt; live = tt }
take_live-IsTaken deleted (j ∷ js) =
    take_one-IsTaken deleted j js (take_live deleted js) (deleted j) refl
      (take_live-IsTaken deleted js)

pub All-append_right {ℓ} : (P : ℕ → Type ℓ) (xs ys : List ℕ) → All P (xs ++ ys) → All P ys
All-append_right P [] ys h = h
All-append_right P (x ∷ xs) ys h = All-append_right P xs ys h.1

new_element-IsChosen :
    (rq : Request) (u : ℕ) → IsChosen rq u (new_element rq (some u)).0 (new_element rq (some u)).1
unfolding new_element
new_element-IsChosen rq u = record {
  extends = unfold new_element in Extends-new_element rq u;
  allocated = omega arith;
  ui = rw (==_refl (rq.last_jid + 1)) refl;
  live = rw (==_refl (rq.last_jid + 1)) refl;
}

pub choose-IsChosen :
    (rq : Request) (u : ℕ) (o : Option ℕ)
    → All (λ j. (rq.ui j ≡ some u) × (j ≤ rq.last_jid)) (listed o)
    → All (λ j. rq.deleted j ≡ false) (listed o)
    → IsChosen rq u (choose rq u o).0 (choose rq u o).1
unfolding choose
choose-IsChosen rq u none a l = new_element-IsChosen rq u
choose-IsChosen rq u (some j) a l = record {
  extends = Extends-refl rq;
  allocated = a.0.1;
  ui = a.0.0;
  live = l.0;
}

known_later :
    (rq rq' : Request) (u : ℕ) (js : List ℕ)
    → Extends rq rq'
    → All (λ j. (rq.ui j ≡ some u) × (j ≤ rq.last_jid)) js
    → All (λ j. (rq'.ui j ≡ some u) × (j ≤ rq'.last_jid)) js
known_later rq rq' u [] e a = tt
known_later rq rq' u (j ∷ js) e a =
    ((e.ui j a.0.1 ∙ a.0.0, omega (arith, a.0.1, e.more)), known_later rq rq' u js e a.1)

-- The pool after a choice.
pub IsPool-update :
    (rq rq' : Request) (pool : Pool) (u : ℕ) (js : List ℕ)
    → Extends rq rq'
    → IsPool rq pool
    → All (λ j. (rq.ui j ≡ some u) × (j ≤ rq.last_jid)) js
    → IsPool rq' (update pool u js)
IsPool-update rq rq' pool u js e p a v = elim (Bool-cases (u == v)) [
  | inl q ↦ rw (==→eq u v q) (
      rw (==_refl v) (
        known_later rq rq' v js e
          (subst (λ x. All (λ j. (rq.ui j ≡ some x) × (j ≤ rq.last_jid)) js) (==→eq u v q) a)))
  | inr q ↦ rw q (known_later rq rq' v (pool v) e (p v))
]

-- What the loop makes of the wanted children.
pub record IsShown (rq : Request) (wants : List ℕ) (r : Reconciled) : Type 0 where
  pub extends : Extends rq r.request
  pub pool : IsPool r.request r.pool
  pub shown : map r.request.ui r.contents ≡ map (λ u. some u) wants
  pub live : All (λ j. r.request.deleted j ≡ false) r.contents

pub loop-IsShown :
    (rq : Request) (pool : Pool) (wants : List ℕ)
    → IsPool rq pool
    → IsShown rq wants (reconcile_loop rq pool wants)
unfolding reconcile_loop
loop-IsShown rq pool [] p = record { extends = Extends-refl rq; pool = p; shown = refl; live = tt }
loop-IsShown rq pool (u ∷ us) p =
    let t = take_live rq.deleted (pool u) in
    let i = take_live-IsTaken rq.deleted (pool u) in
    let P : ℕ → Type 0 = λ j. (rq.ui j ≡ some u) × (j ≤ rq.last_jid) in
    let all = All-append_right P t.dead (listed t.found ++ t.rest) (subst (All P) i.whole (p u)) in
    let c = choose-IsChosen rq u t.found (All-append_left P (listed t.found) t.rest all) i.live in
    let (rq', j, new) = choose rq u t.found in
    let h = loop-IsShown rq' (update pool u t.rest) us (
      IsPool-update rq rq' pool u t.rest c.extends p
        (All-append_right P (listed t.found) t.rest all)) in
    record {
      extends = Extends-trans c.extends h.extends;
      pool = h.pool;
      shown = rw (h.extends.ui j c.allocated, c.ui, h.shown) refl;
      live = (h.extends.deleted j c.allocated ∙ c.live, h.live);
    }

is_ui→eq : (o : Option ℕ) (u : ℕ) → is_ui o u ≡ true → o ≡ some u
is_ui→eq none u h = absurd (cc)
is_ui→eq (some v) u h = ap (λ x. some x) (==→eq v u h)

pub pool_of-IsPool :
    (rq : Request) (contents : List ℕ)
    → All (λ j. j ≤ rq.last_jid) contents
    → IsPool rq (pool_of rq contents)
unfolding pool_of
pool_of-IsPool rq [] a u = tt
pool_of-IsPool rq (j ∷ js) a u = elim (Bool-cases (shows rq u j)) [
  | inl e ↦ rw e ((is_ui→eq (rq.ui j) u e, a.0), pool_of-IsPool rq js a.1 u)
  | inr e ↦ rw e (pool_of-IsPool rq js a.1 u)
]

abbrev pub is_unusable : Child → Bool
is_unusable no_child = true
is_unusable (child u usable) = not usable

abbrev pub has_unusable : List Child → Bool
has_unusable [] = false
has_unusable (c ∷ cs) = is_unusable c || has_unusable cs

abbrev pub ui_of : Child → Option ℕ
ui_of no_child = none
ui_of (child u usable) = some u

-- No result only for an unusable child; else the contents are as wanted.
abbrev pub IsAsWanted : List Child → Option Reconciliation → Type 0
IsAsWanted wants none = has_unusable wants ≡ true
IsAsWanted wants (some r) =
    (has_unusable wants ≡ false)
    × (map r.request.ui r.contents ≡ map ui_of wants)
    × All (λ j. r.request.deleted j ≡ false) r.contents
    × (r.new_order ≡ r.contents)

-- What the check of the children returns.
abbrev IsChecked : List Child → Option (List ℕ) → Type 0
IsChecked wants none = has_unusable wants ≡ true
IsChecked wants (some us) = (has_unusable wants ≡ false) × (map (λ u. some u) us ≡ map ui_of wants)

IsChecked-more :
    (u : ℕ) (cs : List Child) (o : Option (List ℕ))
    → IsChecked cs o
    → IsChecked (child u true ∷ cs) (elim o [ none ↦ none | some us ↦ some (u ∷ us) ])
IsChecked-more u cs none h = h
IsChecked-more u cs (some us) h = (h.0, ap (λ l. some u ∷ l) h.1)

usable_children-IsChecked : (cs : List Child) → IsChecked cs (usable_children cs)
unfolding usable_children
usable_children-IsChecked [] = (refl, refl)
usable_children-IsChecked (no_child ∷ cs) = refl
usable_children-IsChecked (child u false ∷ cs) = refl
usable_children-IsChecked (child u true ∷ cs) =
    IsChecked-more u cs (usable_children cs) (usable_children-IsChecked cs)

reconcile_checked :
    (rq : Request) (contents walk : List ℕ) (wants : List Child) (o : Option (List ℕ))
    → All (λ j. j ≤ rq.last_jid) contents
    → IsChecked wants o
    → IsAsWanted wants
        (elim o [ none ↦ none | some us ↦ some (reconcile_usable rq contents us walk) ])
unfolding reconcile_usable
reconcile_checked rq contents walk wants none a h = h
reconcile_checked rq contents walk wants (some us) a h =
    let s = loop-IsShown rq (pool_of rq contents) us (pool_of-IsPool rq contents a) in
    (h.0, s.shown ∙ h.1, s.live, refl)

-- Let the contents of a container be allocated Elements. A reconciliation gives no result exactly if one of the wanted children is unusable. Otherwise the new contents show the wanted children, in their order, none of these Elements is deleted, and the new order is that of the contents.
pub reconcile-IsAsWanted :
    (rq : Request) (contents walk : List ℕ) (wants : List Child)
    → All (λ j. j ≤ rq.last_jid) contents
    → IsAsWanted wants (reconcile rq contents wants walk)
unfolding reconcile
reconcile-IsAsWanted rq contents walk wants a =
    reconcile_checked rq contents walk wants (usable_children wants) a
      (usable_children-IsChecked wants)
